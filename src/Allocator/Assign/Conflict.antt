-- ===== src/Allocator/Assign/Conflict.antt =====
-- No terminal is told to send two bursts at the same time.
use native.Mathlib.Nat.{mul-le-mul_right, le_of_mul-le-mul_right}
use release.Base.{
  ℕ, ◌⊎◌, ◌∙◌, ltb, ltb→lt, ◌+◌, ◌*◌, ◌/◌, ◌<◌, ◌≤◌, ◌≡◌, ap, sym, Option, none, some, List, [],
  ◌∷◌, ◌++◌, arith, ◌==◌, update, length, All, subst, ==_refl, Bool-cases, inl, inr,
}
use release.Allocator.Mask.{Mask, setmask}
use release.Allocator.Mask.Bits.{IsMask}
use release.Allocator.Mask.Slots.{
  Covers, free-Apart, setmask-IsMask, setmask-Covers, setmask-Covers_other, length-setmask,
}
use release.Allocator.Fit.{Frame, Terminal, Placement}
use release.Allocator.Assign.Outcome.{
  Fits, FramesFit, IsSound, HasPlain, frame-IsSound, slot_inside, terminal-place, frame-timeslots,
  slot-free,
}
use release.Allocator.Assign.{Offset, BurstDes}

-- Timeslot `k` of `n` lasts from `k / n` to `(k + 1) / n` of the superframe: two bursts are at
-- different times.
abbrev pub ApartAt : Option Offset → Option Offset → Type 0
ApartAt (some o) (some q) =
    ((o.slot + 1) * q.timeslots ≤ q.slot * o.timeslots)
    ⊎ ((q.slot + 1) * o.timeslots ≤ o.slot * q.timeslots)
ApartAt _ _ = ⊥

abbrev pub NoClash : BurstDes → BurstDes → Type 0
NoClash b d = d.assignment_id ≡ b.assignment_id → ApartAt b.offset d.offset

-- No two bursts of one terminal meet in time.
abbrev pub NoClashes : List BurstDes → Type 0
NoClashes [] = Unit
NoClashes (b ∷ bs) = All (NoClash b) bs × NoClashes bs

-- From units of time, of which a timeslot has `w` or `v`, to the timeslots.
before :
    (masksize w n a v k b : ℕ)
    → 0 < w
    → w * n ≡ masksize
    → v * k ≡ masksize
    → a * w + w ≤ b * v
    → 0 < n
    → (a + 1) * k ≤ b * n
before masksize w n a v k b p e f h l =
    let wide : ((a + 1) * w) * (n * k) ≤ (b * v) * (n * k) =
      mul-le-mul_right {m = (a + 1) * w} {n = b * v} (n * k) (grind arith) in
    let left : ((a + 1) * w) * (n * k) ≡ ((a + 1) * k) * masksize = rw (← e) (grind arith) in
    let right : (b * v) * (n * k) ≡ (b * n) * masksize = rw (← f) (grind arith) in
    le_of_mul-le-mul_right {m = (a + 1) * k} {n = b * n} {k = masksize}
      (omega (arith, wide, left, right)) (rw (← e) (grind arith))

module _ (masksize : ℕ) where
  abbrev span : Offset → ℕ
  span o = masksize / o.timeslots

  -- The mask of the terminal covers the time of the burst.
  abbrev CoveredAt : Mask → Option Offset → Type 0
  CoveredAt m none = ⊥
  CoveredAt m (some o) = (0 < span o) × (span o * o.timeslots ≡ masksize) × Covers m o.slot (span o)

  abbrev Covered : (ℕ → Terminal) → BurstDes → Type 0
  Covered tr b = CoveredAt (tr b.assignment_id).mask b.offset

  -- `n` is the number of terminals.
  pub record IsClear (n : ℕ) (sf : ℕ → Frame) (tr : ℕ → Terminal) (bdes : List BurstDes)
      : Type 0 where
    pub frames : FramesFit masksize sf
    pub arrays : (i : ℕ) → IsSound masksize (sf i)
    pub masks : (t : ℕ) → IsMask (tr t).mask
    pub room : (t : ℕ) → masksize ≤ 8 * length (tr t).mask
    pub plain : (t : ℕ) → t < n → HasPlain (tr t).rules
    pub covered : All (Covered tr) bdes
    pub clear : NoClashes bdes

  All-snoc :
      (P : BurstDes → Type 0) (bs : List BurstDes) (d : BurstDes)
      → All P bs
      → P d
      → All P (bs ++ d ∷ [])
  All-snoc P [] d a h = (h, tt)
  All-snoc P (b ∷ bs) d (g, a) h = (g, All-snoc P bs d a h)

  NoClashes-snoc :
      (bs : List BurstDes) (d : BurstDes)
      → NoClashes bs
      → All (λ b. NoClash b d) bs
      → NoClashes (bs ++ d ∷ [])
  NoClashes-snoc [] d h a = (tt, tt)
  NoClashes-snoc (b ∷ bs) d (h, k) (g, a) = (All-snoc (NoClash b) bs d h g, NoClashes-snoc bs d k a)

  All-imp :
      (P Q : BurstDes → Type 0) (bs : List BurstDes)
      → ((b : BurstDes) → P b → Q b)
      → All P bs
      → All Q bs
  All-imp P Q [] i a = tt
  All-imp P Q (b ∷ bs) i (h, a) = (i b h, All-imp P Q bs i a)

  -- One more burst, at a time that the mask had free and covers now.
  module _ (sf : ℕ → Frame) (tr : ℕ → Terminal) (fp cur size : ℕ) (p : Placement)
      (frames : FramesFit masksize sf) (arrays : (i : ℕ) → IsSound masksize (sf i))
      (masks : (t : ℕ) → IsMask (tr t).mask) (room : (t : ℕ) → masksize ≤ 8 * length (tr t).mask)
      (fits : Fits masksize (sf fp) (tr cur) p) where
    abbrev width : ℕ
    width = masksize / (sf fp).timeslots

    abbrev new_burst : BurstDes
    new_burst = record {
      assignment_id = cur;
      size = size;
      offset = some (record { slot = p.slot; timeslots = (sf fp).timeslots });
    }

    new_mask : p.terminal.mask ≡ setmask p.slot width (tr cur).mask
    new_mask = ap (λ (t : Terminal). t.mask) (terminal-place masksize (sf fp) (tr cur) p fits)

    inside : (0 < width) × (p.slot * width + width ≤ 8 * length (tr cur).mask)
    inside =
        let slot = slot_inside masksize (sf fp).timeslots p.slot (frames fp) fits.in_time in
        (slot.0, omega (arith, slot.1, room cur))

    exact : width * (sf fp).timeslots ≡ masksize
    exact = (arrays fp).exact (omega (arith, fits.in_time))

    -- A superframe has a unit of time, and so has a frame a timeslot.
    some_slot : (o : Offset) → 0 < span o → span o * o.timeslots ≡ masksize → 0 < o.timeslots
    some_slot o h x = elim (Bool-cases (ltb 0 o.timeslots)) [
      | inl e ↦ ltb→lt _ _ e
      | inr e ↦
          let none_left : o.timeslots ≡ 0 = ground (arith, e) in
          let nothing : masksize ≡ 0 = sym x ∙ (rw none_left (omega arith)) in
          absurd (omega (arith, nothing, frames fp, fits.in_time))
    ]

    other_offset : (o : Option Offset) → CoveredAt (tr cur).mask o → CoveredAt p.terminal.mask o
    other_offset none h = h
    other_offset (some o) (h, x, k) = (
      h,
      x,
      rw new_mask
          (setmask-Covers_other p.slot width o.slot (span o) (tr cur).mask (masks cur) inside.1 k),
    )

    still-Covered : (b : BurstDes) → Covered tr b → Covered (update tr cur p.terminal) b
    still-Covered b h = elim (Bool-cases (cur == b.assignment_id)) [
      | inl e ↦ rw e (
          other_offset b.offset (subst (λ t. CoveredAt (tr t).mask b.offset) (ground (arith, e)) h))
      | inr e ↦ rw e h
    ]

    new-Covered : Covered (update tr cur p.terminal) new_burst
    new-Covered =
        rw (==_refl cur, new_mask)
          (inside.0, exact, setmask-Covers p.slot width (tr cur).mask (masks cur) inside.1)

    apart_offset : (o : Option Offset) → CoveredAt (tr cur).mask o → ApartAt o new_burst.offset
    apart_offset none h = h
    apart_offset (some o) (h, x, k) =
        elim (free-Apart p.slot width o.slot (span o) (tr cur).mask inside.0 h
          (slot-free masksize (sf fp) (tr cur) p fits) k) [
            | inl e ↦ inr (
                before masksize width (sf fp).timeslots p.slot (span o) o.timeslots o.slot inside.0
                  exact x e (omega (arith, fits.in_time)))
            | inr e ↦ inl (
                before masksize (span o) o.timeslots o.slot width (sf fp).timeslots p.slot h x exact
                  e (some_slot o h x))
          ]

    no_clash : (b : BurstDes) → Covered tr b → NoClash b new_burst
    no_clash b h e = apart_offset b.offset (subst (λ t. CoveredAt (tr t).mask b.offset) (sym e) h)

    frames_fit : FramesFit masksize (update sf fp p.frame)
    frames_fit i = elim (Bool-cases (fp == i)) [
      | inl e ↦ rw (e, frame-timeslots masksize (sf fp) (tr cur) p fits) (frames fp)
      | inr e ↦ rw e (frames i)
    ]

    sound : (i : ℕ) → IsSound masksize (update sf fp p.frame i)
    sound i = elim (Bool-cases (fp == i)) [
      | inl e ↦ rw e (frame-IsSound masksize (sf fp) (tr cur) p fits (arrays fp))
      | inr e ↦ rw e (arrays i)
    ]

    masks_fit : (t : ℕ) → IsMask (update tr cur p.terminal t).mask
    masks_fit t = elim (Bool-cases (cur == t)) [
      | inl e ↦ rw (e, new_mask) (setmask-IsMask p.slot width (tr cur).mask (masks cur))
      | inr e ↦ rw e (masks t)
    ]

    room_fit : (t : ℕ) → masksize ≤ 8 * length (update tr cur p.terminal t).mask
    room_fit t = elim (Bool-cases (cur == t)) [
      | inl e ↦ rw (e, new_mask, length-setmask p.slot width (tr cur).mask) (room cur)
      | inr e ↦ rw e (room t)
    ]

    same_rules : p.terminal.rules ≡ (tr cur).rules
    same_rules = ap (λ (t : Terminal). t.rules) (terminal-place masksize (sf fp) (tr cur) p fits)

    plain_fit : (t : ℕ) → HasPlain (tr t).rules → HasPlain (update tr cur p.terminal t).rules
    plain_fit t h = elim (Bool-cases (cur == t)) [
      | inl e ↦ rw (e, same_rules) (subst (λ i. HasPlain (tr i).rules) (ground (arith, e)) h)
      | inr e ↦ rw e h
    ]

    pub placed-IsClear :
        (n : ℕ) (bdes : List BurstDes)
        → IsClear n sf tr bdes
        → IsClear n (update sf fp p.frame) (update tr cur p.terminal) (bdes ++ new_burst ∷ [])
    placed-IsClear n bdes v = record {
      frames = frames_fit;
      arrays = sound;
      masks = masks_fit;
      room = room_fit;
      plain = λ t l. plain_fit t (v.plain t l);
      covered =
          All-snoc (Covered (update tr cur p.terminal)) bdes new_burst
            (All-imp (Covered tr) (Covered (update tr cur p.terminal)) bdes still-Covered v.covered)
            new-Covered;
      clear =
          NoClashes-snoc bdes new_burst v.clear
            (All-imp (Covered tr) (λ b. NoClash b new_burst) bdes no_clash v.covered);
    }
