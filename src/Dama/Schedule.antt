-- ===== src/Dama/Schedule.antt =====
-- The timeslots that the MACs of src/mac-tdmadama.cc take from one burst table.
use mathlib.Core.List.{Perm, perm_middle}
use mathlib.Core.List.Perm
use release.Base.{
  ℕ, map, ◌++◌, ◌/◌, false, zero, suc, ◌<◌, ◌≡◌, refl, sym, ◌∙◌, List, [], ◌∷◌, arith, All, ◌==◌,
  Bool-cases, inl, inr, ==_iff, if◌then◌else◌,
}
use release.Allocator.Assign.{BurstDes}
use release.Allocator.Assign.Conflict.{ApartAt, NoClash, NoClashes}
use release.Dama.{Timeslot, btp_decoding}

-- No two timeslots meet in time.
abbrev pub AllApart : List Timeslot → Type 0
AllApart [] = Unit
AllApart (s ∷ ss) = All (λ r. ApartAt s.offset r.offset) ss × AllApart ss

apart_later :
    (t len : ℕ) (b : BurstDes) (bs : List BurstDes)
    → b.assignment_id ≡ t
    → All (NoClash b) bs
    → All (λ r. ApartAt b.offset r.offset) (btp_decoding t len bs)
unfolding btp_decoding
apart_later t len b [] e h = tt
apart_later t len b (d ∷ bs) e (h, hs) = elim (Bool-cases (d.assignment_id == t)) [
  | inl u ↦ rw u (h ((==_iff _ _).0 u ∙ sym e), apart_later t len b bs e hs)
  | inr u ↦ rw u (apart_later t len b bs e hs)
]

-- From a burst table in which no two bursts of one terminal meet in time, a terminal schedules
-- timeslots of which no two meet.
pub btp_decoding-AllApart :
    (t len : ℕ) (bdes : List BurstDes) → NoClashes bdes → AllApart (btp_decoding t len bdes)
unfolding btp_decoding
btp_decoding-AllApart t len [] h = tt
btp_decoding-AllApart t len (b ∷ bdes) (h, hs) = elim (Bool-cases (b.assignment_id == t)) [
  | inl u ↦
      rw u (apart_later t len b bdes ((==_iff _ _).0 u) h, btp_decoding-AllApart t len bdes hs)
  | inr u ↦ rw u (btp_decoding-AllApart t len bdes hs)
]

-- The timeslot of a burst.
abbrev pub scheduled : ℕ → BurstDes → Timeslot
scheduled len b = record { offset = b.offset; size = b.size; cellno = b.size / len }

-- What the first `n` terminals schedule, each timeslot with the number of its terminal.
abbrev pub gather : ℕ → (ℕ → List Timeslot) → List (ℕ × Timeslot)
gather zero f = []
gather (suc n) f = map (λ s. (n, s)) (f n) ++ gather n f

gather_nothing : (n : ℕ) → gather n (λ _. []) ≡ []
gather_nothing zero = refl
gather_nothing (suc n) = gather_nothing n

-- One more timeslot, of one terminal.
abbrev OneMore : ℕ → Timeslot → (ℕ → List Timeslot) → (ℕ → List Timeslot) → Type 0
OneMore a x f g = (t : ℕ) → g t ≡ (if a == t then x ∷ f t else f t)

gather_miss :
    (n a : ℕ) (x : Timeslot) (f g : ℕ → List Timeslot)
    → n < suc a
    → OneMore a x f g
    → gather n g ≡ gather n f
gather_miss zero a x f g h e = refl
gather_miss (suc n) a x f g h e =
    let other : (a == n) ≡ false = ground (arith, h) in
    let here : g n ≡ f n = rw (e n, other) refl in
    rw (here, gather_miss n a x f g (omega (arith, h)) e) refl

gather_one :
    (n a : ℕ) (x : Timeslot) (f g : ℕ → List Timeslot)
    → a < n
    → OneMore a x f g
    → Perm (gather n g) ((a, x) ∷ gather n f)
gather_one zero a x f g h e = absurd (omega (arith, h))
gather_one (suc n) a x f g h e = elim (Bool-cases (a == n)) [
  | inl u ↦
      let same : a ≡ n = (==_iff _ _).0 u in
      let here : g n ≡ x ∷ f n = rw (e n, u) refl in
      let rest : gather n g ≡ gather n f = gather_miss n a x f g (omega (arith, same)) e in
      rw (here, rest, same) (Perm.refl _)
  | inr u ↦
      let here : g n ≡ f n = rw (e n, u) refl in
      let below : a < n = ground (arith, u, h) in
      rw here (
        Perm.trans (Perm.append_left (map (λ s. (n, s)) (f n)) (gather_one n a x f g below e))
          (perm_middle (map (λ s. (n, s)) (f n)) (gather n f)))
]

one_more :
    (b : BurstDes) (bdes : List BurstDes) (len : ℕ)
    → OneMore b.assignment_id
        (scheduled len b)
        (λ t. btp_decoding t len bdes)
        (λ t. btp_decoding t len (b ∷ bdes))
unfolding btp_decoding
one_more b bdes len t = elim (Bool-cases (b.assignment_id == t)) [
  | inl u ↦ rw u refl
  | inr u ↦ rw u refl
]

-- When every burst of the table is for one of the first `n` terminals, what these schedule together
-- is, up to the order, each burst of the table exactly once: for its own terminal, at its offset,
-- with its size, and with as many cells as packets fit into it.
pub gather-btp_decoding :
    (n len : ℕ) (bdes : List BurstDes)
    → All (λ b. b.assignment_id < n) bdes
    → Perm
        (gather n (λ t. btp_decoding t len bdes))
        (map (λ b. (b.assignment_id, scheduled len b)) bdes)
unfolding btp_decoding
gather-btp_decoding n len [] h = rw (gather_nothing n) (Perm.refl [])
gather-btp_decoding n len (b ∷ bdes) (h, hs) =
    Perm.trans
      (gather_one n b.assignment_id (scheduled len b) (λ t. btp_decoding t len bdes)
        (λ t. btp_decoding t len (b ∷ bdes)) h (one_more b bdes len))
      (Perm.cons (b.assignment_id, scheduled len b) (gather-btp_decoding n len bdes hs))
