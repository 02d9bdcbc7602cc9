-- ===== src/Allocator/Setup/Ready.antt =====
-- What a successful setup of src/mac-allocator.cc leaves is ready for `allocation`.
use release.Base.{
  ℕ, sym, subst, ◌+◌, ◌*◌, ◌<◌, ◌≤◌, ◌≡◌, refl, Bool, true, ◌&&◌, ◌||◌, some, List, [], ◌∷◌, arith,
  ◌==◌, length, All, Bool-cases, inl, inr,
}
use release.Base.Int.{ℤ, pos, ltb_ℤ}
use release.Allocator.Mask.Bits.{IsMask}
use release.Allocator.Fit.{max_carr, max_slots}
use release.Allocator.Assign.{cont_mode}
use release.Allocator.Assign.Outcome.{FramesFit, IsSound}
use release.Allocator.Assign.Conflict.{NoClashes}
use release.Allocator.Cycle.Superframe.{IsSetUp, IsInside, allocation_no_clash}
use release.Allocator.Cycle.{Allocator, Junk, allocation}
use release.Allocator.Command.{msk_len, max_term, add_new_frame, new_rule, cra, add_new_frame_lem}
use release.Allocator.Setup.Frames.{small_product, positive_product, more_units, new_frame-IsSound}
use release.Allocator.Setup.Rules.{GivesPlain, configure-HasPlain}
use release.Allocator.Setup.{
  Setup, add_frame, add_rule, add_rate, new_allocator, init, perform, configure,
}

-- Each frame has a timeslot, and is inside its array.
abbrev pub HasSlot : Setup → Type 0
HasSlot (add_frame carriers timeslots burstsize memory) =
    (0 < timeslots) × (carriers ≤ max_carr) × (timeslots ≤ max_slots)
HasSlot (add_rule t kind f) = Unit
HasSlot (add_rate t negative bytes) = Unit

-- Between the commands, for `n` terminals and `slots` timeslots.
record IsGoing (n slots : ℕ) (x : Allocator) : Type 0 where
  positive : 0 < x.config.masksize
  within : x.config.masksize ≤ 8 * msk_len
  frames : FramesFit x.config.masksize x.core.sf
  arrays : (i : ℕ) → IsSound x.config.masksize (x.core.sf i)
  masks : (t : ℕ) → IsMask (x.core.tr t).mask
  sizes : (t : ℕ) → length (x.core.tr t).mask ≡ msk_len
  nodes : x.config.active_node ≡ n
  current : x.core.cur_term ≡ 0
  mode : x.config.mode ≡ cont_mode
  count : x.slot_count ≡ slots

module _ (n slots : ℕ) where
  add_new_frame-IsGoing :
      (carriers timeslots burstsize : ℕ) (memory : ℕ → ℕ → ℤ) (x : Allocator)
      → (0 < timeslots) × (carriers ≤ max_carr) × (timeslots ≤ max_slots)
      → IsGoing n slots x
      → (add_new_frame carriers timeslots burstsize memory x).1 ≡ true
      → IsGoing n slots (add_new_frame carriers timeslots burstsize memory x).0
  unfolding add_new_frame
  add_new_frame-IsGoing carriers timeslots burstsize memory x l v e =
      let product : ℕ = x.config.masksize * timeslots in
      let small : product < 2147483648 = small_product x.config.masksize timeslots v.within l.2 in
      let laws =
        add_new_frame_lem carriers timeslots burstsize memory x v.positive l.0 small v.frames in
      let sound : (i : ℕ)
          → IsSound product ((add_new_frame carriers timeslots burstsize memory x).0.core.sf i) =
        λ i. elim (Bool-cases (x.nf == i)) [
          | inl e ↦ rw e (
              new_frame-IsSound x.config.masksize carriers timeslots burstsize memory
                (x.core.sf x.nf).overrun l.1 l.2 (v.arrays x.nf).safe)
          | inr e ↦ rw e (more_units x.config.masksize timeslots (x.core.sf i) (v.arrays i))
        ] in
      record {
        positive = rw laws.1 (positive_product x.config.masksize timeslots v.positive l.0);
        within = laws.0.0 e;
        frames = laws.3;
        arrays = λ i.
            subst
              (λ m. IsSound m ((add_new_frame carriers timeslots burstsize memory x).0.core.sf i))
              (sym laws.1) (sound i);
        masks = v.masks;
        sizes = v.sizes;
        nodes = v.nodes;
        current = v.current;
        mode = v.mode;
        count = v.count;
      }

  new_rule-IsGoing :
      (t : ℕ) (kind : ℤ) (f : ℕ) (x : Allocator)
      → IsGoing n slots x
      → IsGoing n slots (new_rule t kind f x).0
  unfolding new_rule
  new_rule-IsGoing t kind f x v = record {
    positive = v.positive;
    within = v.within;
    frames = v.frames;
    arrays = v.arrays;
    masks = λ u. elim (Bool-cases (t == u)) [ inl e ↦ rw e (v.masks t) | inr e ↦ rw e (v.masks u) ];
    sizes = λ u. elim (Bool-cases (t == u)) [ inl e ↦ rw e (v.sizes t) | inr e ↦ rw e (v.sizes u) ];
    nodes = v.nodes;
    current = v.current;
    mode = v.mode;
    count = v.count;
  }

  cra-IsGoing :
      (t : ℤ) (negative : Bool) (bytes : ℕ) (x : Allocator)
      → IsGoing n slots x
      → IsGoing n slots (cra t negative bytes x).0
  unfolding cra
  cra-IsGoing t negative bytes x v =
      elim (Bool-cases (ltb_ℤ t (pos 0) || ltb_ℤ (pos max_term) t || negative)) [
        | inl e ↦ rw e v
        | inr e ↦ rw e (record {
          positive = v.positive;
          within = v.within;
          frames = v.frames;
          arrays = v.arrays;
          masks = v.masks;
          sizes = v.sizes;
          nodes = v.nodes;
          current = v.current;
          mode = v.mode;
          count = v.count;
        })
      ]

  perform-IsGoing :
      (c : Setup) (x : Allocator)
      → HasSlot c
      → IsGoing n slots x
      → (perform c x).1 ≡ true
      → IsGoing n slots (perform c x).0
  unfolding perform
  perform-IsGoing (add_frame carriers timeslots burstsize memory) x l v e =
      add_new_frame-IsGoing carriers timeslots burstsize memory x l v e
  perform-IsGoing (add_rule t kind f) x l v e = new_rule-IsGoing t kind f x v
  perform-IsGoing (add_rate t negative bytes) x l v e = cra-IsGoing t negative bytes x v

  both : (a b : Bool) → (a && b) ≡ true → (a ≡ true) × (b ≡ true)
  both a b e = ground (arith, e)

  configure-IsGoing :
      (cs : List Setup) (x : Allocator)
      → All HasSlot cs
      → IsGoing n slots x
      → (configure cs x).1 ≡ true
      → IsGoing n slots (configure cs x).0
  unfolding configure
  configure-IsGoing [] x l v e = v
  configure-IsGoing (c ∷ cs) x (l, ls) v e =
      let ok = both (perform c x).1 (configure cs (perform c x).0).1 e in
      configure-IsGoing cs (perform c x).0 ls (perform-IsGoing c x l v ok.0) ok.1

-- The memory of an allocator: masks of `msk_len` bytes, and frames inside their arrays, of at most one
-- timeslot.
pub record IsMemory (x : Allocator) : Type 0 where
  pub frames : FramesFit 1 x.core.sf
  pub arrays : (i : ℕ) → IsSound 1 (x.core.sf i)
  pub masks : (t : ℕ) → IsMask (x.core.tr t).mask
  pub sizes : (t : ℕ) → length (x.core.tr t).mask ≡ msk_len

init-IsGoing :
    (n : ℕ) (x : Allocator)
    → IsMemory x
    → x.config.mode ≡ cont_mode
    → IsGoing n x.slot_count (init n (new_allocator x))
unfolding init new_allocator
init-IsGoing n x v m = record {
  positive = omega arith;
  within = omega arith;
  frames = v.frames;
  arrays = v.arrays;
  masks = v.masks;
  sizes = v.sizes;
  nodes = refl;
  current = refl;
  mode = m;
  count = refl;
}

module _ (n : ℕ) (cs : List Setup) (x : Allocator) where
  abbrev pub start : Allocator × Bool
  start = configure cs (init n (new_allocator x))

  configure-IsSetUp :
      0 < n → IsGoing n x.slot_count start.0 → ((t : ℕ) → t < n → GivesPlain t cs) → IsSetUp start.0
  configure-IsSetUp l v h = record {
    frames = v.frames;
    arrays = v.arrays;
    masks = v.masks;
    room = λ t. rw (v.sizes t) v.within;
    plain = λ t k. configure-HasPlain cs (init n (new_allocator x)) t (h t (rw v.nodes at k));
    current = rw (v.current, v.nodes) l;
  }

  -- Where the new allocator has masks of `msk_len` bytes, and frames inside their arrays, of no more
  -- than one timeslot, in its memory, and is set up for CONT mode, one terminal at least and no more
  -- slots than the burst table has room for, by commands that all succeed, each frame with a
  -- timeslot and inside its array, and each of the terminals with a rule that is not "SMALL":
  -- `allocation`, with more fuel than slots and terminals together, ends with a burst table in which
  -- no two bursts of one terminal meet in time, and which has no more bursts than there are slots;
  -- nothing was written past the end of the table or outside of the array of a frame.
  pub configure-allocation :
      (happy : ℕ → ℤ → ℤ → Bool) (fuel : ℕ) (i j k : Junk)
      → 0 < n
      → IsMemory x
      → x.config.mode ≡ cont_mode
      → All HasSlot cs
      → ((t : ℕ) → t < n → GivesPlain t cs)
      → start.1 ≡ true
      → x.slot_count ≤ max_slots
      → x.slot_count + n < fuel
      → (y : Allocator) × (allocation happy fuel i j k start.0 ≡ some y)
        × NoClashes y.core.bdes
        × (length y.core.bdes ≤ x.slot_count)
        × IsInside y
  configure-allocation happy fuel i j k l v m ls h e small f =
      let going =
        configure-IsGoing n x.slot_count cs (init n (new_allocator x)) ls (init-IsGoing n x v m)
          e in
      let table =
        allocation_no_clash happy fuel i j k start.0 going.mode (configure-IsSetUp l going h)
          (omega (arith, small, going.count)) (omega (arith, f, going.nodes, going.count)) in
      (table.0, table.1, table.2, omega (arith, table.3, going.count), table.4)
