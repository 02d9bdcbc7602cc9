-- ===== src/Allocator/Assign/Outcome.antt =====
-- What the rules of a terminal come to: a free slot of one of its frames, or nothing.
use native.Mathlib.Nat.{mul-le-mul_right, div-mul-le_self, div-lt_iff_lt-mul}
use release.Base.{
  ℕ, ◌+◌, ◌*◌, ◌/◌, ◌<◌, ◌≤◌, ◌≡◌, ◌⊎◌, refl, ap, Bool, true, false, Option, none, some, List, [],
  ◌∷◌, arith, ◌==◌, ◌&&◌, ltb, leb, ltb→lt, ltb→le, update, Bool-cases, Option-cases, inl, inr,
}
use release.Base.Int.{eq_ℤ, pos}
use release.Allocator.Mask.{testmask, setmask}
use release.Allocator.Fit.{Frame, Rule, Terminal, Placement, max_carr, max_slots, eligible, place}
use release.Allocator.Fit.FirstFit.{IsFirst, firstfit-IsFirst}
use release.Allocator.Fit.BestFit.{IsEarliest, bestfit-IsEarliest}
use release.Allocator.Assign.{
  Config, first_fit, best_fit, Alloc, search, placed, refused, passes_over, try_rules,
}

-- A frame inside its array, none of whose cells outside of it was written, whose timeslots are of
-- equal whole numbers of units of time.
pub record IsSound (masksize : ℕ) (f : Frame) : Type 0 where
  pub rows : f.carriers ≤ max_carr
  pub columns : f.timeslots ≤ max_slots
  pub exact : 0 < f.timeslots → (masksize / f.timeslots) * f.timeslots ≡ masksize
  pub safe : f.overrun ≡ false

-- A placement of a terminal in a frame at a time that its mask has free.
pub record Fits (masksize : ℕ) (f : Frame) (t : Terminal) (p : Placement) : Type 0 where
  pub row : ℕ
  pub is_place : p ≡ place masksize f t row p.slot
  pub can : eligible masksize f t row p.slot ≡ true
  pub inside : row < f.carriers
  pub in_time : p.slot < f.timeslots

second : (a b : Bool) → (a && b) ≡ true → b ≡ true
second a b e = ground (arith, e)

-- What a placement does to the terminal and to the frame.
module _ (masksize : ℕ) (f : Frame) (t : Terminal) (p : Placement) (h : Fits masksize f t p) where
  pub terminal-place :
      p.terminal ≡ record t { mask = setmask p.slot (masksize / f.timeslots) t.mask }
  unfolding place
  terminal-place = ap (λ (q : Placement). q.terminal) h.is_place

  pub frame-timeslots : p.frame.timeslots ≡ f.timeslots
  unfolding place
  frame-timeslots = ap (λ (q : Placement). q.frame.timeslots) h.is_place

  pub frame-IsSound : IsSound masksize f → IsSound masksize p.frame
  unfolding place
  frame-IsSound v = rw h.is_place (record {
    rows = v.rows;
    columns = v.columns;
    exact = v.exact;
    safe =
        let row : leb max_carr h.row ≡ false = ground (arith, h.inside, v.rows) in
        let column : leb max_slots p.slot ≡ false = ground (arith, h.in_time, v.columns) in
        rw (v.safe, row, column) refl;
  })

  pub slot-free : testmask p.slot (masksize / f.timeslots) t.mask ≡ true
  unfolding eligible
  slot-free = second _ _ h.can

-- A slot of a frame has a unit of time at least, and lies within the superframe.
pub slot_inside :
    (masksize n p : ℕ)
    → n ≤ masksize
    → p < n
    → (0 < masksize / n) × (p * (masksize / n) + masksize / n ≤ masksize)
slot_inside masksize n p h l = (
  elim (Bool-cases (ltb 0 (masksize / n))) [
    | inl e ↦ ltb→lt _ _ e
    | inr e ↦
        let small : masksize / n < 1 = omega (arith, ltb→le _ _ e) in
        absurd
          (omega (arith, (div-lt_iff_lt-mul {k = n} {x = masksize} {y = 1} (omega arith)).0 small))
  ],
  omega (
    arith,
    mul-le-mul_right {m = p + 1} {n = n} (masksize / n) (omega arith),
    div-mul-le_self masksize n,
  ),
)

abbrev FitsIfSome : ℕ → Frame → Terminal → Option Placement → Type 0
FitsIfSome masksize f t none = Unit
FitsIfSome masksize f t (some p) = Fits masksize f t p

first_fits :
    (masksize : ℕ) (f : Frame) (t : Terminal) (o : Option Placement)
    → IsFirst masksize f t o
    → FitsIfSome masksize f t o
first_fits masksize f t none h = tt
first_fits masksize f t (some p) h = record {
  row = h.0;
  is_place = h.1;
  can = h.2;
  inside = h.3;
  in_time = h.4;
}

earliest_fits :
    (masksize : ℕ) (f : Frame) (t : Terminal) (o : Option Placement)
    → IsEarliest masksize f t o
    → FitsIfSome masksize f t o
earliest_fits masksize f t none h = tt
earliest_fits masksize f t (some p) h = record {
  row = h.0;
  is_place = h.1;
  can = h.2;
  inside = h.3;
  in_time = h.4;
}

abbrev pub FramesFit : ℕ → (ℕ → Frame) → Type 0
FramesFit masksize sf = (i : ℕ) → (sf i).timeslots ≤ masksize

-- One of the rules is not the "SMALL" rule.
abbrev pub HasPlain : List Rule → Type 0
HasPlain [] = ⊥
HasPlain (r ∷ rs) = (eq_ℤ r.rule (pos 1) ≡ false) ⊎ HasPlain rs

not_both : (a b : Bool) → (a && b) ≡ true → a ≡ false → ⊥
not_both a b e n = ground (arith, e, n)

module _ (c : Config) where
  search-FitsIfSome :
      (f : Frame) (t : Terminal)
      → f.timeslots ≤ c.masksize
      → FitsIfSome c.masksize f t (search c f t)
  unfolding search
  search-FitsIfSome f t h = elim (Bool-cases (c.layout == first_fit)) [
    | inl e ↦ rw e (first_fits c.masksize f t _ (firstfit-IsFirst c.masksize f t))
    | inr e ↦ elim (Bool-cases (c.layout == best_fit)) [
      | inl g ↦ rw (e, g) (earliest_fits c.masksize f t _ (bestfit-IsEarliest c.masksize f t h))
      | inr g ↦ rw (e, g) tt
    ]
  ]

  -- The state after the rules: no frame and nothing changed, or one placement made.
  pub data Tried (s r : Alloc) : Type 0 where
    nothing : r.frame ≡ none → r.sf ≡ s.sf → r.tr ≡ s.tr → Tried s r
    gets :
        (fp : ℕ) (p : Placement)
        → r.frame ≡ some fp
        → r.offset ≡ some (record { slot = p.slot; timeslots = (s.sf fp).timeslots })
        → r.sf ≡ update s.sf fp p.frame
        → r.tr ≡ update s.tr s.cur_term p.terminal
        → Fits c.masksize (s.sf fp) (s.tr s.cur_term) p
        → Tried s r

  refused-Tried : (s r : Alloc) → Tried (refused c s) r → Tried s r
  unfolding refused
  refused-Tried s r (nothing e g h) = nothing e g h
  refused-Tried s r (gets fp p e g h k l) = gets fp p e g h k l

  placed-Tried :
      (s : Alloc) (fp : ℕ) (p : Placement)
      → Fits c.masksize (s.sf fp) (s.tr s.cur_term) p
      → Tried s (placed c s fp p)
  unfolding placed
  placed-Tried s fp p h =
      gets fp p refl (rw (frame-timeslots c.masksize (s.sf fp) (s.tr s.cur_term) p h) refl) refl
        refl h

  still :
      (r : Rule) (rs : List Rule) (s : Alloc)
      → passes_over c s r ≡ true
      → (s.frame ≡ none) ⊎ HasPlain (r ∷ rs)
      → (s.frame ≡ none) ⊎ HasPlain rs
  unfolding passes_over
  still r rs s e (inl n) = inl n
  still r rs s e (inr (inl n)) = absurd (not_both _ _ e n)
  still r rs s e (inr (inr n)) = inr n

  same_frames : (s : Alloc) → FramesFit c.masksize s.sf → FramesFit c.masksize (refused c s).sf
  unfolding refused
  same_frames s h = h

  no_frame : (s : Alloc) → (refused c s).frame ≡ none
  unfolding refused
  no_frame s = refl

  pub try_rules-Tried :
      (rs : List Rule) (s : Alloc)
      → FramesFit c.masksize s.sf
      → (s.frame ≡ none) ⊎ HasPlain rs
      → Tried s (try_rules c rs s)
  unfolding try_rules
  try_rules-Tried [] s h (inl e) = nothing e refl refl
  try_rules-Tried [] s h (inr e) = absurd e
  try_rules-Tried (r ∷ rs) s h k = elim (Bool-cases (passes_over c s r)) [
    | inl e ↦ rw (e, try_rules) (try_rules-Tried rs s h (still r rs s e k))
    | inr e ↦ elim (Option-cases (search c (s.sf r.fp) (s.tr s.cur_term))) [
      | inl n ↦
          rw (e, try_rules, n)
            (refused-Tried s _
              (try_rules-Tried rs (refused c s) (same_frames s h) (inl (no_frame s))))
      | inr (p, n) ↦
          rw (e, try_rules, n)
            (placed-Tried s r.fp p
              (rw n at (search-FitsIfSome (s.sf r.fp) (s.tr s.cur_term) (h r.fp))))
    ]
  ]
