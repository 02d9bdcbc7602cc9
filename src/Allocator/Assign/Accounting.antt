-- ===== src/Allocator/Assign/Accounting.antt =====
-- What `assign_timeslot` keeps: the debt of each terminal, and the number of slots.
use release.Base.{
  ℕ, zero, suc, ◌+◌, ◌≤◌, ◌≡◌, ◌≢◌, refl, ◌∙◌, false, leb, ◌||◌, Option, none, some, List, [], ◌∷◌,
  arith, ◌==◌, length, length-append, Bool-cases, Option-cases, inl, inr,
}
use release.Base.Int.{ℤ, pos, ◌+ℤ◌, ◌-ℤ◌, int_laws}
use release.Allocator.Fit.{Rule, Placement, max_slots}
use release.Allocator.Assign.{
  Config, cont_mode, slot_mode, Alloc, satisfied, next_request, search, placed, refused,
  passes_over, try_rules, grant, give_up, after_rules, advance, serve, round, loop,
}

-- A round leaves each terminal's deficit and allocation with the same sum, and turns free slots
-- into entries of the burst table one by one, none of them past its end if all slots fit into it.
pub record Keeps (s r : Alloc) : Type 0 where
  pub debt : (t : ℕ) → r.deficit t +ℤ r.a t ≡ s.deficit t +ℤ s.a t
  pub slots : length r.bdes + r.freeslots ≡ length s.bdes + s.freeslots
  pub table : length s.bdes + s.freeslots ≤ max_slots → s.overrun ≡ false → r.overrun ≡ false

-- The parts of the state that a search for a cell does not touch.
pub record Same (s r : Alloc) : Type 0 where
  pub deficit : r.deficit ≡ s.deficit
  pub a : r.a ≡ s.a
  pub bdes : r.bdes ≡ s.bdes
  pub overrun : r.overrun ≡ s.overrun
  pub freeslots : r.freeslots ≡ s.freeslots
  pub left_to_check : r.left_to_check ≡ s.left_to_check
  pub cur_term : r.cur_term ≡ s.cur_term

Keeps-refl : (s : Alloc) → Keeps s s
Keeps-refl s = record { debt = λ t. refl; slots = refl; table = λ l e. e }

Keeps-trans : (s r q : Alloc) → Keeps s r → Keeps r q → Keeps s q
Keeps-trans s r q h k = record {
  debt = λ t. k.debt t ∙ h.debt t;
  slots = k.slots ∙ h.slots;
  table = λ l e. k.table (omega (arith, h.slots, l)) (h.table l e);
}

Same-Keeps : (s r : Alloc) → Same s r → Keeps s r
Same-Keeps s r h = record {
  debt = λ t. rw (h.deficit, h.a);
  slots = rw (h.bdes, h.freeslots);
  table = λ l e. h.overrun ∙ e;
}

pay : (d a p : ℤ) → (d -ℤ p) +ℤ (a +ℤ p) ≡ d +ℤ a
pay d a p = omega int_laws

module _ (c : Config) where
  refused-Same : (s r : Alloc) → Same (refused c s) r → Same s r
  unfolding refused
  refused-Same s r h = record {
    deficit = h.deficit;
    a = h.a;
    bdes = h.bdes;
    overrun = h.overrun;
    freeslots = h.freeslots;
    left_to_check = h.left_to_check;
    cur_term = h.cur_term;
  }

  placed-Same : (s : Alloc) (fp : ℕ) (p : Placement) → Same s (placed c s fp p)
  unfolding placed
  placed-Same s fp p = record {
    deficit = refl;
    a = refl;
    bdes = refl;
    overrun = refl;
    freeslots = refl;
    left_to_check = refl;
    cur_term = refl;
  }

  pub try_rules-Same : (rs : List Rule) (s : Alloc) → Same s (try_rules c rs s)
  unfolding try_rules
  try_rules-Same [] s = ground arith
  try_rules-Same (r ∷ rs) s = elim (Bool-cases (passes_over c s r)) [
    | inl e ↦ rw (e, try_rules) (try_rules-Same rs s)
    | inr e ↦ elim (Option-cases (search c (s.sf r.fp) (s.tr s.cur_term))) [
      | inl n ↦ rw (e, try_rules, n) (refused-Same s _ (try_rules-Same rs (refused c s)))
      | inr (p, n) ↦ rw (e, try_rules, n) (placed-Same s r.fp p)
    ]
  ]

  grant-Keeps : (s : Alloc) (fp : ℕ) → s.freeslots ≢ 0 → Keeps s (grant c s fp)
  unfolding grant
  grant-Keeps s fp h = record {
    debt = λ t. elim (Bool-cases (s.cur_term == t)) [
      | inl e ↦
          let same : t ≡ s.cur_term = ground (arith, e) in
          rw (e, same) (pay (s.deficit s.cur_term) (s.a s.cur_term) (pos (s.sf fp).burstsize))
      | inr e ↦ rw e refl
    ];
    slots = omega (
      arith,
      length-append s.bdes (
          record { assignment_id = s.cur_term; size = (s.sf fp).burstsize; offset = s.offset }
          ∷ []),
    );
    table = λ l e.
        let room : leb max_slots (length s.bdes) ≡ false = ground (arith, l, h) in
        rw (e, room) refl;
  }

  give_up-Keeps : (s : Alloc) → Keeps s (give_up c s)
  unfolding give_up
  give_up-Keeps s = elim (Bool-cases (c.mode == cont_mode)) [
    | inl e ↦ rw e (record { debt = λ t. refl; slots = refl; table = λ l o. o })
    | inr e ↦ rw e (Keeps-refl s)
  ]

  advance-Keeps : (s r : Alloc) → Keeps s r → Keeps s (advance c r)
  unfolding advance
  advance-Keeps s r h = elim (Bool-cases (c.mode == slot_mode)) [
    | inl e ↦ rw e (record { debt = h.debt; slots = h.slots; table = h.table })
    | inr e ↦ rw e h
  ]

  pub after_rules-none : (s : Alloc) → s.frame ≡ none → after_rules c s ≡ give_up c s
  unfolding after_rules
  after_rules-none s e = ground arith

  pub after_rules-some : (s : Alloc) (fp : ℕ) → s.frame ≡ some fp → after_rules c s ≡ grant c s fp
  unfolding after_rules
  after_rules-some s fp e = ground arith

  after_rules-Keeps : (s : Alloc) → s.freeslots ≢ 0 → Keeps s (after_rules c s)
  after_rules-Keeps s h = elim (Option-cases s.frame) [
    | inl e ↦ rw (after_rules-none s e) (give_up-Keeps s)
    | inr (fp, e) ↦ rw (after_rules-some s fp e) (grant-Keeps s fp h)
  ]

  serve-Keeps : (s : Alloc) → s.freeslots ≢ 0 → Keeps s (serve c s)
  unfolding serve
  serve-Keeps s h =
      let tried = try_rules c (s.tr s.cur_term).rules s in
      let same = try_rules-Same (s.tr s.cur_term).rules s in
      advance-Keeps s (after_rules c tried) (
        Keeps-trans s tried (after_rules c tried) (Same-Keeps s tried same)
          (after_rules-Keeps tried (rw same.freeslots h)))

  next_request-Keeps : (s : Alloc) → Keeps s (next_request c s)
  unfolding next_request
  next_request-Keeps s = elim (Bool-cases (satisfied (s.deficit s.cur_term))) [
    | inl e ↦ rw (e, next_request) (record { debt = λ t. refl; slots = refl; table = λ l o. o })
    | inr e ↦ rw (e, next_request) (Keeps-refl s)
  ]

  pub freeslots-next_request : (s : Alloc) → (next_request c s).freeslots ≡ s.freeslots
  unfolding next_request
  freeslots-next_request s = ground arith

  pub round-Keeps : (s : Alloc) → s.freeslots ≢ 0 → Keeps s (round c s)
  unfolding round
  round-Keeps s h =
      let n = next_request c s in
      elim (Bool-cases (n.left_to_check == 0)) [
        | inl e ↦ rw (e, round) (next_request-Keeps s)
        | inr e ↦
            rw (e, round)
              (Keeps-trans s n (serve c n) (next_request-Keeps s)
                (serve-Keeps n (rw (freeslots-next_request s) h)))
      ]

  abbrev pub KeepsIfSome : Alloc → Option Alloc → Type 0
  KeepsIfSome s none = Unit
  KeepsIfSome s (some r) = Keeps s r

  after_round-Keeps :
      (s r : Alloc) (o : Option Alloc) → Keeps s r → KeepsIfSome r o → KeepsIfSome s o
  after_round-Keeps s r none h k = tt
  after_round-Keeps s r (some q) h k = Keeps-trans s r q h k

  pub loop-Keeps : (fuel : ℕ) (s : Alloc) → KeepsIfSome s (loop c fuel s)
  unfolding loop
  loop-Keeps zero s = tt
  loop-Keeps (suc fuel) s = elim (Bool-cases (s.freeslots == 0 || s.left_to_check == 0)) [
    | inl e ↦ rw (e, loop) (Keeps-refl s)
    | inr e ↦
        rw (e, loop)
          (after_round-Keeps s (round c s) (loop c fuel (round c s))
            (round-Keeps s (ground (arith, e))) (loop-Keeps fuel (round c s)))
  ]
