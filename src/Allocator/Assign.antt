-- ===== src/Allocator/Assign.antt =====
-- `AllocatorMFTDMA::assign_timeslot`: the slots of the superframe go round the terminals that still
-- ask for capacity.
pub mod Accounting
pub mod Ending
pub mod Hopeless
pub mod Stale
pub mod Outcome
pub mod Conflict
pub mod Safety
use release.Base.{
  ℕ, zero, suc, ◌+◌, ◌-◌, ◌%◌, Bool, true, false, ◌&&◌, ◌||◌, not, Option, none, some, List, [],
  ◌∷◌, ◌++◌, ◌==◌, ltb, leb, length, if◌then◌else◌, update,
}
use release.Base.Int.{eq_ℤ, ℤ, pos, negsuc, ◌+ℤ◌, ◌-ℤ◌, ltb_ℤ}
use release.Allocator.Fit.{Frame, Rule, Terminal, Placement, max_slots, firstfit, bestfit}

abbrev pub slot_mode : ℕ
slot_mode = 0

abbrev pub cont_mode : ℕ
cont_mode = 1

abbrev pub first_fit : ℕ
first_fit = 0

abbrev pub best_fit : ℕ
best_fit = 1

-- The offset `slot * frame_duration_ / timeslots` of a burst in the superframe, kept exact.
pub record Offset : Type 0 where
  pub slot : ℕ
  pub timeslots : ℕ

-- `burst_des`.
pub record BurstDes : Type 0 where
  pub assignment_id : ℕ
  pub size : ℕ
  pub offset : Option Offset

pub record Config : Type 0 where
  pub active_node : ℕ
  pub masksize : ℕ
  pub sl_threshold : ℤ
  pub mode : ℕ
  pub layout : ℕ

-- The state of the loop: members of the allocator, the table of bursts, and the local variables
-- `frame` and `offset`, which keep their values from one round to the next. No offset is -1. The
-- table has room for MAX_SLOTS bursts, which the code does not check: `overrun` tells whether an
-- entry past its end was written, after which C++ says nothing of what the program does.
pub record Alloc : Type 0 where
  pub deficit : ℕ → ℤ
  pub a : ℕ → ℤ
  pub sf : ℕ → Frame
  pub tr : ℕ → Terminal
  pub freeslots : ℕ
  pub left_to_check : ℕ
  pub cur_term : ℕ
  pub bdes : List BurstDes
  pub overrun : Bool
  pub frame : Option ℕ
  pub offset : Option Offset

-- `deficit[t] <= 0`.
abbrev pub satisfied : ℤ → Bool
satisfied d = not (ltb_ℤ (pos 0) d)

module _ (c : Config) where
  abbrev pub next_term : ℕ → ℕ
  next_term t = (t + 1) % c.active_node

  -- The search for the next terminal with a positive deficit, from a positive `left_to_check`:
  -- `left_to_check` and `cur_term` after it.
  pub skip : (ℕ → ℤ) → ℕ → ℕ → ℕ × ℕ
  skip deficit zero t = (zero, t)
  skip deficit (suc left) t = elim (satisfied (deficit (next_term t))) [
    | true ↦ skip deficit left (next_term t)
    | false ↦ (left, next_term t)
  ]

  pub next_request : Alloc → Alloc
  unfolding skip
  next_request s =
      if satisfied (s.deficit s.cur_term)
      then (let (left, t) = skip s.deficit s.left_to_check s.cur_term in
          record s { left_to_check = left; cur_term = t })
      else s

  -- `none` is a negative result.
  unfoldable pub search : Frame → Terminal → Option Placement
  search f t =
      if c.layout == first_fit
      then firstfit c.masksize f t
      else if c.layout == best_fit
      then bestfit c.masksize f t
      else none

  pub placed : Alloc → ℕ → Placement → Alloc
  placed s fp p = record s {
    sf = update s.sf fp p.frame;
    tr = update s.tr s.cur_term p.terminal;
    frame = some fp;
    offset = some (record { slot = p.slot; timeslots = p.frame.timeslots });
  }

  pub refused : Alloc → Alloc
  refused s = record s {
    frame = none;
    offset = if c.layout == first_fit || c.layout == best_fit then none else s.offset;
  }

  -- The "SMALL" rule: the frame is not for a large deficit.
  pub passes_over : Alloc → Rule → Bool
  passes_over s r = eq_ℤ r.rule (pos 1) && ltb_ℤ c.sl_threshold (s.deficit s.cur_term)

  -- The loop over the rules of the current terminal. A rule that is passed over leaves `frame` as
  -- it is.
  pub try_rules : List Rule → Alloc → Alloc
  unfolding search placed refused passes_over
  try_rules [] s = s
  try_rules (r ∷ rs) s = elim (passes_over s r) [
    | true ↦ try_rules rs s
    | false ↦ elim (search (s.sf r.fp) (s.tr s.cur_term)) [
      | some p ↦ placed s r.fp p
      | none ↦ try_rules rs (refused s)
    ]
  ]

  -- "found a positive match".
  pub grant : Alloc → ℕ → Alloc
  grant s fp = record s {
    freeslots = s.freeslots - 1;
    deficit = update s.deficit t (s.deficit t -ℤ pos size);
    bdes = s.bdes ++ record { assignment_id = t; size = size; offset = s.offset } ∷ [];
    overrun = s.overrun || leb max_slots (length s.bdes);
    a = update s.a t (s.a t +ℤ pos size);
    left_to_check = if c.mode == slot_mode then c.active_node else s.left_to_check;
  }
    where
      t : ℕ
      t = s.cur_term

      size : ℕ
      size = (s.sf fp).burstsize

  -- "no luck, next customer please".
  pub give_up : Alloc → Alloc
  give_up s =
      if c.mode == cont_mode
      then record s { left_to_check = s.left_to_check - 1; cur_term = next_term s.cur_term }
      else s

  pub after_rules : Alloc → Alloc
  unfolding grant give_up
  after_rules s = elim s.frame [ some fp ↦ grant s fp | none ↦ give_up s ]

  pub advance : Alloc → Alloc
  advance s = if c.mode == slot_mode then record s { cur_term = next_term s.cur_term } else s

  -- The rules are tried for the terminal at hand.
  pub serve : Alloc → Alloc
  unfolding try_rules after_rules advance
  serve s = advance (after_rules (try_rules (s.tr s.cur_term).rules s))

  -- One round of the `while` loop; without a terminal to serve it leaves by `break`, with
  -- `left_to_check` at 0.
  pub round : Alloc → Alloc
  unfolding next_request serve
  round s = let s' = next_request s in if s'.left_to_check == 0 then s' else serve s'

  -- `none` is lack of fuel.
  pub loop : ℕ → Alloc → Option Alloc
  loop zero s = none
  loop (suc fuel) s = elim (s.freeslots == 0 || s.left_to_check == 0) [
    | true ↦ some s
    | false ↦ loop fuel (round s)
  ]
