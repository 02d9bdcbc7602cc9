-- ===== src/Allocator/Fit.antt =====
-- Frames and terminals, and the two searches for a free cell (`firstfit`, `bestfit`).
pub mod FirstFit
pub mod BestFit
use release.Base.{
  ℕ, zero, suc, ◌+◌, ◌/◌, Bool, true, false, ◌&&◌, ◌||◌, Option, none, some, List, ltb, leb, ◌==◌,
  if◌then◌else◌,
}
use release.Base.Int.{ℤ, negsuc, eq_ℤ}
use release.Allocator.Mask.{Mask, setmask, testmask}

abbrev pub nothing_to_send : ℤ
nothing_to_send = negsuc 1

abbrev pub max_carr : ℕ
max_carr = 20

abbrev pub max_slots : ℕ
max_slots = 256

-- `Frame`; `cells` is the array `frame[MAX_CARR][MAX_SLOTS]` by carrier and timeslot. The code does
-- not compare `carriers_` and `timeslots_` with its sizes: `overrun` tells whether a cell outside of
-- it was written, after which C++ says nothing of what the program does.
pub record Frame : Type 0 where
  pub carriers : ℕ
  pub timeslots : ℕ
  pub burstsize : ℕ
  pub cells : ℕ → ℕ → ℤ
  pub overrun : Bool

-- A rule of a terminal: its kind, and the frame by its place in `sf`.
pub record Rule : Type 0 where
  pub rule : ℤ
  pub fp : ℕ

-- `Terminal`; `rules` holds the first `rulenum` entries.
pub record Terminal : Type 0 where
  pub id : ℤ
  pub rules : List Rule
  pub mask : Mask

-- `Frame::reset`. It writes outside of the array if a carrier or a timeslot of the frame is there.
unfoldable pub reset_frame : Frame → Frame
reset_frame f = record f {
  cells = λ i j. if ltb i f.carriers && ltb j f.timeslots then nothing_to_send else f.cells i j;
  overrun =
      f.overrun
      || (ltb max_carr f.carriers && ltb 0 f.timeslots)
      || (ltb max_slots f.timeslots && ltb 0 f.carriers);
}

-- What a search that succeeds returns, the timeslot `j` of the offset, and leaves behind.
pub record Placement : Type 0 where
  pub slot : ℕ
  pub frame : Frame
  pub terminal : Terminal

-- `i_opt`, absent while it is -1, and `j_opt`.
pub record Best : Type 0 where
  pub i_opt : Option ℕ
  pub j_opt : ℕ

module _ (masksize : ℕ) (f : Frame) (t : Terminal) where
  -- The width in bits of a slot of this frame.
  unfoldable pub width : ℕ
  width = masksize / f.timeslots

  -- The condition of both searches: the cell is empty and the terminal's time is free.
  unfoldable pub eligible : ℕ → ℕ → Bool
  unfolding width
  eligible i j = eq_ℤ (f.cells i j) nothing_to_send && testmask j width t.mask

  unfoldable pub place : ℕ → ℕ → Placement
  unfolding width
  place i j = record {
    slot = j;
    frame = record f {
      cells = λ i' j'. if i == i' && j == j' then t.id else f.cells i' j';
      overrun = f.overrun || leb max_carr i || leb max_slots j;
    };
    terminal = record t { mask = setmask j width t.mask };
  }

  -- The loops of `firstfit`, over `n` timeslots from `j` on and `n` carriers from `i` on.
  pub first_in_row : ℕ → ℕ → ℕ → Option ℕ
  first_in_row i zero j = none
  first_in_row i (suc n) j =
      let rest = first_in_row i n (j + 1) in if eligible i j then some j else rest

  pub first_from : ℕ → ℕ → Option (ℕ × ℕ)
  first_from zero i = none
  first_from (suc n) i =
      let rest = first_from n (i + 1) in
      elim (first_in_row i f.timeslots 0) [ some j ↦ some (i, j) | none ↦ rest ]

  -- `none` is the result -1.
  unfoldable pub firstfit : Option Placement
  unfolding place first_from
  firstfit = elim (first_from f.carriers 0) [ none ↦ none | some (i, j) ↦ some (place i j) ]

  -- The loops of `bestfit`.
  pub better : ℕ → ℕ → Best → Best
  better i j b = if eligible i j && ltb j b.j_opt then record { i_opt = some i; j_opt = j } else b

  pub best_in_row : ℕ → ℕ → ℕ → Best → Best
  unfolding better
  best_in_row i zero j b = b
  best_in_row i (suc n) j b = best_in_row i n (j + 1) (better i j b)

  pub best_from : ℕ → ℕ → Best → Best
  best_from zero i b = b
  best_from (suc n) i b = best_from n (i + 1) (best_in_row i f.timeslots 0 b)

  unfoldable pub bestfit : Option Placement
  unfolding place best_from
  bestfit =
      let b = best_from f.carriers 0 (record { i_opt = none; j_opt = masksize }) in
      elim b.i_opt [ none ↦ none | some i ↦ some (place i b.j_opt) ]
