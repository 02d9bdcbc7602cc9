-- ===== src/Allocator/Tests.antt =====
-- The theorems on src/mac-allocator.cc at concrete inputs, and runs of the code.
use release.Base.{
  ℕ, zero, suc, ◌+◌, ◌-◌, ◌*◌, ◌<◌, ◌≤◌, ◌≡◌, ◌↔◌, refl, true, false, none, some, [], ◌∷◌, arith,
  inl, get_or,
}
use release.Base.Int.{pos, negsuc, ◌≤ℤ◌}
use release.Allocator.Mask.{setmask}
use release.Allocator.Mask.Bits.{IsMask}
use release.Allocator.Fit.{Frame, Terminal, firstfit, bestfit}
use release.Allocator.Fit.FirstFit.{IsFirst, firstfit-IsFirst}
use release.Allocator.Fit.BestFit.{IsEarliest, bestfit-IsEarliest}
use release.Allocator.Assign.Accounting.{Keeps}
use release.Allocator.Assign.Ending.{IsOver, loop_ends}
use release.Allocator.Assign.Hopeless.{IsHopeless, loop_hopeless}
use release.Allocator.Assign.Stale.{round_stale}
use release.Allocator.Assign.Outcome.{FramesFit}
use release.Allocator.Assign.{Config, Alloc, search, round, loop}
use release.Allocator.Cycle.Superframe.{IsSetUp}
use release.Allocator.Cycle.Limits.{carry_forward_range}
use release.Allocator.Cycle.{Allocator, Junk, carry_forward}
use release.Allocator.Command.{add_new_frame, add_new_frame_lem}

-- One carrier of two timeslots.
abbrev frame : Frame
frame = record {
  carriers = 1;
  timeslots = 2;
  burstsize = 10;
  cells = λ _ _. negsuc 1;
  overrun = false;
}

abbrev terminal : Terminal
terminal = record { id = pos 1; rules = record { rule = pos 0; fp = 0 } ∷ []; mask = 0 ∷ [] }

abbrev blank-IsMask : IsMask (0 ∷ [])
blank-IsMask = record { bytes = λ i. small i }
  where
    small : (i : ℕ) → get_or (0 ∷ []) i 0 < 256
    small zero = omega arith
    small (suc i) = omega arith

setmask_runs : setmask 1 3 (0 ∷ []) ≡ 0x38 ∷ []
unfolding setmask
setmask_runs = refl

firstfit-IsFirst_example : IsFirst 2 frame terminal (firstfit 2 frame terminal)
firstfit-IsFirst_example = firstfit-IsFirst 2 frame terminal

bestfit-IsEarliest_example : IsEarliest 2 frame terminal (bestfit 2 frame terminal)
bestfit-IsEarliest_example = bestfit-IsEarliest 2 frame terminal (omega arith)

abbrev config : Config
config = record { active_node = 2; masksize = 2; sl_threshold = pos 100; mode = 1; layout = 0 }

-- Terminal 0 is the hub; terminal 1 asks for 15 bytes.
abbrev core : Alloc
core = record {
  deficit = λ t. elim t [ zero ↦ pos 0 | suc _ ↦ pos 15 ];
  a = λ _. pos 0;
  sf = λ _. frame;
  tr = λ _. terminal;
  freeslots = 2;
  left_to_check = 2;
  cur_term = 0;
  bdes = [];
  overrun = false;
  frame = none;
  offset = none;
}

loop_ends_example : (r : Alloc) × (loop config 5 core ≡ some r) × IsOver config r × Keeps core r
loop_ends_example = loop_ends config core 5 refl (omega arith)

-- Both terminals ask for capacity, and the only frame has no carrier.
abbrev stuck : Alloc
stuck = record core { deficit = λ _. pos 5; sf = λ _. record frame { carriers = 0 } }

abbrev round_robin : Config
round_robin = record config { mode = 0 }

stuck-IsHopeless : IsHopeless round_robin stuck
unfolding search firstfit
stuck-IsHopeless = record {
  slots = omega arith;
  left = omega arith;
  current = omega arith;
  asks = λ t l. refl;
  has_rule = λ t l e. cc;
  refuses = λ t l. (record { plain = refl; no_cell = refl }, tt);
}

loop_hopeless_example : loop round_robin 1000 stuck ≡ none
loop_hopeless_example = loop_hopeless round_robin 1000 stuck refl stuck-IsHopeless

-- Terminal 1 has no rule, and the round before gave frame 0 to another terminal.
abbrev ruleless : Alloc
ruleless = record core {
  cur_term = 1;
  tr = λ _. record terminal { rules = [] };
  frame = some 0;
  offset = some (record { slot = 0; timeslots = 2 });
}

round_stale_example :
    ((round config ruleless).bdes
      ≡ record { assignment_id = 1; size = 10; offset = some (record { slot = 0; timeslots = 2 }) }
        ∷ [])
    × ((round config ruleless).sf ≡ ruleless.sf)
    × ((round config ruleless).tr ≡ ruleless.tr)
    × ((round config ruleless).freeslots ≡ 2 - 1)
round_stale_example = round_stale config ruleless 0 (omega arith) refl tt refl

abbrev pub allocator : Allocator
allocator = record {
  config = config;
  core = core;
  nf = 1;
  slot_count = 2;
  hub = 0;
  max_req_buf = pos 12;
  forget_debit = 1;
  cnst_rate = λ _. 0;
  reqv_rate = λ t. t * 15;
  reqv_volume = λ _. 0;
  utilization = pos 0;
  load = pos 0;
  feedback = 0;
  utility = 0;
}

abbrev pub junk : Junk
junk = (none, none)

pub allocator-IsSetUp : IsSetUp allocator
allocator-IsSetUp = record {
  frames = λ i. omega arith;
  arrays =
      λ i. record { rows = omega arith; columns = omega arith; exact = λ h. refl; safe = refl };
  masks = λ t. blank-IsMask;
  room = λ t. omega arith;
  plain = λ t l. inl refl;
  current = omega arith;
}

carry_forward_range_example :
    ((carry_forward allocator).core.deficit 1 ≤ℤ pos 12)
    × (allocator.forget_debit ≡ 1 → pos 0 ≤ℤ (carry_forward allocator).core.deficit 1)
    × (pos 15 ≤ℤ pos 12 → pos 0 ≤ℤ pos 15 → (carry_forward allocator).core.deficit 1 ≡ pos 15)
carry_forward_range_example = carry_forward_range allocator 1 (omega arith) (omega arith)

add_new_frame_lem_example :
    let (y, ok) = add_new_frame 1 3000 10 (λ _ _. pos 0) allocator in
    ((ok ≡ true) ↔ (y.config.masksize ≤ 8 * 512))
    × (y.config.masksize ≡ 2 * 3000)
    × (y.nf ≡ 1 + 1)
    × FramesFit y.config.masksize y.core.sf
add_new_frame_lem_example =
    add_new_frame_lem 1 3000 10 (λ _ _. pos 0) allocator (omega arith) (omega arith) (omega arith)
      (λ i. omega arith)
