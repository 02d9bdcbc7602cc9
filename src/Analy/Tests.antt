-- ===== src/Analy/Tests.antt =====
-- The theorems on src/utils/analy.c at concrete inputs, and a run of the code, with three places.
use release.Base.{ℕ, ◌≡◌, ◌==◌, Option, none, some, [], refl, arith}
use release.Base.Int.{ℤ, pos, negsuc, ◌-ℤ◌}
use release.Base.Whole.{whole}
use release.Analy.{deque, drop, Code, Trace, Analysis, event}
use release.Analy.Backlog.{Keeps, event-IsBalanced}

-- Packet 5 is in the queue, at place 2.
abbrev held : Analysis ℕ
unfolding whole
held = record {
  timestamp = 0;
  counts = record {
    input_bit = 0;
    input_pkt = 0;
    output_bit = 0;
    output_pkt = 0;
    drop_bit = 0;
    drop_pkt = 0;
    delay = 0;
  };
  queuesize_bit = pos 800;
  queuesize_pkt = pos 1;
  backlog = λ j. record { ts = 1; pkt_id = 5; busy = j == 2 };
  place = 1;
  rows = [];
}

abbrev trace : Code → ℕ → Trace ℕ
trace code time = record { code = code; time = time; size = 100; flow_id = 0; pkt_id = 5 }

event-IsBalanced_example : Keeps 3 (event 3 (trace deque 9) held)
unfolding held
event-IsBalanced_example =
    event-IsBalanced 3 (trace deque 9) held (omega arith, refl) (2, omega arith, refl, refl)

-- Packet 5 has left the queue, and is dropped at a later hop.
dropped_later : Option ℤ
dropped_later = elim (event 3 (trace deque 9) held) [
  | none ↦ none
  | some a ↦ elim (event 3 (trace drop 12) a) [ none ↦ none | some a' ↦ some a'.queuesize_pkt ]
]

dropped_later_run : dropped_later ≡ some (negsuc 0)
unfolding dropped_later event held ◌-ℤ◌
dropped_later_run = refl
