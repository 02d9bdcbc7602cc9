-- ===== src/Requester/Timer.antt =====
-- The life of a `RequesterCombiner` (src/mac-requester.cc): its constructor, `init`, the commands
-- "attach", "start" and "stop", and `expire`. The timer is ns-2's: `resched` puts it on the
-- schedule, `force_cancel` takes it off, and `expire` is called only while it is there.
pub mod Reached
use release.Base.{ℕ, ◌≡◌, Bool, true, false, Option}
use release.Base.Int.{ℤ, pos}
use release.Requester.{Requester, Request, dorequest}

abbrev pub max_time_win : ℕ
max_time_win = 512

-- `scheduled` tells whether the timer is on the schedule.
pub record Timed (R : Type 0) : Type 0 where
  pub requester : Requester R
  pub scheduled : Bool

module _ {R : Type 0} where
  -- The constructors. What is bound to variables of Tcl is that of the memory `r`; `zero_rate` is
  -- the state of a filter without input.
  pub new_requester : R → Requester R → Timed R
  new_requester zero_rate r = record {
    requester = record r {
      prev_in = pos 0;
      buffer_cur = pos 0;
      input_cur = pos 0;
      rate_req = zero_rate;
      last = 0;
      total_vol = pos 0;
      vec_vol = λ _. pos 0;
    };
    scheduled = false;
  }

  -- `init`, with the number of the MAC.
  pub init : ℕ → Timed R → Timed R
  init slot_num t = record t { requester = record t.requester { slot_num = slot_num } }

  unfoldable pub start : Timed R → Timed R
  start t = record t { scheduled = true }

  pub stop : Timed R → Timed R
  stop t = record t { scheduled = false }

  unfoldable pub expire :
      (R → ℤ → R × ℤ) → (arrivals byte_length : ℤ) → Timed R → Timed R × Option Request
  expire filter arrivals byte_length t =
      let (r, request) = dorequest filter arrivals byte_length t.requester in
      (record t { requester = r; scheduled = true }, request)

  -- What a requester comes to from `t`.
  pub data Reaches (filter : R → ℤ → R × ℤ) (t : Timed R) : Timed R → Type 0 where
    new : Reaches filter t t
    attached :
        (u : Timed R) (slot_num : ℕ) → Reaches filter t u → Reaches filter t (init slot_num u)
    started : (u : Timed R) → Reaches filter t u → Reaches filter t (start u)
    stopped : (u : Timed R) → Reaches filter t u → Reaches filter t (stop u)
    expired :
        (u : Timed R) (arrivals byte_length : ℤ)
        → u.scheduled ≡ true
        → Reaches filter t u
        → Reaches filter t (expire filter arrivals byte_length u).0
