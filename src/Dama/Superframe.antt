-- ===== src/Dama/Superframe.antt =====
-- A superframe from the allocator (src/mac-allocator.cc) to the MACs (src/mac-tdmadama.cc).
use release.Base.{ℕ, ◌+◌, ◌<◌, ◌≤◌, ◌≡◌, Bool, some}
use release.Base.Int.{ℤ}
use release.Allocator.Fit.{max_slots}
use release.Allocator.Assign.{cont_mode}
use release.Allocator.Cycle.{Allocator, Junk, allocation}
use release.Allocator.Cycle.Superframe.{IsSetUp, IsInside, allocation_no_clash}
use release.Dama.{btp_decoding}
use release.Dama.Schedule.{AllApart, btp_decoding-AllApart}

-- In CONT mode, where the frames are inside their arrays and have no more timeslots than the
-- superframe has units of time, each timeslot a whole number of them, each mask is of bytes with
-- room for these, each of the active terminals has a rule that is not "SMALL", and the current
-- terminal is one of these, with no more slots than the burst table has room for, and with more
-- fuel than slots and terminals together, `allocation` ends with a burst table from which each
-- terminal schedules timeslots that do not meet in time; nothing was written past the end of the
-- table or outside of the array of a frame.
pub allocation-btp_decoding :
    (happy : ℕ → ℤ → ℤ → Bool) (fuel : ℕ) (j k l : Junk) (x : Allocator)
    → x.config.mode ≡ cont_mode
    → IsSetUp x
    → x.slot_count ≤ max_slots
    → x.slot_count + x.config.active_node < fuel
    → (y : Allocator) × (allocation happy fuel j k l x ≡ some y)
      × ((t len : ℕ) → AllApart (btp_decoding t len y.core.bdes))
      × IsInside y
allocation-btp_decoding happy fuel j k l x m v s f =
    let (y, e, apart, bound, inside) = allocation_no_clash happy fuel j k l x m v s f in
    (y, e, λ t len. btp_decoding-AllApart t len y.core.bdes apart, inside)
