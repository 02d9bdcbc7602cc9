-- ===== src/Allocator/Setup.antt =====
-- The start of an `AllocatorMFTDMA` of src/mac-allocator.cc: its constructor, `init`, which `attach`
-- calls, the commands of a script that set it up, and `reset`.
pub mod Frames
pub mod Rules
pub mod Ready
pub mod Reset
mod Tests
use release.Base.{ℕ, ◌*◌, Bool, true, ◌&&◌, List, [], ◌∷◌, ltb, if◌then◌else◌}
use release.Base.Int.{ℤ, pos}
use release.Allocator.Fit.{reset_frame}
use release.Allocator.Cycle.{Allocator}
use release.Allocator.Command.{max_term, add_new_frame, new_rule, cra}

-- The constructor, with those of the terminals. What is bound to variables of Tcl, the masks and
-- the frames are those of the memory `x`.
pub new_allocator : Allocator → Allocator
new_allocator x = record x {
  config = record x.config { masksize = 1 };
  core = record x.core { cur_term = 0; tr = λ t. record (x.core.tr t) { rules = [] } };
  cnst_rate = λ t. if ltb t max_term then 0 else x.cnst_rate t;
  reqv_rate = λ t. if ltb t max_term then 0 else x.reqv_rate t;
  reqv_volume = λ t. if ltb t max_term then 0 else x.reqv_volume t;
}

-- `init`, where the MAC counts `n` terminals.
pub init : ℕ → Allocator → Allocator
init n x = record x {
  config = record x.config { active_node = n };
  core = record x.core { deficit = λ t. if ltb t n then pos 0 else x.core.deficit t };
}

-- `AllocatorMFTDMA::reset`, which nothing calls.
pub reset : Allocator → Allocator
unfolding reset_frame
reset x = record x {
  core = record x.core {
    a = λ t. if ltb t x.config.active_node then pos 0 else x.core.a t;
    sf = λ i. if ltb i x.nf then reset_frame (x.core.sf i) else x.core.sf i;
  };
}

-- The commands with their arguments, those that `Allocator.Command` describes.
pub data Setup : Type 0 where
  add_frame : (carriers timeslots burstsize : ℕ) (memory : ℕ → ℕ → ℤ) → Setup
  add_rule : (t : ℕ) (kind : ℤ) (f : ℕ) → Setup
  add_rate : (t : ℤ) (negative : Bool) (bytes : ℕ) → Setup

pub perform : Setup → Allocator → Allocator × Bool
unfolding add_new_frame new_rule cra
perform (add_frame carriers timeslots burstsize memory) x =
    add_new_frame carriers timeslots burstsize memory x
perform (add_rule t kind f) x = new_rule t kind f x
perform (add_rate t negative bytes) x = cra t negative bytes x

-- The commands one after the other; the result tells whether all returned `TCL_OK`.
pub configure : List Setup → Allocator → Allocator × Bool
unfolding perform
configure [] x = (x, true)
configure (c ∷ cs) x = let (y, ok) = perform c x in let (z, oks) = configure cs y in (z, ok && oks)
