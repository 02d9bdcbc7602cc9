-- ===== src/Allocator/Setup/Reset.antt =====
-- `AllocatorMFTDMA::reset` of src/mac-allocator.cc.
use release.Base.{ltb, Bool-cases, inl, inr}
use release.Allocator.Fit.{reset_frame}
use release.Allocator.Cycle.Superframe.{IsSetUp, reset_frame-IsSound}
use release.Allocator.Cycle.{Allocator}
use release.Allocator.Setup.{reset}

-- `reset` leaves an allocator that is set up so.
reset-IsSetUp : (x : Allocator) → IsSetUp x → IsSetUp (reset x)
unfolding reset reset_frame
reset-IsSetUp x v = record {
  frames =
      λ i. elim (Bool-cases (ltb i x.nf)) [ inl b ↦ rw b (v.frames i) | inr b ↦ rw b (v.frames i) ];
  arrays = λ i. elim (Bool-cases (ltb i x.nf)) [
    | inl b ↦ rw b (reset_frame-IsSound x.config.masksize (x.core.sf i) (v.arrays i))
    | inr b ↦ rw b (v.arrays i)
  ];
  masks = v.masks;
  room = v.room;
  plain = v.plain;
  current = v.current;
}
