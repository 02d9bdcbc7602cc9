-- ===== src/Allocator.antt =====
-- The capacity allocator of src/mac-allocator.h and src/mac-allocator.cc.
pub mod Mask
pub mod Fit
pub mod Assign
pub mod Cycle
pub mod Command
pub mod Setup
pub mod Tests
