-- ===== src/Fullrun.antt =====
-- The program of src/utils/fullrun.c, that runs a simulation in several threads until the
-- confidence intervals of its outputs are small enough.
pub mod Tree
pub mod Stats
pub mod Jobs
pub mod Config
mod Tests
