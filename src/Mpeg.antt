-- ===== src/Mpeg.antt =====
-- The MPE/ULE link layer of src/mpeg-encap.h and src/mpeg-encap.cc: the search for the cell that is
-- being filled for an address. Addresses are taken to be non-negative.
pub mod Probe
pub mod Sender
pub mod Receiver
pub mod Link
pub mod RoundTrip
mod Tests
use release.Base.{ℕ, zero, suc, ◌+◌, ◌%◌, Bool, true, false, Option, none, some, ◌==◌}

abbrev pub n_queues : ℕ
n_queues = 100

-- A buffer of cells, by the `addr_` of the cell at each place.
abbrev pub Buffer : Type 0
Buffer = ℕ → Option ℕ

-- The `do … while (k != l)` loop of `get_queue` over `n` places from `l` on; `none` is the call of
-- `abort`.
unfoldable pub probe : ℕ → Buffer → ℕ → ℕ → Option ℕ
probe zero buffer addr l = none
probe (suc n) buffer addr l = elim (buffer l) [
  | none ↦ some l
  | some a ↦ elim (a == addr) [ true ↦ some l | false ↦ probe n buffer addr ((l + 1) % n_queues) ]
]

unfoldable pub get_queue : Buffer → ℕ → Option ℕ
unfolding probe
get_queue buffer addr = probe n_queues buffer addr (addr % n_queues)
