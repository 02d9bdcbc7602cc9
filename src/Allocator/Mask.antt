-- ===== src/Allocator/Mask.antt =====
-- The time mask of a terminal (`Terminal::_mask`): one bit for each unit of time of the superframe.
pub mod Bits
pub mod Slots
use release.Base.{
  ℕ, zero, suc, ◌+◌, ◌*◌, ◌/◌, ◌%◌, ◌^◌, Bool, true, false, not, List, bit_and, bit_or, ◌==◌,
  if◌then◌else◌, get_or, set,
}

-- `_mask`, byte by byte.
abbrev pub Mask : Type 0
Mask = List ℕ

-- `_mask[j1] |= (unsigned char)(1<<j2)` at the bit `b`.
pub set_bit : ℕ → Mask → Mask
set_bit b m = set m (b / 8) (bit_or (get_or m (b / 8) 0) (2 ^ (b % 8)))

-- The test `_mask[j1] & (unsigned char)(1<<j2)` at the bit `b`.
pub has_bit : Mask → ℕ → Bool
has_bit m b = not (bit_and (get_or m (b / 8) 0) (2 ^ (b % 8)) == 0)

-- The loops over `n` bits from `b` on.
pub set_bits : ℕ → ℕ → Mask → Mask
set_bits zero b m = m
set_bits (suc n) b m = set_bits n (b + 1) (set_bit b m)

pub test_bits : ℕ → ℕ → Mask → Bool
test_bits zero b m = true
test_bits (suc n) b m = if has_bit m b then false else test_bits n (b + 1) m

-- `Terminal::setmask` and `Terminal::testmask` for the slot `p` of `fieldsize` bits.
unfoldable pub setmask : ℕ → ℕ → Mask → Mask
unfolding set_bits set_bit
setmask p fieldsize m = set_bits fieldsize (p * fieldsize) m

unfoldable pub testmask : ℕ → ℕ → Mask → Bool
unfolding test_bits has_bit
testmask p fieldsize m = test_bits fieldsize (p * fieldsize) m

-- The loop of `Terminal::reset` over `n` bytes from the byte `i` on.
pub clear_bytes : ℕ → ℕ → Mask → Mask
clear_bytes zero i m = m
clear_bytes (suc n) i m = clear_bytes n (i + 1) (set m i 0)

unfoldable pub reset : ℕ → Mask → Mask
unfolding clear_bytes
reset masksize m = clear_bytes ((masksize + 7) / 8) 0 m
