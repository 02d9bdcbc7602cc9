-- ===== src/Base/Words.antt =====
-- Machine words: `unsigned int` of 32 bits and `unsigned char`, whose sums and differences wrap,
-- and the conversion of an `int` to `unsigned int`.
use Prim.Native.Nat.{ℕ, ◌+◌, ◌-◌, ◌*◌, ◌%◌, ◌<◌, ◌≤◌}
use mathlib.Core.Path.{◌≡◌}
use native.Mathlib.Omega.{arith}
use release.Base.Int.{ℤ, pos, negsuc, to_i32, pos_part, neg_part, ◌+ℤ◌}

abbrev pub add32 : ℕ → ℕ → ℕ
add32 a b = (a + b) % 4294967296

abbrev pub sub32 : ℕ → ℕ → ℕ
sub32 a b = (a + 4294967296 - b) % 4294967296

abbrev pub add8 : ℕ → ℕ → ℕ
add8 a b = (a + b) % 256

abbrev pub to_u32 : ℤ → ℕ
to_u32 (pos n) = n % 4294967296
to_u32 (negsuc n) = 4294967295 - n % 4294967296

-- The bit pattern of a product of two words of 32 bits, with a sign or without.
abbrev pub mul32 : ℕ → ℕ → ℕ
mul32 a b = (a * b) % 4294967296

-- `d += r` for an `int` d and an `unsigned int` r.
unfoldable pub add_unsigned : ℤ → ℕ → ℤ
unfolding to_i32
add_unsigned d r = to_i32 (add32 (to_u32 d) r)

-- In the range of `int` the sum is exact.
pub add_unsigned_exact :
    (d : ℤ) (r : ℕ)
    → pos_part d + r < neg_part d + 2147483648
    → neg_part d ≤ pos_part d + r + 2147483648
    → r < 4294967296
    → add_unsigned d r ≡ d +ℤ pos r
unfolding add_unsigned ◌+ℤ◌
add_unsigned_exact d r h l u = ground arith
