-- ===== src/Allocator/Mask/Bits.antt =====
-- One bit of a mask after another was set.
use release.Base.{
  ℕ, zero, suc, ◌*◌, ◌/◌, ◌%◌, ◌^◌, ◌<◌, ◌≡◌, ◌≢◌, refl, Bool, true, false, not, arith, bit_and,
  bit_or, ltb, ◌==◌, if◌then◌else◌, get_or, length, get_or-set_self, get_or-set_ne, set_ge, ltb→lt,
  ltb→le, length-set, ==_iff, Bool-cases, inl, inr,
}
use release.Allocator.Mask.{Mask, set_bit, has_bit}

-- A test that succeeds on the numbers under a bound, by evaluation.
each_under : ℕ → (ℕ → Bool) → Bool
each_under (suc top) test = if test top then each_under top test else false
each_under zero test = true

each_under_lem :
    (bound : ℕ) (test : ℕ → Bool) (k : ℕ) → each_under bound test ≡ true → k < bound → test k ≡ true
unfolding each_under
each_under_lem zero test k passes under = absurd (omega arith)
each_under_lem (suc top) test k passes under = elim (Bool-cases (k == top)) [
  | inl e ↦ rw ((==_iff _ _).0 e) (ground (arith, passes))
  | inr e ↦ ground (arith, passes, each_under_lem top test k)
]

-- What the bit `k` of a byte is when the bit `j` is set.
abbrev agrees : ℕ → ℕ → ℕ → Bool
agrees x j k = bit_and (bit_or x (2 ^ j)) (2 ^ k) == (if j == k then 2 ^ k else bit_and x (2 ^ k))

table : each_under 256 (λ x. each_under 8 (λ j. each_under 8 (λ k. agrees x j k))) ≡ true
unfolding each_under
table = refl

byte_bit :
    (x j k : ℕ)
    → x < 256
    → j < 8
    → k < 8
    → bit_and (bit_or x (2 ^ j)) (2 ^ k) ≡ (if j == k then 2 ^ k else bit_and x (2 ^ k))
byte_bit x j k h l u =
    let rows =
      each_under_lem 256 (λ x. each_under 8 (λ j. each_under 8 (λ k. agrees x j k))) x table h in
    let row = each_under_lem 8 (λ j. each_under 8 (λ k. agrees x j k)) j rows l in
    let cell = each_under_lem 8 (λ k. agrees x j k) k row u in (==_iff _ _).0 cell

range_table : each_under 256 (λ x. each_under 8 (λ j. ltb (bit_or x (2 ^ j)) 256)) ≡ true
unfolding each_under
range_table = refl

byte_range : (x j : ℕ) → x < 256 → j < 8 → bit_or x (2 ^ j) < 256
byte_range x j h l =
    let rows =
      each_under_lem 256 (λ x. each_under 8 (λ j. ltb (bit_or x (2 ^ j)) 256)) x range_table h in
    let cell = each_under_lem 8 (λ j. ltb (bit_or x (2 ^ j)) 256) j rows l in ground (arith, cell)

power_table : each_under 8 (λ k. not (2 ^ k == 0)) ≡ true
unfolding each_under
power_table = refl

power_ne : (k : ℕ) → k < 8 → 2 ^ k ≢ 0
power_ne k u =
    let cell = each_under_lem 8 (λ k. not (2 ^ k == 0)) k power_table u in ground (arith, cell)

-- The bytes of a mask.
pub record IsMask (m : Mask) : Type 0 where
  pub bytes : (i : ℕ) → get_or m i 0 < 256

pub set_bit-IsMask : (b : ℕ) (m : Mask) → IsMask m → IsMask (set_bit b m)
unfolding set_bit
set_bit-IsMask b m v = record {
  bytes = λ i. elim (Bool-cases (b / 8 == i)) [
    | inl t ↦
        let same : b / 8 ≡ i = (==_iff _ _).0 t in
        elim (Bool-cases (ltb (b / 8) (length m))) [
          | inl l ↦
              rw
                (
                  ← same,
                  get_or-set_self m (b / 8) (bit_or (get_or m (b / 8) 0) (2 ^ (b % 8))) 0
                      (ltb→lt _ _ l),
                )
                (byte_range (get_or m (b / 8) 0) (b % 8) (v.bytes (b / 8)) (omega arith))
          | inr g ↦
              rw (set_ge m (b / 8) (bit_or (get_or m (b / 8) 0) (2 ^ (b % 8))) (ltb→le _ _ g))
                (v.bytes i)
        ]
    | inr t ↦
        rw (get_or-set_ne m (b / 8) i (bit_or (get_or m (b / 8) 0) (2 ^ (b % 8))) 0 (ground arith))
          (v.bytes i)
  ];
}

pub length-set_bit : (b : ℕ) (m : Mask) → length (set_bit b m) ≡ length m
unfolding set_bit
length-set_bit b m = length-set m (b / 8) _

same_byte :
    (b c byte : ℕ)
    → c / 8 ≡ b / 8
    → not ((if b % 8 == c % 8 then 2 ^ (c % 8) else bit_and byte (2 ^ (c % 8))) == 0)
      ≡ (if b == c then true else not (bit_and byte (2 ^ (c % 8)) == 0))
same_byte b c byte e = ground (arith, power_ne (c % 8))

-- Setting a bit sets that bit, and leaves the others.
pub has_bit-set_bit :
    (b c : ℕ) (m : Mask)
    → IsMask m
    → b < 8 * length m
    → has_bit (set_bit b m) c ≡ (if b == c then true else has_bit m c)
unfolding has_bit set_bit
has_bit-set_bit b c m v h = elim (Bool-cases (b / 8 == c / 8)) [
  | inl t ↦
      let same : c / 8 ≡ b / 8 = ground arith in
      let byte : ℕ = get_or m (b / 8) 0 in
      rw
        (
          same,
          get_or-set_self m (b / 8) (bit_or byte (2 ^ (b % 8))) 0 (omega arith),
          byte_bit byte (b % 8) (c % 8) (v.bytes (b / 8)) (omega arith) (omega arith),
        )
        (same_byte b c byte same)
  | inr t ↦
      let other : b / 8 ≢ c / 8 = ground arith in
      rw (get_or-set_ne m (b / 8) (c / 8) (bit_or (get_or m (b / 8) 0) (2 ^ (b % 8))) 0 other)
        (ground arith)
]

zero_table : each_under 8 (λ k. bit_and 0 (2 ^ k) == 0) ≡ true
unfolding each_under
zero_table = refl

pub zero_byte : (k : ℕ) → k < 8 → not (bit_and 0 (2 ^ k) == 0) ≡ false
zero_byte k h =
    let cell = each_under_lem 8 (λ k. bit_and 0 (2 ^ k) == 0) k zero_table h in ground (arith, cell)
