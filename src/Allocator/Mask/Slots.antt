-- ===== src/Allocator/Mask/Slots.antt =====
-- The slots of a terminal's mask: what `setmask`, `testmask` and `reset` do to it.
use release.Base.{
  ℕ, zero, suc, ◌+◌, ◌*◌, ◌/◌, ◌%◌, ◌<◌, ◌≤◌, ◌≡◌, ◌⊎◌, ◌↔◌, refl, ◌∙◌, Bool, true, false, ◌&&◌,
  ◌||◌, arith, ltb, leb, ◌==◌, get_or, set, length, length-set, get_or-set_self, get_or-set_ne,
  set_ge, get_or_ge, ltb→lt, ltb→le, max, Bool-cases, inl, inr,
}
use release.Allocator.Mask.{
  Mask, set_bit, has_bit, set_bits, test_bits, setmask, testmask, clear_bytes, reset,
}
use release.Allocator.Mask.Bits.{IsMask, set_bit-IsMask, length-set_bit, has_bit-set_bit, zero_byte}

set_bits-IsMask : (n b : ℕ) (m : Mask) → IsMask m → IsMask (set_bits n b m)
unfolding set_bits
set_bits-IsMask zero b m v = v
set_bits-IsMask (suc n) b m v = set_bits-IsMask n (b + 1) (set_bit b m) (set_bit-IsMask b m v)

length-set_bits : (n b : ℕ) (m : Mask) → length (set_bits n b m) ≡ length m
unfolding set_bits
length-set_bits zero b m = refl
length-set_bits (suc n) b m = length-set_bits n (b + 1) (set_bit b m) ∙ length-set_bit b m

abbrev within : ℕ → ℕ → ℕ → Bool
within b n c = leb b c && ltb c (b + n)

has_bit-set_bits :
    (n b c : ℕ) (m : Mask)
    → IsMask m
    → b + n ≤ 8 * length m
    → has_bit (set_bits n b m) c ≡ (within b n c || has_bit m c)
unfolding set_bits
has_bit-set_bits zero b c m v h = ground arith
has_bit-set_bits (suc n) b c m v h =
    has_bit-set_bits n (b + 1) c (set_bit b m) (set_bit-IsMask b m v)
      (omega (arith, length-set_bit b m))
    ∙ ground (arith, has_bit-set_bit b c m v (omega arith))

test_bits_free :
    (n b c : ℕ) (m : Mask) → test_bits n b m ≡ true → b ≤ c → c < b + n → has_bit m c ≡ false
unfolding test_bits
test_bits_free zero b c m t h l = absurd (omega arith)
test_bits_free (suc n) b c m t h l = elim (Bool-cases (b == c)) [
  | inl e ↦ ground arith
  | inr e ↦ ground (arith, test_bits_free n (b + 1) c m)
]

free_test_bits :
    (n b : ℕ) (m : Mask)
    → ((c : ℕ) → b ≤ c → c < b + n → has_bit m c ≡ false)
    → test_bits n b m ≡ true
unfolding test_bits
free_test_bits zero b m h = refl
free_test_bits (suc n) b m h =
    rw (h b (omega arith) (omega arith))
      (free_test_bits n (b + 1) m (λ c l u. h c (omega arith) (omega arith)))

-- The bits of the slot `p` of `w` bits are all set, or all clear.
abbrev pub Covers : Mask → ℕ → ℕ → Type 0
Covers m p w = (c : ℕ) → p * w ≤ c → c < p * w + w → has_bit m c ≡ true

abbrev pub IsFree : Mask → ℕ → ℕ → Type 0
IsFree m p w = (c : ℕ) → p * w ≤ c → c < p * w + w → has_bit m c ≡ false

-- `testmask` succeeds exactly where every bit of the slot is clear.
pub testmask_iff : (p w : ℕ) (m : Mask) → (testmask p w m ≡ true) ↔ IsFree m p w
unfolding testmask
testmask_iff p w m =
    (λ t c l u. test_bits_free w (p * w) c m t l u, λ h. free_test_bits w (p * w) m h)

pub setmask-IsMask : (p w : ℕ) (m : Mask) → IsMask m → IsMask (setmask p w m)
unfolding setmask
setmask-IsMask p w m v = set_bits-IsMask w (p * w) m v

pub length-setmask : (p w : ℕ) (m : Mask) → length (setmask p w m) ≡ length m
unfolding setmask
length-setmask p w m = length-set_bits w (p * w) m

-- In a mask of bytes with room for the slot `p` of `w` bits, `setmask` sets the bits of that slot
-- and leaves every other bit as it was.
pub has_bit-setmask :
    (p w c : ℕ) (m : Mask)
    → IsMask m
    → p * w + w ≤ 8 * length m
    → has_bit (setmask p w m) c ≡ ((leb (p * w) c && ltb c (p * w + w)) || has_bit m c)
unfolding setmask
has_bit-setmask p w c m v h = has_bit-set_bits w (p * w) c m v h

pub setmask-Covers :
    (p w : ℕ) (m : Mask) → IsMask m → p * w + w ≤ 8 * length m → Covers (setmask p w m) p w
setmask-Covers p w m v h c l u = has_bit-setmask p w c m v h ∙ ground arith

pub setmask-Covers_other :
    (p w q x : ℕ) (m : Mask)
    → IsMask m
    → p * w + w ≤ 8 * length m
    → Covers m q x
    → Covers (setmask p w m) q x
setmask-Covers_other p w q x m v h k c l u = has_bit-setmask p w c m v h ∙ ground (arith, k c l u)

-- Two slots of at least one bit do not meet.
abbrev pub Apart : ℕ → ℕ → ℕ → ℕ → Type 0
Apart p w q x = (p * w + w ≤ q * x) ⊎ (q * x + x ≤ p * w)

-- Two bits cannot be the same bit, clear and set.
clash : (m : Mask) (c : ℕ) → has_bit m c ≡ false → has_bit m c ≡ true → ⊥
clash m c h k = cc

-- A slot that `testmask` finds free does not meet a slot that the mask covers.
pub free-Apart :
    (p w q x : ℕ) (m : Mask) → 0 < w → 0 < x → testmask p w m ≡ true → Covers m q x → Apart p w q x
free-Apart p w q x m h k t v = elim (Bool-cases (leb (p * w + w) (q * x))) [
  | inl e ↦ inl (ground (arith, e))
  | inr e ↦ elim (Bool-cases (leb (q * x + x) (p * w))) [
    | inl f ↦ inr (ground (arith, f))
    | inr f ↦
        let c : ℕ = max (p * w) (q * x) in
        let free = (testmask_iff p w m).0 t in
        absurd (
          clash m c (free c (omega arith) (ground (arith, e, f)))
            (v c (omega arith) (ground (arith, e, f))))
  ]
]

clear_bytes_below : (n i k : ℕ) (m : Mask) → k < i → get_or (clear_bytes n i m) k 0 ≡ get_or m k 0
unfolding clear_bytes
clear_bytes_below zero i k m h = refl
clear_bytes_below (suc n) i k m h =
    clear_bytes_below n (i + 1) k (set m i 0) (omega arith)
    ∙ get_or-set_ne m i k 0 0 (λ e. absurd (omega arith))

cleared : (m : Mask) (i : ℕ) → get_or (set m i 0) i 0 ≡ 0
cleared m i = elim (Bool-cases (ltb i (length m))) [
  | inl l ↦ get_or-set_self m i 0 0 (ltb→lt _ _ l)
  | inr g ↦ rw (set_ge m i 0 (ltb→le _ _ g)) (get_or_ge m i 0 (ltb→le _ _ g))
]

clear_bytes_in : (n i k : ℕ) (m : Mask) → i ≤ k → k < i + n → get_or (clear_bytes n i m) k 0 ≡ 0
unfolding clear_bytes
clear_bytes_in zero i k m l u = absurd (omega arith)
clear_bytes_in (suc n) i k m l u = elim (Bool-cases (i == k)) [
  | inl e ↦
      let same : k ≡ i = ground (arith, e) in
      rw same (clear_bytes_below n (i + 1) i (set m i 0) (omega arith) ∙ cleared m i)
  | inr e ↦ clear_bytes_in n (i + 1) k (set m i 0) (ground (arith, e)) (omega arith)
]

clear_bytes-IsMask : (n i : ℕ) (m : Mask) → IsMask m → IsMask (clear_bytes n i m)
unfolding clear_bytes
clear_bytes-IsMask zero i m v = v
clear_bytes-IsMask (suc n) i m v = clear_bytes-IsMask n (i + 1) (set m i 0) (record {
  bytes = λ k. elim (Bool-cases (i == k)) [
    | inl e ↦ let same : k ≡ i = ground (arith, e) in rw (same, cleared m i) (omega arith)
    | inr e ↦ rw (get_or-set_ne m i k 0 0 (ground (arith, e))) (v.bytes k)
  ];
})

pub reset-IsMask : (masksize : ℕ) (m : Mask) → IsMask m → IsMask (reset masksize m)
unfolding reset
reset-IsMask masksize m v = clear_bytes-IsMask ((masksize + 7) / 8) 0 m v

length-clear_bytes : (n i : ℕ) (m : Mask) → length (clear_bytes n i m) ≡ length m
unfolding clear_bytes
length-clear_bytes zero i m = refl
length-clear_bytes (suc n) i m = length-clear_bytes n (i + 1) (set m i 0) ∙ length-set m i 0

pub length-reset : (masksize : ℕ) (m : Mask) → length (reset masksize m) ≡ length m
unfolding reset
length-reset masksize m = length-clear_bytes ((masksize + 7) / 8) 0 m

-- After `Terminal::reset` no bit below `masksize` is set.
pub reset-IsFree : (masksize c : ℕ) (m : Mask) → c < masksize → has_bit (reset masksize m) c ≡ false
unfolding reset has_bit
reset-IsFree masksize c m h =
    rw (clear_bytes_in ((masksize + 7) / 8) 0 (c / 8) m (omega arith) (omega arith))
      (zero_byte (c % 8) (omega arith))
