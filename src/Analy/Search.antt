-- ===== src/Analy/Search.antt =====
-- The loops round the backlog of src/utils/analy.c.
use release.Base.{
  ℕ, zero, suc, ◌+◌, ◌-◌, ◌%◌, ◌<◌, ◌≡◌, refl, sym, ap, ◌∙◌, Bool, true, false, some, arith,
  Bool-cases, inl, inr,
}
use native.Mathlib.Nat.{mod-lt, mod-eq_of_lt, mod-add-mod, add-mod-mod, add-mod_right}
use release.Analy.{seek}

-- The search ends at a place where the test holds.
abbrev pub Stops : ℕ → (ℕ → Bool) → ℕ → ℕ → Type 0
Stops size stop n i = (m : ℕ) × (seek size stop n i ≡ some m) × (m < size) × (stop m ≡ true)

seek_here :
    (size : ℕ) (stop : ℕ → Bool) (n i : ℕ) → stop i ≡ true → seek size stop (suc n) i ≡ some i
unfolding seek
seek_here size stop n i h = rw (seek, h) refl

seek_on :
    (size : ℕ) (stop : ℕ → Bool) (n i : ℕ)
    → stop i ≡ false
    → seek size stop (suc n) i ≡ seek size stop n ((i + 1) % size)
unfolding seek
seek_on size stop n i h = rw (seek, h) refl

step : (size i k : ℕ) → ((i + 1) % size + k) % size ≡ (i + suc k) % size
step size i k = mod-add-mod (i + 1) size k ∙ ap (λ n. n % size) (omega arith)

at_once : (size i : ℕ) → i < size → (i + 0) % size ≡ i
at_once size i h = ap (λ n. n % size) (omega arith) ∙ mod-eq_of_lt h

seek-Stops :
    (size : ℕ) (stop : ℕ → Bool) (n i k : ℕ)
    → i < size
    → k < n
    → stop ((i + k) % size) ≡ true
    → Stops size stop n i
unfolding seek
seek-Stops size stop zero i k h l e = absurd (omega (arith, l))
seek-Stops size stop (suc n) i zero h l e =
    let here : stop i ≡ true = ap stop (sym (at_once size i h)) ∙ e in
    (i, seek_here size stop n i here, h, here)
seek-Stops size stop (suc n) i (suc k) h l e = elim (Bool-cases (stop i)) [
  | inl b ↦ (i, seek_here size stop n i b, h, b)
  | inr b ↦
      let (m, f, low, found) =
        seek-Stops size stop n ((i + 1) % size) k (mod-lt (i + 1) (omega (arith, h)))
          (omega (arith, l)) (ap stop (step size i k) ∙ e) in
      (m, seek_on size stop n i b ∙ f, low, found)
]

-- How far a place is from another.
distance : (size i j : ℕ) → i < size → j < size → (i + (j + (size - i)) % size) % size ≡ j
distance size i j h l =
    add-mod-mod i (j + (size - i)) size
    ∙ ap (λ n. n % size) (omega (arith, h))
    ∙ add-mod_right j size
    ∙ mod-eq_of_lt l

-- A search round all places ends if the test holds at one of them.
pub seek_finds :
    (size : ℕ) (stop : ℕ → Bool) (i j : ℕ)
    → i < size
    → j < size
    → stop j ≡ true
    → Stops size stop size i
seek_finds size stop i j h l e =
    seek-Stops size stop size i ((j + (size - i)) % size) h
      (mod-lt (j + (size - i)) (omega (arith, h))) (ap stop (distance size i j h l) ∙ e)
