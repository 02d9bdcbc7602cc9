-- ===== src/Prio/Chain.antt =====
-- Linked packets as sequences, for src/prio_fid.cc.
use release.Base.{
  ℕ, ◌+◌, ◌≡◌, ◌≢◌, refl, sym, ◌∙◌, true, Option, some, List, [], ◌∷◌, arith, All, update, length,
  if◌then◌else◌, ◌==◌, ==_iff, ==_refl, Bool-cases, inl, inr,
}
use release.Base.Int.{ℤ, ◌≤ℤ◌}
use release.Prio.{goes_before}

-- The links lead from `x` through `xs` to the last packet `t`.
abbrev pub Links : (ℕ → Option ℕ) → ℕ → List ℕ → ℕ → Type 0
Links next x [] t = x ≡ t
Links next x (y ∷ ys) t = (next x ≡ some y) × Links next y ys t

abbrev pub Avoids : ℕ → List ℕ → Type 0
Avoids p xs = All (λ y. y ≢ p) xs

abbrev pub IsDistinct : List ℕ → Type 0
IsDistinct [] = Unit
IsDistinct (x ∷ xs) = Avoids x xs × IsDistinct xs

pub update_ne : {A : Type 0} (next : ℕ → A) (v w : ℕ) (o : A) → w ≢ v → update next v o w ≡ next w
update_ne next v w o n = elim (Bool-cases (v == w)) [
  | inl e ↦ absurd (n (sym ((==_iff v w).0 e)))
  | inr e ↦ rw e refl
]

pub update_self : {A : Type 0} (next : ℕ → A) (v : ℕ) (o : A) → update next v o v ≡ o
update_self next v o = rw (==_refl v) refl

-- A link elsewhere changes nothing.
pub Links-update :
    (next : ℕ → Option ℕ) (x t v : ℕ) (xs : List ℕ) (o : Option ℕ)
    → Avoids v (x ∷ xs)
    → Links next x xs t
    → Links (update next v o) x xs t
Links-update next x t v [] o n h = h
Links-update next x t v (y ∷ ys) o (n, ns) (h, hs) =
    (update_ne next v x o n ∙ h, Links-update next y t v ys o ns hs)

module _ (prio : ℕ → ℤ) where
  -- `p` goes behind the packets whose priority number is not greater, and before the others.
  unfoldable pub insert : ℕ → List ℕ → List ℕ
  insert p [] = p ∷ []
  insert p (x ∷ xs) =
      let rest = insert p xs in if goes_before prio x p then x ∷ rest else p ∷ x ∷ xs

  abbrev pub IsSorted : List ℕ → Type 0
  IsSorted [] = Unit
  IsSorted (x ∷ xs) = All (λ y. prio x ≤ℤ prio y) xs × IsSorted xs

  insert-All :
      (a : ℤ) (p : ℕ) (xs : List ℕ)
      → a ≤ℤ prio p
      → All (λ y. a ≤ℤ prio y) xs
      → All (λ y. a ≤ℤ prio y) (insert p xs)
  unfolding insert
  insert-All a p [] h hs = (h, tt)
  insert-All a p (x ∷ xs) h (k, ks) = elim (Bool-cases (goes_before prio x p)) [
    | inl e ↦ rw e (k, insert-All a p xs h ks)
    | inr e ↦ rw e (h, (k, ks))
  ]

  at_most : (a b : ℤ) (xs : List ℕ) → a ≤ℤ b → All (λ y. b ≤ℤ prio y) xs → All (λ y. a ≤ℤ prio y) xs
  at_most a b [] h hs = tt
  at_most a b (x ∷ xs) h (k, ks) = (omega (arith, h, k), at_most a b xs h ks)

  pub insert-IsSorted : (p : ℕ) (xs : List ℕ) → IsSorted xs → IsSorted (insert p xs)
  unfolding insert
  insert-IsSorted p [] h = (tt, tt)
  insert-IsSorted p (x ∷ xs) (h, hs) = elim (Bool-cases (goes_before prio x p)) [
    | inl e ↦ rw e (insert-All (prio x) p xs (ground (arith, e)) h, insert-IsSorted p xs hs)
    | inr e ↦
        let less : prio p ≤ℤ prio x = ground (arith, e) in
        rw e ((less, at_most (prio p) (prio x) xs less h), (h, hs))
  ]

  -- In a sorted queue no packet comes after one that `p` goes behind.
  pub last_goes_before :
      (next : ℕ → Option ℕ) (p x t : ℕ) (xs : List ℕ)
      → Links next x xs t
      → IsSorted (x ∷ xs)
      → goes_before prio t p ≡ true
      → goes_before prio x p ≡ true
  last_goes_before next p x t [] l h e = rw l e
  last_goes_before next p x t (y ∷ ys) (l, ls) ((h, hs), k) e =
      let later : goes_before prio y p ≡ true = last_goes_before next p y t ys ls k e in
      ground (arith, later, h)

  pub length-insert : (p : ℕ) (xs : List ℕ) → length (insert p xs) ≡ length xs + 1
  unfolding insert
  length-insert p [] = omega arith
  length-insert p (x ∷ xs) = elim (Bool-cases (goes_before prio x p)) [
    | inl e ↦ rw e (omega (arith, length-insert p xs))
    | inr e ↦ rw e (omega arith)
  ]

-- The last packet is one of the packets.
pub last_ne :
    (next : ℕ → Option ℕ) (x t w : ℕ) (xs : List ℕ) → Links next x xs t → Avoids w (x ∷ xs) → w ≢ t
last_ne next x t w [] l (n, ns) e = n (l ∙ sym e)
last_ne next x t w (y ∷ ys) (l, ls) (n, ns) e = last_ne next y t w ys ls ns e
