-- ===== src/Base/Sorting.antt =====
-- Sorting by insertion, for the order of `double`.
use Prim.Native.Nat.{suc, ◌+◌}
use mathlib.Core.Path.{◌≡◌, refl, sym, ap, ◌∙◌, subst}
use mathlib.Core.Logic.{inl, inr}
use mathlib.Core.Bool.{true, false}
use mathlib.Core.List.{List, [], ◌∷◌, ◌++◌}
use native.Mathlib.Omega.{arith}
use release.Base.Tests.{Bool-cases}
use release.Base.Lists.{length, All}
use release.Base.Double.{Double}

module _ {ℓ} {F : Type ℓ} ⦃d : Double F⦄ where
  -- The reference: insertion into a list, behind the values that are not greater.
  abbrev pub insort : F → List F → List F
  insort v [] = v ∷ []
  insort v (x ∷ xs) = elim (d.lt v x) [ true ↦ v ∷ x ∷ xs | false ↦ x ∷ insort v xs ]

  -- The values in the order of their arrival, sorted.
  abbrev pub sorted : List F → List F → List F
  sorted acc [] = acc
  sorted acc (v ∷ vs) = sorted (insort v acc) vs

  abbrev pub IsSorted : List F → Type 0
  IsSorted [] = Unit
  IsSorted (x ∷ xs) = All (λ y. d.lt y x ≡ false) xs × IsSorted xs

  pub insort_before : (v x : F) (xs : List F) → d.lt v x ≡ true → insort v (x ∷ xs) ≡ v ∷ x ∷ xs
  insort_before v x xs h = rw (insort, h) refl

  pub insort_behind :
      (v x : F) (xs : List F) → d.lt v x ≡ false → insort v (x ∷ xs) ≡ x ∷ insort v xs
  insort_behind v x xs h = rw (insort, h) refl

  pub length-insort : (v : F) (xs : List F) → length (insort v xs) ≡ suc (length xs)
  length-insort v [] = refl
  length-insort v (x ∷ xs) = elim (Bool-cases (d.lt v x)) [
    | inl h ↦ ap length (insort_before v x xs h)
    | inr h ↦ ap length (insort_behind v x xs h) ∙ ap suc (length-insort v xs)
  ]

  pub All-insort : (P : F → Type 0) (v : F) (xs : List F) → P v → All P xs → All P (insort v xs)
  All-insort P v [] p a = (p, tt)
  All-insort P v (x ∷ xs) p (a, more) = elim (Bool-cases (d.lt v x)) [
    | inl h ↦ subst (All P) (sym (insort_before v x xs h)) (p, (a, more))
    | inr h ↦ subst (All P) (sym (insort_behind v x xs h)) (a, All-insort P v xs p more)
  ]

  -- A value that is less than the first of a sorted list is not greater than the others.
  All-less :
      (v x : F) (xs : List F)
      → d.lt v x ≡ true
      → All (λ y. d.lt y x ≡ false) xs
      → All (λ y. d.lt y v ≡ false) xs
  All-less v x [] h a = tt
  All-less v x (y ∷ xs) h (a, more) = (later, All-less v x xs h more)
    where
      later : d.lt y v ≡ false
      later = elim (Bool-cases (d.lt y v)) [
        | inl k ↦ absurd (cc (d.strict.trans y v x k h))
        | inr k ↦ k
      ]

  insort-IsSorted : (v : F) (xs : List F) → IsSorted xs → IsSorted (insort v xs)
  insort-IsSorted v [] s = (tt, tt)
  insort-IsSorted v (x ∷ xs) (a, s) = elim (Bool-cases (d.lt v x)) [
    | inl h ↦
        let not_after : d.lt x v ≡ false = elim (Bool-cases (d.lt x v)) [
          | inl k ↦ absurd (cc (d.strict.trans v x v h k, d.strict.irrefl v))
          | inr k ↦ k
        ] in
        subst IsSorted (sym (insort_before v x xs h)) ((not_after, All-less v x xs h a), (a, s))
    | inr h ↦
        subst IsSorted (sym (insort_behind v x xs h))
          (All-insort (λ y. d.lt y x ≡ false) v xs h a, insort-IsSorted v xs s)
  ]

  pub sorted-IsSorted : (acc vs : List F) → IsSorted acc → IsSorted (sorted acc vs)
  sorted-IsSorted acc [] s = s
  sorted-IsSorted acc (v ∷ vs) s = sorted-IsSorted (insort v acc) vs (insort-IsSorted v acc s)

  pub length-sorted : (acc vs : List F) → length (sorted acc vs) ≡ length acc + length vs
  length-sorted acc [] = omega arith
  length-sorted acc (v ∷ vs) = omega (arith, length-sorted (insort v acc) vs, length-insort v acc)

  pub sorted-snoc : (acc vs : List F) (v : F) → sorted acc (vs ++ v ∷ []) ≡ insort v (sorted acc vs)
  sorted-snoc acc [] v = refl
  sorted-snoc acc (w ∷ vs) v = sorted-snoc (insort w acc) vs v
