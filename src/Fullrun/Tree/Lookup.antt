-- ===== src/Fullrun/Tree/Lookup.antt =====
-- The places of samples in the tree of src/utils/fullrun.c.
use release.Base.{
  ℕ, zero, suc, ◌+◌, ◌-◌, ◌<◌, ◌≤◌, ◌≡◌, refl, sym, ap, ◌∙◌, true, false, Option, none, some, List,
  [], ◌∷◌, ◌++◌, arith, length, Bool-cases, inl, inr, ltb, ltb→lt, ◌==◌, ==_iff, min,
}
use release.Base.Int.{ℤ, pos, negsuc, ltb_ℤ, pos_part}
use release.Base.Double.{Double}
use release.Fullrun.Tree.{Tree, null, node, print_list, insert_sort, get_list, get_list_at}
use release.Base.Sorting.{sorted, sorted-IsSorted, length-sorted, IsSorted}
use release.Fullrun.Tree.Order.{IsSearch, insert_sort-insort}

-- The index that `get_list` comes to.
abbrev pub clamp : ℕ → ℤ → ℕ
clamp n i = min (pos_part i) (n - 1)

further : (n i : ℕ) → suc n + i ≡ suc (n + i)
further n i = omega arith

module _ {ℓ} {F : Type ℓ} where
  abbrev pub get_elem? : List F → ℕ → Option F
  get_elem? [] i = none
  get_elem? (x ∷ xs) zero = some x
  get_elem? (x ∷ xs) (suc i) = get_elem? xs i

  get_elem?-left :
      (xs ys : List F) (i : ℕ) → i < length xs → get_elem? (xs ++ ys) i ≡ get_elem? xs i
  get_elem?-left [] ys i h = absurd (omega (arith, h))
  get_elem?-left (x ∷ xs) ys zero h = refl
  get_elem?-left (x ∷ xs) ys (suc i) h = get_elem?-left xs ys i (omega (arith, h))

  get_elem?-right : (xs ys : List F) (i : ℕ) → get_elem? (xs ++ ys) (length xs + i) ≡ get_elem? ys i
  get_elem?-right [] ys i = ap (get_elem? ys) (omega arith)
  get_elem?-right (x ∷ xs) ys i =
      ap (get_elem? (x ∷ (xs ++ ys))) (further (length xs) i) ∙ get_elem?-right xs ys i

  pub get_elem?_lt : (xs : List F) (i : ℕ) → i < length xs → (v : F) × (get_elem? xs i ≡ some v)
  get_elem?_lt [] i h = absurd (omega (arith, h))
  get_elem?_lt (x ∷ xs) zero h = (x, refl)
  get_elem?_lt (x ∷ xs) (suc i) h = get_elem?_lt xs i (omega (arith, h))

module _ {ℓ} {F : Type ℓ} ⦃d : Double F⦄ where
  get_list_at-own :
      (l : Tree F) (v : F) (count : ℕ) (r : Tree F) (i : ℕ)
      → (i == count) ≡ true
      → get_list_at (node l v count r) i ≡ some v
  unfolding get_list_at
  get_list_at-own l v count r i h = rw (get_list_at, h) refl

  get_list_at-left :
      (l : Tree F) (v : F) (count : ℕ) (r : Tree F) (i : ℕ)
      → (i == count) ≡ false
      → ltb i count ≡ true
      → get_list_at (node l v count r) i ≡ get_list_at l i
  unfolding get_list_at
  get_list_at-left l v count r i h g = rw (get_list_at, h, g) refl

  get_list_at-right :
      (l : Tree F) (v : F) (count : ℕ) (r : Tree F) (i : ℕ)
      → (i == count) ≡ false
      → ltb i count ≡ false
      → get_list_at (node l v count r) i ≡ get_list_at r (i - count - 1)
  unfolding get_list_at
  get_list_at-right l v count r i h g = rw (get_list_at, h, g) refl

  -- The tree gives the values of its sequence by their places.
  get_list_at-get_elem? :
      (t : Tree F) (i : ℕ) → IsSearch t → get_list_at t i ≡ get_elem? (print_list t) i
  unfolding get_list_at print_list
  get_list_at-get_elem? null i h = refl
  get_list_at-get_elem? (node l v count r) i (less, number, hl, hr) =
      let place : (k : ℕ)
          → get_elem? (print_list l ++ v ∷ print_list r) (length (print_list l) + k)
            ≡ get_elem? (v ∷ print_list r) k =
        get_elem?-right (print_list l) (v ∷ print_list r) in
      elim (Bool-cases (i == count)) [
        | inl e ↦
            get_list_at-own l v count r i e
            ∙ sym (place 0)
            ∙ ap (get_elem? (print_list l ++ v ∷ print_list r))
                (omega (arith, number, (==_iff _ _).0 e))
        | inr e ↦ elim (Bool-cases (ltb i count)) [
          | inl g ↦
              get_list_at-left l v count r i e g
              ∙ get_list_at-get_elem? l i hl
              ∙ sym (
                  get_elem?-left (print_list l) (v ∷ print_list r) i
                    (omega (arith, number, ltb→lt _ _ g)))
          | inr g ↦
              let after : count < i = ground (arith, e, g) in
              get_list_at-right l v count r i e g
              ∙ get_list_at-get_elem? r (i - count - 1) hr
              ∙ sym (place (suc (i - count - 1)))
              ∙ ap (get_elem? (print_list l ++ v ∷ print_list r)) (omega (arith, number, after))
        ]
      ]

  get_list-clamp : (t : Tree F) (n : ℕ) (i : ℤ) → 0 < n → get_list n t i ≡ get_list_at t (clamp n i)
  unfolding get_list
  get_list-clamp t n (negsuc k) h = ap (get_list_at t) (omega arith)
  get_list-clamp t n (pos k) h = elim (Bool-cases (ltb_ℤ (pos (n - 1)) (pos k))) [
    | inl g ↦ rw (get_list, g) (ap (get_list_at t) (omega (arith, ltb→lt _ _ g)))
    | inr g ↦
        let low : k ≤ n - 1 = ground (arith, g) in
        rw (get_list, g) (ap (get_list_at t) (omega (arith, low)))
  ]

  -- The tree of values that came one after the other.
  abbrev pub insert_all : Tree F → List F → Tree F
  insert_all t [] = t
  insert_all t (v ∷ vs) = insert_all (insert_sort v t) vs

  insert_all-sorted :
      (t : Tree F) (vs : List F)
      → IsSearch t
      → IsSearch (insert_all t vs) × (print_list (insert_all t vs) ≡ sorted (print_list t) vs)
  insert_all-sorted t [] h = (h, refl)
  insert_all-sorted t (v ∷ vs) h =
      let (g, e) = insert_sort-insort v t h in
      let (k, f) = insert_all-sorted (insert_sort v t) vs g in (k, f ∙ ap (λ l. sorted l vs) e)

  -- In a sound tree of `n` values, at least one, `get_list` gives a value for every index: that of
  -- the in-order sequence at the index, cut off to 0 … n - 1.
  pub get_list-get_elem? :
      (t : Tree F) (n : ℕ) (i : ℤ)
      → IsSearch t
      → length (print_list t) ≡ n
      → 0 < n
      → (v : F) × (get_list n t i ≡ some v) × (get_elem? (print_list t) (clamp n i) ≡ some v)
  get_list-get_elem? t n i h e more =
      let (v, g) = get_elem?_lt (print_list t) (clamp n i) (omega (arith, e, more)) in
      (v, get_list-clamp t n i more ∙ get_list_at-get_elem? t (clamp n i) h ∙ g, g)

  -- For values that were inserted one after the other, at least one, `get_list` gives, for every
  -- index, the value at that index, cut off to the first and the last, of the insertion-sorted list
  -- of the values, which is sorted.
  pub get_list-sorted :
      (vs : List F) (i : ℤ)
      → 0 < length vs
      → IsSorted (sorted [] vs)
        × ((v : F) × (get_list (length vs) (insert_all null vs) i ≡ some v)
            × (get_elem? (sorted [] vs) (clamp (length vs) i) ≡ some v))
  unfolding print_list
  get_list-sorted vs i more =
      let (h, e) = insert_all-sorted null vs tt in
      let (v, f, g) =
        get_list-get_elem? (insert_all null vs) (length vs) i h
          (ap length e ∙ length-sorted [] vs ∙ omega arith) more in
      (sorted-IsSorted [] vs tt, (v, f, ap (λ l. get_elem? l (clamp (length vs) i)) (sym e) ∙ g))
