-- ===== src/Fullrun/Tree/Order.antt =====
-- The order of the samples in the tree of src/utils/fullrun.c.
use release.Base.{
  ℕ, ◌+◌, ◌≡◌, refl, sym, ap, subst, ◌∙◌, true, false, List, [], ◌∷◌, ◌++◌, All, arith, length,
  Bool-cases, inl, inr,
}
use release.Base.Double.{Double}
use release.Base.Sorting.{insort, insort_before, insort_behind, length-insort, All-insort}
use release.Fullrun.Tree.{Tree, null, node, print_list, insert_sort}

module _ {ℓ} {F : Type ℓ} ⦃d : Double F⦄ where
  -- The values to the left of a node are less than its own, and `count` is their number.
  abbrev pub IsSearch : Tree F → Type 0
  IsSearch null = Unit
  IsSearch (node l v count r) =
      All (λ x. d.lt x v ≡ true) (print_list l)
      × (count ≡ length (print_list l))
      × IsSearch l
      × IsSearch r

  insort_left :
      (v m : F) (xs ys : List F) → d.lt v m ≡ true → insort v (xs ++ m ∷ ys) ≡ insort v xs ++ m ∷ ys
  insort_left v m [] ys h = insort_before v m ys h
  insort_left v m (x ∷ xs) ys h = elim (Bool-cases (d.lt v x)) [
    | inl g ↦
        insort_before v x (xs ++ m ∷ ys) g ∙ ap (λ l. l ++ m ∷ ys) (sym (insort_before v x xs g))
    | inr g ↦
        insort_behind v x (xs ++ m ∷ ys) g
        ∙ ap (λ l. x ∷ l) (insort_left v m xs ys h)
        ∙ ap (λ l. l ++ m ∷ ys) (sym (insort_behind v x xs g))
  ]

  -- Values that are less than one that is not greater are not greater.
  not_less : (v m x : F) → d.lt v m ≡ false → d.lt x m ≡ true → d.lt v x ≡ false
  not_less v m x h g = elim (Bool-cases (d.lt v x)) [
    | inl k ↦ absurd (cc (d.strict.trans v x m k g))
    | inr k ↦ k
  ]

  insort_right :
      (v m : F) (xs ys : List F)
      → d.lt v m ≡ false
      → All (λ x. d.lt x m ≡ true) xs
      → insort v (xs ++ m ∷ ys) ≡ xs ++ m ∷ insort v ys
  insort_right v m [] ys h a = insort_behind v m ys h
  insort_right v m (x ∷ xs) ys h (a, more) =
      insort_behind v x (xs ++ m ∷ ys) (not_less v m x h a)
      ∙ ap (λ l. x ∷ l) (insort_right v m xs ys h more)

  -- The two branches at a node.
  insert_sort_left :
      (v : F) (l : Tree F) (w : F) (count : ℕ) (r : Tree F)
      → d.lt v w ≡ true
      → insert_sort v (node l w count r) ≡ node (insert_sort v l) w (count + 1) r
  unfolding insert_sort
  insert_sort_left v l w count r h = rw (insert_sort, h) refl

  insert_sort_right :
      (v : F) (l : Tree F) (w : F) (count : ℕ) (r : Tree F)
      → d.lt v w ≡ false
      → insert_sort v (node l w count r) ≡ node l w count (insert_sort v r)
  unfolding insert_sort
  insert_sort_right v l w count r h = rw (insert_sort, h) refl

  -- The tree with one value more.
  abbrev pub Grown : F → Tree F → Tree F → Type ℓ
  Grown v t t' = IsSearch t' × (print_list t' ≡ insort v (print_list t))

  -- Insertion into the tree is insertion into the sequence of its values, and keeps its invariant.
  pub insert_sort-insort : (v : F) (t : Tree F) → IsSearch t → Grown v t (insert_sort v t)
  unfolding insert_sort print_list
  insert_sort-insort v null h = ((tt, refl, tt, tt), refl)
  insert_sort-insort v (node l w count r) (less, number, hl, hr) = elim (Bool-cases (d.lt v w)) [
    | inl g ↦
        let (il, el) = insert_sort-insort v l hl in
        subst (Grown v (node l w count r)) (sym (insert_sort_left v l w count r g)) (
          (
            subst (All (λ x. d.lt x w ≡ true)) (sym el)
                (All-insort (λ x. d.lt x w ≡ true) v (print_list l) g less),
            omega (arith, number, ap length el, length-insort v (print_list l)),
            il,
            hr,
          ),
          ap (λ k. k ++ w ∷ print_list r) el
              ∙ sym (insort_left v w (print_list l) (print_list r) g),
        )
    | inr g ↦
        let (ir, er) = insert_sort-insort v r hr in
        subst (Grown v (node l w count r)) (sym (insert_sort_right v l w count r g)) (
          (less, number, hl, ir),
          ap (λ k. print_list l ++ w ∷ k) er
              ∙ sym (insort_right v w (print_list l) (print_list r) g less),
        )
  ]
