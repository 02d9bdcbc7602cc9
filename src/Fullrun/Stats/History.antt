-- ===== src/Fullrun/Stats/History.antt =====
-- What the statistics of src/utils/fullrun.c hold after some runs.
use release.Base.{
  ℕ, zero, suc, ◌+◌, ◌<◌, ◌≤◌, ◌≡◌, inl, inr, refl, sym, ap, subst, ◌∙◌, Bool, false, some, List,
  [], ◌∷◌, ◌++◌, map, arith, length, Bool-cases, if◌then◌else◌,
}
use release.Base.Int.{ℤ, pos}
use release.Base.Double.{Double}
use release.Fullrun.Tree.{print_list}
use release.Base.Sorting.{insort, sorted, sorted-snoc, length-sorted}
use release.Fullrun.Tree.Order.{IsSearch, insert_sort-insort}
use release.Fullrun.Tree.Lookup.{get_list-get_elem?}
use release.Fullrun.Stats.{
  Kind, mean, percentile, Column, Settings, update_mean, update_percentile, update_between, bounds,
  spread, update_as, save_as, update_column, update_stats, save_column, save_columns,
}

module _ {F : Type 0} ⦃d : Double F⦄ where
  abbrev pub sum_of : F → List F → F
  sum_of acc [] = acc
  sum_of acc (v ∷ vs) = sum_of (d.add acc v) vs

  sum_of-snoc :
      (acc : F) (vs : List F) (v : F) → sum_of acc (vs ++ v ∷ []) ≡ d.add (sum_of acc vs) v
  sum_of-snoc acc [] v = refl
  sum_of-snoc acc (w ∷ vs) v = sum_of-snoc (d.add acc w) vs v

  map-snoc :
      {A : Type 0} (f : List F → A) (runs : List (List F)) (smp : List F)
      → map f (runs ++ smp ∷ []) ≡ map f runs ++ f smp ∷ []
  map-snoc f [] smp = refl
  map-snoc f (r ∷ runs) smp = ap (λ l. f r ∷ l) (map-snoc f runs smp)

  pub length-map_runs :
      {A : Type 0} (f : List F → A) (runs : List (List F)) → length (map f runs) ≡ length runs
  length-map_runs f [] = refl
  length-map_runs f (r ∷ runs) = ap suc (length-map_runs f runs)

  -- An entry has recorded the values: their sums, or the tree of their sorted sequence.
  abbrev pub Records : Kind → Column F → List F → Type 0
  Records mean x vs =
      (x.sum_total ≡ sum_of (d.decimal 0 0) vs)
      × (x.sum_squares ≡ sum_of (d.decimal 0 0) (map (λ v. d.mul v v) vs))
  Records percentile x vs = IsSearch x.data_sort × (print_list x.data_sort ≡ sorted [] vs)

  map_snoc : (f : F → F) (vs : List F) (v : F) → map f (vs ++ v ∷ []) ≡ map f vs ++ f v ∷ []
  map_snoc f [] v = refl
  map_snoc f (w ∷ vs) v = ap (λ l. f w ∷ l) (map_snoc f vs v)

  -- A column with its kind as it stands.
  abbrev pub Recorded : Column F → List F → Type 0
  Recorded x vs = Records x.kind x vs

  save_as-Records :
      (k : Kind) (x : Column F) (vs : List F) (v : F)
      → Records k x vs
      → Records k (save_as k v x) (vs ++ v ∷ [])
  unfolding save_as
  save_as-Records mean x vs v (s, q) = (
    ap (λ k. d.add k v) s ∙ sym (sum_of-snoc (d.decimal 0 0) vs v),
    ap (λ k. d.add k (d.mul v v)) q
        ∙ sym (sum_of-snoc (d.decimal 0 0) (map (λ v. d.mul v v) vs) (d.mul v v))
        ∙ ap (sum_of (d.decimal 0 0)) (sym (map_snoc (λ v. d.mul v v) vs v)),
  )
  save_as-Records percentile x vs v (h, q) =
      let (h', e) = insert_sort-insort v x.data_sort h in
      (h', e ∙ ap (λ l. insort v l) q ∙ sym (sorted-snoc [] vs v))

  kind-save_as : (k : Kind) (x : Column F) (v : F) → (save_as k v x).kind ≡ x.kind
  unfolding save_as
  kind-save_as mean x v = refl
  kind-save_as percentile x v = refl

  save_column-Recorded :
      (x : Column F) (vs : List F) (v : F)
      → Recorded x vs
      → Recorded (save_column v x) (vs ++ v ∷ [])
  unfolding save_column
  save_column-Recorded x vs v h =
      subst (λ k. Records k (save_as x.kind v x) (vs ++ v ∷ [])) (sym (kind-save_as x.kind x v))
        (save_as-Records x.kind x vs v h)

  -- An entry that was updated keeps what it has recorded.
  abbrev Updates : Kind → Settings F → Column F → List F → Type 0
  Updates k c x vs =
      (x' : Column F) × (b : Bool) × (update_as k c (length vs) x ≡ some (x', b))
      × (x'.kind ≡ x.kind)
      × Records k x' vs

  update_between-Updates :
      (c : Settings F) (x : Column F) (vs : List F) (i j : ℤ)
      → 0 < length vs
      → Records percentile x vs
      → (x' : Column F) × (b : Bool) × (update_between c (length vs) x i j ≡ some (x', b))
        × (x'.kind ≡ x.kind)
        × Records percentile x' vs
  unfolding update_between spread
  update_between-Updates c x vs i j more (h, q) =
      let full : length (print_list x.data_sort) ≡ length vs =
        ap length q ∙ length-sorted [] vs ∙ omega arith in
      let (m_min, e, e') = get_list-get_elem? x.data_sort (length vs) i h full more in
      let (m_max, f, f') = get_list-get_elem? x.data_sort (length vs) j h full more in
      (
        (spread c x m_min m_max).0,
        (spread c x m_min m_max).1,
        rw (update_between, e, f) refl,
        refl,
        (h, q),
      )

  update_percentile-Updates :
      (c : Settings F) (x : Column F) (vs : List F)
      → 0 < length vs
      → Records percentile x vs
      → Updates percentile c x vs
  unfolding update_as update_percentile
  update_percentile-Updates c x vs more h =
      elim (Bool-cases (d.lt (d.decimal 5 0) (d.mul (d.of_int (pos (length vs))) c.perc_min))) [
        | inl e ↦
            let (x', b, f, k, g) =
              update_between-Updates c x vs (bounds c (length vs)).0 (bounds c (length vs)).1 more
                h in
            (x', b, rw (update_as, update_percentile, e) f, k, g)
        | inr e ↦ (x, false, rw (update_as, update_percentile, e) refl, refl, h)
      ]

  update_as-Updates :
      (k : Kind) (c : Settings F) (x : Column F) (vs : List F)
      → 0 < length vs
      → Records k x vs
      → Updates k c x vs
  unfolding update_as update_mean
  update_as-Updates mean c x vs more h =
      ((update_mean c (length vs) x).0, (update_mean c (length vs) x).1, refl, refl, h)
  update_as-Updates percentile c x vs more h = update_percentile-Updates c x vs more h

  update_column-Recorded :
      (c : Settings F) (x : Column F) (vs : List F)
      → 0 < length vs
      → Recorded x vs
      → (x' : Column F) × (b : Bool) × (update_column c (length vs) x ≡ some (x', b))
        × Recorded x' vs
  unfolding update_column
  update_column-Recorded c x vs more h =
      let (x', b, e, k, g) = update_as-Updates x.kind c x vs more h in
      (x', b, e, subst (λ k. Records k x' vs) (sym k) g)

  -- The first output of a run, and the others.
  abbrev pub head : List F → F
  head [] = d.decimal 0 0
  head (v ∷ vs) = v

  abbrev pub tail : List F → List F
  tail [] = []
  tail (v ∷ vs) = vs

  -- The first entries have recorded the outputs of the runs, each those at its own place.
  abbrev pub RecordedAll : ℕ → List (Column F) → List (List F) → Type 0
  RecordedAll zero xs runs = Unit
  RecordedAll (suc n) [] runs = ⊥
  RecordedAll (suc n) (x ∷ xs) runs = Recorded x (map head runs) × RecordedAll n xs (map tail runs)

  pub save_columns-Recorded :
      (smp : List F) (xs : List (Column F)) (runs : List (List F))
      → RecordedAll (length smp) xs runs
      → RecordedAll (length smp) (save_columns smp xs) (runs ++ smp ∷ [])
  unfolding save_columns
  save_columns-Recorded [] xs runs h = tt
  save_columns-Recorded (v ∷ vs) [] runs h = h
  save_columns-Recorded (v ∷ vs) (x ∷ xs) runs (h, hs) = (
    subst (Recorded (save_column v x)) (sym (map-snoc head runs (v ∷ vs)))
        (save_column-Recorded x (map head runs) v h),
    subst (RecordedAll (length vs) (save_columns vs xs)) (sym (map-snoc tail runs (v ∷ vs)))
        (save_columns-Recorded vs xs (map tail runs) hs),
  )

  pub update_stats-Recorded :
      (c : Settings F) (n cols : ℕ) (xs : List (Column F)) (runs : List (List F))
      → n ≡ length runs
      → 0 < n
      → RecordedAll cols xs runs
      → (xs' : List (Column F)) × (converged : ℕ) × (update_stats c n cols xs
          ≡ some (xs', converged))
        × (converged ≤ cols)
        × RecordedAll cols xs' runs
  unfolding update_stats
  update_stats-Recorded c n zero xs runs e more h = (xs, 0, refl, omega arith, tt)
  update_stats-Recorded c n (suc cols) [] runs e more h = absurd h
  update_stats-Recorded c n (suc cols) (x ∷ xs) runs e more (h, hs) =
      let number : n ≡ length (map head runs) = e ∙ sym (length-map_runs head runs) in
      let (x', b, f, g) =
        update_column-Recorded c x (map head runs) (omega (arith, number, more)) h in
      let (xs', k, f', l, g') =
        update_stats-Recorded c n cols xs (map tail runs) (e ∙ sym (length-map_runs tail runs)) more
          hs in
      (
        x' ∷ xs',
        if b then k + 1 else k,
        rw (update_stats, subst (λ m. update_column c m x ≡ some (x', b)) (sym number) f, f') refl,
        ground (arith, l),
        (g, g'),
      )
