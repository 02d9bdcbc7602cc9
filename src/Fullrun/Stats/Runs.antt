-- ===== src/Fullrun/Stats/Runs.antt =====
-- What `save_data` of src/utils/fullrun.c does with the state, run after run.
use release.Base.{
  ℕ, ◌+◌, ◌%◌, ◌<◌, ◌≤◌, ◌≡◌, ◌⊎◌, inl, inr, refl, sym, ap, subst, ◌∙◌, false, ◌||◌, Option, none,
  some, List, [], ◌∷◌, ◌++◌, arith, length, length-append, ltb, ltb→lt, ◌==◌, ==_refl, Bool-cases,
  Option-cases,
}
use release.Base.Double.{Double}
use release.Fullrun.Stats.{
  Column, Settings, State, save_columns, check_end, save_data, collect_as, collect,
}
use release.Fullrun.Stats.History.{RecordedAll, save_columns-Recorded, update_stats-Recorded}

module _ {F : Type 0} ⦃d : Double F⦄ where
  -- What the entries have recorded of the runs, by `cols`. Before the first run they are as
  -- `reset_stats` and an empty tree leave them.
  abbrev pub Holds : List (Column F) → List (List F) → Option ℕ → Type 0
  Holds stats runs none = (runs ≡ []) × ((n : ℕ) → n ≤ length stats → RecordedAll n stats [])
  Holds stats runs (some cols) = RecordedAll cols stats runs

  -- The state after the runs.
  abbrev pub IsHistory : State F → List (List F) → Type 0
  IsHistory s runs = (s.num_samples ≡ length runs) × Holds s.stats runs s.cols

  -- A run has as many outputs as those before; the first has some, and not too many.
  abbrev pub Fits : List (Column F) → List F → Option ℕ → Type 0
  Fits stats smp none = (0 < length smp) × (length smp ≤ length stats)
  Fits stats smp (some cols) = length smp ≡ cols

  abbrev pub Suits : State F → List F → Type 0
  Suits s smp = Fits s.stats smp s.cols

  -- The end of the runs: it is not taken back; it comes at a multiple of `refresh` that is above
  -- both limits, and not before there are more than `min_runs` samples.
  pub record Advances (c : Settings F) (s s' : State F) : Type 0 where
    pub number : s'.num_samples ≡ s.num_samples + 1
    pub stays : s.end_run ≡ false → s'.end_run ≡ false
    pub stops :
        s'.num_samples % c.refresh ≡ 0
        → c.min_runs < s'.num_samples
        → c.num_cycles < s'.num_samples
        → s'.end_run ≡ false
    pub cause : s'.end_run ≡ false → (s.end_run ≡ false) ⊎ (c.min_runs < s'.num_samples)

  -- The same of `check_end`, that leaves the number.
  abbrev Checks : Settings F → State F → State F → Type 0
  Checks c s s' =
      (s'.num_samples ≡ s.num_samples)
      × (s'.cols ≡ s.cols)
      × (s.end_run ≡ false → s'.end_run ≡ false)
      × (c.min_runs < s.num_samples → c.num_cycles < s.num_samples → s'.end_run ≡ false)
      × (s'.end_run ≡ false → (s.end_run ≡ false) ⊎ (c.min_runs < s.num_samples))

  check_end-Checks :
      (c : Settings F) (cols : ℕ) (s : State F) (runs : List (List F))
      → s.num_samples ≡ length runs
      → 0 < s.num_samples
      → RecordedAll cols s.stats runs
      → (s' : State F) × (check_end c cols s ≡ some s')
        × Checks c s s'
        × RecordedAll cols s'.stats runs
  unfolding check_end
  check_end-Checks c cols s runs e more h = elim (Bool-cases (ltb c.min_runs s.num_samples)) [
    | inr g ↦ (
      s,
      rw (check_end, g) refl,
      (refl, refl, λ k. k, λ k l. absurd (ground (arith, g, k)), λ k. inl k),
      h,
    )
    | inl g ↦
        let (stats, converged, f, l, h') =
          update_stats-Recorded c s.num_samples cols s.stats runs e more h in
        let s' : State F = record s { stats = stats } in
        elim (Bool-cases (converged == cols || ltb c.num_cycles s.num_samples)) [
          | inl k ↦ (
            record s' { end_run = false },
            rw (check_end, g, f, k) refl,
            (refl, refl, λ _. refl, λ _ _. refl, λ _. inr (ltb→lt _ _ g)),
            h',
          )
          | inr k ↦ (
            s',
            rw (check_end, g, f, k) refl,
            (refl, refl, λ x. x, λ _ n. absurd (ground (arith, k, n)), λ x. inl x),
            h',
          )
        ]
  ]

  save_data-Advances :
      (c : Settings F) (cols : ℕ) (smp : List F) (s : State F) (runs : List (List F))
      → s.num_samples ≡ length runs
      → length smp ≡ cols
      → RecordedAll cols s.stats runs
      → (s' : State F) × (save_data c cols smp s ≡ some s')
        × Advances c s s'
        × (s'.cols ≡ s.cols)
        × RecordedAll cols s'.stats (runs ++ smp ∷ [])
  unfolding save_data
  save_data-Advances c cols smp s runs e l h =
      let s1 : State F = record s {
        num_samples = s.num_samples + 1;
        stats = save_columns smp s.stats;
      } in
      let number : s1.num_samples ≡ length (runs ++ smp ∷ []) =
        omega (arith, e, length-append runs (smp ∷ [])) in
      let saved : RecordedAll cols s1.stats (runs ++ smp ∷ []) =
        subst (λ n. RecordedAll n s1.stats (runs ++ smp ∷ [])) l
          (save_columns-Recorded smp s.stats runs
            (subst (λ n. RecordedAll n s.stats runs) (sym l) h)) in
      elim (Bool-cases (s1.num_samples % c.refresh == 0)) [
        | inl g ↦
            let (s', f, (n, k, stays, stops, cause), h') =
              check_end-Checks c cols s1 (runs ++ smp ∷ []) number (omega arith) saved in
            (
              s',
              rw (save_data, g) f,
              record {
                number = n;
                stays = stays;
                stops = λ _ a b.
                    stops (subst (λ m. c.min_runs < m) n a) (subst (λ m. c.num_cycles < m) n b);
                cause = λ x. subst (λ m. (s.end_run ≡ false) ⊎ (c.min_runs < m)) (sym n) (cause x);
              },
              k,
              h',
            )
        | inr g ↦ (
          s1,
          rw (save_data, g) refl,
          record {
            number = refl;
            stays = λ x. x;
            stops = λ m _ _. absurd (ground (arith, g, m));
            cause = λ x. inl x;
          },
          refl,
          saved,
        )
      ]

  -- What a run comes to.
  abbrev pub Collected : Settings F → State F → List (List F) → List F → Type 0
  Collected c s runs smp =
      (s' : State F) × (collect c smp s ≡ some s')
      × Advances c s s'
      × (s'.cols ≡ some (length smp))
      × IsHistory s' (runs ++ smp ∷ [])

  collected :
      (c : Settings F) (smp : List F) (s s0 : State F) (runs : List (List F))
      → s0.cols ≡ some (length smp)
      → collect c smp s ≡ save_data c (length smp) smp s0
      → s.num_samples ≡ s0.num_samples
      → s.end_run ≡ s0.end_run
      → s.num_samples ≡ length runs
      → RecordedAll (length smp) s0.stats runs
      → Collected c s runs smp
  collected c smp s s0 runs k f n r e h =
      let (s', g, a, j, h') = save_data-Advances c (length smp) smp s0 runs (sym n ∙ e) refl h in
      (
        s',
        f ∙ g,
        record {
          number = a.number ∙ ap (λ m. m + 1) (sym n);
          stays = λ x. a.stays (sym r ∙ x);
          stops = a.stops;
          cause = λ x. subst (λ b. (b ≡ false) ⊎ (c.min_runs < s'.num_samples)) (sym r) (a.cause x);
        },
        j ∙ k,
        (
          omega (arith, a.number, n, e, length-append runs (smp ∷ [])),
          subst (Holds s'.stats (runs ++ smp ∷ [])) (sym (j ∙ k)) h',
        ),
      )

  collect_first :
      (c : Settings F) (smp : List F) (s : State F)
      → 0 < length smp
      → collect_as none c smp s
        ≡ save_data c (length smp) smp (record s { cols = some (length smp) })
  unfolding collect_as
  collect_first c smp s h =
      let some_out : (length smp == 0) ≡ false = ground (arith, h) in rw some_out refl

  pub collect_later :
      (c : Settings F) (smp : List F) (s : State F)
      → collect_as (some (length smp)) c smp s ≡ save_data c (length smp) smp s
  unfolding collect_as
  collect_later c smp s = rw (==_refl (length smp)) refl

  -- A run with the right number of outputs is recorded: no null pointer is used, the number of
  -- samples grows by one, each entry holds the sums of its outputs or the tree of their sorted
  -- sequence, and the end of the runs is as `Advances` says.
  pub collect-IsHistory :
      (c : Settings F) (smp : List F) (s : State F) (runs : List (List F))
      → IsHistory s runs
      → Suits s smp
      → Collected c s runs smp
  unfolding collect
  collect-IsHistory c smp s runs (e, h) g = elim (Option-cases s.cols) [
    | inl k ↦
        let (none_run, fresh) : Holds s.stats runs none = subst (Holds s.stats runs) k h in
        let (some_out, fit) : Fits s.stats smp none = subst (Fits s.stats smp) k g in
        collected c smp s (record s { cols = some (length smp) }) runs refl
          (ap (λ o. collect_as o c smp s) k ∙ collect_first c smp s some_out) refl refl e
          (subst (RecordedAll (length smp) s.stats) (sym none_run) (fresh (length smp) fit))
    | inr (cols, k) ↦
        let l : length smp ≡ cols = subst (Fits s.stats smp) k g in
        let saved : RecordedAll cols s.stats runs = subst (Holds s.stats runs) k h in
        let at : s.cols ≡ some (length smp) = k ∙ ap (λ n. some n) (sym l) in
        collected c smp s s runs at (ap (λ o. collect_as o c smp s) at ∙ collect_later c smp s) refl
          refl e (subst (λ n. RecordedAll n s.stats runs) (sym l) saved)
  ]
