-- ===== src/Fullrun/Stats/Agreement.antt =====
-- The number of outputs on which the runs of src/utils/fullrun.c agree.
use release.Base.{
  ◌≤◌, ◌≡◌, ◌⊎◌, inl, inr, sym, ap, subst, ◌∙◌, false, none, some, List, arith, length,
}
use release.Base.Double.{Double}
use release.Fullrun.Stats.{Settings, State, save_data, differs, agree, collect_as, collect}
use release.Fullrun.Stats.History.{RecordedAll}
use release.Fullrun.Stats.Runs.{Holds, IsHistory, collect_later}

module _ {F : Type 0} ⦃d : Double F⦄ where
  -- A run whose number of outputs is `cols`.
  pub collect_set :
      (c : Settings F) (smp : List F) (s : State F)
      → s.cols ≡ some (length smp)
      → collect c smp s ≡ save_data c (length smp) smp s
  unfolding collect
  collect_set c smp s k = ap (λ o. collect_as o c smp s) k ∙ collect_later c smp s

  pub differs_lem :
      (smp : List F) (s : State F) → differs smp s ≡ false → s.cols ≡ some (length smp)
  unfolding differs
  differs_lem smp s e = ground (arith, e)

  -- The first number of outputs is kept, and a later one is compared with it.
  pub agree_lem :
      (smp : List F) (s s' : State F)
      → agree smp s ≡ some s'
      → (s' ≡ record s { cols = some (length smp) })
        × ((s.cols ≡ none) ⊎ (s.cols ≡ some (length smp)))
  unfolding agree
  agree_lem smp s s' e = ground (arith, e)

  -- `cols` is set before the first run is recorded.
  pub agreed-IsHistory :
      (smp : List F) (s : State F) (runs : List (List F))
      → IsHistory s runs
      → (s.cols ≡ none) ⊎ (s.cols ≡ some (length smp))
      → (s.cols ≡ none → length smp ≤ length s.stats)
      → IsHistory (record s { cols = some (length smp) }) runs
  agreed-IsHistory smp s runs (e, h) (inl k) fit =
      let (none_run, fresh) : Holds s.stats runs none = subst (Holds s.stats runs) k h in
      (e, subst (RecordedAll (length smp) s.stats) (sym none_run) (fresh (length smp) (fit k)))
  agreed-IsHistory smp s runs (e, h) (inr k) fit = (e, subst (Holds s.stats runs) k h)
