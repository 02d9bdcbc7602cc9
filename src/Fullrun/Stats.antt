-- ===== src/Fullrun/Stats.antt =====
-- The statistics of src/utils/fullrun.c: `t_distr`, `reset_stats`, `update_stats`, `save_data` and
-- what `sched_run` does with the outputs of a run. Every function here runs as a whole: the code
-- changes the state only while it holds `mutex`.
pub mod History
pub mod Runs
pub mod Agreement
use release.Base.{
  ℕ, mul32, zero, suc, ◌+◌, ◌-◌, ◌*◌, ◌%◌, Bool, true, false, not, ◌||◌, Option, none, some, List,
  [], ◌∷◌, length, ltb, ◌==◌, if◌then◌else◌,
}
use release.Base.Int.{ℤ, pos, to_i32}
use release.Base.Double.{Double}
use release.Fullrun.Tree.{Tree, null, insert_sort, get_list}

-- `type` 0 and 1 of an entry of `stats`.
pub data Kind : Type 0 where
  mean percentile : Kind

-- An entry of `stats`, with the tree of `data_sort` for it.
pub record Column {ℓ} (F : Type ℓ) : Type ℓ where
  pub kind : Kind
  pub estimate : F
  pub est_error : F
  pub sum_total : F
  pub sum_squares : F
  pub data_sort : Tree F

-- What the configuration and `main` set.
pub record Settings {ℓ} (F : Type ℓ) : Type ℓ where
  pub max_err : F
  pub q_perc : F
  pub perc : F
  pub perc_var : F
  pub perc_min : F
  pub min_runs : ℕ
  pub num_cycles : ℕ
  pub refresh : ℕ

-- `cols` is `none` for -1.
pub record State {ℓ} (F : Type ℓ) : Type ℓ where
  pub num_samples : ℕ
  pub cols : Option ℕ
  pub stats : List (Column F)
  pub end_run : Bool

-- `n*n`, a product of `int`s, that wraps where it does not fit.
square : ℕ → ℤ
square n = to_i32 (mul32 n n)

module _ {ℓ} {F : Type ℓ} ⦃d : Double F⦄ where
  abbrev nat : ℕ → F
  nat n = d.of_int (pos n)

  unfoldable pub t_distr : F → ℕ → F
  unfolding square
  t_distr z n =
      if ltb n 2
      then d.decimal 0 0
      else (let upper =
            d.add (d.sub (d.sub (nat n) (d.decimal 15 1)) (d.div (d.decimal 1 1) (nat n)))
              (d.div (d.decimal 5825 4) (d.of_int (square n))) in
          let g = d.div upper (d.of_int (square (n - 1))) in
          d.sqrt (d.sub (d.mul (nat n) (d.exp (d.mul (d.mul z z) g))) (nat n)))

  unfoldable pub reset_column : Column F → Column F
  reset_column c = record c {
    sum_total = d.decimal 0 0;
    sum_squares = d.decimal 0 0;
    estimate = d.decimal 0 0;
    est_error = d.decimal 0 0;
  }

  -- `reset_stats` on the entries of `stats`.
  unfoldable pub reset_stats : List (Column F) → List (Column F)
  unfolding reset_column
  reset_stats [] = []
  reset_stats (c ∷ cs) = reset_column c ∷ reset_stats cs

  -- An entry of type 0, with whether it has converged.
  unfoldable pub update_mean : Settings F → ℕ → Column F → Column F × Bool
  unfolding t_distr
  update_mean c n x =
      let average = d.div x.sum_total (nat n) in
      let var = d.div (d.sub x.sum_squares (d.mul (d.mul (nat n) average) average)) (nat (n - 1)) in
      let stder =
        if d.lt (d.decimal 0 0) var
        then d.mul (t_distr c.q_perc (n - 1)) (d.sqrt (d.div var (nat n)))
        else d.decimal 0 0 in
      let p_err =
        if d.eq (d.abs average) (d.decimal 0 0)
        then d.decimal 0 0
        else d.div stder (d.abs average) in
      (record x { estimate = average; est_error = p_err }, d.lt p_err c.max_err)

  -- The estimate between two samples.
  unfoldable pub spread : Settings F → Column F → F → F → Column F × Bool
  spread c x m_min m_max =
      let m_mid = d.div (d.add m_max m_min) (d.decimal 2 0) in
      let p_err = d.div (d.sub m_max m_min) (d.mul (d.decimal 2 0) (d.abs m_mid)) in
      (record x { estimate = m_mid; est_error = p_err }, d.lt p_err c.max_err)

  -- The same for the samples at two indices; `none` is the use of a null pointer.
  unfoldable pub update_between : Settings F → ℕ → Column F → ℤ → ℤ → Option (Column F × Bool)
  unfolding spread
  update_between c n x i_min i_max = elim (get_list n x.data_sort i_min) [
    | none ↦ none
    | some m_min ↦ elim (get_list n x.data_sort i_max) [
      | none ↦ none
      | some m_max ↦ some (spread c x m_min m_max)
    ]
  ]

  -- `i_min` and `i_max`.
  unfoldable pub bounds : Settings F → ℕ → ℤ × ℤ
  bounds c n =
      let delta = d.mul c.q_perc (d.sqrt (d.mul (nat n) c.perc_var)) in
      let perc_n = d.mul (nat n) c.perc in
      (
        d.trunc (d.sub (d.sub perc_n delta) (d.decimal 15 1)),
        d.trunc (d.add (d.add perc_n delta) (d.decimal 5 1)),
      )

  -- An entry of type 1.
  unfoldable pub update_percentile : Settings F → ℕ → Column F → Option (Column F × Bool)
  unfolding update_between bounds
  update_percentile c n x =
      if d.lt (d.decimal 5 0) (d.mul (nat n) c.perc_min)
      then update_between c n x (bounds c n).0 (bounds c n).1
      else some (x, false)

  -- The two branches on the type of an entry.
  unfoldable pub update_as : Kind → Settings F → ℕ → Column F → Option (Column F × Bool)
  unfolding update_mean update_percentile
  update_as mean c n x = some (update_mean c n x)
  update_as percentile c n x = update_percentile c n x

  unfoldable pub update_column : Settings F → ℕ → Column F → Option (Column F × Bool)
  unfolding update_as
  update_column c n x = update_as x.kind c n x

  -- `update_stats` on the first `cols` entries, with the number of those that have
  -- converged; `none` is also an entry past the end.
  unfoldable pub update_stats : Settings F → ℕ → ℕ → List (Column F) → Option (List (Column F) × ℕ)
  unfolding update_column
  update_stats c n zero stats = some (stats, 0)
  update_stats c n (suc cols) [] = none
  update_stats c n (suc cols) (x ∷ xs) = elim (update_column c n x) [
    | none ↦ none
    | some (x', below) ↦ elim (update_stats c n cols xs) [
      | none ↦ none
      | some (xs', converged) ↦ some (x' ∷ xs', if below then converged + 1 else converged)
    ]
  ]

  -- `save_data` for one entry, by its type.
  unfoldable pub save_as : Kind → F → Column F → Column F
  unfolding insert_sort
  save_as mean v x = record x {
    sum_total = d.add x.sum_total v;
    sum_squares = d.add x.sum_squares (d.mul v v);
  }
  save_as percentile v x = record x { data_sort = insert_sort v x.data_sort }

  unfoldable pub save_column : F → Column F → Column F
  unfolding save_as
  save_column v x = save_as x.kind v x

  unfoldable pub save_columns : List F → List (Column F) → List (Column F)
  unfolding save_column
  save_columns [] xs = xs
  save_columns (v ∷ vs) [] = []
  save_columns (v ∷ vs) (x ∷ xs) = save_column v x ∷ save_columns vs xs

  -- The check of the termination condition.
  unfoldable pub check_end : Settings F → ℕ → State F → Option (State F)
  unfolding update_stats
  check_end c cols s =
      if ltb c.min_runs s.num_samples
      then (elim (update_stats c s.num_samples cols s.stats) [
        | none ↦ none
        | some (stats, converged) ↦
            (let s' : State F = record s { stats = stats } in
              if converged == cols || ltb c.num_cycles s.num_samples
              then some (record s' { end_run = false })
              else some s')
      ])
      else some s

  -- `save_data` on the outputs of a run.
  unfoldable pub save_data : Settings F → ℕ → List F → State F → Option (State F)
  unfolding save_columns check_end
  save_data c cols smp s =
      let s' : State F = record s {
        num_samples = s.num_samples + 1;
        stats = save_columns smp s.stats;
      } in
      if s'.num_samples % c.refresh == 0 then check_end c cols s' else some s'

  -- `num_vals != cols`, which a thread tests without `mutex`, and what it then does while it holds
  -- it; `none` is the end of the program for a wrong number of outputs.
  unfoldable pub differs : List F → State F → Bool
  differs smp s = elim s.cols [ none ↦ true | some cols ↦ not (cols == length smp) ]

  unfoldable pub agree : List F → State F → Option (State F)
  agree smp s =
      let cols : ℕ = elim s.cols [ none ↦ length smp | some cols ↦ cols ] in
      if cols == 0 || not (cols == length smp) then none else some (record s { cols = some cols })

  -- What follows the read of a run's outputs, by `cols`; `none` is also the end of the program for
  -- a wrong number of outputs.
  unfoldable pub collect_as : Option ℕ → Settings F → List F → State F → Option (State F)
  unfolding save_data
  collect_as none c smp s =
      if length smp == 0
      then none
      else save_data c (length smp) smp (record s { cols = some (length smp) })
  collect_as (some cols) c smp s = if cols == length smp then save_data c cols smp s else none

  unfoldable pub collect : Settings F → List F → State F → Option (State F)
  unfolding collect_as
  collect c smp s = collect_as s.cols c smp s
