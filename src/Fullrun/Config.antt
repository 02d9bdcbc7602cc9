-- ===== src/Fullrun/Config.antt =====
-- The configuration of src/utils/fullrun.c: `config_fullrun` on the numbers that are not `double`,
-- `check_range_int`, and the types of the statistics. What libconfig finds in the file, which it has
-- read, is a parameter.
pub mod Missing
use release.Base.{
  ℕ, zero, suc, Bool, true, false, not, ◌&&◌, ◌||◌, Option, none, some, List, [], ◌∷◌,
  if◌then◌else◌,
}
use release.Base.Int.{ℤ, pos, ltb_ℤ}
use release.Fullrun.Stats.{Kind, mean, percentile}

-- The keys of the numbers.
pub data Key : Type 0 where
  num_jobs refresh max_runs min_runs : Key

pub record Config : Type 0 where
  pub num_jobs : ℤ
  pub refresh : ℤ
  pub num_cycles : ℤ
  pub min_runs : ℤ

-- The defaults, with which the program runs without a file.
abbrev pub defaults : Config
defaults = record { num_jobs = pos 16; refresh = pos 20; num_cycles = pos 2000; min_runs = pos 20 }

-- `config_lookup_int`: a key that is missing leaves the variable as it was.
unfoldable pub lookup_int : (Key → Option ℤ) → Key → ℤ → ℤ
lookup_int file key work = elim (file key) [ none ↦ work | some v ↦ v ]

-- The four lookups, all through the variable `work`, which is not initialised.
unfoldable pub override : (Key → Option ℤ) → ℤ → Config → Config
override file work c =
    let w1 = lookup_int file num_jobs work in
    let w2 = lookup_int file refresh w1 in
    let w3 = lookup_int file max_runs w2 in
    let w4 = lookup_int file min_runs w3 in
    record { num_jobs = w1; refresh = w2; num_cycles = w3; min_runs = w4 }

-- `check_range_int`; `false` is the end of the program.
unfoldable pub check_range_int : ℤ → ℤ → ℤ → Bool
check_range_int p a b = not (ltb_ℤ p a) && not (ltb_ℤ b p)

-- The four checks.
unfoldable pub in_range : Config → Bool
in_range c =
    check_range_int c.num_jobs (pos 1) (pos 50)
    && check_range_int c.refresh (pos 1) (pos 200)
    && check_range_int c.num_cycles (pos 1) (pos 1000000)
    && check_range_int c.min_runs (pos 1) (pos 1000000)

-- The numbers of `config_fullrun`, with the file or without; `none` is the end of the program.
unfoldable pub config_fullrun : Option (Key → Option ℤ) → ℤ → Option Config
unfolding override in_range
config_fullrun none work = some defaults
config_fullrun (some file) work =
    if in_range (override file work defaults) then some (override file work defaults) else none

-- The first letters of the entries of `type`; `none` is the end of the program.
pub data Letter : Type 0 where
  a p : Letter
  other : Letter

unfoldable pub read_types : List Letter → Option (List Kind)
read_types [] = some []
read_types (l ∷ ls) = elim l [
  | other ↦ none
  | a ↦ elim (read_types ls) [ none ↦ none | some ks ↦ some (mean ∷ ks) ]
  | p ↦ elim (read_types ls) [ none ↦ none | some ks ↦ some (percentile ∷ ks) ]
]
