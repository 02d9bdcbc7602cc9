-- ===== src/Fullrun/Config/Missing.antt =====
-- The numbers with which src/utils/fullrun.c runs, and keys that its file does not have.
use release.Base.{
  ◌≡◌, refl, sym, ap, ◌∙◌, Bool, true, false, ◌&&◌, Option, none, some, arith, Bool-cases, inl, inr,
  subst, if◌then◌else◌,
}
use mathlib.Core.Option.{some-injective}
use release.Base.Int.{ℤ, pos, ◌≤ℤ◌}
use release.Fullrun.Config.{
  Key, num_jobs, refresh, max_runs, min_runs, Config, defaults, lookup_int, override,
  check_range_int, in_range, config_fullrun,
}

abbrev pub IsBetween : ℤ → ℤ → ℤ → Type 0
IsBetween low p high = (low ≤ℤ p) × (p ≤ℤ high)

abbrev pub InRange : Config → Type 0
InRange c =
    IsBetween (pos 1) c.num_jobs (pos 50)
    × IsBetween (pos 1) c.refresh (pos 200)
    × IsBetween (pos 1) c.num_cycles (pos 1000000)
    × IsBetween (pos 1) c.min_runs (pos 1000000)

range_checked : (p a b : ℤ) → check_range_int p a b ≡ true → IsBetween a p b
unfolding check_range_int
range_checked p a b h = ground (arith, h)

range_passes : (p a b : ℤ) → IsBetween a p b → check_range_int p a b ≡ true
unfolding check_range_int
range_passes p a b h = ground (arith, h)

and_parts : (a b : Bool) → (a && b) ≡ true → (a ≡ true) × (b ≡ true)
and_parts true b h = (refl, h)
and_parts false b h = absurd (cc (h))

in_range-InRange : (c : Config) → in_range c ≡ true → InRange c
unfolding in_range
in_range-InRange c h =
    let b1 : Bool = check_range_int c.num_jobs (pos 1) (pos 50) in
    let b2 : Bool = check_range_int c.refresh (pos 1) (pos 200) in
    let b3 : Bool = check_range_int c.num_cycles (pos 1) (pos 1000000) in
    let b4 : Bool = check_range_int c.min_runs (pos 1) (pos 1000000) in
    let (h', h4) = and_parts (b1 && b2 && b3) b4 h in
    let (h'', h3) = and_parts (b1 && b2) b3 h' in
    let (h1, h2) = and_parts b1 b2 h'' in
    (
      range_checked c.num_jobs (pos 1) (pos 50) h1,
      range_checked c.refresh (pos 1) (pos 200) h2,
      range_checked c.num_cycles (pos 1) (pos 1000000) h3,
      range_checked c.min_runs (pos 1) (pos 1000000) h4,
    )

InRange-in_range : (c : Config) → InRange c → in_range c ≡ true
unfolding in_range
InRange-in_range c (r1, r2, r3, r4) =
    rw
      (
        range_passes c.num_jobs (pos 1) (pos 50) r1,
        range_passes c.refresh (pos 1) (pos 200) r2,
        range_passes c.num_cycles (pos 1) (pos 1000000) r3,
        range_passes c.min_runs (pos 1) (pos 1000000) r4,
      )
      refl

-- The numbers with which the program goes on are in their ranges: 1 to 50 threads, a refresh of 1
-- to 200 runs, and limits of 1 to 1000000 runs.
pub config_fullrun-InRange :
    (file : Option (Key → Option ℤ)) (work : ℤ) (c : Config)
    → config_fullrun file work ≡ some c
    → InRange c
unfolding config_fullrun
config_fullrun-InRange none work c e = subst InRange (some-injective defaults c e) (
  (omega arith, omega arith),
  (omega arith, omega arith),
  (omega arith, omega arith),
  (omega arith, omega arith),
)
config_fullrun-InRange (some file) work c e =
    let found : Config = override file work defaults in
    elim (Bool-cases (in_range found)) [
      | inl g ↦
          let same : config_fullrun (some file) work ≡ some found = rw (config_fullrun, g) refl in
          subst InRange (some-injective found c (sym same ∙ e)) (in_range-InRange found g)
      | inr g ↦
          let ended : config_fullrun (some file) work ≡ none = rw (config_fullrun, g) refl in
          absurd (cc (ended, e))
    ]

found_int :
    (file : Key → Option ℤ) (key : Key) (work v : ℤ)
    → file key ≡ some v
    → lookup_int file key work ≡ v
unfolding lookup_int
found_int file key work v h = rw (lookup_int, h) refl

missing_int :
    (file : Key → Option ℤ) (key : Key) (work : ℤ)
    → file key ≡ none
    → lookup_int file key work ≡ work
unfolding lookup_int
missing_int file key work h = rw (lookup_int, h) refl

overridden :
    (file : Key → Option ℤ) (work a c e : ℤ)
    → file num_jobs ≡ some a
    → file refresh ≡ none
    → file max_runs ≡ some c
    → file min_runs ≡ some e
    → override file work defaults
      ≡ record { num_jobs = a; refresh = a; num_cycles = c; min_runs = e }
unfolding override
overridden file work a c e h1 h2 h3 h4 =
    rw
      (
        override,
        found_int file num_jobs work a h1,
        missing_int file refresh a h2,
        found_int file max_runs a c h3,
        found_int file min_runs c e h4,
      )
      refl

-- A file that gives `num_jobs` and the limits, all in their ranges, but not `refresh`: the program
-- runs with the number of threads as `refresh`, in place of the default 20.
pub config_fullrun_missing :
    (file : Key → Option ℤ) (work a c e : ℤ)
    → file num_jobs ≡ some a
    → file refresh ≡ none
    → file max_runs ≡ some c
    → file min_runs ≡ some e
    → IsBetween (pos 1) a (pos 50)
    → IsBetween (pos 1) c (pos 1000000)
    → IsBetween (pos 1) e (pos 1000000)
    → config_fullrun (some file) work
      ≡ some (record { num_jobs = a; refresh = a; num_cycles = c; min_runs = e })
unfolding config_fullrun
config_fullrun_missing file work a c e h1 h2 h3 h4 r1 r3 r4 =
    let found : Config = record { num_jobs = a; refresh = a; num_cycles = c; min_runs = e } in
    let read : override file work defaults ≡ found = overridden file work a c e h1 h2 h3 h4 in
    let passes : in_range found ≡ true =
      InRange-in_range found (r1, (r1.0, omega (arith, r1.1)), r3, r4) in
    ap (λ k. if in_range k then some k else none) read ∙ rw passes refl
