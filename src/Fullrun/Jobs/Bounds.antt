-- ===== src/Fullrun/Jobs/Bounds.antt =====
-- How many samples the threads of src/utils/fullrun.c collect.
use release.Base.{
  ℕ, zero, suc, ◌+◌, ◌%◌, ◌<◌, ◌≤◌, ◌≡◌, inl, inr, refl, sym, ap, subst, ◌∙◌, Bool, true, false,
  List, [], ◌∷◌, ◌++◌, map, ◌*◌, arith, length, length-append, replicate, max, Bool-cases, ltb,
  ltb→lt,
}
use native.Mathlib.Nat.{add-mul-mod_self_left, mul-suc}
use release.Base.Double.{Double}
use release.Fullrun.Stats.{Settings, State}
use release.Fullrun.Stats.Runs.{Advances}
use release.Fullrun.Jobs.{
  Phase, checking, running, printed, setting, leaving, saving, recording, posting, ended,
}

pub length-replicate : {A : Type 0} (n : ℕ) (x : A) → length (replicate n x) ≡ n
length-replicate zero x = refl
length-replicate (suc n) x = ap suc (length-replicate n x)

module _ {F : Type 0} where
  -- The threads that can still bring a sample, those that hold `mutex`, and the steps that a thread
  -- can take until it saves a sample.
  abbrev pub busy : Phase F → ℕ
  busy checking = 0
  busy running = 1
  busy (printed smp) = 1
  busy (setting smp) = 1
  busy (leaving smp) = 1
  busy (saving smp) = 1
  busy (recording smp) = 1
  busy posting = 0
  busy ended = 0

  abbrev pub holds : Phase F → ℕ
  holds checking = 0
  holds running = 0
  holds (printed smp) = 0
  holds (setting smp) = 1
  holds (leaving smp) = 1
  holds (saving smp) = 0
  holds (recording smp) = 1
  holds posting = 1
  holds ended = 0

  abbrev pub waiting : Phase F → ℕ
  waiting checking = 9
  waiting running = 8
  waiting (printed smp) = 7
  waiting (setting smp) = 6
  waiting (leaving smp) = 5
  waiting (saving smp) = 4
  waiting (recording smp) = 3
  waiting posting = 10
  waiting ended = 0

  abbrev pub sum : (Phase F → ℕ) → List (Phase F) → ℕ
  sum f [] = 0
  sum f (j ∷ js) = f j + sum f js

  sum-append : (f : Phase F → ℕ) (xs ys : List (Phase F)) → sum f (xs ++ ys) ≡ sum f xs + sum f ys
  sum-append f [] ys = omega arith
  sum-append f (x ∷ xs) ys = omega (arith, sum-append f xs ys)

  pub sum_at :
      (f : Phase F → ℕ) (pre : List (Phase F)) (j : Phase F) (post : List (Phase F))
      → sum f (pre ++ j ∷ post) ≡ sum f pre + f j + sum f post
  sum_at f pre j post = omega (arith, sum-append f pre (j ∷ post))

  pub length_at :
      (pre : List (Phase F)) (i j : Phase F) (post : List (Phase F))
      → length (pre ++ i ∷ post) ≡ length (pre ++ j ∷ post)
  length_at pre i j post = omega (arith, length-append pre (i ∷ post), length-append pre (j ∷ post))

  busy_one : (j : Phase F) → busy j ≤ 1
  busy_one checking = omega arith
  busy_one running = omega arith
  busy_one (printed smp) = omega arith
  busy_one (setting smp) = omega arith
  busy_one (leaving smp) = omega arith
  busy_one (saving smp) = omega arith
  busy_one (recording smp) = omega arith
  busy_one posting = omega arith
  busy_one ended = omega arith

  pub busy_le : (js : List (Phase F)) → sum busy js ≤ length js
  busy_le [] = omega arith
  busy_le (j ∷ js) = omega (arith, busy_one j, busy_le js)

  abbrev all_checking : ℕ → List (Phase F)
  all_checking n = replicate n checking

  abbrev all_ended : List (Phase F) → List (Phase F)
  all_ended js = map (λ _. ended) js

  -- `f` of `n` threads that are started, and of as many that have ended.
  pub sum-replicate : (f : Phase F → ℕ) (n : ℕ) → sum f (replicate n checking) ≡ f checking * n
  sum-replicate f zero = omega arith
  sum-replicate f (suc n) = omega (arith, sum-replicate f n, mul-suc (f checking) n)

  pub sum-ended :
      (f : Phase F → ℕ) (js : List (Phase F)) → f ended ≡ 0 → sum f (map (λ _. ended) js) ≡ 0
  sum-ended f [] e = refl
  sum-ended f (j ∷ js) e = omega (arith, e, sum-ended f js e)

  pub length-ended : (js : List (Phase F)) → length (all_ended js) ≡ length js
  length-ended [] = refl
  length-ended (j ∷ js) = ap suc (length-ended js)

-- The greater of the two limits.
abbrev pub most : {F : Type 0} → Settings F → ℕ
most c = max c.min_runs c.num_cycles

module _ {F : Type 0} ⦃d : Double F⦄ where
  -- While the runs go on, the last multiple of `refresh` is not above both limits; at the end, each
  -- thread in a run can bring one sample more.
  abbrev pub Within : Settings F → ℕ → ℕ → ℕ → Bool → Type 0
  Within c jobs samples runs true =
      (k : ℕ) × (k % c.refresh ≡ 0) × (k ≤ most c) × (k ≤ samples) × (samples < k + c.refresh)
  Within c jobs samples runs false = samples + runs < most c + c.refresh + jobs

  pub Within-fewer :
      (c : Settings F) (jobs samples a b : ℕ) (e : Bool)
      → a ≤ b
      → Within c jobs samples b e
      → Within c jobs samples a e
  Within-fewer c jobs samples a b true l w = w
  Within-fewer c jobs samples a b false l w = omega (arith, l, w)

  pub Within-samples :
      (c : Settings F) (jobs samples runs : ℕ) (b : Bool)
      → 0 < jobs
      → Within c jobs samples runs b
      → samples < most c + c.refresh + jobs
  Within-samples c jobs samples runs true h (k, m, l, _, u) = omega (arith, h, l, u)
  Within-samples c jobs samples runs false h u = omega (arith, u)

  -- One sample more while the runs go on.
  on :
      (c : Settings F) (jobs runs : ℕ) (s s' : State F)
      → Advances c s s'
      → s'.end_run ≡ true
      → Within c jobs s.num_samples runs true
      → Within c jobs s'.num_samples runs true
  on c jobs runs s s' a e (k, m, l, low, up) =
      elim (Bool-cases (ltb s'.num_samples (k + c.refresh))) [
        | inl g ↦ (k, m, l, omega (arith, low, a.number), ltb→lt _ _ g)
        | inr g ↦
            let at : s'.num_samples ≡ k + c.refresh = ground (arith, g, up, a.number) in
            let next : (k + c.refresh) % c.refresh ≡ 0 =
              ap (λ n. n % c.refresh) (omega arith) ∙ add-mul-mod_self_left k c.refresh 1 ∙ m in
            let whole : s'.num_samples % c.refresh ≡ 0 = ap (λ n. n % c.refresh) at ∙ next in
            let below : s'.num_samples ≤ most c = elim (Bool-cases (ltb (most c) s'.num_samples)) [
              | inr n ↦ ground (arith, n)
              | inl n ↦
                  let over : most c < s'.num_samples = ltb→lt _ _ n in
                  absurd (cc (e, a.stops whole (omega (arith, over)) (omega (arith, over))))
            ] in
            (
              k + c.refresh,
              next,
              omega (arith, below, at),
              omega (arith, at),
              omega (arith, at, up, a.number, low),
            )
      ]

  -- The end of the runs, by the thread that brings the last sample.
  over :
      (c : Settings F) (jobs runs : ℕ) (s s' : State F)
      → Advances c s s'
      → s'.end_run ≡ false
      → runs < jobs
      → Within c jobs s.num_samples (runs + 1) s.end_run
      → Within c jobs s'.num_samples runs false
  over c jobs runs s s' a e h w = elim (Bool-cases s.end_run) [
    | inl g ↦
        let (k, m, l, low, up) : Within c jobs s.num_samples (runs + 1) true =
          subst (Within c jobs s.num_samples (runs + 1)) g w in
        omega (arith, l, up, a.number, h)
    | inr g ↦
        let u : Within c jobs s.num_samples (runs + 1) false =
          subst (Within c jobs s.num_samples (runs + 1)) g w in
        omega (arith, u, a.number)
  ]

  pub reported :
      (c : Settings F) (jobs runs : ℕ) (s s' : State F)
      → Advances c s s'
      → runs < jobs
      → Within c jobs s.num_samples (runs + 1) s.end_run
      → Within c jobs s'.num_samples runs s'.end_run
  reported c jobs runs s s' a h w = elim (Bool-cases s'.end_run) [
    | inr e ↦ subst (Within c jobs s'.num_samples runs) (sym e) (over c jobs runs s s' a e h w)
    | inl e ↦
        let open_before : s.end_run ≡ true = elim (Bool-cases s.end_run) [
          | inl g ↦ g
          | inr g ↦ absurd (cc (e, a.stays g))
        ] in
        subst (Within c jobs s'.num_samples runs) (sym e)
          (on c jobs runs s s' a e (subst (Within c jobs s.num_samples (runs + 1)) open_before w))
  ]
