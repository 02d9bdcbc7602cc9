-- ===== src/Fullrun/Jobs/Progress.antt =====
-- The semaphore of src/utils/fullrun.c.
use release.Base.{
  ℕ, suc, ◌+◌, ◌<◌, ◌≤◌, ◌≡◌, ◌⊎◌, inl, inr, refl, sym, subst, ◌∙◌, ap, true, List, [], ◌∷◌, ◌++◌,
  All, arith, length, Bool-cases, Option-cases,
}
use release.Base.Double.{Double}
use release.Fullrun.Stats.{Settings, State, differs, agree}
use release.Fullrun.Stats.Runs.{Suits, Fits, IsHistory, collect-IsHistory}
use release.Fullrun.Stats.Agreement.{collect_set}
use release.Fullrun.Jobs.{
  Phase, checking, running, printed, setting, leaving, saving, recording, posting, ended, Program,
  Step, start, finish, print, skip, enter, agrees, quits, leave, locks, saves, posts, Steps,
  main_loop,
}
use release.Fullrun.Jobs.Bounds.{holds, waiting, sum, sum_at}
use release.Fullrun.Jobs.Work.{IsAtWork, Ready-at}
use release.Fullrun.Jobs.Ending.{started}

module _ {F : Type 0} where
  -- A thread with a property, with those before and after it.
  abbrev pub At : (Phase F → Type 0) → List (Phase F) → Type 0
  At P js =
      (pre : List (Phase F)) × (i : Phase F) × (post : List (Phase F)) × (js ≡ pre ++ i ∷ post)
      × P i

  later_at : (P : Phase F → Type 0) (j : Phase F) (js : List (Phase F)) → At P js → At P (j ∷ js)
  later_at P j js (pre, i, post, e, h) = (j ∷ pre, i, post, ap (λ l. j ∷ l) e, h)

  holds_cases : (j : Phase F) → (holds j ≡ 0) ⊎ (holds j ≡ 1)
  holds_cases checking = inl refl
  holds_cases running = inl refl
  holds_cases (printed smp) = inl refl
  holds_cases (setting smp) = inr refl
  holds_cases (leaving smp) = inr refl
  holds_cases (saving smp) = inl refl
  holds_cases (recording smp) = inr refl
  holds_cases posting = inr refl
  holds_cases ended = inl refl

  ended_or_not : (j : Phase F) → (j ≡ ended) ⊎ (0 < waiting j)
  ended_or_not checking = inr (omega arith)
  ended_or_not running = inr (omega arith)
  ended_or_not (printed smp) = inr (omega arith)
  ended_or_not (setting smp) = inr (omega arith)
  ended_or_not (leaving smp) = inr (omega arith)
  ended_or_not (saving smp) = inr (omega arith)
  ended_or_not (recording smp) = inr (omega arith)
  ended_or_not posting = inr (omega arith)
  ended_or_not ended = inl refl

  holds-waiting : (j : Phase F) → holds j ≡ 1 → 0 < waiting j
  holds-waiting j h = elim (ended_or_not j) [ inr l ↦ l | inl e ↦ absurd (cc (ap holds e, h)) ]

  -- The thread that holds `mutex`, if one does.
  holder : (js : List (Phase F)) → (sum holds js ≡ 0) ⊎ At (λ i. holds i ≡ 1) js
  holder [] = inl refl
  holder (j ∷ js) = elim (holds_cases j) [
    | inr h ↦ inr ([], j, js, refl, h)
    | inl h ↦ elim (holder js) [
      | inl k ↦ inl (omega (arith, h, k))
      | inr a ↦ inr (later_at (λ i. holds i ≡ 1) j js a)
    ]
  ]

  -- A thread that has not ended.
  left : (js : List (Phase F)) → All (λ j. j ≡ ended) js ⊎ At (λ i. 0 < waiting i) js
  left [] = inl tt
  left (j ∷ js) = elim (ended_or_not j) [
    | inr h ↦ inr ([], j, js, refl, h)
    | inl h ↦ elim (left js) [
      | inl k ↦ inl (h, k)
      | inr a ↦ inr (later_at (λ i. 0 < waiting i) j js a)
    ]
  ]

module _ {F : Type 0} ⦃d : Double F⦄ where
  -- A thread with its outputs goes on to the block on `cols`, or past it.
  test_left :
      (c : Settings F) (p : Program F) (pre post : List (Phase F)) (smp : List F) (m : ℕ)
      → p.jobs ≡ pre ++ printed smp ∷ post
      → p.mutex ≡ suc m
      → (q : Program F) × Step c p q
  test_left c p pre post smp m e f = elim (Bool-cases (differs smp p.shared)) [
    | inl h ↦ (_, enter pre post smp m e h f)
    | inr h ↦ (_, skip pre post smp e h)
  ]

  block_left :
      (c : Settings F) (p : Program F) (pre post : List (Phase F)) (smp : List F)
      → p.jobs ≡ pre ++ setting smp ∷ post
      → (q : Program F) × Step c p q
  block_left c p pre post smp e = elim (Option-cases (agree smp p.shared)) [
    | inl h ↦ (_, quits pre post smp e h)
    | inr (s, h) ↦ (_, agrees pre post smp s e h)
  ]

  -- No null pointer keeps a thread from saving its outputs.
  save_left :
      (c : Settings F) (n : ℕ) (p : Program F) (pre post : List (Phase F)) (smp : List F)
      → IsAtWork c n p
      → p.jobs ≡ pre ++ recording smp ∷ post
      → (q : Program F) × Step c p q
  save_left c n p pre post smp w e =
      let set = Ready-at c n p pre (recording smp) post w e in
      let fit : Suits p.shared smp = subst (Fits p.shared.stats smp) (sym set) refl in
      let (s, f, _, _, _) = collect-IsHistory c smp p.shared w.runs w.history fit in
      (_, saves pre post smp (length smp) s e set (sym (collect_set c smp p.shared set) ∙ f))

  check_left :
      (c : Settings F) (p : Program F) (pre post : List (Phase F))
      → p.jobs ≡ pre ++ checking ∷ post
      → (q : Program F) × Step c p q
  check_left c p pre post e = elim (Bool-cases p.shared.end_run) [
    | inl h ↦ (_, start pre post e h)
    | inr h ↦ (_, finish pre post e h)
  ]

  -- The holder of `mutex` can go on, and so can every thread while nobody holds it.
  step_left :
      (c : Settings F) (n : ℕ) (p : Program F) (pre : List (Phase F)) (i : Phase F)
      (post : List (Phase F))
      → IsAtWork c n p
      → p.jobs ≡ pre ++ i ∷ post
      → 0 < waiting i
      → p.mutex + holds i ≡ 1
      → (q : Program F) × Step c p q
  step_left c n p pre checking post w e h m = check_left c p pre post e
  step_left c n p pre running post w e h m = (_, print pre post [] e (omega arith))
  step_left c n p pre (printed smp) post w e h m = test_left c p pre post smp 0 e (omega (arith, m))
  step_left c n p pre (setting smp) post w e h m = block_left c p pre post smp e
  step_left c n p pre (leaving smp) post w e h m = (_, leave pre post smp e)
  step_left c n p pre (saving smp) post w e h m = (_, locks pre post smp 0 e (omega (arith, m)))
  step_left c n p pre (recording smp) post w e h m = save_left c n p pre post smp w e
  step_left c n p pre posting post w e h m = (_, posts pre post e)
  step_left c n p pre ended post w e h m = absurd (omega (arith, h))

  going_on :
      (c : Settings F) (n : ℕ) (p : Program F)
      → IsAtWork c n p
      → All (λ j. j ≡ ended) p.jobs ⊎ ((q : Program F) × Step c p q)
  going_on c n p w = elim (holder p.jobs) [
    | inr (pre, i, post, e, h) ↦
        let one : p.mutex + holds i ≡ 1 =
          omega (arith, h, w.mutex, ap (sum holds) e, sum_at holds pre i post) in
        inr (step_left c n p pre i post w e (holds-waiting i h) one)
    | inl k ↦ elim (left p.jobs) [
      | inl x ↦ inl x
      | inr (pre, i, post, e, h) ↦ inr (
          step_left c n p pre i post w e h
            (omega (arith, k, w.mutex, ap (sum holds) e, sum_at holds pre i post)))
    ]
  ]

  -- Threads that are started on a state without samples, at least one and with a positive
  -- `refresh`, in whatever order they run and whatever the runs print: at most one thread holds
  -- `mutex` at a time; and all threads have ended, or one of them can take another step.
  pub threads_go_on :
      (c : Settings F) (n k : ℕ) (s : State F) (q : Program F)
      → 0 < n
      → 0 < c.refresh
      → IsHistory s []
      → s.end_run ≡ true
      → Steps c (main_loop n s) k q
      → (sum holds q.jobs ≤ 1) × (All (λ j. j ≡ ended) q.jobs ⊎ ((r : Program F) × Step c q r))
  threads_go_on c n k s q more h g e steps =
      let (w, _) = started c n k s q more h g e steps in (omega (arith, w.mutex), going_on c n q w)
