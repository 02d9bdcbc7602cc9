-- ===== src/Fullrun/Jobs/Ending.antt =====
-- The end of the threads of src/utils/fullrun.c.
use release.Base.{ℕ, ◌+◌, ◌*◌, ◌-◌, ◌<◌, ◌≤◌, ◌≡◌, refl, ap, true, List, [], ◌∷◌, ◌++◌, arith}
use release.Base.Double.{Double}
use release.Fullrun.Stats.{Settings, State}
use release.Fullrun.Stats.Runs.{IsHistory}
use release.Fullrun.Stats.Agreement.{agree_lem}
use release.Fullrun.Jobs.{
  Phase, checking, running, printed, setting, leaving, saving, recording, posting, ended, Program,
  Step, start, finish, print, skip, enter, agrees, quits, leave, locks, saves, posts, Steps, here,
  later, main_loop,
}
use release.Fullrun.Jobs.Bounds.{waiting, sum, sum_at, sum-replicate, sum-ended, most}
use release.Fullrun.Jobs.Work.{IsAtWork, IsAtWork-samples, Ready-at, main_loop-IsAtWork}
use release.Fullrun.Jobs.Invariant.{recorded, Step-IsAtWork}

module _ {F : Type 0} ⦃d : Double F⦄ where
  -- What is left to do: eight units for each sample that may come, and those of the threads.
  abbrev pub units : Settings F → ℕ → Program F → ℕ
  units c n p = 8 * (most c + c.refresh + n - p.shared.num_samples) + sum waiting p.jobs

  fewer :
      (p : Program F) (pre : List (Phase F)) (i j : Phase F) (post : List (Phase F))
      → p.jobs ≡ pre ++ i ∷ post
      → waiting j < waiting i
      → sum waiting (pre ++ j ∷ post) < sum waiting p.jobs
  fewer p pre i j post e l =
      omega (arith, ap (sum waiting) e, sum_at waiting pre i post, sum_at waiting pre j post, l)

  -- Every step is towards the end.
  Step-units :
      (c : Settings F) (n : ℕ) (p q : Program F)
      → 0 < n
      → IsAtWork c n p
      → Step c p q
      → units c n q < units c n p
  Step-units c n p q more w (start pre post e on) =
      omega (arith, fewer p pre checking running post e (omega arith))
  Step-units c n p q more w (finish pre post e off) =
      omega (arith, fewer p pre checking ended post e (omega arith))
  Step-units c n p q more w (print pre post smp e room) =
      omega (arith, fewer p pre running (printed smp) post e (omega arith))
  Step-units c n p q more w (skip pre post smp e same) =
      omega (arith, fewer p pre (printed smp) (saving smp) post e (omega arith))
  Step-units c n p q more w (enter pre post smp m e other f) =
      omega (arith, fewer p pre (printed smp) (setting smp) post e (omega arith))
  Step-units c n p q more w (agrees pre post smp s e f) = omega (
    arith,
    fewer p pre (setting smp) (leaving smp) post e (omega arith),
    ap (λ (r : State F). r.num_samples) (agree_lem smp p.shared s f).0,
  )
  Step-units c n p q more w (quits pre post smp e f) = omega (
    arith,
    ap (sum waiting) e,
    sum_at waiting pre (setting smp) post,
    sum-ended waiting p.jobs refl,
  )
  Step-units c n p q more w (leave pre post smp e) =
      omega (arith, fewer p pre (leaving smp) (saving smp) post e (omega arith))
  Step-units c n p q more w (locks pre post smp m e f) =
      omega (arith, fewer p pre (saving smp) (recording smp) post e (omega arith))
  Step-units c n p q more w (saves pre post smp cols s e k f) =
      let set = Ready-at c n p pre (recording smp) post w e in
      let (a, _, _) = recorded c p.shared s w.runs smp cols w.history set k f in
      omega (
        arith,
        ap (sum waiting) e,
        sum_at waiting pre (recording smp) post,
        sum_at waiting pre posting post,
        a.number,
        IsAtWork-samples c n p more w,
      )
  Step-units c n p q more w (posts pre post e) =
      omega (arith, fewer p pre posting checking post e (omega arith))

  Steps-units :
      (c : Settings F) (n : ℕ) (p : Program F) (k : ℕ) (q : Program F)
      → 0 < n
      → IsAtWork c n p
      → Steps c p k q
      → IsAtWork c n q × (k + units c n q ≤ units c n p)
  Steps-units c n p k q more w here = (w, omega arith)
  Steps-units c n p k q more w (later {n = m} {q = r} steps step) =
      let (v, l) = Steps-units c n p m r more w steps in
      (Step-IsAtWork c n r q more v step, omega (arith, l, Step-units c n r q more v step))

  pub started :
      (c : Settings F) (n k : ℕ) (s : State F) (q : Program F)
      → 0 < n
      → 0 < c.refresh
      → IsHistory s []
      → s.end_run ≡ true
      → Steps c (main_loop n s) k q
      → IsAtWork c n q × (k + units c n q ≤ units c n (main_loop n s))
  started c n k s q more h g e steps =
      Steps-units c n (main_loop n s) k q more (main_loop-IsAtWork c n s h g e) steps

  -- Threads that are started on a state without samples, at least one and with a positive
  -- `refresh`, in whatever order they run: no sequence of steps is longer than eight times the
  -- greater limit, `refresh` and the number of threads together, and nine times the threads; and
  -- never are as many samples recorded as that sum.
  pub threads_end :
      (c : Settings F) (n k : ℕ) (s : State F) (q : Program F)
      → 0 < n
      → 0 < c.refresh
      → IsHistory s []
      → s.end_run ≡ true
      → Steps c (main_loop n s) k q
      → (k ≤ 8 * (most c + c.refresh + n) + 9 * n) × (q.shared.num_samples < most c + c.refresh + n)
  unfolding main_loop
  threads_end c n k s q more h g e steps =
      let (w, l) = started c n k s q more h g e steps in
      (omega (arith, l, sum-replicate {F = F} waiting n), IsAtWork-samples c n q more w)
