-- ===== src/Fullrun/Jobs/Invariant.antt =====
-- Every step of the threads of src/utils/fullrun.c keeps the program in the middle of its work.
use release.Base.{
  ℕ, suc, ◌+◌, ◌<◌, ◌≡◌, ◌⊎◌, inr, sym, ap, subst, ◌∙◌, refl, true, none, some, List, [], ◌∷◌, ◌++◌,
  arith, length, map, All,
}
use mathlib.Core.Option.{some-injective}
use release.Base.Double.{Double}
use release.Fullrun.Stats.{Settings, State, save_data, collect}
use release.Fullrun.Stats.Runs.{Suits, Fits, IsHistory, Advances, collect-IsHistory}
use release.Fullrun.Stats.Agreement.{collect_set, differs_lem, agree_lem, agreed-IsHistory}
use release.Fullrun.Jobs.{
  Phase, checking, running, printed, setting, leaving, saving, recording, posting, ended, Program,
  Step, start, finish, print, skip, enter, agrees, quits, leave, locks, saves, posts,
}
use release.Fullrun.Jobs.Work.{
  Ready, IsAtWork, All_imp, Ready-at, Ready-with, moved, move, kept-Ready,
}
use release.Fullrun.Jobs.Bounds.{
  busy, holds, sum, sum_at, length_at, busy_le, sum-ended, length-ended, Within, Within-fewer,
  reported,
}

module _ {F : Type 0} ⦃d : Double F⦄ where
  -- What `save_data` does, while `cols` is the number of outputs.
  pub recorded :
      (c : Settings F) (s s' : State F) (runs : List (List F)) (smp : List F) (cols : ℕ)
      → IsHistory s runs
      → s.cols ≡ some (length smp)
      → s.cols ≡ some cols
      → save_data c cols smp s ≡ some s'
      → Advances c s s' × IsHistory s' (runs ++ smp ∷ []) × (s'.cols ≡ some (length smp))
  recorded c s s' runs smp cols h k l e =
      let number : cols ≡ length smp = some-injective cols (length smp) (sym l ∙ k) in
      let fit : Suits s smp = subst (Fits s.stats smp) (sym k) refl in
      let (s1, f, a, j, h') = collect-IsHistory c smp s runs h fit in
      let whole : collect c smp s ≡ some s' =
        collect_set c smp s k ∙ ap (λ n. save_data c n smp s) (sym number) ∙ e in
      let same : s1 ≡ s' = some-injective s1 s' (sym f ∙ whole) in
      (
        subst (Advances c s) same a,
        subst (λ q. IsHistory q (runs ++ smp ∷ [])) same h',
        subst (λ (q : State F). q.cols ≡ some (length smp)) same j,
      )

  agreed-IsAtWork :
      (c : Settings F) (n : ℕ) (p : Program F) (pre post : List (Phase F)) (smp : List F)
      → IsAtWork c n p
      → p.jobs ≡ pre ++ setting smp ∷ post
      → (p.shared.cols ≡ none) ⊎ (p.shared.cols ≡ some (length smp))
      → IsAtWork c n (record p {
        shared = record p.shared { cols = some (length smp) };
        jobs = pre ++ leaving smp ∷ post;
      })
  agreed-IsAtWork c n p pre post smp w e o =
      let s' : State F = record p.shared { cols = some (length smp) } in
      let on =
        move c n p pre (setting smp) (setting smp) post p.mutex w e refl refl
          (Ready-at c n p pre (setting smp) post w e) in
      let same = Ready-at c n p pre (setting smp) post w e in
      record {
        runs = w.runs;
        history = agreed-IsHistory smp p.shared w.runs w.history o same;
        jobs = length_at pre (leaving smp) (setting smp) post ∙ on.jobs;
        within =
            subst (λ k. Within c n p.shared.num_samples k p.shared.end_run)
              (omega
                (arith, sum_at busy pre (setting smp) post, sum_at busy pre (leaving smp) post))
              on.within;
        mutex = omega (
          arith,
          on.mutex,
          sum_at holds pre (setting smp) post,
          sum_at holds pre (leaving smp) post,
        );
        ready =
            Ready-with s' (pre ++ setting smp ∷ post) pre (setting smp) (leaving smp) post refl
              (All_imp (Ready p.shared) (Ready s') (pre ++ setting smp ∷ post)
                (kept-Ready p.shared s' (length smp) o refl) on.ready)
              refl;
      }

  saved-IsAtWork :
      (c : Settings F) (n : ℕ) (p : Program F) (pre post : List (Phase F)) (smp : List F) (cols : ℕ)
      (s : State F)
      → 0 < n
      → IsAtWork c n p
      → p.jobs ≡ pre ++ recording smp ∷ post
      → p.shared.cols ≡ some cols
      → save_data c cols smp p.shared ≡ some s
      → IsAtWork c n (record p { shared = s; jobs = pre ++ posting ∷ post })
  saved-IsAtWork c n p pre post smp cols s more w e k f =
      let set = Ready-at c n p pre (recording smp) post w e in
      let (a, h, j) = recorded c p.shared s w.runs smp cols w.history set k f in
      let rest : ℕ = sum busy (pre ++ posting ∷ post) in
      let one_more : sum busy p.jobs ≡ rest + 1 = omega (
        arith,
        ap (sum busy) e,
        sum_at busy pre (recording smp) post,
        sum_at busy pre posting post,
      ) in
      record {
        runs = w.runs ++ smp ∷ [];
        history = h;
        jobs = length_at pre posting (recording smp) post ∙ ap length (sym e) ∙ w.jobs;
        within =
            reported c n rest p.shared s a (omega (arith, one_more, busy_le p.jobs, w.jobs))
              (subst (λ k. Within c n p.shared.num_samples k p.shared.end_run) one_more w.within);
        mutex = omega (
          arith,
          w.mutex,
          ap (sum holds) e,
          sum_at holds pre (recording smp) post,
          sum_at holds pre posting post,
        );
        ready =
            Ready-with s p.jobs pre (recording smp) posting post e
              (All_imp (Ready p.shared) (Ready s) p.jobs
                (kept-Ready p.shared s (length smp) (inr set) j) w.ready)
              tt;
      }

  ended-Ready : (s : State F) (js : List (Phase F)) → All (Ready s) (map (λ _. ended) js)
  ended-Ready s [] = tt
  ended-Ready s (j ∷ js) = (tt, ended-Ready s js)

  -- `exit` with `mutex` held by the thread that calls it.
  ended-IsAtWork :
      (c : Settings F) (n : ℕ) (p : Program F) (pre post : List (Phase F)) (smp : List F)
      → IsAtWork c n p
      → p.jobs ≡ pre ++ setting smp ∷ post
      → IsAtWork c n (record p { jobs = map (λ _. ended) p.jobs; mutex = suc p.mutex })
  ended-IsAtWork c n p pre post smp w e = record {
    runs = w.runs;
    history = w.history;
    jobs = length-ended p.jobs ∙ w.jobs;
    within =
        Within-fewer c n p.shared.num_samples (sum busy (map (λ _. ended) p.jobs)) (sum busy p.jobs)
          p.shared.end_run (omega (arith, sum-ended busy p.jobs refl)) w.within;
    mutex = omega (
      arith,
      w.mutex,
      ap (sum holds) e,
      sum_at holds pre (setting smp) post,
      sum-ended holds p.jobs refl,
    );
    ready = ended-Ready p.shared p.jobs;
  }

  -- The test of `end_run` goes well.
  started-IsAtWork :
      (c : Settings F) (n : ℕ) (p : Program F) (pre post : List (Phase F))
      → IsAtWork c n p
      → p.jobs ≡ pre ++ checking ∷ post
      → p.shared.end_run ≡ true
      → IsAtWork c n (record p { jobs = pre ++ running ∷ post })
  started-IsAtWork c n p pre post w e on =
      moved c n p pre checking running post p.mutex w e
        (subst (Within c n p.shared.num_samples (sum busy (pre ++ running ∷ post))) (sym on)
          (subst (Within c n p.shared.num_samples (sum busy p.jobs)) on w.within))
        refl tt

  pub Step-IsAtWork :
      (c : Settings F) (n : ℕ) (p q : Program F)
      → 0 < n
      → IsAtWork c n p
      → Step c p q
      → IsAtWork c n q
  Step-IsAtWork c n p q more w (start pre post e on) = started-IsAtWork c n p pre post w e on
  Step-IsAtWork c n p q more w (finish pre post e off) =
      move c n p pre checking ended post p.mutex w e refl refl tt
  Step-IsAtWork c n p q more w (print pre post smp e room) =
      move c n p pre running (printed smp) post p.mutex w e refl refl (λ _. room)
  Step-IsAtWork c n p q more w (skip pre post smp e same) =
      move c n p pre (printed smp) (saving smp) post p.mutex w e refl refl
        (differs_lem smp p.shared same)
  Step-IsAtWork c n p q more w (enter pre post smp m e other f) =
      move c n p pre (printed smp) (setting smp) post m w e refl (omega (arith, f))
        (Ready-at c n p pre (printed smp) post w e)
  Step-IsAtWork c n p q more w (agrees pre post smp s e f) =
      let (same, o) = agree_lem smp p.shared s f in
      subst (λ s'. IsAtWork c n (record p { shared = s'; jobs = pre ++ leaving smp ∷ post }))
        (sym same) (agreed-IsAtWork c n p pre post smp w e o)
  Step-IsAtWork c n p q more w (quits pre post smp e f) = ended-IsAtWork c n p pre post smp w e
  Step-IsAtWork c n p q more w (leave pre post smp e) =
      move c n p pre (leaving smp) (saving smp) post (suc p.mutex) w e refl (omega arith)
        (Ready-at c n p pre (leaving smp) post w e)
  Step-IsAtWork c n p q more w (locks pre post smp m e f) =
      move c n p pre (saving smp) (recording smp) post m w e refl (omega (arith, f))
        (Ready-at c n p pre (saving smp) post w e)
  Step-IsAtWork c n p q more w (saves pre post smp cols s e k f) =
      saved-IsAtWork c n p pre post smp cols s more w e k f
  Step-IsAtWork c n p q more w (posts pre post e) =
      move c n p pre posting checking post (suc p.mutex) w e refl (omega arith) tt
