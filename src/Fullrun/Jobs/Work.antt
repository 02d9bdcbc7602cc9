-- ===== src/Fullrun/Jobs/Work.antt =====
-- A program of src/utils/fullrun.c in the middle of its work.
use release.Base.{
  ℕ, zero, suc, ◌+◌, ◌≤◌, ◌<◌, ◌≡◌, ◌⊎◌, inl, inr, sym, ap, subst, ◌∙◌, true, none, some, List, [],
  ◌∷◌, ◌++◌, arith, length, replicate, All,
}
use native.Mathlib.Nat.{zero-mod}
use release.Base.Double.{Double}
use release.Fullrun.Stats.{Settings, State}
use release.Fullrun.Stats.Runs.{IsHistory}
use release.Fullrun.Jobs.{
  Phase, checking, running, printed, setting, leaving, saving, recording, posting, ended, Program,
  main_loop,
}
use release.Fullrun.Jobs.Bounds.{
  busy, holds, sum, sum_at, length_at, length-replicate, sum-replicate, most, Within,
  Within-samples,
}

module _ {F : Type 0} ⦃d : Double F⦄ where
  -- What is known of the outputs that a thread has.
  abbrev pub Ready : State F → Phase F → Type 0
  Ready s checking = Unit
  Ready s running = Unit
  Ready s (printed smp) = s.cols ≡ none → length smp ≤ length s.stats
  Ready s (setting smp) = s.cols ≡ none → length smp ≤ length s.stats
  Ready s (leaving smp) = s.cols ≡ some (length smp)
  Ready s (saving smp) = s.cols ≡ some (length smp)
  Ready s (recording smp) = s.cols ≡ some (length smp)
  Ready s posting = Unit
  Ready s ended = Unit

  -- A program in the middle of its work, with the runs that were recorded. Either `mutex` is 1, or
  -- one thread holds it.
  pub record IsAtWork (c : Settings F) (n : ℕ) (p : Program F) : Type 0 where
    pub runs : List (List F)
    pub history : IsHistory p.shared runs
    pub jobs : length p.jobs ≡ n
    pub within : Within c n p.shared.num_samples (sum busy p.jobs) p.shared.end_run
    pub mutex : p.mutex + sum holds p.jobs ≡ 1
    pub ready : All (Ready p.shared) p.jobs

  All_at :
      (P : Phase F → Type 0) (pre : List (Phase F)) (i : Phase F) (post : List (Phase F))
      → All P (pre ++ i ∷ post)
      → P i
  All_at P [] i post (h, _) = h
  All_at P (k ∷ pre) i post (_, hs) = All_at P pre i post hs

  All_with :
      (P : Phase F → Type 0) (pre : List (Phase F)) (i j : Phase F) (post : List (Phase F))
      → All P (pre ++ i ∷ post)
      → P j
      → All P (pre ++ j ∷ post)
  All_with P [] i j post (_, hs) g = (g, hs)
  All_with P (k ∷ pre) i j post (h, hs) g = (h, All_with P pre i j post hs g)

  pub All_imp :
      (P Q : Phase F → Type 0) (js : List (Phase F))
      → ((j : Phase F) → P j → Q j)
      → All P js
      → All Q js
  All_imp P Q [] f h = tt
  All_imp P Q (j ∷ js) f (h, hs) = (f j h, All_imp P Q js f hs)

  pub Ready-at :
      (c : Settings F) (n : ℕ) (p : Program F) (pre : List (Phase F)) (i : Phase F)
      (post : List (Phase F))
      → IsAtWork c n p
      → p.jobs ≡ pre ++ i ∷ post
      → Ready p.shared i
  Ready-at c n p pre i post w e =
      All_at (Ready p.shared) pre i post (subst (All (Ready p.shared)) e w.ready)

  pub Ready-with :
      (s : State F) (js pre : List (Phase F)) (i j : Phase F) (post : List (Phase F))
      → js ≡ pre ++ i ∷ post
      → All (Ready s) js
      → Ready s j
      → All (Ready s) (pre ++ j ∷ post)
  Ready-with s js pre i j post e h g = All_with (Ready s) pre i j post (subst (All (Ready s)) e h) g

  -- One thread goes on, and the state that the threads share stays.
  pub moved :
      (c : Settings F) (n : ℕ) (p : Program F) (pre : List (Phase F)) (i j : Phase F)
      (post : List (Phase F)) (m : ℕ)
      → IsAtWork c n p
      → p.jobs ≡ pre ++ i ∷ post
      → Within c n p.shared.num_samples (sum busy (pre ++ j ∷ post)) p.shared.end_run
      → m + holds j ≡ p.mutex + holds i
      → Ready p.shared j
      → IsAtWork c n (record p { jobs = pre ++ j ∷ post; mutex = m })
  moved c n p pre i j post m w e u h g = record {
    runs = w.runs;
    history = w.history;
    jobs = length_at pre j i post ∙ ap length (sym e) ∙ w.jobs;
    within = u;
    mutex =
        omega
          (arith, h, w.mutex, ap (sum holds) e, sum_at holds pre i post, sum_at holds pre j post);
    ready = Ready-with p.shared p.jobs pre i j post e w.ready g;
  }

  same_busy :
      (c : Settings F) (n : ℕ) (p : Program F) (pre : List (Phase F)) (i j : Phase F)
      (post : List (Phase F))
      → IsAtWork c n p
      → p.jobs ≡ pre ++ i ∷ post
      → busy j ≡ busy i
      → Within c n p.shared.num_samples (sum busy (pre ++ j ∷ post)) p.shared.end_run
  same_busy c n p pre i j post w e b =
      subst (λ k. Within c n p.shared.num_samples k p.shared.end_run)
        (ap (sum busy) e ∙ omega (arith, b, sum_at busy pre i post, sum_at busy pre j post))
        w.within

  pub move :
      (c : Settings F) (n : ℕ) (p : Program F) (pre : List (Phase F)) (i j : Phase F)
      (post : List (Phase F)) (m : ℕ)
      → IsAtWork c n p
      → p.jobs ≡ pre ++ i ∷ post
      → busy j ≡ busy i
      → m + holds j ≡ p.mutex + holds i
      → Ready p.shared j
      → IsAtWork c n (record p { jobs = pre ++ j ∷ post; mutex = m })
  move c n p pre i j post m w e b h g =
      moved c n p pre i j post m w e (same_busy c n p pre i j post w e b) h g

  -- Once `cols` is set, it stays.
  kept_cols :
      (s s' : State F) (k l : ℕ)
      → (s.cols ≡ none) ⊎ (s.cols ≡ some k)
      → s'.cols ≡ some k
      → s.cols ≡ some l
      → s'.cols ≡ some l
  kept_cols s s' k l (inl o) e h = absurd (cc (o, h))
  kept_cols s s' k l (inr o) e h = e ∙ sym o ∙ h

  pub kept-Ready :
      (s s' : State F) (k : ℕ)
      → (s.cols ≡ none) ⊎ (s.cols ≡ some k)
      → s'.cols ≡ some k
      → (j : Phase F) → Ready s j
      → Ready s' j
  kept-Ready s s' k o e checking h = tt
  kept-Ready s s' k o e running h = tt
  kept-Ready s s' k o e (printed smp) h = λ f. absurd (cc (e, f))
  kept-Ready s s' k o e (setting smp) h = λ f. absurd (cc (e, f))
  kept-Ready s s' k o e (leaving smp) h = kept_cols s s' k (length smp) o e h
  kept-Ready s s' k o e (saving smp) h = kept_cols s s' k (length smp) o e h
  kept-Ready s s' k o e (recording smp) h = kept_cols s s' k (length smp) o e h
  kept-Ready s s' k o e posting h = tt
  kept-Ready s s' k o e ended h = tt

  -- In a program in the middle of its work, fewer samples were recorded than the greater limit,
  -- `refresh` and the number of threads together.
  pub IsAtWork-samples :
      (c : Settings F) (n : ℕ) (p : Program F)
      → 0 < n
      → IsAtWork c n p
      → p.shared.num_samples < most c + c.refresh + n
  IsAtWork-samples c n p more w =
      Within-samples c n p.shared.num_samples (sum busy p.jobs) p.shared.end_run more w.within

  all-Ready : (s : State F) (n : ℕ) → All (Ready s) (replicate n checking)
  all-Ready s zero = tt
  all-Ready s (suc n) = (tt, all-Ready s n)

  pub main_loop-IsAtWork :
      (c : Settings F) (n : ℕ) (s : State F)
      → 0 < c.refresh
      → IsHistory s []
      → s.end_run ≡ true
      → IsAtWork c n (main_loop n s)
  unfolding main_loop
  main_loop-IsAtWork c n s h g e = record {
    runs = [];
    history = g;
    jobs = length-replicate n checking;
    within =
        subst (Within c n s.num_samples (sum busy (replicate n checking))) (sym e)
          (0, zero-mod c.refresh, omega arith, omega arith, omega (arith, h, g.0));
    mutex = omega (arith, sum-replicate {F = F} holds n);
    ready = all-Ready s n;
  }
