-- ===== src/Fullrun/Jobs.antt =====
-- The threads of src/utils/fullrun.c: `num_jobs` of them run `sched_run`, interleaved in any order.
-- Each step is one test or one call of `sched_run` and `save_data`; what stands between `sem_wait`
-- and `sem_post` is one step of the thread that holds `mutex`. `execvp` is taken to succeed, and
-- the command to end, which closes its pipe: then `read` comes to the end and `wait` returns.
pub mod Bounds
pub mod Work
pub mod Invariant
pub mod Ending
pub mod Progress
use release.Base.{
  ℕ, suc, ◌+◌, ◌≤◌, ◌≡◌, true, false, none, some, List, [], ◌∷◌, ◌++◌, map, length, replicate,
}
use release.Base.Double.{Double}
use release.Fullrun.Stats.{Settings, State, differs, agree, save_data}

-- Where a thread stands: before the test of `end_run`; in a run of the command; with the outputs of
-- the run, before the test of their number; with `mutex` before and after `cols` is set; before
-- `save_data` and with `mutex` in it, before and after the outputs are saved; at its end.
pub data Phase (F : Type 0) : Type 0 where
  checking running : Phase F
  printed setting leaving saving recording : List F → Phase F
  posting ended : Phase F

-- `mutex` is the value of the semaphore.
pub record Program (F : Type 0) : Type 0 where
  pub shared : State F
  pub jobs : List (Phase F)
  pub mutex : ℕ

module _ {F : Type 0} ⦃d : Double F⦄ where
  pub data Step (c : Settings F) (p : Program F) : Program F → Type 0 where
    start :
        (pre post : List (Phase F))
        → p.jobs ≡ pre ++ checking ∷ post
        → p.shared.end_run ≡ true
        → Step c p (record p { jobs = pre ++ running ∷ post })
    finish :
        (pre post : List (Phase F))
        → p.jobs ≡ pre ++ checking ∷ post
        → p.shared.end_run ≡ false
        → Step c p (record p { jobs = pre ++ ended ∷ post })
    -- The outputs of a run; `drp` and `stats` have room for them.
    print :
        (pre post : List (Phase F)) (smp : List F)
        → p.jobs ≡ pre ++ running ∷ post
        → length smp ≤ length p.shared.stats
        → Step c p (record p { jobs = pre ++ printed smp ∷ post })
    skip :
        (pre post : List (Phase F)) (smp : List F)
        → p.jobs ≡ pre ++ printed smp ∷ post
        → differs smp p.shared ≡ false
        → Step c p (record p { jobs = pre ++ saving smp ∷ post })
    enter :
        (pre post : List (Phase F)) (smp : List F) (m : ℕ)
        → p.jobs ≡ pre ++ printed smp ∷ post
        → differs smp p.shared ≡ true
        → p.mutex ≡ suc m
        → Step c p (record p { jobs = pre ++ setting smp ∷ post; mutex = m })
    agrees :
        (pre post : List (Phase F)) (smp : List F) (s : State F)
        → p.jobs ≡ pre ++ setting smp ∷ post
        → agree smp p.shared ≡ some s
        → Step c p (record p { shared = s; jobs = pre ++ leaving smp ∷ post })
    -- `exit`, after `sem_post`, ends all threads.
    quits :
        (pre post : List (Phase F)) (smp : List F)
        → p.jobs ≡ pre ++ setting smp ∷ post
        → agree smp p.shared ≡ none
        → Step c p (record p { jobs = map (λ _. ended) p.jobs; mutex = suc p.mutex })
    leave :
        (pre post : List (Phase F)) (smp : List F)
        → p.jobs ≡ pre ++ leaving smp ∷ post
        → Step c p (record p { jobs = pre ++ saving smp ∷ post; mutex = suc p.mutex })
    locks :
        (pre post : List (Phase F)) (smp : List F) (m : ℕ)
        → p.jobs ≡ pre ++ saving smp ∷ post
        → p.mutex ≡ suc m
        → Step c p (record p { jobs = pre ++ recording smp ∷ post; mutex = m })
    saves :
        (pre post : List (Phase F)) (smp : List F) (cols : ℕ) (s : State F)
        → p.jobs ≡ pre ++ recording smp ∷ post
        → p.shared.cols ≡ some cols
        → save_data c cols smp p.shared ≡ some s
        → Step c p (record p { shared = s; jobs = pre ++ posting ∷ post })
    posts :
        (pre post : List (Phase F))
        → p.jobs ≡ pre ++ posting ∷ post
        → Step c p (record p { jobs = pre ++ checking ∷ post; mutex = suc p.mutex })

  -- What `main` starts: `num_jobs` threads and a semaphore of value 1.
  unfoldable pub main_loop : ℕ → State F → Program F
  main_loop num_jobs s = record { shared = s; jobs = replicate num_jobs checking; mutex = 1 }

  -- `n` steps from the first program to the second.
  pub data Steps (c : Settings F) (p : Program F) : ℕ → Program F → Type 0 where
    here : Steps c p 0 p
    later : {n : ℕ} {q r : Program F} → Steps c p n q → Step c q r → Steps c p (suc n) r
