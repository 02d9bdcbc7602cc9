-- ===== src/Fullrun/Tests.antt =====
-- The theorems on src/utils/fullrun.c at concrete inputs, and runs of the code.
use release.Base.{
  ℕ, zero, suc, ◌+◌, ◌*◌, ◌<◌, ◌≤◌, ◌≡◌, ◌⊎◌, true, Option, none, some, [], ◌∷◌, refl, arith, All,
}
use release.Base.Int.{ℤ, pos}
use release.Base.Whole.{whole}
use release.Fullrun.Tree.{null, node, get_list, print_list}
use release.Base.Sorting.{sorted, IsSorted}
use release.Fullrun.Tree.Lookup.{get_elem?, clamp, insert_all, get_list-sorted}
use release.Fullrun.Stats.{Column, mean, percentile, Settings, State, differs, agree, save_data}
use release.Fullrun.Stats.History.{RecordedAll}
use release.Fullrun.Stats.Runs.{IsHistory, Collected, collect-IsHistory}
use release.Fullrun.Jobs.{
  Phase, Program, Step, Steps, here, later, start, print, enter, agrees, leave, locks, saves,
  main_loop, posting, ended,
}
use release.Fullrun.Jobs.Bounds.{sum, holds}
use release.Fullrun.Jobs.Ending.{threads_end}
use release.Fullrun.Jobs.Progress.{threads_go_on}
use release.Fullrun.Config.{Key, num_jobs, refresh, max_runs, min_runs, Config, config_fullrun}
use release.Fullrun.Config.Missing.{config_fullrun_missing}

get_list-sorted_example :
    IsSorted {F = ℕ} (sorted [] (4 ∷ 9 ∷ 1 ∷ 4 ∷ []))
    × ((v : ℕ) × (get_list 4 (insert_all null (4 ∷ 9 ∷ 1 ∷ 4 ∷ [])) (pos 7) ≡ some v)
        × (get_elem? (sorted [] (4 ∷ 9 ∷ 1 ∷ 4 ∷ [])) (clamp 4 (pos 7)) ≡ some v))
get_list-sorted_example = get_list-sorted (4 ∷ 9 ∷ 1 ∷ 4 ∷ []) (pos 7) (omega arith)

abbrev column : Column ℕ
column = record {
  kind = mean;
  estimate = 0;
  est_error = 0;
  sum_total = 0;
  sum_squares = 0;
  data_sort = null;
}

abbrev settings : Settings ℕ
settings = record {
  max_err = 0;
  q_perc = 3;
  perc = 1;
  perc_var = 1;
  perc_min = 1;
  min_runs = 1;
  num_cycles = 3;
  refresh = 2;
}

abbrev fresh : State ℕ
fresh = record {
  num_samples = 0;
  cols = none;
  stats = column ∷ record column { kind = percentile } ∷ [];
  end_run = true;
}

fresh-Recorded : (n : ℕ) → n ≤ 2 → RecordedAll n fresh.stats []
unfolding print_list whole
fresh-Recorded zero h = tt
fresh-Recorded (suc zero) h = ((refl, refl), tt)
fresh-Recorded (suc (suc zero)) h = ((refl, refl), ((tt, refl), tt))
fresh-Recorded (suc (suc (suc n))) h = absurd (omega (arith, h))

fresh-IsHistory : IsHistory fresh []
fresh-IsHistory = (refl, (refl, fresh-Recorded))

collect-IsHistory_example : Collected settings fresh [] (5 ∷ 6 ∷ [])
collect-IsHistory_example =
    collect-IsHistory settings (5 ∷ 6 ∷ []) fresh [] fresh-IsHistory (omega arith, omega arith)

-- One thread that has run once, and holds `mutex` still.
abbrev agreed : State ℕ
agreed = record fresh { cols = some 2 }

abbrev after : State ℕ
after = record {
  num_samples = 1;
  cols = some 2;
  stats =
      record column { sum_total = 5; sum_squares = 25 }
      ∷ record column { kind = percentile; data_sort = node null 6 0 null }
      ∷ [];
  end_run = true;
}

abbrev once : Program ℕ
once = record { shared = after; jobs = posting ∷ []; mutex = 0 }

steps : Steps settings (main_loop 1 fresh) 7 once
unfolding main_loop differs agree save_data whole
steps =
    let smp = 5 ∷ 6 ∷ [] in
    later
      (later
        (later
          (later
            (later (later (later here (start [] [] refl refl)) (print [] [] smp refl (omega arith)))
              (enter [] [] smp 0 refl refl refl))
            (agrees [] [] smp agreed refl refl))
          (leave [] [] smp refl))
        (locks [] [] smp 0 refl refl))
      (saves [] [] smp 2 after refl refl refl)

threads_end_example : (7 ≤ 8 * (3 + 2 + 1) + 9 * 1) × (1 < 3 + 2 + 1)
threads_end_example =
    threads_end settings 1 7 fresh once (omega arith) (omega arith) fresh-IsHistory refl steps

threads_go_on_example :
    (sum {F = ℕ} holds (posting ∷ []) ≤ 1)
    × (All (λ (j : Phase ℕ). j ≡ ended) (posting ∷ []) ⊎ ((r : Program ℕ) × Step settings once r))
threads_go_on_example =
    threads_go_on settings 1 7 fresh once (omega arith) (omega arith) fresh-IsHistory refl steps

abbrev file : Key → Option ℤ
file num_jobs = some (pos 4)
file refresh = none
file max_runs = some (pos 1000)
file min_runs = some (pos 30)

abbrev read : Config
read = record { num_jobs = pos 4; refresh = pos 4; num_cycles = pos 1000; min_runs = pos 30 }

config_fullrun_missing_example : config_fullrun (some file) (pos 0) ≡ some read
config_fullrun_missing_example =
    config_fullrun_missing file (pos 0) (pos 4) (pos 1000) (pos 30) refl refl refl refl
      (omega arith, omega arith) (omega arith, omega arith) (omega arith, omega arith)
