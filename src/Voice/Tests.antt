-- ===== src/Voice/Tests.antt =====
-- The theorems on src/voicemodel.cc at concrete inputs.
use release.Base.{ℕ, ◌+◌, ◌-◌, ◌/◌, ◌≤◌, ◌≡◌, true, false, List, [], ◌∷◌, refl, arith, ◌==◌}
use release.Base.Int.{pos}
use release.Base.Whole.{whole}
use release.Base.Sorting.{sorted}
use release.Voice.{Voice, Draw, rscore}
use release.Voice.Spurt.{timeouts, advanced, timeouts_spurt}
use release.Voice.Delays.{Arrival, received, loss_ratio-received}
use release.Voice.Score.{IsBest, none_yet, chosen, rscore-IsBest}

abbrev voice : Voice ℕ
voice = record {
  id = 2;
  interval = 3;
  rem = 0;
  running = true;
  seqno = 5;
  sent = 0;
  rx_tot = 0;
  init_seqno = 0;
  current_delay = 0;
  delay = 0;
  dd_buf = λ i. 0;
  rscore = 0;
  mos = 0;
  loss_ratio = 0;
  loss_playout = 0;
  messages = [];
  timers = [];
}

abbrev draw : Draw ℕ
draw = record { det = true; burst_avg = pos 2; burst_value = pos 9; idle_avg = 40; idle_value = 7 }

timeouts_spurt_example :
    timeouts (10 ∷ 53 ∷ 56 ∷ []) draw voice ≡ advanced voice 0 (10 ∷ 53 ∷ 56 ∷ []) (43 ∷ 3 ∷ 3 ∷ [])
unfolding whole
timeouts_spurt_example =
    timeouts_spurt 10 (53 ∷ 56 ∷ []) draw voice refl refl refl (omega arith) refl refl

abbrev packet : ℕ → ℕ → ℕ → Arrival ℕ
packet now tx_time seqno = record {
  now = now;
  hdr = record { id = 2; tx_time = tx_time; seqno = seqno };
}

abbrev arrived : List (Arrival ℕ)
arrived = packet 70 61 9 ∷ packet 60 55 7 ∷ packet 56 53 6 ∷ []

loss_ratio-received_example :
    (sent : ℕ) × ((received arrived voice).loss_ratio ≡ 1 - 3 / sent) × (sent + 6 ≡ 10) × (3 ≤ sent)
unfolding whole
loss_ratio-received_example =
    loss_ratio-received (packet 70 61 9) (packet 60 55 7 ∷ packet 56 53 6 ∷ []) voice refl
      (omega arith, (omega arith, tt))

abbrev listener : Voice ℕ
listener = record voice { rx_tot = 2; dd_buf = λ i. elim (i == 0) [ true ↦ 90 | false ↦ 40 ] }

rscore-IsBest_example :
    IsBest 2 0 (none_yet listener) (sorted [] (90 ∷ 40 ∷ [])) (chosen (rscore listener))
rscore-IsBest_example = rscore-IsBest listener
