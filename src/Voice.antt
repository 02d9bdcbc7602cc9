-- ===== src/Voice.antt =====
-- The voice source and sink of src/voicemodel.cc: `Voice`. Random values, the clock and the agent
-- are parameters; `sort` of the standard library is sorting by insertion.
pub mod Spurt
pub mod Delays
pub mod Score
mod Tests
use release.Base.{
  ℕ, zero, suc, ◌+◌, ◌-◌, ◌%◌, Bool, true, false, List, [], ◌∷◌, ◌++◌, length, update, get_or, min,
  ◌==◌, to_u32, sub32, if◌then◌else◌,
}
use release.Base.Int.{ℤ, pos, ◌+ℤ◌, ◌-ℤ◌}
use release.Base.Double.{Double}
use release.Base.Sorting.{sorted}

abbrev pub max_d_samp : ℕ
max_d_samp = 1000

-- `hdr_voice`.
pub record HdrVoice (F : Type 0) : Type 0 where
  pub id : ℕ
  pub tx_time : F
  pub seqno : ℕ

-- `burst` is the length of the next burst, as an `int`, and `idle` the idle time before it: their
-- averages with `det_`, or random values.
pub record Draw (F : Type 0) : Type 0 where
  pub det : Bool
  pub burst_avg : ℤ
  pub burst_value : ℤ
  pub idle_avg : F
  pub idle_value : F

-- `current_delay` is `_delay`; `messages` are those given to the agent, and `timers` the times for
-- which the timer was set.
pub record Voice (F : Type 0) : Type 0 where
  pub id : ℕ
  pub interval : F
  pub rem : ℕ
  pub running : Bool
  pub seqno : ℕ
  pub sent : ℕ
  pub rx_tot : ℕ
  pub init_seqno : ℕ
  pub current_delay : F
  pub delay : F
  pub dd_buf : ℕ → F
  pub rscore : F
  pub mos : F
  pub loss_ratio : F
  pub loss_playout : F
  pub messages : List (HdrVoice F)
  pub timers : List F

-- What `rscore` chooses: `delay_`, `rscore_` and `loss_playout_`.
pub record Best (F : Type 0) : Type 0 where
  pub delay : F
  pub rscore : F
  pub loss_playout : F

-- The places of a buffer from `i` on.
abbrev pub entries : {F : Type 0} → (ℕ → F) → ℕ → ℕ → List F
entries f i zero = []
entries f i (suc n) = f i ∷ entries f (i + 1) n

-- `tx_est`: how many packets were sent, by the sequence numbers.
unfoldable pub tx_est : ℕ → ℕ → ℤ
tx_est init_seqno seqno = (pos seqno -ℤ pos init_seqno) +ℤ pos 1

module _ {F : Type 0} ⦃d : Double F⦄ where
  unfoldable pub reset : Voice F → Voice F
  reset v = record v { current_delay = d.decimal 0 0; sent = 0; rx_tot = 0 }

  -- `init`, less the random variable and the type of the agent's packets.
  unfoldable pub init : Voice F → Voice F
  unfolding reset
  init v = reset (record v { rem = 0 })

  -- The state after `next_interval`, and the interval.
  unfoldable pub next_interval : Draw F → Voice F → Voice F × F
  next_interval r v =
      if v.rem == 0
      then (
        record v {
          rem = sub32 (to_u32 ((if r.det then r.burst_avg else r.burst_value) +ℤ pos 1)) 1;
        },
        d.add v.interval (if r.det then r.idle_avg else r.idle_value),
      )
      else (record v { rem = v.rem - 1 }, v.interval)

  -- The parts of `timeout`: the packet, and the timer for the next one.
  unfoldable pub send_packet : F → Voice F → Voice F
  send_packet now v = record v {
    sent = v.sent + 1;
    seqno = v.seqno + 1;
    messages = v.messages ++ record { id = v.id; tx_time = now; seqno = v.seqno } ∷ [];
  }

  unfoldable pub set_timer : Voice F × F → Voice F
  set_timer (v, t) = if d.lt (d.decimal 0 0) t then record v { timers = v.timers ++ t ∷ [] } else v

  unfoldable pub timeout : F → Draw F → Voice F → Voice F
  unfolding send_packet next_interval set_timer
  timeout now r v = if v.running then set_timer (next_interval r (send_packet now v)) else v

  unfoldable pub process_data : F → HdrVoice F → Voice F → Voice F
  unfolding tx_est
  process_data now hv v =
      let delay = d.mul (d.sub now hv.tx_time) (d.decimal 1000 0) in
      let first = if v.rx_tot + 1 == 1 then hv.seqno else v.init_seqno in
      record v {
        current_delay = delay;
        dd_buf = update v.dd_buf (v.rx_tot % max_d_samp) delay;
        rx_tot = v.rx_tot + 1;
        init_seqno = first;
        loss_ratio =
            d.sub (d.decimal 1 0)
              (d.div (d.of_int (pos (v.rx_tot + 1))) (d.of_int (tx_est first hv.seqno)));
      }

  -- `e` and `score` for a delay with `left` greater delays of `ss`.
  unfoldable pub loss_at : ℕ → F → ℕ → F
  loss_at ss loss left = d.add (d.div (d.of_int (pos left)) (d.of_int (pos ss))) loss

  unfoldable pub score : F → F → F
  score delay e =
      let ie =
        d.add (d.decimal 100 1)
          (d.mul (d.decimal 4782 2) (d.log (d.add (d.decimal 10 1) (d.mul (d.decimal 180 1) e)))) in
      let linear = d.mul delay (d.decimal 24 3) in
      let id =
        if d.lt (d.decimal 1773 1) delay
        then d.add linear (d.mul (d.decimal 11 2) (d.sub delay (d.decimal 1773 1)))
        else linear in
      d.sub (d.decimal 942 1) (d.add ie id)

  -- The loop of `rscore` over the sorted delays, the last with no greater one.
  unfoldable pub choose : ℕ → F → Best F → List F → Best F
  unfolding loss_at score
  choose ss loss best [] = best
  choose ss loss best (x ∷ xs) =
      let e = loss_at ss loss (length xs) in
      choose ss loss
        (if d.lt best.rscore (score x e)
          then record { delay = x; rscore = score x e; loss_playout = e }
          else best)
        xs

  unfoldable pub mos_of : F → F
  mos_of r = d.add (d.add (d.decimal 10 1) (d.mul (d.decimal 35 3) r)) (
      d.mul (d.mul (d.mul (d.decimal 7 6) r) (d.sub r (d.decimal 600 1)))
        (d.sub (d.decimal 1000 1) r))

  unfoldable pub rscore : Voice F → Voice F
  unfolding choose mos_of
  rscore v =
      let ss = min max_d_samp v.rx_tot in
      let delays = sorted [] (entries v.dd_buf 0 ss) in
      let none_yet : Best F = record {
        delay = v.delay;
        rscore = d.decimal 0 0;
        loss_playout = v.loss_playout;
      } in
      let best = choose ss v.loss_ratio none_yet delays in
      record v {
        dd_buf = λ i. get_or delays i (v.dd_buf i);
        delay = best.delay;
        rscore = best.rscore;
        loss_playout = best.loss_playout;
        mos = mos_of best.rscore;
      }
