-- ===== src/Requester.antt =====
-- The capacity requests of src/mac-requester.h and src/mac-requester.cc: `TdmaRequester::rate` and
-- `RequesterCombiner::dorequest`. The filter of `rate`, on doubles, is a parameter, with the type
-- of its state; the limits `max_rbdc_`, `min_rbdc_` and `max_vbdc_` are doubles, taken to hold
-- integers.
pub mod Window
pub mod Timer
pub mod Coverage
mod Tests
use release.Base.{
  ℕ, ◌+◌, ◌%◌, Bool, true, false, ◌||◌, ◌&&◌, not, Option, none, some, update, if◌then◌else◌,
}
use release.Base.Int.{ℤ, pos, ◌+ℤ◌, ◌-ℤ◌, ltb_ℤ}

-- `RequesterCombiner` with the members of `TdmaRequester`.
pub record Requester (R : Type 0) : Type 0 where
  pub slot_num : ℕ
  pub rbdc : Bool
  pub vbdc : Bool
  pub avbdc : Bool
  pub max_rbdc : ℤ
  pub min_rbdc : ℤ
  pub max_vbdc : ℤ
  pub prev_in : ℤ
  pub buffer_cur : ℤ
  pub input_cur : ℤ
  pub rate_req : R
  pub win : ℕ
  pub last : ℕ
  pub total_vol : ℤ
  pub vec_vol : ℕ → ℤ

-- The control packet of type CR.
pub record Request : Type 0 where
  pub slot_num : ℕ
  pub rate : ℤ
  pub volume : ℤ

module _ {R : Type 0} where
  -- `rate`, when `arrivals` bytes have arrived at the monitored queue; `filter` gives the filtered
  -- rate and its value rounded to an integer.
  unfoldable pub rate : (R → ℤ → R × ℤ) → ℤ → Requester R → Requester R × ℤ
  rate filter arrivals r =
      let input = arrivals -ℤ r.prev_in in
      let (rate_req, rounded) = filter r.rate_req input in
      (record r { input_cur = input; rate_req = rate_req; prev_in = arrivals }, rounded)

  -- `volume`, which nothing calls.
  pub volume : (arrivals departures drops : ℤ) → Requester R → Requester R × ℤ
  volume arrivals departures drops r =
      let waiting = (arrivals -ℤ departures) -ℤ drops in
      (record r { buffer_cur = waiting }, waiting)

  -- The rate of the request: 0 without RBDC, and between the limits.
  unfoldable pub limit_rate : Requester R → ℤ → ℤ
  limit_rate r c_rate =
      let capped = if ltb_ℤ r.max_rbdc c_rate then r.max_rbdc else c_rate in
      if ltb_ℤ capped r.min_rbdc && r.rbdc then r.min_rbdc else capped

  -- The new place in the window, and the volumes asked for at the others.
  unfoldable pub next_last : Requester R → ℕ
  next_last r = (r.last + 1) % r.win

  unfoldable pub outstanding : Requester R → ℤ
  unfolding next_last
  outstanding r = r.total_vol -ℤ r.vec_vol (next_last r)

  -- `buffer_cur > total_vol + input_cur`, and the volume that is asked for.
  unfoldable pub lacks : Requester R → Bool
  unfolding outstanding
  lacks r = ltb_ℤ (outstanding r +ℤ r.input_cur) r.buffer_cur

  unfoldable pub shortfall : Requester R → ℤ
  unfolding lacks outstanding
  shortfall r = if lacks r then (r.buffer_cur -ℤ outstanding r) -ℤ r.input_cur else pos 0

  -- "VBDC requests keep previous requests into account".
  unfoldable pub slide : Requester R → Requester R
  unfolding next_last outstanding lacks shortfall
  slide r = record r {
    last = next_last r;
    vec_vol = update r.vec_vol (next_last r) (shortfall r);
    total_vol = if lacks r then outstanding r +ℤ shortfall r else outstanding r;
    buffer_cur = shortfall r;
  }

  unfoldable pub limit_volume : Requester R → Requester R
  limit_volume r = record r {
    buffer_cur = if ltb_ℤ r.max_vbdc r.buffer_cur then r.max_vbdc else r.buffer_cur;
  }

  -- The parts of `dorequest`: the rate, the length of the queue, and the volume.
  unfoldable pub measure : (R → ℤ → R × ℤ) → ℤ → Requester R → Requester R × ℤ
  unfolding rate
  measure filter arrivals r = if r.rbdc then rate filter arrivals r else (r, pos 0)

  unfoldable pub read_queue : ℤ → Requester R → Requester R
  read_queue byte_length r = record r {
    buffer_cur = if r.avbdc || r.vbdc then byte_length else r.buffer_cur;
  }

  unfoldable pub account : Requester R → Requester R
  unfolding slide
  account r = if r.vbdc then slide r else r

  -- `dorequest`, with a queue of `byte_length` bytes; `none` if no request is sent.
  unfoldable pub dorequest :
      (R → ℤ → R × ℤ) → (arrivals byte_length : ℤ) → Requester R → Requester R × Option Request
  unfolding measure read_queue account limit_rate limit_volume
  dorequest filter arrivals byte_length r =
      if not (r.rbdc || r.vbdc)
      then (r, none)
      else (let (measured, c_rate) = measure filter arrivals r in
          let after = limit_volume (account (read_queue byte_length measured)) in
          (
            after,
            some (record {
              slot_num = r.slot_num;
              rate = limit_rate r c_rate;
              volume = after.buffer_cur;
            }),
          ))
