-- ===== src/Requester/Tests.antt =====
-- The theorems on src/mac-requester.cc at concrete inputs.
use release.Base.{ℕ, zero, suc, ◌<◌, ◌≡◌, refl, true, false, arith}
use release.Base.Int.{ℤ, pos, ◌≤ℤ◌, ◌+ℤ◌}
use release.Requester.{Requester, dorequest}
use release.Requester.Window.{IsWindow}
use release.Requester.Timer.Reached.{reached-IsWindow}
use release.Requester.Timer.{
  Timed, Reaches, new, attached, started, expired, new_requester, init, start, expire,
}
use release.Requester.Coverage.{Asks, dorequest-Asks}

-- The filter that only counts; a window of three requests, of which two hold 40 bytes.
abbrev filter : ℤ → ℤ → ℤ × ℤ
filter state input = (input, input)

abbrev requester : Requester ℤ
requester = record {
  slot_num = 1;
  rbdc = true;
  vbdc = true;
  avbdc = false;
  max_rbdc = pos 100;
  min_rbdc = pos 2;
  max_vbdc = pos 50;
  prev_in = pos 10;
  buffer_cur = pos 0;
  input_cur = pos 0;
  rate_req = pos 0;
  win = 3;
  last = 0;
  total_vol = pos 40;
  vec_vol = λ i. elim i [ zero ↦ pos 30 | suc j ↦ elim j [ zero ↦ pos 10 | suc _ ↦ pos 0 ] ];
}

requester-IsWindow : IsWindow requester
unfolding ◌+ℤ◌
requester-IsWindow = record { inside = omega arith; volumes = volumes; total = refl }
  where
    volumes : (i : ℕ) → pos 0 ≤ℤ requester.vec_vol i
    volumes zero = omega arith
    volumes (suc zero) = omega arith
    volumes (suc (suc i)) = omega arith

-- It is attached and started, and sends two requests.
abbrev running : Timed ℤ
running = start (init 4 (new_requester (pos 0) requester))

abbrev once : Timed ℤ
once = (expire filter (pos 30) (pos 200) running).0

abbrev reached : Timed ℤ
reached = (expire filter (pos 90) (pos 180) once).0

reached-Reaches : Reaches filter (new_requester (pos 0) requester) reached
unfolding start expire
reached-Reaches = expired once (pos 90) (pos 180) refl (
    expired running (pos 30) (pos 200) refl (
      started (init 4 (new_requester (pos 0) requester))
        (attached (new_requester (pos 0) requester) 4 new)))

reached-IsWindow_example :
    IsWindow reached.requester × (reached.requester.win ≡ 3) × (reached.requester.last < 512)
reached-IsWindow_example =
    reached-IsWindow filter (pos 0) requester reached (omega arith) (omega arith) reached-Reaches

dorequest-Asks_example : Asks (pos 200) (dorequest filter (pos 30) (pos 200) requester)
dorequest-Asks_example = dorequest-Asks filter (pos 30) (pos 200) requester refl requester-IsWindow
