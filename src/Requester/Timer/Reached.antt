-- ===== src/Requester/Timer/Reached.antt =====
-- The window of requested volumes over the life of a requester (src/mac-requester.cc).
use release.Base.{◌<◌, ◌≤◌, ◌≡◌, refl, sym, ◌∙◌, ◌||◌, arith, Bool-cases, inl, inr}
use release.Base.Int.{ℤ}
use release.Requester.{
  Requester, rate, measure, read_queue, account, slide, limit_volume, dorequest,
}
use release.Requester.Window.{IsWindow, sum_zero, dorequest-IsWindow}
use release.Requester.Timer.{
  max_time_win, Timed, Reaches, new, attached, started, stopped, expired, new_requester, init,
  start, stop, expire,
}

module _ {R : Type 0} where
  win-measure :
      (filter : R → ℤ → R × ℤ) (arrivals : ℤ) (r : Requester R)
      → (measure filter arrivals r).0.win ≡ r.win
  unfolding measure rate
  win-measure filter arrivals r = elim (Bool-cases r.rbdc) [ inl e ↦ rw e refl | inr e ↦ rw e refl ]

  win-account : (r : Requester R) → (account r).win ≡ r.win
  unfolding account slide
  win-account r = elim (Bool-cases r.vbdc) [ inl e ↦ rw e refl | inr e ↦ rw e refl ]

  win-dorequest :
      (filter : R → ℤ → R × ℤ) (arrivals byte_length : ℤ) (r : Requester R)
      → (dorequest filter arrivals byte_length r).0.win ≡ r.win
  unfolding dorequest limit_volume read_queue
  win-dorequest filter arrivals byte_length r = elim (Bool-cases (r.rbdc || r.vbdc)) [
    | inl e ↦ rw e (
        win-account (read_queue byte_length (measure filter arrivals r).0)
        ∙ win-measure filter arrivals r)
    | inr e ↦ rw e refl
  ]

  -- Whatever is asked of a new requester whose window has a place at least, and no more than
  -- `vec_vol` has: its place stays inside `vec_vol`, no volume is negative, `total_vol` is the sum
  -- of the volumes in the window, and the window keeps its size.
  pub reached-IsWindow :
      (filter : R → ℤ → R × ℤ) (zero_rate : R) (r : Requester R) (t : Timed R)
      → 0 < r.win
      → r.win ≤ max_time_win
      → Reaches filter (new_requester zero_rate r) t
      → IsWindow t.requester × (t.requester.win ≡ r.win) × (t.requester.last < max_time_win)
  unfolding new_requester init start stop expire
  reached-IsWindow filter zero_rate r _ l h new = (
    record { inside = l; volumes = λ i. omega arith; total = sym (sum_zero r.win) },
    refl,
    omega (arith, l, h),
  )
  reached-IsWindow filter zero_rate r _ l h (attached u n s) =
      let (v, w, b) = reached-IsWindow filter zero_rate r u l h s in
      (record { inside = v.inside; volumes = v.volumes; total = v.total }, w, b)
  reached-IsWindow filter zero_rate r _ l h (started u s) =
      reached-IsWindow filter zero_rate r u l h s
  reached-IsWindow filter zero_rate r _ l h (stopped u s) =
      reached-IsWindow filter zero_rate r u l h s
  reached-IsWindow filter zero_rate r _ l h (expired u a b e s) =
      let (v, w, k) = reached-IsWindow filter zero_rate r u l h s in
      let next = dorequest-IsWindow filter a b u.requester v in
      let same : (dorequest filter a b u.requester).0.win ≡ r.win =
        win-dorequest filter a b u.requester ∙ w in
      (next, same, omega (arith, next.inside, same, h))
