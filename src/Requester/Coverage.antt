-- ===== src/Requester/Coverage.antt =====
-- What a request of `RequesterCombiner::dorequest` (src/mac-requester.cc) asks for.
use release.Base.{
  ℕ, ◌⊎◌, ◌≡◌, refl, sym, ap, subst, ◌∙◌, ◌||◌, true, Option, none, some, arith, Bool-cases, inl,
  inr, ==_refl,
}
use release.Base.Int.{ℤ, pos, ◌+ℤ◌, ◌≤ℤ◌, ltb_ℤ, int_laws}
use release.Requester.{
  Requester, Request, rate, measure, read_queue, account, limit_volume, dorequest, slide, shortfall,
  lacks, limit_rate, next_last,
}
use release.Requester.Window.{
  IsWindow, sum, covers, total_vol-slide, account_slides, dorequest-IsWindow,
}

module _ {R : Type 0} where
  -- A request of a terminal whose queue has `byte_length` bytes.
  abbrev pub Asks : ℤ → Requester R × Option Request → Type 0
  Asks byte_length (r, none) = ⊥
  Asks byte_length (r, some q) =
      (byte_length ≤ℤ sum r.win r.vec_vol +ℤ r.input_cur)
      × ((r.vec_vol r.last ≡ pos 0) ⊎ (byte_length ≡ sum r.win r.vec_vol +ℤ r.input_cur))
      × (q.volume ≤ℤ r.max_vbdc)
      × (r.vec_vol r.last ≤ℤ r.max_vbdc → q.volume ≡ r.vec_vol r.last)

  -- The same by the counter `total_vol`.
  abbrev Counts : ℤ → Requester R × Option Request → Type 0
  Counts byte_length (r, none) = ⊥
  Counts byte_length (r, some q) =
      (byte_length ≤ℤ r.total_vol +ℤ r.input_cur)
      × ((r.vec_vol r.last ≡ pos 0) ⊎ (byte_length ≡ r.total_vol +ℤ r.input_cur))
      × (q.volume ≤ℤ r.max_vbdc)
      × (r.vec_vol r.last ≤ℤ r.max_vbdc → q.volume ≡ r.vec_vol r.last)

  Counts-Asks :
      (byte_length : ℤ) (o : Requester R × Option Request)
      → Counts byte_length o
      → IsWindow o.0
      → Asks byte_length o
  Counts-Asks byte_length (r, none) h v = h
  Counts-Asks byte_length (r, some q) (h, x, l, k) v = rw (← v.total) (h, x, l, k)

  own_slot : (r : Requester R) → (slide r).vec_vol (slide r).last ≡ shortfall r
  unfolding slide
  own_slot r = rw (==_refl (next_last r)) refl

  input_slide : (r : Requester R) → (slide r).input_cur ≡ r.input_cur
  unfolding slide
  input_slide r = refl

  buffer_slide : (r : Requester R) → (slide r).buffer_cur ≡ shortfall r
  unfolding slide
  buffer_slide r = refl

  limited :
      (r : Requester R)
      → ((limit_volume r).buffer_cur ≤ℤ r.max_vbdc)
        × (r.buffer_cur ≤ℤ r.max_vbdc → (limit_volume r).buffer_cur ≡ r.buffer_cur)
  unfolding limit_volume
  limited r = elim (Bool-cases (ltb_ℤ r.max_vbdc r.buffer_cur)) [
    | inl e ↦ rw e (omega arith, λ h. absurd (ground (arith, e, h)))
    | inr e ↦ rw e (ground (arith, e), λ h. refl)
  ]

  -- A positive volume is no more than what is missing.
  no_more :
      (r : Requester R)
      → ((slide r).vec_vol (slide r).last ≡ pos 0)
        ⊎ (r.buffer_cur ≡ (slide r).total_vol +ℤ (slide r).input_cur)
  unfolding shortfall
  no_more r = elim (Bool-cases (lacks r)) [
    | inl e ↦ inr (rw (total_vol-slide r, input_slide r, shortfall, e) (omega int_laws))
    | inr e ↦ inl (rw (own_slot r, shortfall, e) refl)
  ]

  -- The volume of a slide, after the limit.
  slide-Counts :
      (r : Requester R) (byte_length : ℤ) (slot_num : ℕ) (k : ℤ)
      → r.buffer_cur ≡ byte_length
      → Counts byte_length (
        limit_volume (slide r),
        some (record {
          slot_num = slot_num;
          rate = k;
          volume = (limit_volume (slide r)).buffer_cur;
        }),
      )
  unfolding limit_volume
  slide-Counts r byte_length slot_num k e = (
    rw (total_vol-slide r, input_slide r, ← e) (covers r),
    subst
        (λ b.
          ((slide r).vec_vol (slide r).last ≡ pos 0)
          ⊎ (b ≡ (slide r).total_vol +ℤ (slide r).input_cur))
        e (no_more r),
    (limited (slide r)).0,
    λ h.
        (limited (slide r)).1 (rw (buffer_slide r, ← own_slot r) h)
        ∙ buffer_slide r
        ∙ sym (own_slot r),
  )

  abbrev response : Requester R → ℕ → ℤ → Requester R × Option Request
  response r slot_num k =
      (r, some (record { slot_num = slot_num; rate = k; volume = r.buffer_cur }))

  answered :
      (filter : R → ℤ → R × ℤ) (arrivals byte_length : ℤ) (r : Requester R)
      → (r.rbdc || r.vbdc) ≡ true
      → dorequest filter arrivals byte_length r
        ≡ response
            (limit_volume (account (read_queue byte_length (measure filter arrivals r).0)))
            r.slot_num
            (limit_rate r (measure filter arrivals r).1)
  unfolding dorequest
  answered filter arrivals byte_length r e = simp (dorequest, e) refl

  vbdc-measure :
      (filter : R → ℤ → R × ℤ) (arrivals : ℤ) (r : Requester R)
      → (measure filter arrivals r).0.vbdc ≡ r.vbdc
  unfolding measure rate
  vbdc-measure filter arrivals r = elim (Bool-cases r.rbdc) [
    | inl e ↦ rw e refl
    | inr e ↦ rw e refl
  ]

  buffer-read_queue :
      (byte_length : ℤ) (r : Requester R)
      → r.vbdc ≡ true
      → (read_queue byte_length r).buffer_cur ≡ byte_length
  unfolding read_queue
  buffer-read_queue byte_length r e =
      let any : (r.avbdc || r.vbdc) ≡ true = ground (arith, e) in rw any refl

  vbdc-read_queue : (byte_length : ℤ) (r : Requester R) → (read_queue byte_length r).vbdc ≡ r.vbdc
  unfolding read_queue
  vbdc-read_queue byte_length r = refl

  dorequest-Counts :
      (filter : R → ℤ → R × ℤ) (arrivals byte_length : ℤ) (r : Requester R)
      → r.vbdc ≡ true
      → Counts byte_length (dorequest filter arrivals byte_length r)
  dorequest-Counts filter arrivals byte_length r v =
      let any : (r.rbdc || r.vbdc) ≡ true = ground (arith, v) in
      let m : Requester R = (measure filter arrivals r).0 in
      let k : ℤ = limit_rate r (measure filter arrivals r).1 in
      let on : m.vbdc ≡ true = vbdc-measure filter arrivals r ∙ v in
      let slid : account (read_queue byte_length m) ≡ slide (read_queue byte_length m) =
        account_slides (read_queue byte_length m) (vbdc-read_queue byte_length m ∙ on) in
      subst (Counts byte_length)
        (sym (
          answered filter arrivals byte_length r any
          ∙ ap (λ a. response (limit_volume a) r.slot_num k) slid))
        (slide-Counts (read_queue byte_length m) byte_length r.slot_num k
          (buffer-read_queue byte_length m on))

  -- With VBDC and a window whose counter is the sum of its volumes, a request is sent. The sum of the
  -- volumes that the window then records, with the bytes that just arrived, is no less than the
  -- queue, and just the queue if the volume recorded for this request is not 0. The request itself is
  -- for at most `max_vbdc_`, and for the volume recorded for it if this is within the limit.
  pub dorequest-Asks :
      (filter : R → ℤ → R × ℤ) (arrivals byte_length : ℤ) (r : Requester R)
      → r.vbdc ≡ true
      → IsWindow r
      → Asks byte_length (dorequest filter arrivals byte_length r)
  dorequest-Asks filter arrivals byte_length r v w =
      Counts-Asks byte_length (dorequest filter arrivals byte_length r)
        (dorequest-Counts filter arrivals byte_length r v)
        (dorequest-IsWindow filter arrivals byte_length r w)
