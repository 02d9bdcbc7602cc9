-- ===== src/Requester/Window.antt =====
-- The window of requested volumes of `RequesterCombiner` (src/mac-requester.cc).
use release.Base.{
  ltb→lt, ltb→le, ℕ, zero, suc, ◌<◌, ◌≡◌, refl, sym, subst, ◌∙◌, ◌||◌, true, false, arith, update,
  Bool-cases, inl, inr, ◌==◌, ==_iff,
}
use release.Base.Int.{ℤ, pos, ◌+ℤ◌, ◌-ℤ◌, ltb_ℤ, ◌≤ℤ◌, int_laws}
use release.Requester.{
  Requester, rate, measure, read_queue, account, limit_volume, dorequest, slide, next_last,
  outstanding, lacks, shortfall,
}

-- The sum of the first `n` entries.
abbrev pub sum : ℕ → (ℕ → ℤ) → ℤ
sum zero f = pos 0
sum (suc n) f = sum n f +ℤ f n

pub sum_zero : (n : ℕ) → sum n (λ _. pos 0) ≡ pos 0
unfolding ◌+ℤ◌
sum_zero zero = refl
sum_zero (suc n) = rw (sum_zero n) refl

sum-update_ge : (n k : ℕ) (v : ℤ) (f : ℕ → ℤ) → n < suc k → sum n (update f k v) ≡ sum n f
sum-update_ge zero k v f h = refl
sum-update_ge (suc n) k v f h =
    let other : (k == n) ≡ false = ground arith in
    rw (other, sum-update_ge n k v f (omega arith)) refl

sum-update : (n k : ℕ) (v : ℤ) (f : ℕ → ℤ) → k < n → sum n (update f k v) ≡ (sum n f -ℤ f k) +ℤ v
sum-update zero k v f h = absurd (omega arith)
sum-update (suc n) k v f h = elim (Bool-cases (k == n)) [
  | inl e ↦
      let same : k ≡ n = (==_iff _ _).0 e in
      rw (e, sum-update_ge n k v f (omega arith)) (rw same (omega int_laws))
  | inr e ↦
      let below : k < n = ground (arith, e) in rw (e, sum-update n k v f below) (omega int_laws)
]

-- The window is inside the array, its volumes are not negative, and `total_vol` is their sum.
pub record IsWindow {R : Type 0} (r : Requester R) : Type 0 where
  pub inside : r.last < r.win
  pub volumes : (i : ℕ) → pos 0 ≤ℤ r.vec_vol i
  pub total : r.total_vol ≡ sum r.win r.vec_vol

module _ {R : Type 0} (r : Requester R) where
  next_last_lt : r.last < r.win → next_last r < r.win
  unfolding next_last
  next_last_lt h = omega (arith, h)

  shortfall_positive : pos 0 ≤ℤ shortfall r
  unfolding shortfall lacks
  shortfall_positive = elim (Bool-cases (ltb_ℤ (outstanding r +ℤ r.input_cur) r.buffer_cur)) [
    | inl e ↦ rw e (omega (int_laws, ltb→lt _ _ e))
    | inr e ↦ rw e (omega arith)
  ]

  pub total_vol-slide : (slide r).total_vol ≡ outstanding r +ℤ shortfall r
  unfolding slide shortfall
  total_vol-slide = elim (Bool-cases (lacks r)) [
    | inl e ↦ rw e refl
    | inr e ↦ rw e (omega int_laws)
  ]

  pub covers : r.buffer_cur ≤ℤ (outstanding r +ℤ shortfall r) +ℤ r.input_cur
  unfolding shortfall lacks
  covers = elim (Bool-cases (ltb_ℤ (outstanding r +ℤ r.input_cur) r.buffer_cur)) [
    | inl e ↦ rw e (omega int_laws)
    | inr e ↦ rw e (omega (int_laws, ltb→le _ _ e))
  ]

  total_now :
      r.total_vol ≡ sum r.win r.vec_vol
      → outstanding r +ℤ shortfall r
        ≡ (sum r.win r.vec_vol -ℤ r.vec_vol (next_last r)) +ℤ shortfall r
  unfolding outstanding
  total_now h = rw h refl

  slide-IsWindow : IsWindow r → IsWindow (slide r)
  unfolding slide
  slide-IsWindow v =
      let below : next_last r < r.win = next_last_lt v.inside in
      record {
        inside = below;
        volumes = λ i. elim (Bool-cases (next_last r == i)) [
          | inl e ↦ rw e shortfall_positive
          | inr e ↦ rw e (v.volumes i)
        ];
        total =
            total_vol-slide
            ∙ total_now v.total
            ∙ sym (sum-update r.win (next_last r) (shortfall r) r.vec_vol below);
      }

pub account_slides : {R : Type 0} (r : Requester R) → r.vbdc ≡ true → account r ≡ slide r
unfolding account
account_slides r e = simp (account, e) refl

account_idle : {R : Type 0} (r : Requester R) → r.vbdc ≡ false → account r ≡ r
unfolding account
account_idle r e = simp (account, e) refl

module _ {R : Type 0} (filter : R → ℤ → R × ℤ) where
  measure-IsWindow :
      (arrivals : ℤ) (r : Requester R) → IsWindow r → IsWindow (measure filter arrivals r).0
  unfolding measure rate
  measure-IsWindow arrivals r v = elim (Bool-cases r.rbdc) [
    | inl e ↦
        subst (λ m. IsWindow m.0) (sym (measured arrivals r e))
          (record { inside = v.inside; volumes = v.volumes; total = v.total })
    | inr e ↦ subst (λ m. IsWindow m.0) (sym (unmeasured arrivals r e)) v
  ]
    where
      measured :
          (arrivals : ℤ) (r : Requester R)
          → r.rbdc ≡ true
          → measure filter arrivals r ≡ rate filter arrivals r
      measured arrivals r e = simp (measure, e) refl

      unmeasured :
          (arrivals : ℤ) (r : Requester R) → r.rbdc ≡ false → measure filter arrivals r ≡ (r, pos 0)
      unmeasured arrivals r e = simp (measure, e) refl

  account-IsWindow : (r : Requester R) → IsWindow r → IsWindow (account r)
  account-IsWindow r v = elim (Bool-cases r.vbdc) [
    | inl e ↦ subst IsWindow (sym (account_slides r e)) (slide-IsWindow r v)
    | inr e ↦ subst IsWindow (sym (account_idle r e)) v
  ]

  -- `dorequest` keeps the window: its place is inside, no volume is negative, and `total_vol` is
  -- the sum of the volumes.
  pub dorequest-IsWindow :
      (arrivals byte_length : ℤ) (r : Requester R)
      → IsWindow r
      → IsWindow (dorequest filter arrivals byte_length r).0
  unfolding dorequest limit_volume read_queue
  dorequest-IsWindow arrivals byte_length r v = elim (Bool-cases (r.rbdc || r.vbdc)) [
    | inl e ↦
        let w = measure-IsWindow arrivals r v in
        let u =
          account-IsWindow (read_queue byte_length (measure filter arrivals r).0)
            (record { inside = w.inside; volumes = w.volumes; total = w.total }) in
        rw e (record { inside = u.inside; volumes = u.volumes; total = u.total })
    | inr e ↦ rw e v
  ]
