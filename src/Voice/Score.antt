-- ===== src/Voice/Score.antt =====
-- The delay that `Voice::rscore` (src/voicemodel.cc) chooses.
use release.Base.{
  ℕ, ◌≡◌, ◌⊎◌, inl, inr, refl, sym, ap, subst, true, false, List, [], ◌∷◌, ◌++◌, All, length, min,
  Bool-cases, if_true, if_false,
}
use release.Base.Double.{Double}
use release.Base.Sorting.{sorted}
use release.Voice.{Voice, Best, entries, max_d_samp, loss_at, score, choose, rscore}

module _ {F : Type 0} ⦃d : Double F⦄ where
  -- The scores of the sorted delays.
  abbrev pub scores : ℕ → F → List F → List F
  scores ss loss [] = []
  scores ss loss (x ∷ xs) = score x (loss_at ss loss (length xs)) ∷ scores ss loss xs

  abbrev at : ℕ → F → F → List F → Best F
  at ss loss x xs =
      let e = loss_at ss loss (length xs) in
      record { delay = x; rscore = score x e; loss_playout = e }

  -- The choice is one of the delays, with its score and loss, or the one before.
  abbrev pub IsOneOf : ℕ → F → Best F → List F → Best F → Type 0
  IsOneOf ss loss before xs best =
      (best ≡ before)
      ⊎ ((pre : List F) × (x : F) × (post : List F) × (xs ≡ pre ++ x ∷ post)
          × (best ≡ at ss loss x post))

  -- A choice with the score of the one before, or a greater one.
  abbrev pub Rises : Best F → Best F → Type 0
  Rises before best = (best ≡ before) ⊎ (d.lt before.rscore best.rscore ≡ true)

  -- What a choice is: it rises, is not less than any score, and is one of the delays.
  abbrev pub IsBest : ℕ → F → Best F → List F → Best F → Type 0
  IsBest ss loss before xs best =
      Rises before best
      × All (λ s. d.lt best.rscore s ≡ false) (scores ss loss xs)
      × IsOneOf ss loss before xs best

  -- What is not less than a score stays so when the choice rises.
  Rises-not_less :
      (before best : Best F) (s : F)
      → Rises before best
      → d.lt before.rscore s ≡ false
      → d.lt best.rscore s ≡ false
  Rises-not_less before best s (inl e) h = subst (λ b. d.lt b.rscore s ≡ false) (sym e) h
  Rises-not_less before best s (inr g) h = elim (Bool-cases (d.lt best.rscore s)) [
    | inl k ↦ absurd (cc (d.strict.trans before.rscore best.rscore s g k, h))
    | inr k ↦ k
  ]

  Rises-over :
      (before mid best : Best F)
      → d.lt before.rscore mid.rscore ≡ true
      → Rises mid best
      → Rises before best
  Rises-over before mid best h (inl e) =
      inr (subst (λ b. d.lt before.rscore b.rscore ≡ true) (sym e) h)
  Rises-over before mid best h (inr g) =
      inr (d.strict.trans before.rscore mid.rscore best.rscore h g)

  further :
      (ss : ℕ) (loss : F) (before : Best F) (x : F) (xs : List F) (best : Best F)
      → IsOneOf ss loss before xs best
      → IsOneOf ss loss before (x ∷ xs) best
  further ss loss before x xs best (inl e) = inl e
  further ss loss before x xs best (inr (pre, y, post, e, f)) =
      inr (x ∷ pre, y, post, ap (λ l. x ∷ l) e, f)

  -- The loop chooses a delay of greatest score, if it is greater than the one before.
  pub choose-IsBest :
      (ss : ℕ) (loss : F) (before : Best F) (xs : List F)
      → IsBest ss loss before xs (choose ss loss before xs)
  unfolding choose
  choose-IsBest ss loss before [] = (inl refl, tt, inl refl)
  choose-IsBest ss loss before (x ∷ xs) =
      elim (Bool-cases (d.lt before.rscore (score x (loss_at ss loss (length xs))))) [
        | inl h ↦
            let (low, all_low, one) = choose-IsBest ss loss (at ss loss x xs) xs in
            let taken : choose ss loss before (x ∷ xs) ≡ choose ss loss (at ss loss x xs) xs =
              ap (λ b. choose ss loss b xs) (if_true _ (at ss loss x xs) before h) in
            subst (IsBest ss loss before (x ∷ xs)) (sym taken) (
              Rises-over before (at ss loss x xs) (choose ss loss (at ss loss x xs) xs) h low,
              (
                Rises-not_less (at ss loss x xs) (choose ss loss (at ss loss x xs) xs)
                    (score x (loss_at ss loss (length xs))) low
                    (d.strict.irrefl (score x (loss_at ss loss (length xs)))),
                all_low,
              ),
              placed ss loss before x xs (choose ss loss (at ss loss x xs) xs) one,
            )
        | inr h ↦
            let (low, all_low, one) = choose-IsBest ss loss before xs in
            let passed : choose ss loss before (x ∷ xs) ≡ choose ss loss before xs =
              ap (λ b. choose ss loss b xs) (if_false _ (at ss loss x xs) before h) in
            subst (IsBest ss loss before (x ∷ xs)) (sym passed) (
              low,
              (
                Rises-not_less before (choose ss loss before xs)
                    (score x (loss_at ss loss (length xs))) low h,
                all_low,
              ),
              further ss loss before x xs (choose ss loss before xs) one,
            )
      ]
    where
      placed :
          (ss : ℕ) (loss : F) (before : Best F) (x : F) (xs : List F) (best : Best F)
          → IsOneOf ss loss (at ss loss x xs) xs best
          → IsOneOf ss loss before (x ∷ xs) best
      placed ss loss before x xs best (inl e) = inr ([], x, xs, refl, e)
      placed ss loss before x xs best (inr (pre, y, post, e, f)) =
          inr (x ∷ pre, y, post, ap (λ l. x ∷ l) e, f)

  abbrev pub none_yet : Voice F → Best F
  none_yet v = record { delay = v.delay; rscore = d.decimal 0 0; loss_playout = v.loss_playout }

  abbrev pub chosen : Voice F → Best F
  chosen v = record { delay = v.delay; rscore = v.rscore; loss_playout = v.loss_playout }

  -- `rscore` sets the score to the greatest of those of the delays in the buffer, with their losses
  -- by the delays that are greater, or to 0 if none is greater than 0.
  pub rscore-IsBest :
      (v : Voice F)
      → let ss = min max_d_samp v.rx_tot in
        IsBest ss v.loss_ratio (none_yet v) (sorted [] (entries v.dd_buf 0 ss)) (chosen (rscore v))
  unfolding rscore
  rscore-IsBest v =
      let ss = min max_d_samp v.rx_tot in
      choose-IsBest ss v.loss_ratio (none_yet v) (sorted [] (entries v.dd_buf 0 ss))
