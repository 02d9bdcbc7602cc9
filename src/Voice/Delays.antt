-- ===== src/Voice/Delays.antt =====
-- What `Voice::process_data` (src/voicemodel.cc) keeps of the packets that arrived.
use release.Base.{
  ℕ, zero, suc, ◌+◌, ◌-◌, ◌%◌, ◌<◌, ◌≤◌, ◌≡◌, ap, ◌∙◌, false, List, [], ◌∷◌, arith, length, get_or,
  ◌==◌, if_true, if_false,
}
use release.Base.Int.{pos, ◌+ℤ◌, ◌-ℤ◌}
use release.Base.Double.{Double}
use release.Voice.{HdrVoice, Voice, max_d_samp, tx_est, process_data}

-- A packet with the time at which it arrives.
pub record Arrival (F : Type 0) : Type 0 where
  pub now : F
  pub hdr : HdrVoice F

-- The sequence numbers grow; the newest packet comes first.
abbrev pub Grows : {F : Type 0} → List (Arrival F) → Type 0
Grows [] = Unit
Grows (a ∷ []) = Unit
Grows (a ∷ b ∷ rest) = (b.hdr.seqno < a.hdr.seqno) × Grows (b ∷ rest)

-- The number of the oldest packet.
abbrev pub oldest : {F : Type 0} → Arrival F → List (Arrival F) → ℕ
oldest a [] = a.hdr.seqno
oldest a (b ∷ rest) = oldest b rest

shift : (n i : ℕ) → suc n - suc i ≡ n - i
shift n i = omega arith

last_place : (n : ℕ) → suc n - 1 ≡ n
last_place n = omega arith

apart : (n i : ℕ) → suc i < 1000 → suc i ≤ n → ((n % 1000) == ((n - suc i) % 1000)) ≡ false
apart n i h l = ground (arith, h, l)

exact : (first last : ℕ) → first ≤ last → tx_est first last ≡ pos (last + 1 - first)
unfolding tx_est ◌+ℤ◌ ◌-ℤ◌
exact first last h = ground (arith, h)

oldest_low :
    {F : Type 0} (a : Arrival F) (rest : List (Arrival F))
    → Grows (a ∷ rest)
    → oldest a rest + length rest ≤ a.hdr.seqno
oldest_low a [] g = omega arith
oldest_low a (b ∷ rest) (l, g) = omega (arith, l, oldest_low b rest g)

module _ {F : Type 0} ⦃d : Double F⦄ where
  -- `process_data` on all packets, the newest first.
  unfoldable pub received : List (Arrival F) → Voice F → Voice F
  unfolding process_data
  received [] v = v
  received (a ∷ rest) v = process_data a.now a.hdr (received rest v)

  abbrev pub delay_of : Arrival F → F
  delay_of a = d.mul (d.sub a.now a.hdr.tx_time) (d.decimal 1000 0)

  abbrev pub delays : List (Arrival F) → List F
  delays [] = []
  delays (a ∷ rest) = delay_of a ∷ delays rest

  rx_tot-received :
      (arrived : List (Arrival F)) (v : Voice F)
      → v.rx_tot ≡ 0
      → (received arrived v).rx_tot ≡ length arrived
  unfolding received process_data
  rx_tot-received [] v h = h
  rx_tot-received (a ∷ rest) v h = omega (arith, rx_tot-received rest v h)

  -- After packets since the last reset, the buffer holds the latest delays, at most 1000, each at
  -- the place of its number.
  pub dd_buf-received :
      (arrived : List (Arrival F)) (v : Voice F) (i : ℕ) (z : F)
      → v.rx_tot ≡ 0
      → i < 1000
      → i < length arrived
      → (received arrived v).dd_buf ((length arrived - suc i) % max_d_samp)
        ≡ get_or (delays arrived) i z
  unfolding received process_data
  dd_buf-received [] v i z h l m = absurd (omega (arith, m))
  dd_buf-received (a ∷ rest) v zero z h l m =
      ap (λ k. (received (a ∷ rest) v).dd_buf (k % max_d_samp)) (last_place (length rest))
      ∙ if_true (((received rest v).rx_tot % 1000) == (length rest % 1000)) _ _
          (ground (arith, rx_tot-received rest v h))
  dd_buf-received (a ∷ rest) v (suc i) z h l m =
      ap (λ k. (received (a ∷ rest) v).dd_buf (k % max_d_samp)) (shift (length rest) (suc i))
      ∙ if_false (((received rest v).rx_tot % 1000) == ((length rest - suc i) % 1000)) _ _ (
          ap (λ n. (n % 1000) == ((length rest - suc i) % 1000)) (rx_tot-received rest v h)
          ∙ apart (length rest) i l (omega (arith, m)))
      ∙ dd_buf-received rest v i z h (omega (arith, l)) (omega (arith, m))

  init_seqno-received :
      (a : Arrival F) (rest : List (Arrival F)) (v : Voice F)
      → v.rx_tot ≡ 0
      → (received (a ∷ rest) v).init_seqno ≡ oldest a rest
  unfolding received process_data
  init_seqno-received a [] v h = if_true (v.rx_tot + 1 == 1) _ _ (ground (arith, h))
  init_seqno-received a (b ∷ rest) v h =
      if_false ((received (b ∷ rest) v).rx_tot + 1 == 1) _ _
        (ground (arith, rx_tot-received (b ∷ rest) v h))
      ∙ init_seqno-received b rest v h

  -- After packets with growing numbers since the last reset, the loss ratio is one less the part
  -- that arrived of the packets that were sent from the first that arrived to the last; no more
  -- arrived than were sent.
  pub loss_ratio-received :
      (a : Arrival F) (rest : List (Arrival F)) (v : Voice F)
      → v.rx_tot ≡ 0
      → Grows (a ∷ rest)
      → (sent : ℕ) × ((received (a ∷ rest) v).loss_ratio
          ≡ d.sub
              (d.decimal 1 0)
              (d.div (d.of_int (pos (length (a ∷ rest)))) (d.of_int (pos sent))))
        × (sent + oldest a rest ≡ a.hdr.seqno + 1)
        × (length (a ∷ rest) ≤ sent)
  unfolding received process_data
  loss_ratio-received a rest v h g =
      let sent : ℕ = a.hdr.seqno + 1 - oldest a rest in
      let low = oldest_low a rest g in
      let first : (received (a ∷ rest) v).init_seqno ≡ oldest a rest =
        init_seqno-received a rest v h in
      (
        sent,
        ap
              (λ k. d.sub (d.decimal 1 0) (
                d.div (d.of_int (pos k))
                  (d.of_int (tx_est (received (a ∷ rest) v).init_seqno a.hdr.seqno))))
              (rx_tot-received (a ∷ rest) v h)
            ∙ ap
                (λ k.
                  d.sub (d.decimal 1 0)
                    (d.div (d.of_int (pos (suc (length rest)))) (d.of_int (tx_est k a.hdr.seqno))))
                first
            ∙ ap
                (λ k.
                  d.sub (d.decimal 1 0) (d.div (d.of_int (pos (suc (length rest)))) (d.of_int k)))
                (exact (oldest a rest) a.hdr.seqno (omega (arith, low))),
        omega (arith, low),
        omega (arith, low),
      )
