-- ===== src/Voice/Spurt.antt =====
-- The talk spurts of `Voice::timeout` (src/voicemodel.cc).
use release.Base.{
  ℕ, suc, ◌+◌, ◌<◌, ◌≡◌, refl, sym, ap, ◌∙◌, true, List, [], ◌∷◌, ◌++◌, arith, length, replicate,
  append_assoc, append-nil, ◌==◌, to_u32, sub32, if_true, if_false, if◌then◌else◌,
}
use release.Base.Int.{ℤ, pos, ◌+ℤ◌}
use release.Base.Double.{Double}
use release.Voice.{HdrVoice, Draw, Voice, next_interval, send_packet, set_timer, timeout}

-- The headers of packets at some times, with consecutive numbers.
abbrev pub numbered : {F : Type 0} → ℕ → ℕ → List F → List (HdrVoice F)
numbered id seqno [] = []
numbered id seqno (now ∷ times) =
    record { id = id; tx_time = now; seqno = seqno } ∷ numbered id (seqno + 1) times

-- The burst that a draw gives.
abbrev pub burst_of : {F : Type 0} → Draw F → ℤ
burst_of r = if r.det then r.burst_avg else r.burst_value

wrapped : (n : ℕ) → n + 1 < 4294967296 → sub32 (to_u32 (pos n +ℤ pos 1)) 1 ≡ n
unfolding ◌+ℤ◌
wrapped n l = ground (arith, l)

-- A voice with other values of what `timeout` changes.
abbrev pub set_fields : {F : Type 0} → Voice F → ℕ → ℕ → ℕ → List (HdrVoice F) → List F → Voice F
set_fields v rem sent seqno messages timers = record v {
  rem = rem;
  sent = sent;
  seqno = seqno;
  messages = messages;
  timers = timers;
}

set_fields_eq :
    {F : Type 0} (v : Voice F) (r r' s s' q q' : ℕ) (m m' : List (HdrVoice F)) (t t' : List F)
    → r ≡ r'
    → s ≡ s'
    → q ≡ q'
    → m ≡ m'
    → t ≡ t'
    → set_fields v r s q m t ≡ set_fields v r' s' q' m' t'
set_fields_eq v r r' s s' q q' m m' t t' e1 e2 e3 e4 e5 = cc

module _ {F : Type 0} ⦃d : Double F⦄ where
  abbrev pub idle_of : Draw F → F
  idle_of r = if r.det then r.idle_avg else r.idle_value

  -- The timer runs out at some times, with what is drawn then.
  unfoldable pub timeouts : List F → Draw F → Voice F → Voice F
  unfolding timeout
  timeouts [] r v = v
  timeouts (now ∷ times) r v = timeouts times r (timeout now r v)

  -- A voice after packets at some times, with what is left of the burst and the timers.
  abbrev pub advanced : Voice F → ℕ → List F → List F → Voice F
  advanced v rem times timers =
      set_fields v rem (v.sent + length times) (v.seqno + length times)
        (v.messages ++ numbered v.id v.seqno times) (v.timers ++ timers)

  next_interval_more :
      (r : Draw F) (v : Voice F) (n : ℕ)
      → v.rem ≡ suc n
      → next_interval r v ≡ (record v { rem = n }, v.interval)
  unfolding next_interval
  next_interval_more r v n e =
      if_false (v.rem == 0) _ _ (ground (arith, e))
      ∙ ap (λ k. (record v { rem = k }, v.interval)) (omega (arith, e))

  next_interval_first :
      (r : Draw F) (v : Voice F) (n : ℕ)
      → v.rem ≡ 0
      → burst_of r ≡ pos n
      → n + 1 < 4294967296
      → next_interval r v ≡ (record v { rem = n }, d.add v.interval (idle_of r))
  unfolding next_interval
  next_interval_first r v n e b l =
      if_true (v.rem == 0) _ _ (ground (arith, e))
      ∙ ap (λ k. (record v { rem = k }, d.add v.interval (idle_of r)))
          (ap (λ i. sub32 (to_u32 (i +ℤ pos 1)) 1) b ∙ wraps)
    where
      wraps : sub32 (to_u32 (pos n +ℤ pos 1)) 1 ≡ n
      wraps = wrapped n l

  set_timer_positive :
      (v : Voice F) (t : F)
      → d.lt (d.decimal 0 0) t ≡ true
      → set_timer (v, t) ≡ record v { timers = v.timers ++ t ∷ [] }
  unfolding set_timer
  set_timer_positive v t p = if_true (d.lt (d.decimal 0 0) t) _ _ p

  timed_out :
      (now : F) (r : Draw F) (v : Voice F) (n : ℕ) (t : F)
      → v.running ≡ true
      → next_interval r (send_packet now v) ≡ (record (send_packet now v) { rem = n }, t)
      → d.lt (d.decimal 0 0) t ≡ true
      → timeout now r v ≡ advanced v n (now ∷ []) (t ∷ [])
  unfolding timeout send_packet
  timed_out now r v n t h e p =
      if_true v.running _ _ h
      ∙ ap set_timer e
      ∙ set_timer_positive (record (send_packet now v) { rem = n }) t p

  joined :
      (now : F) (times : List F) (v : Voice F) (n : ℕ) (t : F) (timers : List F)
      → advanced (advanced v (length times) (now ∷ []) (t ∷ [])) n times timers
        ≡ advanced v n (now ∷ times) (t ∷ timers)
  joined now times v n t timers =
      set_fields_eq v n n (v.sent + 1 + length times) (v.sent + suc (length times))
        (v.seqno + 1 + length times) (v.seqno + suc (length times))
        ((v.messages ++ record { id = v.id; tx_time = now; seqno = v.seqno } ∷ [])
          ++ numbered v.id (v.seqno + 1) times)
        (v.messages ++ numbered v.id v.seqno (now ∷ times)) ((v.timers ++ t ∷ []) ++ timers)
        (v.timers ++ t ∷ timers) refl (omega arith) (omega arith)
        (append_assoc v.messages (record { id = v.id; tx_time = now; seqno = v.seqno } ∷ [])
          (numbered v.id (v.seqno + 1) times))
        (append_assoc v.timers (t ∷ []) timers)

  -- The rest of a burst.
  timeouts_rest :
      (times : List F) (r : Draw F) (v : Voice F)
      → v.running ≡ true
      → v.rem ≡ length times
      → d.lt (d.decimal 0 0) v.interval ≡ true
      → timeouts times r v ≡ advanced v 0 times (replicate (length times) v.interval)
  unfolding timeouts
  timeouts_rest [] r v h e p =
      set_fields_eq v v.rem 0 v.sent (v.sent + 0) v.seqno (v.seqno + 0) v.messages
        (v.messages ++ []) v.timers (v.timers ++ []) e (omega arith) (omega arith)
        (sym (append-nil v.messages)) (sym (append-nil v.timers))
  timeouts_rest (now ∷ times) r v h e p =
      let v1 : Voice F = advanced v (length times) (now ∷ []) (v.interval ∷ []) in
      ap (timeouts times r) (
        timed_out now r v (length times) v.interval h
          (next_interval_more r (send_packet now v) (length times) e) p)
      ∙ timeouts_rest times r v1 h refl p
      ∙ joined now times v 0 v.interval (replicate (length times) v.interval)

  -- A burst from its beginning: after an idle time, its packets at the interval, with consecutive
  -- numbers and their times; then nothing is left of it.
  pub timeouts_spurt :
      (now : F) (times : List F) (r : Draw F) (v : Voice F)
      → v.running ≡ true
      → v.rem ≡ 0
      → burst_of r ≡ pos (length times)
      → length times + 1 < 4294967296
      → d.lt (d.decimal 0 0) (d.add v.interval (idle_of r)) ≡ true
      → d.lt (d.decimal 0 0) v.interval ≡ true
      → timeouts (now ∷ times) r v
        ≡ advanced v 0
            (now ∷ times)
            (d.add v.interval (idle_of r) ∷ replicate (length times) v.interval)
  unfolding timeouts
  timeouts_spurt now times r v h e b l p q =
      let t : F = d.add v.interval (idle_of r) in
      ap (timeouts times r) (
        timed_out now r v (length times) t h
          (next_interval_first r (send_packet now v) (length times) e b l) p)
      ∙ timeouts_rest times r (advanced v (length times) (now ∷ []) (t ∷ [])) h refl q
      ∙ joined now times v 0 t (replicate (length times) v.interval)
