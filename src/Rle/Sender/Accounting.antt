-- ===== src/Rle/Sender/Accounting.antt =====
-- How the bytes of a timeslot are spent by `MacRle::slotHandler`.
use release.Base.{
  ℕ, zero, suc, ◌+◌, ◌<◌, ◌≤◌, ◌≡◌, refl, inl, inr, false, Option, none, some, List, [], ◌∷◌, arith,
  tests, add32, sub32, ltb, leb, get_or, ltb→le, leb→le, Bool-cases, Option-cases,
}
use release.Rle.Encap.{RleHdr}
use release.Rle.Burst.{FragHdr, used, used-append, cut_frag, fit_frag, fit_hdr}
use release.Rle.Sender.{Sender, Filling, cut_round, fit_round, start, fill, close, slot_handler}

-- The bytes that a burst takes, none if there is no burst.
abbrev pub bytes : Option (List FragHdr) → ℕ
bytes none = 0
bytes (some fs) = used fs

-- The length field of every packet leaves room for a fragment header in 32 bits.
abbrev pub IsBounded : {Q : Type 0} → Sender Q → Type 0
IsBounded s = (p : ℕ) → (s.hdr p).psize < 4294967294

used_frag : (bs p : ℕ) (h : RleHdr) → 2 ≤ bs → bs < 4294967296 → (cut_frag bs p h).length + 2 ≡ bs
unfolding cut_frag
used_frag bs p h l u = omega arith

room :
    (bs psize : ℕ)
    → ltb bs (add32 psize 2) ≡ false
    → bs < 4294967296
    → psize < 4294967294
    → sub32 bs (add32 psize 2) + (psize + 2) ≡ bs
room bs psize t u w = omega (tests, ltb→le bs (add32 psize 2) t)

module _ {Q : Type 0} where
  -- What a round does to the bytes of the burst.
  abbrev pub Spends : Filling Q → Filling Q → Type 0
  Spends b r =
      (r.bs + used r.frags ≡ b.bs + used b.frags)
      × (r.sender.used_slots ≡ b.sender.used_slots)
      × (r.sender.total_slots ≡ b.sender.total_slots)

  Spends-trans : (a b c : Filling Q) → Spends a b → Spends b c → Spends a c
  Spends-trans a b c h k = omega arith

  cut_round-Spends :
      (b : Filling Q) (p : ℕ) → 2 ≤ b.bs → b.bs < 4294967296 → Spends b (cut_round b p)
  unfolding cut_round
  cut_round-Spends b p l u = (
    omega (
      arith,
      used-append b.frags (cut_frag b.bs p (b.sender.hdr p) ∷ []),
      used_frag b.bs p (b.sender.hdr p) l u,
    ),
    refl,
    refl,
  )

  fit_round-Spends :
      (remove : Q → ℕ → Q) (b : Filling Q) (p : ℕ)
      → ltb b.bs (add32 (b.sender.hdr p).psize 2) ≡ false
      → b.bs < 4294967296
      → (b.sender.hdr p).psize < 4294967294
      → Spends b (fit_round remove b p)
  unfolding fit_round fit_frag
  fit_round-Spends remove b p t u w = (
    omega (
      arith,
      used-append b.frags
          (fit_frag (get_or b.sender.next (b.sender.hdr p).frag_id 0) p (b.sender.hdr p) ∷ []),
      room b.bs (b.sender.hdr p).psize t u w,
    ),
    refl,
    refl,
  )

  fit_round-lt :
      (remove : Q → ℕ → Q) (b : Filling Q) (p : ℕ)
      → ltb b.bs (add32 (b.sender.hdr p).psize 2) ≡ false
      → b.bs < 4294967296
      → (b.sender.hdr p).psize < 4294967294
      → (fit_round remove b p).bs < b.bs
  unfolding fit_round
  fit_round-lt remove b p t u w = omega (arith, room b.bs (b.sender.hdr p).psize t u w)

  fit_round-IsBounded :
      (remove : Q → ℕ → Q) (b : Filling Q) (p : ℕ)
      → IsBounded b.sender
      → IsBounded (fit_round remove b p).sender
  unfolding fit_round fit_hdr
  fit_round-IsBounded remove b p h q = ground (arith, h q, h p)

module _ {Q : Type 0} (head : Q → Option ℕ) (remove : Q → ℕ → Q) where
  -- With more fuel than bytes the loop ends, and every byte is in a fragment or left over.
  pub fill-Spends :
      (fuel : ℕ) (b : Filling Q)
      → b.bs < fuel
      → 2 ≤ b.bs
      → b.bs < 4294967296
      → IsBounded b.sender
      → (r : Filling Q) × (fill head remove fuel b ≡ some r) × Spends b r
  unfolding fill
  fill-Spends zero b f l u h = absurd (omega arith)
  fill-Spends (suc fuel) b f l u h = elim (Option-cases (head b.sender.queue)) [
    | inl e ↦ (b, rw (e, fill), (refl, refl, refl))
    | inr (p, e) ↦ elim (Bool-cases (ltb b.bs (add32 (b.sender.hdr p).psize 2))) [
      | inl t ↦ (cut_round b p, rw (e, fill, t), cut_round-Spends b p l u)
      | inr t ↦ elim (Bool-cases (leb 4 (fit_round remove b p).bs)) [
        | inl more ↦
            let b' : Filling Q = fit_round remove b p in
            let spent = fit_round-Spends remove b p t u (h p) in
            let less = fit_round-lt remove b p t u (h p) in
            let ih =
              fill-Spends fuel b' (omega arith) (omega (arith, leb→le 4 b'.bs more)) (omega arith)
                (fit_round-IsBounded remove b p h) in
            (ih.0, rw (e, fill, t, more) ih.1, Spends-trans b b' ih.0 spent ih.2)
        | inr done ↦
            (fit_round remove b p, rw (e, fill, t, done), fit_round-Spends remove b p t u (h p))
      ]
    ]
  ]

  close-accounts :
      (size : ℕ) (b : Filling Q)
      → b.bs + used b.frags ≡ size
      → size < 4294967296
      → ((close size b).0.used_slots ≡ b.sender.used_slots + bytes (close size b).1)
        × ((close size b).0.total_slots ≡ b.sender.total_slots)
        × (bytes (close size b).1 ≤ size)
  unfolding close
  close-accounts size b e u = ground arith

  -- In a timeslot of at least 2 and less than 2^32 bytes, with every packet's remaining length in
  -- range, the handler of the slot ends; the slot counter grows by the slot's size, and the counter of used bytes by
  -- exactly what the fragments of the burst and their headers take, which is at most that size.
  pub slot_handler_accounts :
      (s : Sender Q) (size : ℕ)
      → 2 ≤ size
      → size < 4294967296
      → IsBounded s
      → (r : Sender Q × Option (List FragHdr)) × (slot_handler head remove s size ≡ some r)
        × (r.0.total_slots ≡ s.total_slots + size)
        × (r.0.used_slots ≡ s.used_slots + bytes r.1)
        × (bytes r.1 ≤ size)
  unfolding slot_handler start
  slot_handler_accounts s size l u h =
      let filled = fill-Spends (size + 1) (start s size) (omega arith) l u h in
      let closed = close-accounts size filled.0 (omega (arith, filled.2)) u in
      (
        close size filled.0,
        rw (filled.1, slot_handler),
        omega (arith, closed, filled.2),
        omega (arith, closed, filled.2),
        closed.2,
      )
