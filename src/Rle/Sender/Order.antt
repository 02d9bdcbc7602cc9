-- ===== src/Rle/Sender/Order.antt =====
-- Which packets a burst of `MacRle::slotHandler` takes from the queue, and in which order.
use release.Base.{
  ℕ, zero, suc, ◌+◌, ◌<◌, ◌≤◌, ◌≡◌, refl, sym, ap, ◌∙◌, inl, inr, Option, none, some, List, [], ◌∷◌,
  ◌++◌, arith, bit_and, bit_or, ltb, leb, add32, ◌==◌, if◌then◌else◌, length, length-append,
  append_assoc, append-nil, Bool-cases, Option-cases, get_or,
}
use release.Rle.Encap.{RleHdr}
use release.Rle.Burst.{FragHdr, cut_frag, fit_frag, fit_hdr}
use release.Rle.Sender.{Sender, Filling, cut_round, fit_round, start, fill, close, slot_handler}
use release.Rle.Sender.Accounting.{IsBounded, fill-Spends}

-- The packets whose last fragment, or only one, is among these.
abbrev pub finished : List FragHdr → List ℕ
finished [] = []
finished (f ∷ fs) = if bit_and f.start_end 1 == 1 then f.alpdu ∷ finished fs else finished fs

finished-append : (fs gs : List FragHdr) → finished (fs ++ gs) ≡ finished fs ++ finished gs
finished-append [] gs = refl
finished-append (f ∷ fs) gs = ground (arith, finished-append fs gs)

or_one : (n : ℕ) → n < 4 → bit_and (bit_or n 1) 1 ≡ 1
or_one zero h = refl
or_one (suc zero) h = refl
or_one (suc (suc zero)) h = refl
or_one (suc (suc (suc zero))) h = refl
or_one (suc (suc (suc (suc n)))) h = absurd (omega arith)

or_one-lt : (n : ℕ) → n < 4 → bit_or n 1 < 4
or_one-lt zero h = omega arith
or_one-lt (suc zero) h = omega arith
or_one-lt (suc (suc zero)) h = omega arith
or_one-lt (suc (suc (suc zero))) h = omega arith
or_one-lt (suc (suc (suc (suc n)))) h = absurd (omega arith)

and_two : (n : ℕ) → n < 4 → bit_and (bit_and n 2) 1 ≡ 0
and_two zero h = refl
and_two (suc zero) h = refl
and_two (suc (suc zero)) h = refl
and_two (suc (suc (suc zero))) h = refl
and_two (suc (suc (suc (suc n)))) h = absurd (omega arith)

-- `start_end` has two bits.
abbrev pub IsFlagged : {Q : Type 0} → Sender Q → Type 0
IsFlagged s = (p : ℕ) → (s.hdr p).start_end < 4

abbrev pub first : List ℕ → Option ℕ
first [] = none
first (p ∷ ps) = some p

cut-finished : (bs p : ℕ) (h : RleHdr) → h.start_end < 4 → finished (cut_frag bs p h ∷ []) ≡ []
unfolding cut_frag
cut-finished bs p h l = ground (arith, and_two h.start_end l)

fit-finished :
    (seq p : ℕ) (h : RleHdr) → h.start_end < 4 → finished (fit_frag seq p h ∷ []) ≡ p ∷ []
unfolding fit_frag
fit-finished seq p h l = ground (arith, or_one h.start_end l)

-- The queue of ns-2, seen as the sequence of its packets: the head is the first, and removing it
-- leaves the others.
pub record IsQueue {Q : Type 0} (head : Q → Option ℕ) (remove : Q → ℕ → Q) (contents : Q → List ℕ)
    : Type 0 where
  pub head_lem : (q : Q) → head q ≡ first (contents q)
  pub remove_lem : (q : Q) (p : ℕ) (ps : List ℕ) → contents q ≡ p ∷ ps → contents (remove q p) ≡ ps

first-some : (ps : List ℕ) (p : ℕ) → first ps ≡ some p → (qs : List ℕ) × (ps ≡ p ∷ qs)
first-some [] p e = cc
first-some (q ∷ qs) p e = (qs, cc)

module _ {Q : Type 0} (head : Q → Option ℕ) (remove : Q → ℕ → Q) (contents : Q → List ℕ) where
  -- Every packet is in the queue or finished, in the order of the queue, and the counter of sent
  -- packets follows.
  pub record Takes (b r : Filling Q) : Type 0 where
    pub packets :
        finished r.frags ++ contents r.sender.queue ≡ finished b.frags ++ contents b.sender.queue
    pub count :
        r.sender.sent_down + length (finished b.frags)
        ≡ b.sender.sent_down + length (finished r.frags)

  cut_round-Takes :
      (b : Filling Q) (p : ℕ) → (b.sender.hdr p).start_end < 4 → Takes b (cut_round b p)
  unfolding cut_round
  cut_round-Takes b p h =
      let frag = cut_frag b.bs p (b.sender.hdr p) in
      let same : finished (b.frags ++ frag ∷ []) ≡ finished b.frags =
        finished-append b.frags (frag ∷ [])
        ∙ ap (λ l. finished b.frags ++ l) (cut-finished b.bs p (b.sender.hdr p) h)
        ∙ append-nil (finished b.frags) in
      record {
        packets = ap (λ l. l ++ contents b.sender.queue) same;
        count = ap (λ l. b.sender.sent_down + length l) (sym same);
      }

  fit_round-Takes :
      IsQueue head remove contents
      → (b : Filling Q) (p : ℕ) (ps : List ℕ) → contents b.sender.queue ≡ p ∷ ps
      → (b.sender.hdr p).start_end < 4
      → Takes b (fit_round remove b p)
  unfolding fit_round
  fit_round-Takes v b p ps e h =
      let seq : ℕ = get_or b.sender.next (b.sender.hdr p).frag_id 0 in
      let frag = fit_frag seq p (b.sender.hdr p) in
      let more : finished (b.frags ++ frag ∷ []) ≡ finished b.frags ++ p ∷ [] =
        finished-append b.frags (frag ∷ [])
        ∙ ap (λ l. finished b.frags ++ l) (fit-finished seq p (b.sender.hdr p) h) in
      record {
        packets =
            rw (more, v.remove_lem b.sender.queue p ps e, e)
              (append_assoc (finished b.frags) (p ∷ []) ps);
        count = omega (arith, ap length more, length-append (finished b.frags) (p ∷ []));
      }

  fit_round-IsFlagged :
      (b : Filling Q) (p : ℕ) → IsFlagged b.sender → IsFlagged (fit_round remove b p).sender
  unfolding fit_round fit_hdr
  fit_round-IsFlagged b p h q = ground (arith, h q, h p, or_one-lt (b.sender.hdr p).start_end (h p))

  Takes-trans : (a b c : Filling Q) → Takes a b → Takes b c → Takes a c
  Takes-trans a b c h k = record {
    packets = k.packets ∙ h.packets;
    count = omega (arith, h.count, k.count);
  }

  abbrev TakesIfSome : Filling Q → Option (Filling Q) → Type 0
  TakesIfSome b none = Unit
  TakesIfSome b (some r) = Takes b r

  TakesIfSome-trans :
      (a b : Filling Q) (o : Option (Filling Q)) → Takes a b → TakesIfSome b o → TakesIfSome a o
  TakesIfSome-trans a b none h k = tt
  TakesIfSome-trans a b (some c) h k = Takes-trans a b c h k

  fill-Takes :
      IsQueue head remove contents
      → (fuel : ℕ) (b : Filling Q) → IsFlagged b.sender
      → TakesIfSome b (fill head remove fuel b)
  unfolding fill
  fill-Takes v zero b h = tt
  fill-Takes v (suc fuel) b h = elim (Option-cases (head b.sender.queue)) [
    | inl e ↦ rw (e, fill) (record { packets = refl; count = refl })
    | inr (p, e) ↦ elim (Bool-cases (ltb b.bs (add32 (b.sender.hdr p).psize 2))) [
      | inl t ↦ rw (e, fill, t) (cut_round-Takes b p (h p))
      | inr t ↦
          let split =
            first-some (contents b.sender.queue) p (sym (v.head_lem b.sender.queue) ∙ e) in
          let one = fit_round-Takes v b p split.0 split.1 (h p) in
          elim (Bool-cases (leb 4 (fit_round remove b p).bs)) [
            | inl more ↦
                rw (e, fill, t, more)
                  (TakesIfSome-trans b (fit_round remove b p) _ one
                    (fill-Takes v fuel (fit_round remove b p) (fit_round-IsFlagged b p h)))
            | inr done ↦ rw (e, fill, t, done) one
          ]
    ]
  ]

abbrev pub payload : Option (List FragHdr) → List FragHdr
payload none = []
payload (some fs) = fs

close-payload :
    {Q : Type 0} (size : ℕ) (b : Filling Q)
    → (payload (close size b).1 ≡ b.frags)
      × ((close size b).0.queue ≡ b.sender.queue)
      × ((close size b).0.sent_down ≡ b.sender.sent_down)
unfolding close
close-payload size b = ground arith

-- Over a queue that gives its packets in order, in a timeslot of at least 2 and less than 2^32
-- bytes, with the `start_end` of every packet of two bits and its remaining length in range, the
-- handler of the slot ends and takes a first part of the queue, in order: the packets whose last
-- fragment is in the burst, followed by those that are still in the queue, are the packets that
-- were in the queue. The counter of sent packets grows by the number of the former.
pub slot_handler_takes :
    {Q : Type 0} (head : Q → Option ℕ) (remove : Q → ℕ → Q) (contents : Q → List ℕ)
    → (s : Sender Q) (size : ℕ) → IsQueue head remove contents
    → IsFlagged s
    → 2 ≤ size
    → size < 4294967296
    → IsBounded s
    → (r : Sender Q × Option (List FragHdr)) × (slot_handler head remove s size ≡ some r)
      × (finished (payload r.1) ++ contents r.0.queue ≡ contents s.queue)
      × (r.0.sent_down ≡ s.sent_down + length (finished (payload r.1)))
unfolding slot_handler start
slot_handler_takes {Q} head remove contents s size v g l u h =
    let filled = fill-Spends head remove (size + 1) (start s size) (omega arith) l u h in
    let takes : Takes head remove contents (start s size) filled.0 =
      (rw filled.1 at (fill-Takes {Q = Q} head remove contents v (size + 1) (start s size) g)) in
    let out = close-payload size filled.0 in
    (
      close size filled.0,
      rw (filled.1, slot_handler),
      rw (out.0, out.1) takes.packets,
      rw (out.0, out.2) (omega (arith, takes.count)),
    )
