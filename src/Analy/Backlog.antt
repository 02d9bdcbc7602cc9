-- ===== src/Analy/Backlog.antt =====
-- The packets in the queue, as src/utils/analy.c counts them.
use release.Base.{
  ℕ, zero, suc, ◌+◌, ◌-◌, ◌%◌, ◌<◌, ◌≤◌, ◌≡◌, refl, sym, ap, subst, ◌∙◌, Bool, true, false, not,
  ◌&&◌, ◌||◌, Option, some, arith, Bool-cases, inl, inr, update, ◌==◌, ==_iff, ==_refl, if_true,
  if_false,
}
use native.Mathlib.Nat.{mod-lt}
use release.Base.Int.{pos, ◌+ℤ◌, ◌-ℤ◌}
use release.Base.Double.{Double}
use release.Analy.{
  Packet, Code, enque, deque, drop, other, Trace, Analysis, take_in, let_out, count_drop, drop_at,
  drop_stops, enqueued, dequeued, dropped, event_of, event,
}
use release.Analy.Search.{seek_finds}

abbrev pub bit : Bool → ℕ
bit true = 1
bit false = 0

-- The packets at the first `n` places.
abbrev pub waiting : {F : Type 0} → ℕ → (ℕ → Packet F) → ℕ
waiting zero b = 0
waiting (suc n) b = bit (b n).busy + waiting n b

waiting-far :
    {F : Type 0} (n : ℕ) (b : ℕ → Packet F) (k : ℕ) (p : Packet F)
    → n ≤ k
    → waiting n (update b k p) ≡ waiting n b
waiting-far zero b k p h = refl
waiting-far (suc n) b k p h =
    let apart : update b k p n ≡ b n = if_false (k == n) p (b n) (ground (arith, h)) in
    omega (arith, ap (λ q. bit q.busy) apart, waiting-far n b k p (omega (arith, h)))

-- One place changes the number by what it held and holds.
waiting-update :
    {F : Type 0} (n : ℕ) (b : ℕ → Packet F) (k : ℕ) (p : Packet F)
    → k < n
    → waiting n (update b k p) + bit (b k).busy ≡ waiting n b + bit p.busy
waiting-update zero b k p h = absurd (omega (arith, h))
waiting-update (suc n) b k p h = elim (Bool-cases (k == n)) [
  | inl e ↦
      let same : k ≡ n = (==_iff _ _).0 e in
      let at : update b k p n ≡ p = if_true (k == n) p (b n) e in
      omega (
        arith,
        ap (λ q. bit q.busy) at,
        waiting-far n b k p (omega (arith, same)),
        ap (λ m. bit (b m).busy) same,
      )
  | inr e ↦
      let apart : update b k p n ≡ b n = if_false (k == n) p (b n) e in
      omega (arith, ap (λ q. bit q.busy) apart, waiting-update n b k p (ground (arith, h, e)))
]

one_more : (n : ℕ) → (pos n +ℤ pos 1) ≡ pos (n + 1)
unfolding ◌+ℤ◌
one_more n = ground arith

one_less : (n : ℕ) → 0 < n → (pos n -ℤ pos 1) ≡ pos (n - 1)
unfolding ◌-ℤ◌
one_less n h = ground (arith, h)

both : (a b : Bool) → (a && b) ≡ true → (a ≡ true) × (b ≡ true)
both true b h = (refl, h)
both false b h = absurd (cc (h))

module _ {F : Type 0} ⦃d : Double F⦄ where
  -- The size of the queue is the number of places that are busy.
  abbrev pub IsBalanced : ℕ → Analysis F → Type 0
  IsBalanced size a = (a.place < size) × (a.queuesize_pkt ≡ pos (waiting size a.backlog))

  -- A record that fits the backlog: a free place for a packet that is enqueued, the place of one
  -- that is dequeued, and no left-over identity for one that is dropped.
  abbrev pub Suits : ℕ → Analysis F → Code → ℕ → Type 0
  Suits size a enque id = (j : ℕ) × (j < size) × ((a.backlog j).busy ≡ false)
  Suits size a deque id =
      (j : ℕ) × (j < size) × ((a.backlog j).busy ≡ true) × ((a.backlog j).pkt_id ≡ id)
  Suits size a drop id = (j : ℕ) → j < size → (a.backlog j).pkt_id ≡ id → (a.backlog j).busy ≡ true
  Suits size a other id = Unit

  abbrev pub Keeps : ℕ → Option (Analysis F) → Type 0
  Keeps size o = (a : Analysis F) × (o ≡ some a) × IsBalanced size a

  -- A place that is freed was busy.
  freed :
      (size i : ℕ) (a : Analysis F)
      → i < size
      → (a.backlog i).busy ≡ true
      → IsBalanced size a
      → a.queuesize_pkt -ℤ pos 1
        ≡ pos (waiting size (update a.backlog i (record (a.backlog i) { busy = false })))
  freed size i a h e v =
      let less = waiting-update size a.backlog i (record (a.backlog i) { busy = false }) h in
      let some_left : 0 < waiting size a.backlog = omega (arith, less, ap bit e) in
      ap (λ q. q -ℤ pos 1) v.1
      ∙ one_less (waiting size a.backlog) some_left
      ∙ ap (λ n. pos n) (omega (arith, less, ap bit e))

  enqueued-IsBalanced :
      (size : ℕ) (r : Trace F) (a : Analysis F)
      → IsBalanced size a
      → Suits size a enque r.pkt_id
      → Keeps size (enqueued size r a)
  unfolding enqueued take_in
  enqueued-IsBalanced size r a v (j, h, free) =
      let (i, f, low, found) =
        seek_finds size (λ j. not (a.backlog j).busy) a.place j v.0 h (ap not free) in
      let new : Packet F = record { ts = r.time; pkt_id = r.pkt_id; busy = true } in
      let more = waiting-update size a.backlog i new low in
      let was_free : (a.backlog i).busy ≡ false = negated (a.backlog i).busy found in
      (
        take_in r a i,
        rw (enqueued, f) refl,
        (
          low,
          ap (λ q. q +ℤ pos 1) v.1
              ∙ one_more (waiting size a.backlog)
              ∙ ap (λ n. pos n) (omega (arith, more, ap bit was_free)),
        ),
      )
    where
      negated : (b : Bool) → not b ≡ true → b ≡ false
      negated true e = absurd (cc (e))
      negated false e = refl

  dequeued-IsBalanced :
      (size : ℕ) (r : Trace F) (a : Analysis F)
      → IsBalanced size a
      → Suits size a deque r.pkt_id
      → Keeps size (dequeued size r a)
  unfolding dequeued let_out
  dequeued-IsBalanced size r a v (j, h, held, same) =
      let (i, f, low, found) =
        seek_finds size (λ j. (a.backlog j).busy && ((a.backlog j).pkt_id == r.pkt_id)) a.place j
          v.0 h (rw (held, same, ==_refl r.pkt_id) refl) in
      (
        let_out r a i,
        rw (dequeued, f) refl,
        (
          low,
          freed size i a low (both (a.backlog i).busy ((a.backlog i).pkt_id == r.pkt_id) found).0 v,
        ),
      )

  drop_at-IsBalanced :
      (size i : ℕ) (r : Trace F) (a : Analysis F)
      → IsBalanced size a
      → Suits size a drop r.pkt_id
      → i < size
      → IsBalanced size (drop_at r a i)
  unfolding drop_at count_drop
  drop_at-IsBalanced size i r a v held low = elim (Bool-cases ((a.backlog i).pkt_id == r.pkt_id)) [
    | inl e ↦
        let busy : (a.backlog i).busy ≡ true = held i low ((==_iff _ _).0 e) in
        subst (IsBalanced size) (sym (if_true ((a.backlog i).pkt_id == r.pkt_id) _ _ e))
          (low, freed size i a low busy v)
    | inr e ↦
        subst (IsBalanced size) (sym (if_false ((a.backlog i).pkt_id == r.pkt_id) _ _ e)) (low, v.1)
  ]

  dropped-IsBalanced :
      (size : ℕ) (r : Trace F) (a : Analysis F)
      → IsBalanced size a
      → Suits size a drop r.pkt_id
      → Keeps size (dropped size r a)
  unfolding dropped drop_stops
  dropped-IsBalanced size r a v held =
      let ic : ℕ = (a.place + size - 1) % size in
      let (i, f, low, found) =
        seek_finds size (drop_stops size r a) a.place ic v.0
          (mod-lt (a.place + size - 1) (omega (arith, v.0)))
          (ends ((a.backlog ic).pkt_id == r.pkt_id) ic) in
      (drop_at r a i, rw (dropped, f) refl, drop_at-IsBalanced size i r a v held low)
    where
      ends : (b : Bool) (n : ℕ) → (b || (n == n)) ≡ true
      ends true n = refl
      ends false n = ==_refl n

  event_of-IsBalanced :
      (code : Code) (size : ℕ) (r : Trace F) (a : Analysis F)
      → IsBalanced size a
      → Suits size a code r.pkt_id
      → Keeps size (event_of code size r a)
  unfolding event_of
  event_of-IsBalanced enque size r a v s = enqueued-IsBalanced size r a v s
  event_of-IsBalanced deque size r a v s = dequeued-IsBalanced size r a v s
  event_of-IsBalanced drop size r a v s = dropped-IsBalanced size r a v s
  event_of-IsBalanced other size r a v s = (a, refl, v)

  -- A record that suits the backlog is taken in, its loops end, and the size of the queue stays the
  -- number of places that are busy: a place must be free for a packet that is enqueued, one that is
  -- dequeued must be there, and for one that is dropped no place may hold its identity from an
  -- earlier visit.
  pub event-IsBalanced :
      (size : ℕ) (r : Trace F) (a : Analysis F)
      → IsBalanced size a
      → Suits size a r.code r.pkt_id
      → Keeps size (event size r a)
  unfolding event
  event-IsBalanced size r a v s = event_of-IsBalanced r.code size r a v s
