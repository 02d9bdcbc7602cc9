-- ===== src/Prio/Enque.antt =====
-- What `PacketQueueFid::enque` (src/prio_fid.cc) makes of a queue.
use release.Base.{
  ℕ, zero, suc, ◌+◌, ◌<◌, ◌≡◌, ◌≢◌, refl, sym, ap, ◌∙◌, true, false, Option, none, some, List, [],
  ◌∷◌, arith, update, length, Bool-cases, inl, inr,
}
use release.Base.Int.{ℤ}
use release.Prio.{PacketQueue, goes_before, seek, link, enque}
use release.Prio.Chain.{
  Links, Avoids, IsDistinct, update_ne, update_self, Links-update, insert, IsSorted,
  insert-IsSorted, last_goes_before, length-insert, last_ne,
}

-- The queue holds the packets `xs`, in this order.
abbrev pub Holds : PacketQueue → List ℕ → Type 0
Holds q [] = (q.head ≡ none) × (q.tail ≡ none) × (q.len ≡ 0)
Holds q (x ∷ xs) =
    (t : ℕ) × (q.head ≡ some x) × (q.tail ≡ some t) × Links q.next x xs t × (q.len ≡ length xs + 1)

module _ (prio : ℕ → ℤ) (p : ℕ) where
  -- `p` becomes the last packet.
  linked_last :
      (next : ℕ → Option ℕ) (x t : ℕ) (xs : List ℕ)
      → Links next x xs t
      → IsDistinct (x ∷ xs)
      → IsSorted prio (x ∷ xs)
      → goes_before prio t p ≡ true
      → Links (update next t (some p)) x (insert prio p xs) p
  unfolding insert
  linked_last next x t [] l d s e = (rw (sym l) (update_self next x (some p)), refl)
  linked_last next x t (y ∷ ys) (l, ls) (n, d) (h, s) e =
      rw (last_goes_before prio next p y t ys ls s e) (
        update_ne next t x (some p) (last_ne next y t x ys ls n) ∙ l,
        linked_last next y t ys ls d s e,
      )

  seek_on :
      (fuel y : ℕ) (next : ℕ → Option ℕ) (prev curr : Option ℕ)
      → curr ≡ some y
      → goes_before prio y p ≡ true
      → seek prio (suc fuel) next p prev curr ≡ seek prio fuel next p (some y) (next y)
  unfolding seek
  seek_on fuel y next prev curr e h = rw (e, seek, h) refl

  seek_stop :
      (fuel y : ℕ) (next : ℕ → Option ℕ) (prev curr : Option ℕ)
      → curr ≡ some y
      → goes_before prio y p ≡ false
      → seek prio (suc fuel) next p prev curr ≡ some (prev, y)
  unfolding seek
  seek_stop fuel y next prev curr e h = rw (e, seek, h) refl

  -- `p` is linked in behind `x`, somewhere before the last packet.
  linked_behind :
      (fuel : ℕ) (next : ℕ → Option ℕ) (x t : ℕ) (xs : List ℕ)
      → Links next x xs t
      → IsDistinct (x ∷ xs)
      → Avoids p (x ∷ xs)
      → goes_before prio x p ≡ true
      → goes_before prio t p ≡ false
      → length xs < fuel
      → (v : ℕ) × (c : ℕ) × (seek prio fuel next p (some x) (next x) ≡ some (some v, c))
        × Links (update (update next v (some p)) p (some c)) x (insert prio p xs) t
        × ((w : ℕ) → Avoids w (x ∷ xs) → w ≢ v)
  unfolding insert
  linked_behind zero next x t xs l d n h e f = absurd (omega arith)
  linked_behind (suc fuel) next x t [] l d n h e f =
      absurd (ground (arith, ap (λ k. goes_before prio k p) l))
  linked_behind (suc fuel) next x t (y ∷ ys) (l, ls) (a, d) (n, ns) h e f =
      elim (Bool-cases (goes_before prio y p)) [
        | inl b ↦
            let (v, c, s, links, out) =
              linked_behind fuel next y t ys ls d ns b e (omega (arith, f)) in
            (
              v,
              c,
              seek_on fuel y next (some x) (next x) l b ∙ s,
              rw b (
                update_ne (update next v (some p)) p x (some c) n
                    ∙ update_ne next v x (some p) (out x a)
                    ∙ l,
                links,
              ),
              λ w k. out w k.1,
            )
        | inr b ↦ (
          x,
          y,
          seek_stop fuel y next (some x) (next x) l b,
          rw b (
            update_ne (update next x (some p)) p x (some y) n ∙ update_self next x (some p),
            (
              update_self (update next x (some p)) p (some y),
              Links-update (update next x (some p)) y t p ys (some y) ns
                  (Links-update next y t x ys (some p) a ls),
            ),
          ),
          λ w k q. k.0 (sym q),
        )
      ]

module _ (size : ℕ → ℕ) (prio : ℕ → ℤ) (p : ℕ) where
  abbrev counted : PacketQueue → PacketQueue
  counted q = record q { len = q.len + 1; bytes = q.bytes + size p }

  enque_empty :
      (q : PacketQueue)
      → q.tail ≡ none
      → enque size prio q p ≡ some (record (counted q) { head = some p; tail = some p }, none)
  unfolding enque
  enque_empty q e = rw (enque, e) refl

  enque_end :
      (q : PacketQueue) (t : ℕ)
      → q.tail ≡ some t
      → goes_before prio t p ≡ true
      → enque size prio q p
        ≡ some (record (counted q) { next = update q.next t (some p); tail = some p }, some t)
  unfolding enque
  enque_end q t e h = rw (enque, e, h) refl

  enque_middle :
      (q : PacketQueue) (t : ℕ) (prev : Option ℕ) (curr : ℕ)
      → q.tail ≡ some t
      → goes_before prio t p ≡ false
      → seek prio (q.len + 1) q.next p none q.head ≡ some (prev, curr)
      → enque size prio q p ≡ some (link (counted q) p prev curr, some t)
  unfolding enque
  enque_middle q t prev curr e h s = simp (enque, e, h, s) refl

  -- What a queue of the packets `xs` becomes.
  abbrev pub Enqueued : PacketQueue → List ℕ → Option (PacketQueue × Option ℕ) → Type 0
  Enqueued q xs result =
      (r : PacketQueue) × (result ≡ some (r, q.tail))
      × Holds r (insert prio p xs)
      × (r.bytes ≡ q.bytes + size p)

  -- The head of the queue stays where it is, or `p` becomes the head.
  inside :
      (q : PacketQueue) (x t : ℕ) (xs : List ℕ)
      → q.head ≡ some x
      → q.tail ≡ some t
      → q.len ≡ length xs + 1
      → Links q.next x xs t
      → IsDistinct (x ∷ xs)
      → Avoids p (x ∷ xs)
      → goes_before prio t p ≡ false
      → Enqueued q (x ∷ xs) (enque size prio q p)
  unfolding insert link
  inside q x t xs hd tl ln l d n e =
      let one_more : q.len + 1 ≡ suc q.len = omega arith in
      elim (Bool-cases (goes_before prio x p)) [
        | inl b ↦
            let (v, c, s, links, out) =
              linked_behind prio p q.len q.next x t xs l d n b e (omega (arith, ln)) in
            let found : seek prio (q.len + 1) q.next p none q.head ≡ some (some v, c) =
              ap (λ k. seek prio k q.next p none q.head) one_more
              ∙ seek_on prio p q.len x q.next none q.head hd b
              ∙ s in
            (
              link (counted q) p (some v) c,
              enque_middle q t (some v) c tl e found
                  ∙ ap (λ o. some (link (counted q) p (some v) c, o)) (sym tl),
              rw b (t, hd, tl, links, omega (arith, ln, length-insert prio p xs)),
              refl,
            )
        | inr b ↦
            let found : seek prio (q.len + 1) q.next p none q.head ≡ some (none, x) =
              ap (λ k. seek prio k q.next p none q.head) one_more
              ∙ seek_stop prio p q.len x q.next none q.head hd b in
            (
              link (counted q) p none x,
              enque_middle q t none x tl e found
                  ∙ ap (λ o. some (link (counted q) p none x, o)) (sym tl),
              rw b (
                t,
                refl,
                tl,
                (update_self q.next p (some x), Links-update q.next x t p xs (some x) n l),
                omega (arith, ln),
              ),
              refl,
            )
      ]

  -- On a queue of distinct packets in the order of their priority numbers, `enque` of another
  -- packet never uses a null packet: it puts the packet behind those whose number is not greater
  -- and before the others, which all keep their order; the queue is in order again, the counters
  -- follow, and the result is the old tail.
  pub enque-Holds :
      (q : PacketQueue) (xs : List ℕ)
      → Holds q xs
      → IsSorted prio xs
      → IsDistinct xs
      → Avoids p xs
      → Enqueued q xs (enque size prio q p) × IsSorted prio (insert prio p xs)
  unfolding insert
  enque-Holds q [] (hd, tl, ln) s d n = (
    (
      record (counted q) { head = some p; tail = some p },
      enque_empty q tl
          ∙ ap (λ o. some (record (counted q) { head = some p; tail = some p }, o)) (sym tl),
      (p, refl, refl, refl, omega (arith, ln)),
      refl,
    ),
    insert-IsSorted prio p [] s,
  )
  enque-Holds q (x ∷ xs) (t, hd, tl, l, ln) s d n = elim (Bool-cases (goes_before prio t p)) [
    | inl e ↦
        let r : PacketQueue = record (counted q) {
          next = update q.next t (some p);
          tail = some p;
        } in
        (
          (
            r,
            enque_end q t tl e ∙ ap (λ o. some (r, o)) (sym tl),
            rw (last_goes_before prio q.next p x t xs l s e) (
              p,
              hd,
              refl,
              linked_last prio p q.next x t xs l d s e,
              omega (arith, ln, length-insert prio p xs),
            ),
            refl,
          ),
          insert-IsSorted prio p (x ∷ xs) s,
        )
    | inr e ↦ (inside q x t xs hd tl ln l d n e, insert-IsSorted prio p (x ∷ xs) s)
  ]
