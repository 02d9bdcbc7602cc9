-- ===== src/Rle/RoundTrip/Link.antt =====
-- From `RleLL::recv` (src/rle-encap.cc) over bursts to `MacRle::sendUp` (src/mac-rle.cc).
use release.Base.{ℕ, ◌+◌, ◌<◌, ◌≡◌, sym, ◌∙◌, true, some, List, [], ◌∷◌, ◌++◌}
use release.Base.Int.{pos}
use release.Rle.Encap.{RleHdr, RleLl, Packet, down, sends_down, init_packet, recv, recv_sends_down}
use release.Rle.Encap.Fresh.{IsFresh, init_packet-IsFresh}
use release.Rle.Receiver.Table.{Contexts, get_context}
use release.Rle.Receiver.Table.Buckets.{IsSound}
use release.Rle.Receiver.{Receiver, finished, send_up}
use release.Rle.RoundTrip.{fragments, Cuts, Expects}
use release.Rle.RoundTrip.Delivery.{send_up-fragments}

-- What `init_packet` wrote.
header-IsFresh :
    (l : RleLl) (p : Packet) (m n k : ℕ) (h : RleHdr)
    → p.size ≡ pos m
    → l.alpdu_hdr ≡ pos n
    → m + n < 4294967280
    → p.prio ≡ pos k
    → k < 8
    → init_packet l p ≡ some h
    → IsFresh h × (h.total_length ≡ m + n) × (h.frag_id ≡ k)
header-IsFresh l p m n k h s a u q w e =
    let (g, i, fresh, total, id) = init_packet-IsFresh l p m n k s a u q w in
    let same : g ≡ h = cc (sym i ∙ e) in rw (← same) (fresh, total, id)

module _ (l : RleLl) (p : Packet) (m n k : ℕ) (h : RleHdr) where
  -- A packet of `m` bytes moves down into an initialised link layer with an ALPDU header of `n`
  -- bytes, both together well below 2^32, and its priority `k` is one of the eight. Then `recv`
  -- counts it and sends it down with the header of `init_packet`; and where the receiver that it is
  -- for has a sound table, in which the context of the flow expects the packet's number, `sendUp`
  -- on its fragments, in order and cut at any number of bursts, ends and gives up that packet,
  -- once, and no other.
  pub recv-send_up :
      (mac_da total : ℕ → ℕ) (src seq b : ℕ) (bs : List ℕ)
      → (r : Receiver) (cp : ℕ) (cs : Contexts) → l.initialized ≡ true
      → p.direction ≡ down
      → p.size ≡ pos m
      → l.alpdu_hdr ≡ pos n
      → m + n < 4294967280
      → p.prio ≡ pos k
      → k < 8
      → init_packet l p ≡ some h
      → Cuts h (b ∷ bs)
      → mac_da p.uid ≡ r.index
      → total p.uid ≡ (m + n) + 3
      → IsSound r.contexts
      → get_context r.contexts src k ≡ some (cp, cs)
      → Expects (cs.cell cp) seq
      → (recv l p
          ≡ some (
            record l { sent_down = l.sent_down + 1 },
            sends_down (record p { direction = down }) h,
          ))
        × ((q : Receiver) × (send_up mac_da total r src (fragments p.uid seq h (b ∷ bs))
              ≡ finished q)
            × (q.delivered ≡ r.delivered ++ p.uid ∷ []))
  recv-send_up mac_da total src seq b bs r cp cs i d s a u q w e c at t v g x =
      let (fresh, length, id) = header-IsFresh l p m n k h s a u q w e in
      (
        recv_sends_down l p h i d e,
        send_up-fragments mac_da total src p.uid seq b bs h r cp cs fresh c (rw id w) at
            (rw length t) v (rw id g) x,
      )
