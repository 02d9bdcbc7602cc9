-- ===== src/Mpeg/RoundTrip.antt =====
-- Packets from one `MpegLL` (src/mpeg-encap.cc) to another.
use release.Base.{
  ℕ, ◌+◌, ◌%◌, ◌≤◌, ◌≡◌, refl, sym, ap, subst, ◌∙◌, Bool, true, Option, none, some, List, [], ◌∷◌,
  ◌++◌, map, All, arith, append_assoc, append-nil, update, Option-cases, inl, inr,
}
use release.Base.Int.{ℤ, pos}
use release.Atm.Arp.{Dest, lookup}
use release.Mpeg.{n_queues}
use release.Mpeg.Sender.{Datagram, Frag, Cell, Sender, send_frags, handle_timer}
use release.Mpeg.Sender.Filling.{IsFilling, sent_frags, sent, Marked, bytes}
use release.Mpeg.Sender.Idle.{IsIdle, shipped, shipped-IsIdle}
use release.Mpeg.Sender.Closing.{IsReady, gathered}
use release.Mpeg.Sender.Cells.{send_frags-IsReady}
use release.Mpeg.Receiver.{Receiver, process_all, send_up, send_up_all}
use release.Mpeg.Receiver.Reassembly.{Carries, upward, all_given}
use release.Mpeg.Receiver.Arrivals.{IsOwn, joined, send_up_all-joined}
use release.Mpeg.Link.{MpegLl, Arrival, up, down, recv, recv_all}

-- Packets for the address, of at least 12 bytes each.
abbrev pub Stream : ℕ → List Datagram → Type 0
Stream addr ps = All (λ p. (p.next_hop ≡ addr) × (12 ≤ p.size)) ps

-- The cells that were sent, as they arrive.
abbrev pub arrivals : (ℕ → List Frag) → List (Cell × Dest) → List Arrival
arrivals heap out = map (λ x. up x.0.pid (heap x.0.payload)) out

-- The timer of the cell that is being filled at the place, if there is one, runs out.
unfoldable pub expire : (ℤ → ℤ) → Bool → ℕ → ℕ → ℕ → Sender → Option Sender
unfolding handle_timer
expire find_peer is_inet queued limit queue s = elim (s.buffer queue) [
  | none ↦ some s
  | some c ↦ handle_timer find_peer is_inet queued limit s queue
]

joined_frags :
    (heap : ℕ → List Frag) (out : List (Cell × Dest))
    → joined (map (λ x. heap x.0.payload) out) ≡ sent_frags heap out
joined_frags heap [] = refl
joined_frags heap ((c, d) ∷ out) = ap (λ l. heap c.payload ++ l) (joined_frags heap out)

module _ (find_peer : ℤ → ℤ) (is_inet : Bool) (queued limit : ℕ) where
  recv_all_up :
      (pid : ℕ) (heap : ℕ → List Frag) (out : List (Cell × Dest)) (l : MpegLl) (r : Receiver)
      → Marked pid out
      → send_up_all l.receiver pid (map (λ x. heap x.0.payload) out) ≡ some r
      → recv_all find_peer is_inet true queued limit l (arrivals heap out)
        ≡ some (record l { receiver = r })
  unfolding recv_all recv send_up_all
  recv_all_up pid heap [] l r m e =
      ap (λ o. elim o [ none ↦ none | some k ↦ some (record l { receiver = k }) ]) e
  recv_all_up pid heap ((c, d) ∷ out) l r (m, ms) e =
      let cells : List (List Frag) = map (λ x. heap x.0.payload) out in
      elim (Option-cases (send_up l.receiver pid (heap c.payload))) [
        | inl n ↦
            let stuck : send_up_all l.receiver pid (heap c.payload ∷ cells) ≡ none =
              simp (send_up_all, n) refl in
            absurd (cc)
        | inr (r1, n) ↦
            let on : send_up_all l.receiver pid (heap c.payload ∷ cells)
                ≡ send_up_all r1 pid cells =
              simp (send_up_all, n) refl in
            simp (recv_all, recv, m, n)
              (recv_all_up pid heap out (record l { receiver = r1 }) r ms (sym on ∙ e))
      ]

  recv_down :
      (l : MpegLl) (p : Datagram) (s : Sender)
      → send_frags find_peer is_inet queued limit l.sender p ≡ some s
      → recv find_peer is_inet true queued limit l (down p)
        ≡ some (record l { sent_down = l.sent_down + 1; sender = s })
  unfolding recv
  recv_down l p s e = rw (recv, e) refl

  module _ (below : queued ≤ limit) (addr : ℕ) (d : Dest)
      (resolved : lookup find_peer is_inet (pos addr) ≡ some d) where
    sent_all :
        (ps : List Datagram) (l : MpegLl)
        → Stream addr ps
        → IsReady find_peer addr l.sender (l.sender.buffer (addr % n_queues))
        → (l' : MpegLl) × (fs : List Frag) × (recv_all find_peer is_inet true queued limit l
              (map down ps)
            ≡ some l')
          × (l'.sender.id ≡ l.sender.id)
          × IsReady find_peer addr l'.sender (l'.sender.buffer (addr % n_queues))
          × (gathered l'.sender (l'.sender.buffer (addr % n_queues))
              ≡ gathered l.sender (l.sender.buffer (addr % n_queues)) ++ fs)
          × Carries ps fs
    unfolding recv_all
    sent_all [] l h v = (l, [], refl, refl, v, sym (append-nil _), refl)
    sent_all (p ∷ ps) l ((a, big), hs) v =
        let (s, xs, f, i, w, g, c) =
          send_frags-IsReady find_peer is_inet queued limit below p l.sender d
            (subst (λ k. lookup find_peer is_inet (pos k) ≡ some d) (sym a) resolved) big
            (subst (λ k. IsReady find_peer k l.sender (l.sender.buffer (k % n_queues))) (sym a)
              v) in
        let l1 : MpegLl = record l { sent_down = l.sent_down + 1; sender = s } in
        let (l', fs, f', i', w', g', c') =
          sent_all ps l1 hs (subst (λ k. IsReady find_peer k s (s.buffer (k % n_queues))) a w) in
        (
          l',
          xs ++ fs,
          rw (recv_all, recv_down l p s f) f',
          i' ∙ i,
          w',
          g'
              ∙ ap (λ l. l ++ fs)
                  (subst
                    (λ k.
                      gathered s (s.buffer (k % n_queues))
                      ≡ gathered l.sender (l.sender.buffer (k % n_queues)) ++ xs)
                    a g)
              ∙ append_assoc (gathered l.sender (l.sender.buffer (addr % n_queues))) xs fs,
          (xs, fs, refl, c, c'),
        )

    expired :
        (s : Sender)
        → IsReady find_peer addr s (s.buffer (addr % n_queues))
        → (s' : Sender) × (expire find_peer is_inet queued limit (addr % n_queues) s ≡ some s')
          × (s'.id ≡ s.id)
          × IsIdle find_peer s'
          × (sent_frags s'.heap s'.out ≡ gathered s (s.buffer (addr % n_queues)))
    unfolding expire handle_timer
    expired s v = elim (Option-cases (s.buffer (addr % n_queues))) [
      | inl e ↦ (
        s,
        simp (expire, e) refl,
        refl,
        subst (IsReady find_peer addr s) e v,
        ap (gathered s) (sym e),
      )
      | inr (c, e) ↦
          let (w, a) : IsFilling find_peer s c × (c.addr ≡ addr) =
            subst (IsReady find_peer addr s) e v in
          let (arp, f, k) =
            sent find_peer is_inet queued limit d s c below
              (subst (λ k. lookup find_peer is_inet (pos k) ≡ some d) (sym a) resolved)
              w.coherent in
          let (idle, g) =
            shipped-IsIdle find_peer s arp c d w.own w.mark w.marked w.young w.older w.full
              (omega (arith, w.fits)) k in
          (
            record (shipped s arp c d) { buffer = update s.buffer (addr % n_queues) none },
            simp (expire, handle_timer, e, f) refl,
            refl,
            record {
              older = idle.older;
              marked = idle.marked;
              full = idle.full;
              coherent = idle.coherent;
            },
            g ∙ ap (gathered s) (sym e),
          )
    ]

    -- Packets of at least 12 bytes for one address are sent by a link whose place for the address
    -- is empty and which sent nothing before, the timer of the last cell runs out, and the cells
    -- arrive in order at a link where the sender's place is empty: no step aborts, no cell has more
    -- than 184 bytes, and the packets are given up in order, each once and with its size.
    pub link-roundtrip :
        (ps : List Datagram) (a b : MpegLl)
        → Stream addr ps
        → a.sender.buffer (addr % n_queues) ≡ none
        → a.sender.out ≡ []
        → IsIdle find_peer a.sender
        → b.receiver.buffer (a.sender.id % n_queues) ≡ none
        → (a' : MpegLl) × (s' : Sender) × (b' : MpegLl) × (recv_all find_peer is_inet true queued
              limit a
              (map down ps)
            ≡ some a')
          × (expire find_peer is_inet queued limit (addr % n_queues) a'.sender ≡ some s')
          × All (λ x. bytes (s'.heap x.0.payload) ≤ 184) s'.out
          × (recv_all find_peer is_inet true queued limit b (arrivals s'.heap s'.out) ≡ some b')
          × (b'.receiver.buffer (a.sender.id % n_queues) ≡ none)
          × (b'.receiver.delivered ≡ b.receiver.delivered ++ map upward ps)
    link-roundtrip ps a b h empty none_sent idle clear =
        let (a', fs, f, i, v, g, c) =
          sent_all ps a h (subst (IsReady find_peer addr a.sender) (sym empty) idle) in
        let (s', f', i', idle', g') = expired a'.sender v in
        let pid : ℕ = a.sender.id in
        let all_frags : sent_frags s'.heap s'.out ≡ fs =
          g'
          ∙ g
          ∙ ap (λ o. gathered a.sender o ++ fs) empty
          ∙ ap (λ out. sent_frags a.sender.heap out ++ fs) none_sent in
        let (r, k, j) =
          send_up_all-joined pid (map (λ x. s'.heap x.0.payload) s'.out) b.receiver
            (subst (IsOwn pid) (sym clear) tt) in
        let result : (none, b.receiver.delivered ++ map upward ps)
            ≡ (r.buffer (pid % n_queues), r.delivered) =
          sym (all_given pid ps fs b.receiver.delivered c)
          ∙ ap (λ l. process_all pid (none, b.receiver.delivered) l)
              (sym (joined_frags s'.heap s'.out ∙ all_frags))
          ∙ ap
              (λ o.
                process_all pid (o, b.receiver.delivered)
                  (joined (map (λ x. s'.heap x.0.payload) s'.out)))
              (sym clear)
          ∙ j in
        (
          a',
          s',
          record b { receiver = r },
          f,
          f',
          idle'.full,
          recv_all_up pid s'.heap s'.out b r (subst (λ k. Marked k s'.out) (i' ∙ i) idle'.marked) k,
          ap (λ x. x.0) (sym result),
          ap (λ x. x.1) (sym result),
        )
