-- ===== src/Mpeg/Sender/Cells.antt =====
-- What `MpegLL::send_frags` (src/mpeg-encap.cc) does with a packet while cells of one address only
-- are filled.
use release.Base.{
  ℕ, ◌+◌, ◌%◌, ◌≤◌, ◌≡◌, refl, sym, ap, subst, ◌∙◌, Bool, Option, some, List, [], ◌∷◌, ◌++◌, arith,
  append_assoc, update, Option-cases, inl, inr, ==_refl,
}
use release.Base.Int.{ℤ, pos}
use release.Atm.Arp.{Dest, lookup}
use release.Mpeg.{n_queues, get_queue}
use release.Mpeg.Probe.{probe_empty, probe_own}
use release.Mpeg.Sender.{
  Datagram, Frag, Cell, Sender, new_dvb, setpusi, part, addresses, current_cell, send_at,
  send_frags,
}
use release.Mpeg.Sender.Filling.{IsFilling, flow}
use release.Mpeg.Sender.Idle.{IsIdle, renewed, renewed-IsFilling}
use release.Mpeg.Sender.Packing.{fill-IsFilled}
use release.Mpeg.Receiver.Reassembly.{Completes}
use release.Mpeg.Sender.Closing.{IsReady, gathered, finish-IsReady}

module _ (find_peer : ℤ → ℤ) where
  module _ (is_inet : Bool) (queued limit : ℕ) (below : queued ≤ limit) where
    current_cell-IsFilling :
        (p : Datagram) (queue : ℕ) (s : Sender)
        → IsReady find_peer p.next_hop s (s.buffer queue)
        → (s' : Sender) × (c : Cell) × (current_cell p queue s ≡ (s', c))
          × IsFilling find_peer s' c
          × (c.addr ≡ p.next_hop)
          × (s'.buffer ≡ s.buffer)
          × (s'.id ≡ s.id)
          × (flow s' ≡ gathered s (s.buffer queue))
    unfolding current_cell new_dvb setpusi
    current_cell-IsFilling p queue s v = elim (Option-cases (s.buffer queue)) [
      | inl e ↦
          let v' : IsIdle find_peer s = subst (IsReady find_peer p.next_hop s) e v in
          let c : Cell = record (setpusi (new_dvb s queue).1) { addr = p.next_hop } in
          let (filling, k) =
            renewed-IsFilling find_peer s c v' refl refl (omega arith) (omega arith) in
          (
            renewed s,
            c,
            simp (current_cell, e) refl,
            filling,
            refl,
            refl,
            refl,
            k ∙ ap (gathered s) (sym e),
          )
      | inr (c, e) ↦
          let (w, a) : IsFilling find_peer s c × (c.addr ≡ p.next_hop) =
            subst (IsReady find_peer p.next_hop s) e v in
          (
            s,
            record c { addr = p.next_hop },
            simp (current_cell, e) refl,
            record {
              own = w.own;
              mark = w.mark;
              marked = w.marked;
              young = w.young;
              older = w.older;
              few = w.few;
              room = w.room;
              fits = w.fits;
              full = w.full;
              coherent = w.coherent;
            },
            refl,
            refl,
            refl,
            ap (gathered s) (sym e),
          )
    ]

    send_at-IsReady :
        (p : Datagram) (queue : ℕ) (s : Sender) (d : Dest)
        → lookup find_peer is_inet (pos p.next_hop) ≡ some d
        → 12 ≤ p.size
        → IsReady find_peer p.next_hop s (s.buffer queue)
        → (s' : Sender) × (xs : List Frag) × (send_at find_peer is_inet queued limit p queue s
            ≡ some s')
          × (s'.id ≡ s.id)
          × IsReady find_peer p.next_hop s' (s'.buffer queue)
          × (gathered s' (s'.buffer queue) ≡ gathered s (s.buffer queue) ++ xs)
          × Completes p.uid (p.size + 8) 0 xs
    unfolding send_at
    send_at-IsReady p queue s d e big v =
        let (s1, c, f, w, a, b, i, g) = current_cell-IsFilling p queue s v in
        let (s2, c', r, h, x) =
          fill-IsFilled find_peer is_inet queued limit below (p.size + 9) p queue s1 c (p.size + 8)
            0 d e w a (omega arith) (omega arith) (omega arith) (omega (arith, w.few, big)) in
        let (s3, o, k, place, j, y, z) =
          finish-IsReady find_peer is_inet queued limit below p queue s2 c' r d e x.filling x.addr
            x.fit x.few in
        let at : s3.buffer queue ≡ o = ap (λ b. b queue) place ∙ place_at s2.buffer queue o in
        (
          s3,
          x.parts ++ part p r ∷ [],
          simp (send_at, f, h, k) refl,
          j ∙ x.id ∙ i,
          subst (IsReady find_peer p.next_hop s3) (sym at) y,
          ap (gathered s3) at
              ∙ z
              ∙ ap (λ l. l ++ part p r ∷ []) (x.grown ∙ ap (λ l. l ++ x.parts) g)
              ∙ append_assoc (gathered s (s.buffer queue)) x.parts (part p r ∷ []),
          x.completes,
        )
      where
        place_at : (b : ℕ → Option Cell) (q : ℕ) (o : Option Cell) → update b q o q ≡ o
        place_at b q o = rw (==_refl q) refl

    home_found :
        (s : Sender) (addr : ℕ)
        → IsReady find_peer addr s (s.buffer (addr % n_queues))
        → get_queue (addresses s.buffer) addr ≡ some (addr % n_queues)
    unfolding get_queue addresses
    home_found s addr v = elim (Option-cases (s.buffer (addr % n_queues))) [
      | inl e ↦
          probe_empty 99 (addresses s.buffer) addr (addr % n_queues) (simp (addresses, e) refl)
      | inr (c, e) ↦
          let (w, a) : IsFilling find_peer s c × (c.addr ≡ addr) =
            subst (IsReady find_peer addr s) e v in
          probe_own 99 (addresses s.buffer) addr (addr % n_queues)
            (simp (addresses, e) (ap (λ k. some k) a))
    ]

    -- A packet of at least 12 bytes for the only address whose cells are filled, with the queue not
    -- over its limit and the address resolved, is cut into fragments that are its bytes from the
    -- first to the last; they follow the fragments so far in the cells of the address's own place,
    -- no array of fragments overflows, no cell that is sent carries more than 184 bytes and none
    -- aborts.
    pub send_frags-IsReady :
        (p : Datagram) (s : Sender) (d : Dest)
        → lookup find_peer is_inet (pos p.next_hop) ≡ some d
        → 12 ≤ p.size
        → IsReady find_peer p.next_hop s (s.buffer (p.next_hop % n_queues))
        → (s' : Sender) × (xs : List Frag) × (send_frags find_peer is_inet queued limit s p
            ≡ some s')
          × (s'.id ≡ s.id)
          × IsReady find_peer p.next_hop s' (s'.buffer (p.next_hop % n_queues))
          × (gathered s' (s'.buffer (p.next_hop % n_queues))
              ≡ gathered s (s.buffer (p.next_hop % n_queues)) ++ xs)
          × Completes p.uid (p.size + 8) 0 xs
    unfolding send_frags
    send_frags-IsReady p s d e big v =
        let (s', xs, f, i, w, g, c) = send_at-IsReady p (p.next_hop % n_queues) s d e big v in
        (s', xs, simp (send_frags, home_found s p.next_hop v) f, i, w, g, c)
