-- ===== src/Mpeg/Sender/Closing.antt =====
-- The end of a packet in `MpegLL::send_frags` (src/mpeg-encap.cc): its last part, and the cell that
-- stays or is sent.
use release.Base.{
  ℕ, suc, ◌+◌, ◌-◌, ◌*◌, ◌≤◌, ◌≡◌, refl, sym, subst, ◌∙◌, Bool, true, Option, none, some, List, [],
  ◌∷◌, ◌++◌, arith, length, length-append, update, ltb, Bool-cases, inl, inr, if◌then◌else◌,
}
use release.Base.Int.{ℤ, pos}
use release.Atm.Arp.{Dest, lookup}
use release.Mpeg.Sender.{Datagram, Frag, Cell, Sender, part, finish}
use release.Mpeg.Sender.Filling.{
  bytes, bytes-snoc, sent_frags, update_at, IsFilling, flow, with_frag, flow-with_frag, inserted,
  sent,
}
use release.Mpeg.Sender.Idle.{IsIdle, shipped, shipped-IsIdle, with_frag-bytes, with_frag-Full}

-- A place of `tx_buffer`, that holds no cell or one that is being filled for the address.
abbrev pub IsReady : (ℤ → ℤ) → ℕ → Sender → Option Cell → Type 0
IsReady find_peer addr s none = IsIdle find_peer s
IsReady find_peer addr s (some c) = IsFilling find_peer s c × (c.addr ≡ addr)

-- The fragments of all cells, in order.
abbrev pub gathered : Sender → Option Cell → List Frag
gathered s none = sent_frags s.heap s.out
gathered s (some c) = flow s

module _ (find_peer : ℤ → ℤ) where
  -- The cell stays, with the last part of the packet.
  kept-IsFilling :
      (s : Sender) (c : Cell) (f : Frag) (b : ℕ → Option Cell) (status : Bool)
      → IsFilling find_peer s c
      → f.size ≤ c.dvb_space
      → 20 * suc (length (s.heap s.payload)) + c.dvb_space ≤ 203 + f.size
      → 4 ≤ c.dvb_space - f.size
      → IsFilling find_peer
          (record (with_frag s f) { buffer = b })
          (record c { dvb_space = c.dvb_space - f.size; status = status })
  kept-IsFilling s c f b status v fit few room =
      let held = update_at s.heap s.payload (s.heap s.payload ++ f ∷ []) in
      record {
        own = v.own;
        mark = v.mark;
        marked = v.marked;
        young = v.young;
        older = v.older;
        few =
            subst (λ l. 20 * length l + (c.dvb_space - f.size) ≤ 203) (sym held)
              (omega (arith, fit, few, length-append (s.heap s.payload) (f ∷ [])));
        room = room;
        fits =
            subst (λ l. bytes l + (c.dvb_space - f.size) ≤ 184) (sym held)
              (omega (arith, fit, v.fits, bytes-snoc (s.heap s.payload) f));
        full = with_frag-Full find_peer s c f v;
        coherent = v.coherent;
      }

  module _ (is_inet : Bool) (queued limit : ℕ) (below : queued ≤ limit) where
    pub finish-IsReady :
        (p : Datagram) (queue : ℕ) (s : Sender) (c : Cell) (r : ℕ) (d : Dest)
        → lookup find_peer is_inet (pos p.next_hop) ≡ some d
        → IsFilling find_peer s c
        → c.addr ≡ p.next_hop
        → r ≤ c.dvb_space
        → 20 * suc (length (s.heap s.payload)) + c.dvb_space ≤ 203 + r
        → (s' : Sender) × (o : Option Cell) × (finish find_peer is_inet queued limit p queue s c r
            ≡ some s')
          × (s'.buffer ≡ update s.buffer queue o)
          × (s'.id ≡ s.id)
          × IsReady find_peer p.next_hop s' o
          × (gathered s' o ≡ flow s ++ part p r ∷ [])
    unfolding finish part
    finish-IsReady p queue s c r d e v a fit few =
        let f : Frag = part p r in
        let s1 : Sender = with_frag s f in
        let c1 : Cell = record c { dvb_space = c.dvb_space - r } in
        elim (Bool-cases (ltb c1.dvb_space (4 + (if c1.pusi then 0 else 1)))) [
          | inl h ↦
              let (arp, g, w) =
                sent find_peer is_inet queued limit d s1 c1 below
                  (subst (λ k. lookup find_peer is_inet (pos k) ≡ some d) (sym a) e) v.coherent in
              let (idle, k) =
                shipped-IsIdle find_peer s1 arp c1 d v.own v.mark v.marked v.young v.older
                  (with_frag-Full find_peer s c f v) (with_frag-bytes find_peer s c f v fit) w in
              (
                record (shipped s1 arp c1 d) { buffer = update s.buffer queue none },
                none,
                simp (finish, inserted find_peer s c f v, h, g) refl,
                refl,
                refl,
                record {
                  older = idle.older;
                  marked = idle.marked;
                  full = idle.full;
                  coherent = idle.coherent;
                },
                k ∙ flow-with_frag s f v.older,
              )
          | inr h ↦ (
            record s1 { buffer = update s.buffer queue (some (record c1 { status = true })) },
            some (record c1 { status = true }),
            simp (finish, inserted find_peer s c f v, h) refl,
            refl,
            refl,
            (
              kept-IsFilling s c f (update s.buffer queue (some (record c1 { status = true }))) true
                  v fit few (ground (arith, h)),
              a,
            ),
            flow-with_frag s f v.older,
          )
        ]
