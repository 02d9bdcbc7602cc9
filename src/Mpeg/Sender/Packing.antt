-- ===== src/Mpeg/Sender/Packing.antt =====
-- The loop of `MpegLL::send_frags` (src/mpeg-encap.cc) and the cell that it leaves.
use release.Base.{
  ℕ, zero, suc, ◌+◌, ◌-◌, ◌*◌, ◌<◌, ◌≤◌, ◌≡◌, refl, sym, ap, subst, ◌∙◌, Bool, some, List, [], ◌∷◌,
  ◌++◌, arith, length, append_assoc, append-nil, ltb, Bool-cases, inl, inr, ltb→lt,
}
use release.Base.Int.{ℤ, pos}
use release.Atm.Arp.{Dest, lookup}
use release.Mpeg.Sender.{Datagram, Frag, Cell, Sender, new_dvb, part, fill_up, fill}
use release.Mpeg.Sender.Filling.{
  update_at, IsFilling, flow, with_frag, flow-with_frag, inserted, sent,
}
use release.Mpeg.Receiver.Reassembly.{Completes}
use release.Mpeg.Sender.Idle.{
  shipped, renewed, shipped-IsIdle, renewed-IsFilling, with_frag-bytes, with_frag-Full,
}

module _ (find_peer : ℤ → ℤ) where
  module _ (is_inet : Bool) (queued limit : ℕ) (below : queued ≤ limit) where
    -- A cell is filled up and sent: what a round of the loop comes to.
    pub record IsRound (p : Datagram) (s : Sender) (c : Cell) (s' : Sender) (c' : Cell)
        : Type 0 where
      pub filling : IsFilling find_peer s' c'
      pub addr : c'.addr ≡ p.next_hop
      pub buffer : s'.buffer ≡ s.buffer
      pub id : s'.id ≡ s.id
      pub space : c'.dvb_space ≡ 184
      pub empty : s'.heap s'.payload ≡ []
      pub grown : flow s' ≡ flow s ++ part p c.dvb_space ∷ []

    pub fill_up-IsRound :
        (p : Datagram) (queue : ℕ) (s : Sender) (c : Cell) (d : Dest)
        → lookup find_peer is_inet (pos c.addr) ≡ some d
        → IsFilling find_peer s c
        → (s' : Sender) × (c' : Cell) × (fill_up find_peer is_inet queued limit p queue s c
            ≡ some (s', c'))
          × IsRound p s c s' c'
    unfolding fill_up new_dvb part
    fill_up-IsRound p queue s c d e v =
        let f : Frag = part p c.dvb_space in
        let s1 : Sender = with_frag s f in
        let (arp, g, w) = sent find_peer is_inet queued limit d s1 c below e v.coherent in
        let s2 : Sender = shipped s1 arp c d in
        let c' : Cell = record (new_dvb s2 queue).1 { addr = p.next_hop } in
        let (idle, gathered) =
          shipped-IsIdle find_peer s1 arp c d v.own v.mark v.marked v.young v.older
            (with_frag-Full find_peer s c f v) (with_frag-bytes find_peer s c f v (omega arith))
            w in
        let (filling, kept) =
          renewed-IsFilling find_peer s2 c' idle refl refl (omega arith) (omega arith) in
        (
          renewed s2,
          c',
          simp (fill_up, inserted find_peer s c f v, g) refl,
          record {
            filling = filling;
            addr = refl;
            buffer = refl;
            id = refl;
            space = refl;
            empty = update_at s2.heap s2.fresh [];
            grown = kept ∙ gathered ∙ flow-with_frag s f v.older;
          },
        )

    -- The loop has sent cells until the `r` bytes that are left fit in the cell.
    pub record IsFilled (p : Datagram) (got : ℕ) (s : Sender) (s' : Sender) (c' : Cell) (r : ℕ)
        : Type 0 where
      pub filling : IsFilling find_peer s' c'
      pub addr : c'.addr ≡ p.next_hop
      pub buffer : s'.buffer ≡ s.buffer
      pub id : s'.id ≡ s.id
      pub left : 0 < r
      pub fit : r ≤ c'.dvb_space
      pub few : 20 * suc (length (s'.heap s'.payload)) + c'.dvb_space ≤ 203 + r
      pub parts : List Frag
      pub grown : flow s' ≡ flow s ++ parts
      pub completes : Completes p.uid (p.size + 8) got (parts ++ part p r ∷ [])

    IsFilled-IsRound :
        (p : Datagram) (got : ℕ) (s : Sender) (c : Cell) (s1 : Sender) (c1 : Cell)
        → (s' : Sender) (c' : Cell) (r : ℕ) → got < p.size + 8
        → IsRound p s c s1 c1
        → IsFilled p (got + c.dvb_space) s1 s' c' r
        → IsFilled p got s s' c' r
    unfolding part
    IsFilled-IsRound p got s c s1 c1 s' c' r h v w = record {
      filling = w.filling;
      addr = w.addr;
      buffer = w.buffer ∙ v.buffer;
      id = w.id ∙ v.id;
      left = w.left;
      fit = w.fit;
      few = w.few;
      parts = part p c.dvb_space ∷ w.parts;
      grown =
          w.grown
          ∙ ap (λ l. l ++ w.parts) v.grown
          ∙ append_assoc (flow s) (part p c.dvb_space ∷ []) w.parts;
      completes = (refl, refl, h, w.completes);
    }

    pub fill-IsFilled :
        (fuel : ℕ) (p : Datagram) (queue : ℕ) (s : Sender) (c : Cell) (psize got : ℕ) (d : Dest)
        → lookup find_peer is_inet (pos p.next_hop) ≡ some d
        → IsFilling find_peer s c
        → c.addr ≡ p.next_hop
        → psize < fuel
        → 0 < psize
        → got + psize ≡ p.size + 8
        → 20 * suc (length (s.heap s.payload)) + c.dvb_space ≤ 203 + psize
        → (s' : Sender) × (c' : Cell) × (r : ℕ) × (fill find_peer is_inet queued limit fuel p queue
              s c psize
            ≡ some (s', c', r))
          × IsFilled p got s s' c' r
    unfolding fill part
    fill-IsFilled zero p queue s c psize got d e v a more some_left sum few =
        absurd (omega (arith, more))
    fill-IsFilled (suc fuel) p queue s c psize got d e v a more some_left sum few =
        elim (Bool-cases (ltb c.dvb_space psize)) [
          | inl h ↦
              let over : c.dvb_space < psize = ltb→lt _ _ h in
              let (s1, c1, f, w) =
                fill_up-IsRound p queue s c d
                  (subst (λ k. lookup find_peer is_inet (pos k) ≡ some d) (sym a) e) v in
              let (s', c', r, g, x) =
                fill-IsFilled fuel p queue s1 c1 (psize - c.dvb_space) (got + c.dvb_space) d e
                  w.filling w.addr (omega (arith, more, over, v.room)) (omega (arith, over))
                  (omega (arith, sum, over))
                  (subst (λ l. 20 * suc (length l) + c1.dvb_space ≤ 203 + (psize - c.dvb_space))
                    (sym w.empty) (omega (arith, over, w.space))) in
              (
                s',
                c',
                r,
                simp (fill, h, f, g) refl,
                IsFilled-IsRound p got s c s1 c1 s' c' r (omega (arith, sum, some_left)) w x,
              )
          | inr h ↦ (
            s,
            c,
            psize,
            simp (fill, h) refl,
            record {
              filling = v;
              addr = a;
              buffer = refl;
              id = refl;
              left = some_left;
              fit = ground (arith, h);
              few = few;
              parts = [];
              grown = sym (append-nil (flow s));
              completes = (refl, refl, omega (arith, sum, some_left), sum);
            },
          )
        ]
