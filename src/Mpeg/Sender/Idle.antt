-- ===== src/Mpeg/Sender/Idle.antt =====
-- Between two cells of `MpegLL::send_frags` (src/mpeg-encap.cc).
use release.Base.{
  ◌+◌, ◌*◌, ◌<◌, ◌≤◌, ◌≡◌, sym, ap, subst, ◌∙◌, [], ◌∷◌, ◌++◌, arith, length, append-nil, update,
}
use release.Base.Int.{ℤ}
use release.Atm.Arp.{ArpCache, Dest, IsCoherent}
use release.Mpeg.Sender.{Frag, Cell, Sender}
use release.Mpeg.Sender.Filling.{
  bytes, bytes-snoc, sent_frags, sent_frags-snoc, sent_frags-update, Older, Older-le, Older-snoc,
  Marked, Marked-snoc, Full, Full-update, Full-snoc, update_at, IsFilling, flow, with_frag,
}

-- No cell is being filled: every payload is older than the next one.
pub record IsIdle (find_peer : ℤ → ℤ) (s : Sender) : Type 0 where
  pub older : Older s.fresh s.out
  pub marked : Marked s.id s.out
  pub full : Full s.heap s.out
  pub coherent : IsCoherent find_peer s.arp

abbrev pub shipped : Sender → ArpCache → Cell → Dest → Sender
shipped s arp c d = record s { arp = arp; out = s.out ++ (c, d) ∷ [] }

abbrev pub renewed : Sender → Sender
renewed s = record s { heap = update s.heap s.fresh []; payload = s.fresh; fresh = s.fresh + 1 }

module _ (find_peer : ℤ → ℤ) where
  pub shipped-IsIdle :
      (s : Sender) (arp : ArpCache) (c : Cell) (d : Dest)
      → c.payload ≡ s.payload
      → c.pid ≡ s.id
      → Marked s.id s.out
      → s.payload < s.fresh
      → Older s.payload s.out
      → Full s.heap s.out
      → bytes (s.heap s.payload) ≤ 184
      → IsCoherent find_peer arp
      → IsIdle find_peer (shipped s arp c d) × (sent_frags s.heap (s.out ++ (c, d) ∷ []) ≡ flow s)
  shipped-IsIdle s arp c d own mark marked young older full fits v = (
    record {
      older =
          Older-snoc s.fresh s.out (c, d)
            (Older-le s.payload s.fresh s.out (omega (arith, young)) older)
            (subst (λ k. k < s.fresh) (sym own) young);
      marked = Marked-snoc s.id s.out (c, d) marked mark;
      full =
          Full-snoc s.heap s.out (c, d) full (subst (λ k. bytes (s.heap k) ≤ 184) (sym own) fits);
      coherent = v;
    },
    sent_frags-snoc s.heap s.out c d ∙ ap (λ k. sent_frags s.heap s.out ++ s.heap k) own,
  )

  -- A new cell of at most 184 bytes of room.
  pub renewed-IsFilling :
      (s : Sender) (c : Cell)
      → IsIdle find_peer s
      → c.payload ≡ s.fresh
      → c.pid ≡ s.id
      → 4 ≤ c.dvb_space
      → c.dvb_space ≤ 184
      → IsFilling find_peer (renewed s) c × (flow (renewed s) ≡ sent_frags s.heap s.out)
  renewed-IsFilling s c v own mark low high =
      let emptied : update s.heap s.fresh [] s.fresh ≡ [] = update_at s.heap s.fresh [] in
      (
        record {
          own = own;
          mark = mark;
          marked = v.marked;
          young = omega arith;
          older = v.older;
          few = subst (λ l. 20 * length l + c.dvb_space ≤ 203) (sym emptied) (omega (arith, high));
          room = low;
          fits = subst (λ l. bytes l + c.dvb_space ≤ 184) (sym emptied) (omega (arith, high));
          full = Full-update s.heap s.out s.fresh [] v.older v.full;
          coherent = v.coherent;
        },
        ap (λ l. sent_frags (update s.heap s.fresh []) s.out ++ l) emptied
            ∙ append-nil (sent_frags (update s.heap s.fresh []) s.out)
            ∙ sent_frags-update s.heap s.out s.fresh [] v.older,
      )

  -- The bytes of the cell after a fragment that fits.
  pub with_frag-bytes :
      (s : Sender) (c : Cell) (f : Frag)
      → IsFilling find_peer s c
      → f.size ≤ c.dvb_space
      → bytes ((with_frag s f).heap s.payload) ≤ 184
  with_frag-bytes s c f v h =
      subst (λ l. bytes l ≤ 184) (sym (update_at s.heap s.payload (s.heap s.payload ++ f ∷ [])))
        (omega (arith, bytes-snoc (s.heap s.payload) f, v.fits, h))

  pub with_frag-Full :
      (s : Sender) (c : Cell) (f : Frag) → IsFilling find_peer s c → Full (with_frag s f).heap s.out
  with_frag-Full s c f v =
      Full-update s.heap s.out s.payload (s.heap s.payload ++ f ∷ []) v.older v.full
