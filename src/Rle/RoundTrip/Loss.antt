-- ===== src/Rle/RoundTrip/Loss.antt =====
-- Fragments that are lost on the way to `MacRle::sendUp`.
use release.Base.{ℕ, ◌+◌, ◌-◌, ◌<◌, ◌≤◌, ◌≡◌, ◌≢◌, refl, none, some, List, [], ◌∷◌, arith, add8}
use release.Rle.Encap.{RleHdr}
use release.Rle.Encap.Fresh.{IsFresh}
use release.Rle.Burst.{cut_frag, cut_hdr, fit_frag}
use release.Rle.Context.{Context, keeps, drops_it, crash, reassemble}
use release.Rle.RoundTrip.{fragments, feed, Cuts, cut_middle_hdr, cut_first, cut_first_hdr}

-- A fragment that is neither the first nor the last only adds its length.
adds_middle :
    (b p : ℕ) (h : RleHdr) (c : Context) (total : ℕ)
    → h.start_end ≡ 0
    → c.len + b < 4294967296
    → 2 ≤ b
    → reassemble c (cut_frag b p h) total ≡ keeps (record c { len = c.len + (b - 2) })
unfolding reassemble cut_frag
adds_middle b p h c total z u l = ground arith

last_short :
    (p seq : ℕ) (h : RleHdr) (c : Context) (total : ℕ)
    → h.start_end ≡ 0
    → c.len + h.psize ≢ total
    → c.len + h.psize < 4294967296
    → reassemble c (fit_frag seq p h) total
      ≡ drops_it (record c { len = c.len + h.psize; pkt = none; exp_sn = add8 seq 1 })
unfolding reassemble fit_frag
last_short p seq h c total z n u = ground arith

last_stale :
    (p seq : ℕ) (h : RleHdr) (c : Context) (total : ℕ)
    → h.start_end ≡ 0
    → c.len + h.psize ≡ total
    → total < 4294967296
    → c.pkt ≡ none
    → c.exp_sn ≡ seq
    → reassemble c (fit_frag seq p h) total ≡ crash
unfolding reassemble fit_frag
last_stale p seq h c total z e u k n = ground arith

-- When the fragments that are left of a packet, the last among them, do not make up its length
-- with what the context has counted, nothing is given up and nothing crashes: the packet is
-- dropped, and the context is empty and expects the number after that of the packet.
pub feed_short :
    (bs : List ℕ) (p seq : ℕ) (h : RleHdr) (c : Context) (total : ℕ)
    → h.start_end ≡ 0
    → c.len + h.psize ≢ total
    → c.len + h.psize < 4294967290
    → Cuts h bs
    → feed total c (fragments p seq h bs)
      ≡ some (record c { len = c.len + h.psize; pkt = none; exp_sn = add8 seq 1 }, [])
unfolding feed fragments
feed_short [] p seq h c total z n u t = rw (last_short p seq h c total z n (omega arith), feed)
feed_short (b ∷ bs) p seq h c total z n u (l, g, t) =
    let hdr = cut_middle_hdr b h z (omega arith) l g in
    let sum : c.len + (b - 2) + (cut_hdr b h).psize ≡ c.len + h.psize = omega (arith, hdr) in
    rw (adds_middle b p h c total z (omega arith) l, feed)
      (rw (
        feed_short bs p seq (cut_hdr b h) (record c { len = c.len + (b - 2) }) total hdr.0
            (λ e. n (omega (arith, sum))) (omega (arith, sum)) t,
        sum,
      ))

-- A fresh packet is cut at least twice, and its second fragment, which is not empty, is lost.
-- Then the others give up nothing, and the context is empty, expects the number after that of
-- the packet, and still counts the bytes that came.
pub feed_second_lost :
    (p seq a b : ℕ) (bs : List ℕ) (h : RleHdr) (c : Context)
    → IsFresh h
    → Cuts h (a ∷ b ∷ bs)
    → 2 < b
    → feed (h.total_length + 3) c (cut_frag a p h ∷ fragments p seq (cut_hdr b (cut_hdr a h)) bs)
      ≡ some (record c { len = h.total_length + 3 - (b - 2); pkt = none; exp_sn = add8 seq 1 }, [])
unfolding feed
feed_second_lost p seq a b bs h c f (l, g, (m, k, t)) w =
    let total : ℕ = h.total_length + 3 in
    let one = cut_first_hdr a h f.whole f.size f.small l g in
    let two = cut_middle_hdr b (cut_hdr a h) one.0 (omega (arith, one, f.size, f.small)) m k in
    let rest = cut_hdr b (cut_hdr a h) in
    let held : Context = record c {
      len = a - 2;
      pkt = some p;
      exp_sn = elim c.pkt [ none ↦ c.exp_sn | some _ ↦ add8 c.exp_sn 1 ];
    } in
    let sum : a - 2 + rest.psize ≡ total - (b - 2) = omega (arith, one, two) in
    rw (cut_first a p seq h c total f.whole f.small l g, feed)
      (rw (
        feed_short bs p seq rest held total two.0 (omega (arith, one, two))
            (omega (arith, one, two, f.size, f.small)) t,
        sum,
      ))

-- The count of bytes is not cleared when a packet is dropped: if the next packet of the flow has
-- the same length, its first fragment is lost too, and its last one is as long as the one lost
-- before, then `sendUp` takes the packet for complete and reads the header of a null packet.
pub feed_crash :
    (p q seq a b d : ℕ) (h g : RleHdr) (c : Context)
    → IsFresh h
    → IsFresh g
    → g.total_length ≡ h.total_length
    → Cuts h (a ∷ b ∷ [])
    → Cuts g (d ∷ [])
    → 2 < b
    → d + b ≡ h.total_length + 7
    → feed (h.total_length + 3) c (
        cut_frag a p h
        ∷ fit_frag seq p (cut_hdr b (cut_hdr a h))
        ∷ fit_frag (add8 seq 1) q (cut_hdr d g)
        ∷ [])
      ≡ none
unfolding feed
feed_crash p q seq a b d h g c f e s (l, k, (m, n, t)) (o, r, u) w z =
    let total : ℕ = h.total_length + 3 in
    let one = cut_first_hdr a h f.whole f.size f.small l k in
    let two = cut_middle_hdr b (cut_hdr a h) one.0 (omega (arith, one, f.size, f.small)) m n in
    let fst = cut_first_hdr d g e.whole e.size e.small o r in
    let rest = cut_hdr b (cut_hdr a h) in
    let held : Context = record c {
      len = a - 2;
      pkt = some p;
      exp_sn = elim c.pkt [ none ↦ c.exp_sn | some _ ↦ add8 c.exp_sn 1 ];
    } in
    let stale : Context = record held {
      len = a - 2 + rest.psize;
      pkt = none;
      exp_sn = add8 seq 1;
    } in
    rw (
      cut_first a p seq h c total f.whole f.small l k,
      feed,
      last_short p seq rest held total two.0 (omega (arith, one, two))
          (omega (arith, one, two, f.size, f.small)),
      last_stale q (add8 seq 1) (cut_hdr d g) stale total fst.0 (omega (arith, one, two, fst, s))
          (omega (arith, f.size, f.small)) refl refl,
    )
