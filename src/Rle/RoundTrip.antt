-- ===== src/Rle/RoundTrip.antt =====
-- A packet cut over several bursts and put together again in the context of its flow.
pub mod Loss
pub mod Delivery
pub mod Link
use release.Base.{
  ℕ, zero, suc, ◌+◌, ◌-◌, ◌<◌, ◌≤◌, ◌≡◌, refl, Bool, true, false, Option, none, some, List, [], ◌∷◌,
  ◌++◌, arith, add32, sub32, add8, bit_and, bit_or, ◌==◌,
}
use release.Rle.Encap.{RleHdr}
use release.Rle.Encap.Fresh.{IsFresh}
use release.Rle.Burst.{FragHdr, grow, cut_frag, cut_hdr, fit_frag, fit_hdr}
use release.Rle.Context.{Context, Outcome, keeps, drops_it, delivers, crash, reassemble}

-- The fragments of packet `p`, cut at the bursts with `b ∷ bs` bytes left, the rest in one that
-- has room; `seq` is the number of the last one.
unfoldable pub fragments : ℕ → ℕ → RleHdr → List ℕ → List FragHdr
fragments p seq h [] = fit_frag seq p h ∷ []
fragments p seq h (b ∷ bs) = cut_frag b p h ∷ fragments p seq (cut_hdr b h) bs

-- Each burst has room for a fragment header, and too little for the packet.
abbrev pub Cuts : RleHdr → List ℕ → Type 0
Cuts h [] = Unit {0}
Cuts h (b ∷ bs) = (2 ≤ b) × (b < h.psize + 2) × Cuts (cut_hdr b h) bs

-- What follows the outcome of one fragment.
abbrev pub give : Outcome → (Context → Option (Context × List ℕ)) → Option (Context × List ℕ)
give (keeps d) rest = rest d
give (drops_it d) rest = rest d
give (delivers p d) rest = elim (rest d) [ none ↦ none | some (e, ps) ↦ some (e, p ∷ ps) ]
give crash rest = none

-- The fragments of a flow, in order, in one context: the context after them, and the packets given
-- up. `none` is a crash.
unfoldable pub feed : ℕ → Context → List FragHdr → Option (Context × List ℕ)
feed total c [] = some (c, [])
feed total c (f ∷ fs) = give (reassemble c f total) (λ d. feed total d fs)

abbrev pub done : Context → ℕ → Context
done c seq = record c { len = 0; pkt = none; exp_sn = add8 seq 1 }

-- A header between two cuts: no bit of `start_end` is set.
cut_middle :
    (b p : ℕ) (h : RleHdr) (c : Context) (total : ℕ)
    → h.start_end ≡ 0
    → c.len + h.psize ≡ total
    → total < 4294967290
    → 2 ≤ b
    → b < h.psize + 2
    → reassemble c (cut_frag b p h) total ≡ keeps (record c { len = c.len + (b - 2) })
unfolding reassemble cut_frag
cut_middle b p h c total z e u l g = ground arith

cut_middle_hdr :
    (b : ℕ) (h : RleHdr)
    → h.start_end ≡ 0
    → h.psize < 4294967290
    → 2 ≤ b
    → b < h.psize + 2
    → ((cut_hdr b h).start_end ≡ 0) × ((cut_hdr b h).psize + (b - 2) ≡ h.psize)
unfolding cut_hdr
cut_middle_hdr b h z u l g = ground arith

fit_last :
    (p seq : ℕ) (h : RleHdr) (c : Context) (total : ℕ)
    → h.start_end ≡ 0
    → c.len + h.psize ≡ total
    → total < 4294967290
    → c.pkt ≡ some p
    → c.exp_sn ≡ seq
    → reassemble c (fit_frag seq p h) total ≡ delivers p (done c seq)
unfolding reassemble fit_frag
fit_last p seq h c total z e u k n = ground arith

cut_first :
    (b p seq : ℕ) (h : RleHdr) (c : Context) (total : ℕ)
    → h.start_end ≡ 3
    → h.psize < 4294967280
    → 2 ≤ b
    → b < h.psize + 2
    → reassemble c (cut_frag b p h) total
      ≡ keeps (record c {
        len = b - 2;
        pkt = some p;
        exp_sn = elim c.pkt [ none ↦ c.exp_sn | some _ ↦ add8 c.exp_sn 1 ];
      })
unfolding reassemble cut_frag
cut_first b p seq h c total z u l g = ground arith

cut_first_hdr :
    (b : ℕ) (h : RleHdr)
    → h.start_end ≡ 3
    → h.psize ≡ h.total_length
    → h.psize < 4294967280
    → 2 ≤ b
    → b < h.psize + 2
    → ((cut_hdr b h).start_end ≡ 0) × ((cut_hdr b h).psize + (b - 2) ≡ h.total_length + 3)
unfolding cut_hdr
cut_first_hdr b h z e u l g = ground arith

feed_middle :
    (bs : List ℕ) (p seq : ℕ) (h : RleHdr) (c : Context) (total : ℕ)
    → h.start_end ≡ 0
    → c.len + h.psize ≡ total
    → total < 4294967290
    → c.pkt ≡ some p
    → c.exp_sn ≡ seq
    → Cuts h bs
    → feed total c (fragments p seq h bs) ≡ some (done c seq, p ∷ [])
unfolding feed fragments
feed_middle [] p seq h c total z e u k n t = rw (fit_last p seq h c total z e u k n, feed)
feed_middle (b ∷ bs) p seq h c total z e u k n (l, g, t) =
    let hdr = cut_middle_hdr b h z (omega arith) l g in
    rw (cut_middle b p h c total z e u l g, feed)
      (feed_middle bs p seq (cut_hdr b h) (record c { len = c.len + (b - 2) }) total hdr.0
        (omega (arith, hdr)) u k n t)

-- The context of a flow stands for the number `seq`: it is idle and expects it, or it holds a
-- packet whose end was lost, which had the number before.
abbrev pub Expects : Context → ℕ → Type 0
Expects c seq = (elim c.pkt [ none ↦ c.exp_sn | some _ ↦ add8 c.exp_sn 1 ]) ≡ seq

-- A fresh packet that is cut at any number of bursts, each with room for a fragment header and
-- too little room for what is left of the packet, and whose fragments all reach a context that
-- expects its number, in order, is given up exactly once; the context is idle then and expects
-- the next number.
pub feed-fragments :
    (p seq b : ℕ) (bs : List ℕ) (h : RleHdr) (c : Context)
    → IsFresh h
    → Cuts h (b ∷ bs)
    → Expects c seq
    → feed (h.total_length + 3) c (fragments p seq h (b ∷ bs)) ≡ some (done c seq, p ∷ [])
unfolding feed fragments
feed-fragments p seq b bs h c f (l, g, t) e =
    let total : ℕ = h.total_length + 3 in
    let hdr = cut_first_hdr b h f.whole f.size f.small l g in
    rw (cut_first b p seq h c total f.whole f.small l g, feed)
      (feed_middle bs p seq (cut_hdr b h)
        (record c {
          len = b - 2;
          pkt = some p;
          exp_sn = elim c.pkt [ none ↦ c.exp_sn | some _ ↦ add8 c.exp_sn 1 ];
        })
        total hdr.0 (omega (arith, hdr)) (omega (arith, f.size, f.small)) refl e t)

abbrev pub total_bytes : List FragHdr → ℕ
total_bytes [] = 0
total_bytes (f ∷ fs) = f.length + total_bytes fs

bytes_middle :
    (bs : List ℕ) (p seq : ℕ) (h : RleHdr)
    → h.start_end ≡ 0
    → h.psize < 4294967290
    → Cuts h bs
    → total_bytes (fragments p seq h bs) ≡ h.psize
unfolding fragments fit_frag cut_frag
bytes_middle [] p seq h z u t = omega arith
bytes_middle (b ∷ bs) p seq h z u (l, g, t) =
    let hdr = cut_middle_hdr b h z u l g in
    omega (arith, hdr, bytes_middle bs p seq (cut_hdr b h) hdr.0 (omega (arith, hdr)) t)

-- The fragments of a fresh packet that is cut at least once carry the packet and three bytes more,
-- the protection header and the trailer, whatever the bursts were.
pub bytes-fragments :
    (p seq b : ℕ) (bs : List ℕ) (h : RleHdr)
    → IsFresh h
    → Cuts h (b ∷ bs)
    → total_bytes (fragments p seq h (b ∷ bs)) ≡ h.total_length + 3
unfolding fragments cut_frag
bytes-fragments p seq b bs h f (l, g, t) =
    let hdr = cut_first_hdr b h f.whole f.size f.small l g in
    omega (
      arith,
      hdr,
      f.size,
      f.small,
      bytes_middle bs p seq (cut_hdr b h) hdr.0 (omega (arith, hdr, f.size, f.small)) t,
    )
