-- ===== src/Rle/Burst.antt =====
-- src/mac-rle.h: the fragments of a burst (`frag_hdr`, `RlePayload`), and the two ways in which
-- `MacRle::slotHandler` makes one from the packet at the head of the queue.
use release.Base.{
  ℕ, ◌+◌, ◌≡◌, List, [], ◌∷◌, ◌++◌, arith, bit_and, bit_or, add32, sub32, ◌==◌, if◌then◌else◌,
}
use release.Rle.Encap.{RleHdr}

-- `alpdu` is the packet's identity: `refcopy` shares the packet with its headers.
pub record FragHdr : Type 0 where
  pub start_end : ℕ
  pub length : ℕ
  pub frag_id : ℕ
  pub seqno : ℕ
  pub alpdu : ℕ

-- The bytes that a fragment takes of its burst, `FHS` for its header, and all of them.
abbrev pub used : List FragHdr → ℕ
used [] = 0
used (f ∷ fs) = f.length + 2 + used fs

pub used-append : (fs gs : List FragHdr) → used (fs ++ gs) ≡ used fs + used gs
used-append [] gs = omega arith
used-append (f ∷ fs) gs = omega (arith, used-append fs gs)

-- A packet that is cut for the first time grows by the protection header and the trailer.
unfoldable pub grow : RleHdr → RleHdr
grow h =
    if bit_and h.start_end 2 == 0
    then h
    else record h { total_length = add32 h.total_length 3; psize = add32 h.total_length 3 }

-- The branch "too big for this frame": the fragment, and the header that the packet keeps.
unfoldable pub cut_frag : ℕ → ℕ → RleHdr → FragHdr
unfolding grow
cut_frag bs p h = record {
  start_end = bit_and (grow h).start_end 2;
  length = sub32 bs 2;
  frag_id = (grow h).frag_id;
  seqno = 0;
  alpdu = p;
}

unfoldable pub cut_hdr : ℕ → RleHdr → RleHdr
unfolding grow
cut_hdr bs h = record g {
  start_end = bit_and (bit_and g.start_end 2) 1;
  psize = sub32 g.psize (sub32 bs 2);
}
  where
    g : RleHdr
    g = grow h

-- The branch "packet fits the burst"; `seq` is `next[frag_id]`.
unfoldable pub fit_frag : ℕ → ℕ → RleHdr → FragHdr
fit_frag seq p h = record {
  start_end = bit_or h.start_end 1;
  length = h.psize;
  frag_id = h.frag_id;
  seqno = if bit_or h.start_end 1 == 1 then seq else 0;
  alpdu = p;
}

unfoldable pub fit_hdr : RleHdr → RleHdr
fit_hdr h = record h { start_end = bit_or h.start_end 1 }
