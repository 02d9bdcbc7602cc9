-- ===== src/Rle/Encap/Fresh.antt =====
-- The header that `RleLL::init_packet` writes, and when it refuses to.
use release.Base.{ℕ, ◌+◌, ◌<◌, ◌≤◌, ◌≡◌, refl, ◌↔◌, none, some, arith, to_u32}
use release.Base.Int.{pos, negsuc, ◌≤ℤ◌}
use release.Rle.Encap.{RleHdr, RleLl, Packet, init_packet}

-- A fresh header of a packet that was not cut yet.
pub record IsFresh (h : RleHdr) : Type 0 where
  pub whole : h.start_end ≡ 3
  pub size : h.psize ≡ h.total_length
  pub small : h.psize < 4294967280

-- `init_packet` aborts exactly for a priority above 7.
pub init_packet_aborts : (l : RleLl) (p : Packet) → (init_packet l p ≡ none) ↔ (pos 8 ≤ℤ p.prio)
unfolding init_packet
init_packet_aborts l p = ground arith

-- For a priority of 0 to 7, and a packet and ALPDU header of `m` and `n` bytes that are together
-- well below 2^32, `init_packet` writes a fresh header of their length whose fragment identifier,
-- the priority, is one of the eight.
pub init_packet-IsFresh :
    (l : RleLl) (p : Packet) (m n k : ℕ)
    → p.size ≡ pos m
    → l.alpdu_hdr ≡ pos n
    → m + n < 4294967280
    → p.prio ≡ pos k
    → k < 8
    → (h : RleHdr) × (init_packet l p ≡ some h)
      × IsFresh h
      × (h.total_length ≡ m + n)
      × (h.frag_id ≡ k)
unfolding init_packet
init_packet-IsFresh l p m n k s a u q w = (
  record {
    total_length = m + n;
    frag_id = k;
    start_end = 3;
    stream_id = to_u32 p.flowid;
    seqno = 0;
    psize = m + n;
  },
  ground arith,
  record { whole = refl; size = refl; small = u },
  refl,
  refl,
)

-- A negative priority is not refused: its fragment identifier is far beyond the eight counters
-- `next` of the MAC.
pub init_packet_negative :
    (l : RleLl) (p : Packet) (n : ℕ)
    → p.prio ≡ negsuc n
    → n < 2147483648
    → (h : RleHdr) → init_packet l p ≡ some h
    → 8 ≤ h.frag_id
unfolding init_packet
init_packet_negative l p n e u h k = ground arith
