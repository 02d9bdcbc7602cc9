-- ===== src/Rle/Encap.antt =====
-- src/rle-encap.h and src/rle-encap.cc: the RLE metadata of a packet, and `RleLL`.
pub mod Fresh
use release.Base.{ℕ, ◌+◌, ◌≡◌, refl, Bool, true, Option, none, some, add32, to_u32, if◌then◌else◌}
use release.Base.Int.{ℤ, pos, ltb_ℤ}

-- `hdr_ll_rle`, less the fields that nothing reads (`addr_`, `sendtime`).
pub record RleHdr : Type 0 where
  pub total_length : ℕ
  pub frag_id : ℕ
  pub start_end : ℕ
  pub stream_id : ℕ
  pub seqno : ℕ
  pub psize : ℕ

pub data Direction : Type 0 where
  up down : Direction

-- The fields of the common and IP headers that `RleLL` uses.
pub record Packet : Type 0 where
  pub uid : ℕ
  pub size : ℤ
  pub prio : ℤ
  pub flowid : ℤ
  pub direction : Direction

pub record RleLl : Type 0 where
  pub sent_up : ℕ
  pub sent_down : ℕ
  pub alpdu_hdr : ℤ
  pub has_uptarget : Bool
  pub initialized : Bool

-- What the layer does with the packet that it is given.
pub data Output : Type 0 where
  sends_up : Packet → Output
  drops : Packet → Output
  sends_down : Packet → RleHdr → Output

-- `none` is the call of `abort`. The sum of two `int`s is taken to 32 bits.
unfoldable pub init_packet : RleLl → Packet → Option RleHdr
init_packet l p = if ltb_ℤ (pos 7) p.prio then none else some fresh
  where
    total : ℕ
    total = add32 (to_u32 p.size) (to_u32 l.alpdu_hdr)

    fresh : RleHdr
    fresh = record {
      total_length = total;
      frag_id = to_u32 p.prio;
      start_end = 3;
      stream_id = to_u32 p.flowid;
      seqno = 0;
      psize = total;
    }

-- `RleLL::recv` on a packet that moves up.
recv_up : RleLl → Packet → RleLl × Output
recv_up l p =
    let l' = record l { sent_up = l.sent_up + 1 } in
    (l', (if l.has_uptarget then sends_up p else drops p))

-- `RleLL::recv` on a packet that moves down.
recv_down : RleLl → Packet → Option (RleLl × Output)
recv_down l p = elim (init_packet l p) [
  | none ↦ none
  | some h ↦
      some (record l { sent_down = l.sent_down + 1 }, sends_down (record p { direction = down }) h)
]

by_direction : Direction → RleLl → Packet → Option (RleLl × Output)
unfolding recv_up recv_down
by_direction up l p = some (recv_up l p)
by_direction down l p = recv_down l p

-- `none` is a failed assertion or a call of `abort`.
pub recv : RleLl → Packet → Option (RleLl × Output)
unfolding by_direction
recv l p = if l.initialized then by_direction p.direction l p else none

recv_down_lem :
    (l : RleLl) (p : Packet) (h : RleHdr)
    → init_packet l p ≡ some h
    → recv_down l p
      ≡ some
          (record l { sent_down = l.sent_down + 1 }, sends_down (record p { direction = down }) h)
unfolding recv_down
recv_down_lem l p h e = rw (recv_down, e) refl

-- An initialised layer sends down what moves down, unless `init_packet` aborts.
pub recv_sends_down :
    (l : RleLl) (p : Packet) (h : RleHdr)
    → l.initialized ≡ true
    → p.direction ≡ down
    → init_packet l p ≡ some h
    → recv l p
      ≡ some
          (record l { sent_down = l.sent_down + 1 }, sends_down (record p { direction = down }) h)
unfolding recv by_direction
recv_sends_down l p h i d e = simp (i, d, by_direction, recv_down_lem l p h e) refl
