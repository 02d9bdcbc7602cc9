-- ===== src/Rle/Sender.antt =====
-- `MacRle::slotHandler`: the burst of one timeslot is filled from the packet queue. The queue is
-- ns-2's (`PacketQueue`): its type, `head` and `remove` are parameters.
pub mod Accounting
pub mod Order
use release.Base.{
  ℕ, zero, suc, ◌+◌, ◌-◌, ◌<◌, ◌≤◌, ◌≡◌, refl, Bool, true, false, Option, none, some, List, [], ◌∷◌,
  ◌++◌, arith, add32, sub32, add8, ltb, leb, ◌==◌, if◌then◌else◌, get_or, set, update, bit_or,
}
use release.Rle.Encap.{RleHdr}
use release.Rle.Burst.{FragHdr, cut_frag, cut_hdr, fit_frag, fit_hdr}

-- The part of `MacRle` that sends. `hdr` is the RLE header of each packet by its identity.
pub record Sender (Q : Type 0) : Type 0 where
  pub queue : Q
  pub hdr : ℕ → RleHdr
  pub next : List ℕ
  pub total_slots : ℕ
  pub used_slots : ℕ
  pub sent_down : ℕ

-- The variables of the loop: the sender, `bs`, and the payload so far.
pub record Filling (Q : Type 0) : Type 0 where
  pub sender : Sender Q
  pub bs : ℕ
  pub frags : List FragHdr

module _ {Q : Type 0} where
  -- The packet is cut: it stays at the head of the queue, and the burst is full.
  unfoldable pub cut_round : Filling Q → ℕ → Filling Q
  unfolding cut_frag cut_hdr
  cut_round b p = record {
    sender = record s { hdr = update s.hdr p (cut_hdr b.bs (s.hdr p)) };
    bs = 0;
    frags = b.frags ++ (cut_frag b.bs p (s.hdr p) ∷ []);
  }
    where
      s : Sender Q
      s = b.sender

  -- The packet fits: it leaves the queue. Only the last of several fragments takes a number.
  unfoldable pub fit_round : (Q → ℕ → Q) → Filling Q → ℕ → Filling Q
  unfolding fit_frag fit_hdr
  fit_round remove b p = record {
    sender = record s {
      queue = remove s.queue p;
      hdr = update s.hdr p (fit_hdr h);
      next = if bit_or h.start_end 1 == 1 then set s.next h.frag_id (add8 seq 1) else s.next;
      sent_down = s.sent_down + 1;
    };
    bs = sub32 b.bs (add32 h.psize 2);
    frags = b.frags ++ (fit_frag seq p h ∷ []);
  }
    where
      s : Sender Q
      s = b.sender

      h : RleHdr
      h = s.hdr p

      seq : ℕ
      seq = get_or s.next h.frag_id 0

  -- The burst that goes to the channel, `none` if the payload is empty.
  unfoldable pub close : ℕ → Filling Q → Sender Q × Option (List FragHdr)
  close size b = elim b.frags [
    | [] ↦ (b.sender, none)
    | _ ↦
        (let s = b.sender in record s { used_slots = s.used_slots + sub32 size b.bs }, some b.frags)
  ]

  unfoldable pub start : Sender Q → ℕ → Filling Q
  start s size = record {
    sender = record s { total_slots = s.total_slots + size };
    bs = size;
    frags = [];
  }

module _ {Q : Type 0} (head : Q → Option ℕ) (remove : Q → ℕ → Q) where
  -- The `do … while (bs >= FHS + PHS)` loop; `none` is lack of fuel.
  unfoldable pub fill : ℕ → Filling Q → Option (Filling Q)
  fill zero b = none
  fill (suc fuel) b = elim (head b.sender.queue) [
    | none ↦ some b
    | some p ↦ elim (ltb b.bs (add32 (b.sender.hdr p).psize 2)) [
      | true ↦ some (cut_round b p)
      | false ↦ elim (leb 4 (fit_round remove b p).bs) [
        | true ↦ fill fuel (fit_round remove b p)
        | false ↦ some (fit_round remove b p)
      ]
    ]
  ]

  -- `slotHandler` for a timeslot of `size` bytes.
  unfoldable pub slot_handler : Sender Q → ℕ → Option (Sender Q × Option (List FragHdr))
  unfolding close start
  slot_handler s size = elim (fill (size + 1) (start s size)) [
    | none ↦ none
    | some b ↦ some (close size b)
  ]
