-- ===== src/Dama.antt =====
-- The MAC of src/mac-tdmadama.h and src/mac-tdmadama.cc: it schedules the timeslots that a burst
-- table assigns to it, and sends packets from the queue in them. The queue is ns-2's: its type and
-- `resume`, with the packet that it then passes to the MAC, are parameters.
pub mod Schedule
pub mod Slot
pub mod Superframe
mod Tests
use release.Base.{
  ℕ, zero, suc, ◌+◌, ◌/◌, Bool, true, false, ◌||◌, Option, none, some, List, [], ◌∷◌, ◌++◌, ◌==◌,
  if◌then◌else◌,
}
use release.Base.Int.{ℤ}
use release.Allocator.Assign.{Offset, BurstDes}

-- A burst that is scheduled for its timeslot, the fields of `burst_hdr` that `slotHandler` reads.
pub record Timeslot : Type 0 where
  pub offset : Option Offset
  pub size : ℕ
  pub cellno : ℕ

-- `MacTdmaDama`; `pkt_tx` is `pktTx_`, and `is_allocator` tells whether `allocator_` is set.
pub record Mac (Q : Type 0) : Type 0 where
  pub index : ℕ
  pub slot_num : ℕ
  pub slot_packet_len : ℕ
  pub is_allocator : Bool
  pub used_slots : ℕ
  pub total_slots : ℕ
  pub pkt_tx : Option ℕ
  pub queue : Q

-- The timeslots that `btp_decoding` schedules.
unfoldable pub btp_decoding : (slot_num slot_packet_len : ℕ) → List BurstDes → List Timeslot
btp_decoding slot_num len [] = []
btp_decoding slot_num len (b ∷ bdes) =
    let rest = btp_decoding slot_num len bdes in
    if b.assignment_id == slot_num
    then record { offset = b.offset; size = b.size; cellno = b.size / len } ∷ rest
    else rest

pub data Control : Type 0 where
  tbtp : List BurstDes → Control
  cr : (slot_num : ℕ) (rate : ℤ) (volume : ℕ) → Control

-- What reaches `recv`: from the channel a control packet, or a burst with its MAC destination and
-- its packets; from the node a control packet or a packet of the queue. `none` is MAC_BROADCAST.
pub data Arrival : Type 0 where
  control_up : Control → Arrival
  burst_up : Option ℕ → List ℕ → Arrival
  control_down : Control → Arrival
  packet_down : ℕ → Arrival

-- What `recv` makes of it, but for the state.
pub data Response : Type 0 where
  schedules : List Timeslot → Response
  requests : (slot_num : ℕ) (rate : ℤ) (volume : ℕ) → Response
  gives_up : List ℕ → Response
  sends_control : Control → Response
  buffers : Response
  frees : Response

-- `sendUp`: the packets of a burst that are for this MAC. `mac_da` is the MAC destination of each
-- packet by its identity.
unfoldable pub send_up : (ℕ → ℕ) → ℕ → List ℕ → List ℕ
send_up mac_da index [] = []
send_up mac_da index (p ∷ pc) =
    let rest = send_up mac_da index pc in if mac_da p == index then p ∷ rest else rest

module _ {Q : Type 0} where
  unfoldable pub recv_control : Mac Q → Control → Response
  unfolding btp_decoding
  recv_control m (tbtp bdes) = schedules (btp_decoding m.slot_num m.slot_packet_len bdes)
  recv_control m (cr slot_num rate volume) =
      if m.is_allocator then requests slot_num rate volume else frees

  abbrev pub is_for : Mac Q → Option ℕ → Bool
  is_for m none = true
  is_for m (some dst) = dst == m.index

  unfoldable pub recv : (ℕ → ℕ) → Mac Q → Arrival → Mac Q × Response
  unfolding recv_control send_up
  recv mac_da m (control_up c) = (m, recv_control m c)
  recv mac_da m (burst_up dst pc) =
      (m, (if is_for m dst then gives_up (send_up mac_da m.index pc) else frees))
  recv mac_da m (control_down c) = (m, sends_control c)
  recv mac_da m (packet_down p) = (record m { pkt_tx = some p }, buffers)

-- A slot, over a queue. A packet that the queue releases comes back by `recv`.
module _ {Q : Type 0} (resume : Q → Q × Option ℕ) (mac_da : ℕ → ℕ) where
  unfoldable pub resume_queue : Mac Q → Mac Q
  unfolding recv
  resume_queue m =
      let (q, released) = resume m.queue in
      elim released [
        | none ↦ record m { queue = q }
        | some p ↦ (recv mac_da (record m { queue = q }) (packet_down p)).0
      ]

  -- The loop over `n` cells of the burst; the packets so far are `pc`.
  unfoldable pub load : ℕ → Mac Q → List ℕ → Mac Q × List ℕ
  unfolding resume_queue
  load zero m pc = (m, pc)
  load (suc n) m pc = elim (resume_queue m).pkt_tx [
    | none ↦ (resume_queue m, pc)
    | some p ↦
        (let m' = resume_queue m in
          load n (record m' { pkt_tx = none; used_slots = m'.used_slots + m'.slot_packet_len })
            (pc ++ p ∷ []))
  ]

  -- `slotHandler`: the burst that goes to the channel, `none` if it is empty.
  unfoldable pub slot_handler : Mac Q → Timeslot → Mac Q × Option (List ℕ)
  unfolding load
  slot_handler m s =
      let (m', pc) = load s.cellno (record m { total_slots = m.total_slots + s.size }) [] in
      (m', elim pc [ [] ↦ none | p ∷ ps ↦ some (p ∷ ps) ])
