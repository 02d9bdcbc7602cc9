-- ===== src/Dama/Tests.antt =====
-- The theorems on src/mac-tdmadama.cc at concrete inputs, and runs of the code.
use mathlib.Core.List.{Perm}
use release.Base.{
  ℕ, ◌+◌, ◌*◌, ◌≤◌, ◌≡◌, refl, false, Option, none, some, List, [], ◌∷◌, arith, length,
}
use release.Allocator.Assign.{BurstDes}
use release.Allocator.Cycle.{Allocator, allocation}
use release.Allocator.Tests.{allocator, junk, allocator-IsSetUp}
use release.Allocator.Cycle.Superframe.{IsInside}
use release.Dama.Schedule.{AllApart, gather, scheduled, gather-btp_decoding}
use release.Dama.Slot.{IsQueue, Releases, payload, slot_handler_sends}
use release.Dama.Superframe.{allocation-btp_decoding}
use release.Dama.{Mac, Timeslot, btp_decoding, send_up, slot_handler}

abbrev burst : ℕ → ℕ → BurstDes
burst t slot = record {
  assignment_id = t;
  size = 100;
  offset = some (record { slot = slot; timeslots = 2 });
}

abbrev table : List BurstDes
table = burst 1 0 ∷ burst 0 0 ∷ burst 1 1 ∷ []

gather-btp_decoding_example : Perm (gather 2 (λ t. btp_decoding t 48 table)) (
    (1, scheduled 48 (burst 1 0))
    ∷ (0, scheduled 48 (burst 0 0))
    ∷ (1, scheduled 48 (burst 1 1))
    ∷ [])
gather-btp_decoding_example =
    gather-btp_decoding 2 48 table (omega arith, (omega arith, (omega arith, tt)))

allocation-btp_decoding_example :
    (y : Allocator) × (allocation (λ _ _ _. false) 5 junk junk junk allocator ≡ some y)
    × ((t len : ℕ) → AllApart (btp_decoding t len y.core.bdes))
    × IsInside y
allocation-btp_decoding_example =
    allocation-btp_decoding (λ _ _ _. false) 5 junk junk junk allocator refl allocator-IsSetUp
      (omega arith) (omega arith)

-- A queue as the list of its packets.
abbrev resume : List ℕ → List ℕ × Option ℕ
resume [] = ([], none)
resume (p ∷ ps) = (ps, some p)

resume-IsQueue : IsQueue resume (λ q. q)
resume-IsQueue = record { resume_lem = releases }
  where
    releases : (q : List ℕ) → Releases (λ q. q) q (resume q)
    releases [] = (refl, refl)
    releases (p ∷ ps) = (refl, refl)

abbrev mac : Mac (List ℕ)
mac = record {
  index = 3;
  slot_num = 1;
  slot_packet_len = 48;
  is_allocator = false;
  used_slots = 0;
  total_slots = 0;
  pkt_tx = none;
  queue = 7 ∷ 8 ∷ 9 ∷ [];
}

abbrev timeslot : Timeslot
timeslot = record { offset = none; size = 100; cellno = 2 }

slot_handler_sends_example :
    let (r, out) = slot_handler resume (λ p. p) mac timeslot in
    (payload out ≡ 7 ∷ 8 ∷ [])
    × (r.queue ≡ 9 ∷ [])
    × (r.pkt_tx ≡ none)
    × (r.total_slots ≡ 0 + 100)
    × (r.used_slots ≡ 0 + length (payload out) * 48)
    × (length (payload out) * 48 ≤ 100)
slot_handler_sends_example =
    slot_handler_sends resume (λ p. p) (λ q. q) mac timeslot resume-IsQueue refl (omega arith)

send_up_run : send_up (λ p. p) 8 (7 ∷ 8 ∷ 9 ∷ []) ≡ 8 ∷ []
unfolding send_up
send_up_run = refl
