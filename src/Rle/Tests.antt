-- ===== src/Rle/Tests.antt =====
-- The theorems on src/rle-encap.cc and src/mac-rle.cc at concrete inputs, and runs of the code.
use release.Base.{ℕ, ◌+◌, ◌≤◌, ◌≡◌, refl, true, Option, some, List, [], length, ◌∷◌, ◌++◌, arith}
use release.Base.Int.{pos, negsuc}
use release.Rle.Encap.{RleHdr, RleLl, Packet, Direction, init_packet}
use release.Rle.Burst.{FragHdr}
use release.Rle.Sender.{fill, cut_round, fit_round, start, close, Sender, slot_handler}
use release.Rle.Sender.Accounting.{bytes, slot_handler_accounts}
use release.Rle.Sender.Order.{first, IsQueue, finished as closed, payload, slot_handler_takes}

abbrev link : RleLl
link = record {
  sent_up = 0;
  sent_down = 0;
  alpdu_hdr = pos 2;
  has_uptarget = true;
  initialized = true;
}

abbrev packet : Packet
packet = record { uid = 5; size = pos 98; prio = pos 2; flowid = pos 1; direction = Direction.down }

abbrev hdr : RleHdr
hdr = record {
  total_length = 100;
  frag_id = 2;
  start_end = 3;
  stream_id = 1;
  seqno = 0;
  psize = 100;
}

init_packet_runs : init_packet link packet ≡ some hdr
unfolding init_packet
init_packet_runs = refl

abbrev urgent : Packet
urgent = record packet { prio = negsuc 0 }

abbrev drop_head : List ℕ → ℕ → List ℕ
drop_head [] p = []
drop_head (q ∷ qs) p = qs

drop_head_lem : (q : List ℕ) (p : ℕ) (ps : List ℕ) → q ≡ p ∷ ps → drop_head q p ≡ ps
drop_head_lem [] p ps e = cc
drop_head_lem (x ∷ xs) p ps e = cc

list-IsQueue : IsQueue first drop_head (λ q. q)
list-IsQueue = record { head_lem = λ q. refl; remove_lem = drop_head_lem }

-- Packets 5 and 6 of 100 bytes wait.
abbrev sender : Sender (List ℕ)
sender = record {
  queue = 5 ∷ 6 ∷ [];
  hdr = λ _. hdr;
  next = 0 ∷ 0 ∷ 7 ∷ 0 ∷ 0 ∷ 0 ∷ 0 ∷ 0 ∷ [];
  total_slots = 0;
  used_slots = 0;
  sent_down = 0;
}

slot_handler_accounts_example :
    (r : Sender (List ℕ) × Option (List FragHdr)) × (slot_handler first drop_head sender 140
      ≡ some r)
    × (r.0.total_slots ≡ 0 + 140)
    × (r.0.used_slots ≡ 0 + bytes r.1)
    × (bytes r.1 ≤ 140)
slot_handler_accounts_example =
    slot_handler_accounts first drop_head sender 140 (omega arith) (omega arith) (λ p. omega arith)

slot_handler_takes_example :
    (r : Sender (List ℕ) × Option (List FragHdr)) × (slot_handler first drop_head sender 140
      ≡ some r)
    × (closed (payload r.1) ++ r.0.queue ≡ 5 ∷ 6 ∷ [])
    × (r.0.sent_down ≡ 0 + length (closed (payload r.1)))
slot_handler_takes_example =
    slot_handler_takes first drop_head (λ q. q) sender 140 list-IsQueue (λ p. omega arith)
      (omega arith) (omega arith) (λ p. omega arith)

-- The first packet fits, and 36 bytes of the second.
abbrev burst : List FragHdr
burst =
    record { start_end = 3; length = 100; frag_id = 2; seqno = 0; alpdu = 5 }
    ∷ record { start_end = 2; length = 36; frag_id = 2; seqno = 0; alpdu = 6 }
    ∷ []

slot_handler_runs :
    (ok : Sender (List ℕ)) × (slot_handler first drop_head sender 140 ≡ some (ok, some burst))
unfolding slot_handler fill cut_round fit_round start close
slot_handler_runs = (_, refl)
