-- ===== src/Mpeg/Tests.antt =====
-- The theorems on src/mpeg-encap.cc at concrete inputs, and runs of the code.
use release.Base.{
  ℕ, ◌≤◌, ◌≡◌, ◌==◌, true, false, Option, none, some, refl, arith, inl, List, [], ◌∷◌, ◌++◌, map,
  All,
}
use release.Base.Int.{pos, negsuc}
use release.Atm.Arp.{peer, lookup, resolve}
use release.Mpeg.{Buffer, get_queue}
use release.Mpeg.Probe.{Found, get_queue-Found}
use release.Mpeg.Sender.{Datagram, Frag, Cell, Sender, send_frags, part}
use release.Mpeg.Sender.Filling.{bytes}
use release.Mpeg.Sender.Idle.{IsIdle}
use release.Mpeg.Sender.Closing.{IsReady, gathered}
use release.Mpeg.Sender.Cells.{send_frags-IsReady}
use release.Mpeg.Sender.Shared.{send_frags_misplaces}
use release.Mpeg.Receiver.Reassembly.{Completes, upward}
use release.Mpeg.Link.{MpegLl, new_mpeg_ll, recv_all, down}
use release.Mpeg.RoundTrip.{arrivals, expire, link-roundtrip}

-- Place 5 is empty; place 6 holds the cell of address 105, which met another at place 5 before.
abbrev buffer : Buffer
buffer l = elim (l == 6) [ true ↦ some 105 | false ↦ none ]

get_queue-Found_example : Found buffer 105 100 5 (get_queue buffer 105)
get_queue-Found_example = get_queue-Found buffer 105

-- A packet of two cells and one of part of a cell.
abbrev long : Datagram
long = record { uid = 7; size = 300; next_hop = 4 }

abbrev short : Datagram
short = record { uid = 8; size = 40; next_hop = 4 }

abbrev link : MpegLl
unfolding new_mpeg_ll
link = new_mpeg_ll 1 (record { dst = negsuc 0; mac = pos 0 })

abbrev idle : Sender
idle = link.sender

idle-IsIdle : IsIdle (λ a. a) idle
unfolding link
idle-IsIdle = record { older = tt; marked = tt; full = tt; coherent = inl refl }

send_frags-IsReady_example :
    (s' : Sender) × (xs : List Frag) × (send_frags (λ a. a) true 3 50 idle long ≡ some s')
    × (s'.id ≡ 1)
    × IsReady (λ a. a) 4 s' (s'.buffer 4)
    × (gathered s' (s'.buffer 4) ≡ [] ++ xs)
    × Completes 7 308 0 xs
unfolding lookup link
send_frags-IsReady_example =
    send_frags-IsReady (λ a. a) true 3 50 (omega arith) long idle (peer (pos 4)) refl (omega arith)
      idle-IsIdle

link-roundtrip_example :
    (a' : MpegLl) × (s' : Sender) × (b' : MpegLl) × (recv_all
        (λ a. a)
        true
        true
        3
        50
        link
        (map down (long ∷ short ∷ []))
      ≡ some a')
    × (expire (λ a. a) true 3 50 4 a'.sender ≡ some s')
    × All (λ x. bytes (s'.heap x.0.payload) ≤ 184) s'.out
    × (recv_all (λ a. a) true true 3 50 link (arrivals s'.heap s'.out) ≡ some b')
    × (b'.receiver.buffer 1 ≡ none)
    × (b'.receiver.delivered ≡ [] ++ map upward (long ∷ short ∷ []))
unfolding lookup link
link-roundtrip_example =
    link-roundtrip (λ a. a) true 3 50 (omega arith) 4 (peer (pos 4)) refl (long ∷ short ∷ []) link
      link ((refl, omega arith), ((refl, omega arith), tt)) refl refl idle-IsIdle refl

-- A cell for address 4 with payload 0 is being filled, and payload 1 is the one begun last.
abbrev cell : Cell
cell = record {
  addr = 4;
  pid = 1;
  queue = 4;
  dvb_space = 100;
  pusi = true;
  status = true;
  payload = 0;
}

abbrev shared : Sender
shared = record idle {
  buffer = λ l. elim (l == 4) [ true ↦ some cell | false ↦ none ];
  payload = 1;
  fresh = 2;
}

send_frags_misplaces_example :
    (s' : Sender) × (send_frags (λ a. a) true 3 50 shared short ≡ some s')
    × (s'.heap 1 ≡ [] ++ part short 48 ∷ [])
    × (s'.heap 0 ≡ [])
    × (s'.out ≡ [])
    × (s'.buffer 4 ≡ some (record cell { addr = 4; dvb_space = 52; status = true }))
unfolding link
send_frags_misplaces_example =
    send_frags_misplaces (λ a. a) true 3 50 short shared cell refl refl
      (λ e. absurd (omega (arith, e))) (omega arith) (omega arith)

abbrev piece : ℕ → Frag
piece n = record { uid = 7; total = 308; size = n }

abbrev whole : Frag
whole = record { uid = 8; total = 48; size = 48 }

-- A packet for address 4, one for 5 and one for 4 again, and the timers of both cells.
abbrev beside : Datagram
beside = record { uid = 9; size = 60; next_hop = 5 }

abbrev third : Datagram
third = record { uid = 10; size = 30; next_hop = 4 }

-- The cells' addresses and the packets in them: the third packet goes with the cell for 5.
misplaced : (Option (List (ℕ × List ℕ)))
misplaced = elim (recv_all (λ a. a) true true 3 50 link (map down (short ∷ beside ∷ third ∷ []))) [
  | none ↦ none
  | some l ↦ elim (expire (λ a. a) true 3 50 4 l.sender) [
    | none ↦ none
    | some s ↦ elim (expire (λ a. a) true 3 50 5 s) [
      | none ↦ none
      | some s' ↦ some (map (λ x. (x.0.addr, map (λ f. f.uid) (s'.heap x.0.payload))) s'.out)
    ]
  ]
]

misplaced_run : misplaced ≡ some ((4, 8 ∷ []) ∷ (5, 9 ∷ 10 ∷ []) ∷ [])
unfolding misplaced recv_all expire resolve get_queue link
misplaced_run = refl
