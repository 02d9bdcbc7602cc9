-- ===== src/Atm.antt =====
-- The ATM link layer of src/atm-encap.h and src/atm-encap.cc: a packet goes down as a sequence of
-- cells, and is given up when the last of its cells arrives.
pub mod Arp
pub mod Flow
pub mod Sending
mod Tests
use release.Base.{
  ℕ, zero, suc, ◌+◌, ◌*◌, ◌/◌, Bool, true, false, Option, none, some, List, [], ◌∷◌, ◌++◌, leb,
  ◌==◌, if◌then◌else◌,
}
use release.Base.Int.{ℤ}
use Arp.{ArpCache, Dest, resolve}

-- The fields that the layer uses of a packet that it sends, which `id` identifies.
pub record Datagram : Type 0 where
  pub id : ℕ
  pub size : ℕ
  pub flowid : ℕ
  pub next_hop : ℤ
  pub is_inet : Bool

-- A cell, a copy of the packet `packet`, with its `hdr_ll_atm`.
pub record Cell : Type 0 where
  pub packet : ℕ
  pub pt : ℕ
  pub addr : ℕ
  pub length : ℕ

-- A packet that is scheduled for `uptarget_`, from the cells of `addr`.
pub record Upward : Type 0 where
  pub addr : ℕ
  pub packet : ℕ
  pub size : ℕ

-- `AtmLL`; `buffer` begins at the pointer `buffer_`.
pub record AtmLl : Type 0 where
  pub id : ℕ
  pub sent_up : ℕ
  pub sent_down : ℕ
  pub buffer : List Cell
  pub arp : ArpCache
  pub delivered : List Upward

-- The number of cells of a packet of `size` bytes.
unfoldable pub frags : ℕ → ℕ
frags size = (size + 8 + 47) / 48

-- The body of the loop of `send_frags`, in its round `i`, up to `sendDown`.
unfoldable pub make_cell : ℕ → Datagram → ℕ → Cell
unfolding frags
make_cell id p i = record {
  packet = p.id;
  pt = if i + 1 == frags p.size then 1 else 0;
  addr = id * 8 + p.flowid;
  length = p.size;
}

-- The cells of `n` rounds from the round `i` on, and of all rounds.
unfoldable pub cells_from : ℕ → ℕ → Datagram → ℕ → List Cell
unfolding make_cell
cells_from zero id p i = []
cells_from (suc n) id p i = make_cell id p i ∷ cells_from n id p (i + 1)

unfoldable pub cells : ℕ → Datagram → List Cell
unfolding cells_from frags
cells id p = cells_from (frags p.size) id p 0

-- What `send_frags` hands on: the packet is dropped by the queue monitor, or its cells are sent.
pub data Sent : Type 0 where
  drops_packet : Sent
  sends : List (Cell × Dest) → Sent

-- `sendDown` for each of the cells; `none` is the call of `abort`.
unfoldable pub send_cells :
    (ℤ → ℤ) → Datagram → ArpCache → List Cell → Option (ArpCache × List (Cell × Dest))
send_cells find_peer p arp [] = some (arp, [])
send_cells find_peer p arp (c ∷ cs) = elim (resolve find_peer arp p.is_inet p.next_hop) [
  | none ↦ none
  | some (arp', dest) ↦ elim (send_cells find_peer p arp' cs) [
    | none ↦ none
    | some (arp'', out) ↦ some (arp'', (c, dest) ∷ out)
  ]
]

-- `send_frags`, when the monitored queue holds `queued` of at most `limit` packets.
unfoldable pub send_frags : (ℤ → ℤ) → (queued limit : ℕ) → AtmLl → Datagram → Option (AtmLl × Sent)
unfolding send_cells cells frags
send_frags find_peer queued limit s p =
    if leb limit (queued + frags p.size)
    then some (s, drops_packet)
    else (elim (send_cells find_peer p s.arp (cells s.id p)) [
      | none ↦ none
      | some (arp, out) ↦ some (record s { arp = arp; sent_down = s.sent_down + 1 }, sends out)
    ])

-- The loop "dequeue" of `sendUp`: the number of cells of `addr` that it drops from the buffer, and
-- the buffer after it.
unfoldable pub dequeue : ℕ → List Cell → ℕ × List Cell
dequeue addr [] = (0, [])
dequeue addr (q ∷ qs) =
    let (dropped, rest) = dequeue addr qs in
    if q.addr == addr then (dropped + 1, rest) else (dropped, q ∷ rest)

unfoldable pub send_up : AtmLl → Cell → AtmLl
unfolding dequeue frags
send_up s p =
    if p.pt == 0
    then record s { buffer = p ∷ s.buffer }
    else (let (dropped, rest) = dequeue p.addr s.buffer in
        if dropped + 1 == frags p.length
        then record s {
          buffer = rest;
          sent_up = s.sent_up + 1;
          delivered =
              s.delivered ++ record { addr = p.addr; packet = p.packet; size = p.length } ∷ [];
        }
        else record s { buffer = rest })

-- The cells that arrive one after the other.
unfoldable pub send_up_all : AtmLl → List Cell → AtmLl
unfolding send_up
send_up_all s [] = s
send_up_all s (c ∷ cs) = send_up_all (send_up s c) cs

-- `recv` on a cell that moves up, or on a packet that moves down; `none` is a failed assertion.
pub data Arrival : Type 0 where
  from_below : Cell → Arrival
  from_above : Datagram → Arrival

unfoldable pub recv :
    (ℤ → ℤ)
    → (queued limit : ℕ) → (initialized has_uptarget : Bool) → AtmLl
    → Arrival
    → Option (AtmLl × Option Sent)
unfolding send_frags send_up
recv find_peer queued limit false has_uptarget s p = none
recv find_peer queued limit true has_uptarget s (from_below c) =
    some ((if has_uptarget then send_up s c else s), none)
recv find_peer queued limit true has_uptarget s (from_above p) =
    elim (send_frags find_peer queued limit s p) [
      | none ↦ none
      | some (s', sent) ↦ some (s', some sent)
    ]

unfoldable pub reset : AtmLl → AtmLl
reset s = record s { buffer = []; sent_up = 0; sent_down = 0 }
