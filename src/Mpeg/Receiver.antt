-- ===== src/Mpeg/Receiver.antt =====
-- The receiving side of `MpegLL` (src/mpeg-encap.cc).
pub mod Reassembly
pub mod Arrivals
use release.Base.{
  ℕ, ◌+◌, ◌-◌, Bool, true, false, Option, none, some, List, [], ◌∷◌, ◌++◌, update, ◌==◌,
  if◌then◌else◌,
}
use release.Mpeg.{Buffer, get_queue}
use release.Mpeg.Sender.{Frag}

-- A packet in `rx_buffer`: its `uid_`, its size, and `length_` and `addr_` of its header.
pub record Partial : Type 0 where
  pub uid : ℕ
  pub size : ℕ
  pub length : ℕ
  pub addr : ℕ

-- A packet that is scheduled for `uptarget_`.
pub record Upward : Type 0 where
  pub uid : ℕ
  pub size : ℕ

pub record Receiver : Type 0 where
  pub buffer : ℕ → Option Partial
  pub delivered : List Upward

-- The packet that a fragment goes on with: the one at hand, or a copy of its own.
unfoldable pub matching : ℕ → Option Partial → Frag → Partial
matching pid o f = elim o [ none ↦ fresh | some c ↦ (if c.uid == f.uid then c else fresh) ]
  where
    fresh : Partial
    fresh = record { uid = f.uid; size = f.total; length = 0; addr = pid }

-- A round of the loop of `sendUp`, on the packet of the queue and those given up.
unfoldable pub process : ℕ → Option Partial × List Upward → Frag → Option Partial × List Upward
unfolding matching
process pid (o, up) f =
    let c = matching pid o f in
    let grown = record c { length = c.length + f.size; addr = pid } in
    if grown.size == grown.length
    then (none, up ++ record { uid = grown.uid; size = grown.size - 8 } ∷ [])
    else (some grown, up)

unfoldable pub process_all :
    ℕ → Option Partial × List Upward → List Frag → Option Partial × List Upward
unfolding process
process_all pid s [] = s
process_all pid s (f ∷ fs) = process_all pid (process pid s f) fs

unfoldable pub addresses : (ℕ → Option Partial) → Buffer
addresses buffer l = elim (buffer l) [ none ↦ none | some c ↦ some c.addr ]

-- `sendUp` on a cell of the sender `pid`; `none` is the call of `abort`.
unfoldable pub send_up : Receiver → ℕ → List Frag → Option Receiver
unfolding process_all addresses
send_up r pid frags = elim (get_queue (addresses r.buffer) pid) [
  | none ↦ none
  | some queue ↦
      (let (o, up) = process_all pid (r.buffer queue, r.delivered) frags in
        some (record { buffer = update r.buffer queue o; delivered = up }))
]

-- The cells that arrive one after the other.
unfoldable pub send_up_all : Receiver → ℕ → List (List Frag) → Option Receiver
unfolding send_up
send_up_all r pid [] = some r
send_up_all r pid (c ∷ cs) = elim (send_up r pid c) [
  | none ↦ none
  | some r' ↦ send_up_all r' pid cs
]
