-- ===== src/Mpeg/Sender.antt =====
-- The sending side of `MpegLL` (src/mpeg-encap.cc): packets are packed into cells of 188 bytes, one
-- that is being filled for each address. A cell is a copy of a packet for its address, so that its
-- next hop is that address. The length of the monitored queue, the peers of the channel and the
-- type of the addresses are parameters.
pub mod Filling
pub mod Idle
pub mod Packing
pub mod Closing
pub mod Cells
pub mod Shared
use release.Base.{
  ℕ, zero, suc, ◌+◌, ◌-◌, Bool, true, false, Option, none, some, List, [], ◌∷◌, ◌++◌, length,
  update, ltb, if◌then◌else◌,
}
use release.Base.Int.{ℤ, pos}
use release.Atm.Arp.{ArpCache, Dest, resolve}
use release.Mpeg.{Buffer, get_queue}

-- A packet that is to be sent, `size` without the ULE header and checksum.
pub record Datagram : Type 0 where
  pub uid : ℕ
  pub size : ℕ
  pub next_hop : ℕ

-- An entry of `frag` and `frag_size`: a packet, with its `uid_` and its size, and its bytes here.
pub record Frag : Type 0 where
  pub uid : ℕ
  pub total : ℕ
  pub size : ℕ

-- `hdr_ll_mpeg` of a cell, with the identity of its `DvbPayload`. With `status` its timer runs.
pub record Cell : Type 0 where
  pub addr : ℕ
  pub pid : ℕ
  pub queue : ℕ
  pub dvb_space : ℕ
  pub pusi : Bool
  pub status : Bool
  pub payload : ℕ

-- `heap` is the content of each `DvbPayload` by its identity, and `fresh` the next identity;
-- `payload` is the member of that name. `out` is what is scheduled for `downtarget_`.
pub record Sender : Type 0 where
  pub id : ℕ
  pub buffer : ℕ → Option Cell
  pub heap : ℕ → List Frag
  pub payload : ℕ
  pub fresh : ℕ
  pub arp : ArpCache
  pub out : List (Cell × Dest)

abbrev pub max_frags : ℕ
max_frags = 10

-- `new_dvb`, but for the place in `tx_buffer`.
unfoldable pub new_dvb : Sender → ℕ → Sender × Cell
new_dvb s queue = (
  record s { heap = update s.heap s.fresh []; payload = s.fresh; fresh = s.fresh + 1 },
  record {
    addr = s.id;
    pid = s.id;
    queue = queue;
    dvb_space = 184;
    pusi = false;
    status = false;
    payload = s.fresh;
  },
)

unfoldable pub setpusi : Cell → Cell
setpusi c = if c.pusi then c else record c { pusi = true; dvb_space = c.dvb_space - 1 }

-- `payload->insert_frag`; `none` is a write past the end of `frag`.
unfoldable pub insert_frag : Sender → Frag → Option Sender
insert_frag s f =
    if ltb (length (s.heap s.payload)) max_frags
    then some (record s { heap = update s.heap s.payload (s.heap s.payload ++ f ∷ []) })
    else none

-- The packet's part of `n` bytes.
unfoldable pub part : Datagram → ℕ → Frag
part p n = record { uid = p.uid; total = p.size + 8; size = n }

-- The places of a buffer for `get_queue`.
unfoldable pub addresses : (ℕ → Option Cell) → Buffer
addresses buffer l = elim (buffer l) [ none ↦ none | some c ↦ some c.addr ]

-- The cell at the place, or a new one that begins with the packet.
unfoldable pub current_cell : Datagram → ℕ → Sender → Sender × Cell
unfolding new_dvb setpusi
current_cell p queue s = elim (s.buffer queue) [
  | some c ↦ (s, record c { addr = p.next_hop })
  | none ↦ (let (s', c) = new_dvb s queue in (s', record (setpusi c) { addr = p.next_hop }))
]

module _ (find_peer : ℤ → ℤ) (is_inet : Bool) (queued limit : ℕ) where
  -- `sendDown`; `none` is the call of `abort`.
  unfoldable pub send_down : Sender → Cell → Option Sender
  send_down s c =
      if ltb limit queued then some s else (elim (resolve find_peer s.arp is_inet (pos c.addr)) [
        | none ↦ none
        | some (arp, dest) ↦ some (record s { arp = arp; out = s.out ++ (c, dest) ∷ [] })
      ])

  -- A round of the `while` loop: the cell is filled up and sent, and a new one begun.
  unfoldable pub fill_up : Datagram → ℕ → Sender → Cell → Option (Sender × Cell)
  unfolding insert_frag part send_down new_dvb
  fill_up p queue s c = elim (insert_frag s (part p c.dvb_space)) [
    | none ↦ none
    | some s1 ↦ elim (send_down s1 c) [
      | none ↦ none
      | some s2 ↦
          (let (s3, fresh) = new_dvb s2 queue in some (s3, record fresh { addr = p.next_hop }))
    ]
  ]

  -- The `while` loop over the `psize` bytes that are left; `none` is also lack of fuel.
  unfoldable pub fill : ℕ → Datagram → ℕ → Sender → Cell → ℕ → Option (Sender × Cell × ℕ)
  unfolding fill_up
  fill zero p queue s c psize = none
  fill (suc fuel) p queue s c psize = elim (ltb c.dvb_space psize) [
    | false ↦ some (s, c, psize)
    | true ↦ elim (fill_up p queue s c) [
      | none ↦ none
      | some (s', c') ↦ fill fuel p queue s' c' (psize - c.dvb_space)
    ]
  ]

  -- The last part of the packet; the cell is sent if it has no room for another header.
  unfoldable pub finish : Datagram → ℕ → Sender → Cell → ℕ → Option Sender
  unfolding insert_frag part send_down
  finish p queue s c psize = elim (insert_frag s (part p psize)) [
    | none ↦ none
    | some s1 ↦
        (let c1 = record c { dvb_space = c.dvb_space - psize } in
          if ltb c1.dvb_space (4 + (if c1.pusi then 0 else 1))
          then (elim (send_down s1 c1) [
            | none ↦ none
            | some s2 ↦ some (record s2 { buffer = update s2.buffer queue none })
          ])
          else some
              (record s1 { buffer = update s1.buffer queue (some (record c1 { status = true })) }))
  ]

  unfoldable pub send_at : Datagram → ℕ → Sender → Option Sender
  unfolding current_cell fill finish
  send_at p queue s =
      let (s1, c) = current_cell p queue s in
      elim (fill (p.size + 9) p queue s1 c (p.size + 8)) [
        | none ↦ none
        | some (s2, c', psize) ↦ finish p queue s2 c' psize
      ]

  unfoldable pub send_frags : Sender → Datagram → Option Sender
  unfolding addresses send_at
  send_frags s p = elim (get_queue (addresses s.buffer) p.next_hop) [
    | none ↦ none
    | some queue ↦ send_at p queue s
  ]

  -- `handle_timer` for the cell of a place; `none` is also the use of a null packet.
  unfoldable pub handle_timer : Sender → ℕ → Option Sender
  unfolding send_down
  handle_timer s queue = elim (s.buffer queue) [
    | none ↦ none
    | some c ↦ elim (send_down s c) [
      | none ↦ none
      | some s' ↦ some (record s' { buffer = update s'.buffer queue none })
    ]
  ]
