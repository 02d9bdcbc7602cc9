-- ===== src/Mpeg/Link.antt =====
-- `MpegLL` (src/mpeg-encap.cc) as a whole: packets that arrive from above and cells from below.
use release.Base.{ℕ, ◌+◌, Bool, true, false, Option, none, some, List, [], ◌∷◌, ◌++◌}
use release.Base.Int.{ℤ}
use release.Atm.Arp.{ArpCache}
use release.Mpeg.Sender.{Datagram, Frag, Sender, send_frags}
use release.Mpeg.Receiver.{Receiver, send_up}

-- A packet by its direction: a cell on the way up, with its `pid_` and its fragments, or down.
pub data Arrival : Type 0 where
  up : ℕ → List Frag → Arrival
  down : Datagram → Arrival

-- `drops` are the cells that were dropped without an `uptarget_`, and the packets of `buffer_`.
pub record MpegLl : Type 0 where
  pub sender : Sender
  pub receiver : Receiver
  pub sent_up : ℕ
  pub sent_down : ℕ
  pub buffer : List Arrival
  pub drops : List Arrival

-- The constructor, with the number that it takes from `cid_`; the cache of addresses is that of ns-2.
unfoldable pub new_mpeg_ll : ℕ → ArpCache → MpegLl
new_mpeg_ll id arp = record {
  sender = record {
    id = id;
    buffer = λ l. none;
    heap = λ k. [];
    payload = 0;
    fresh = 1;
    arp = arp;
    out = [];
  };
  receiver = record { buffer = λ l. none; delivered = [] };
  sent_up = 0;
  sent_down = 0;
  buffer = [];
  drops = [];
}

module _ (find_peer : ℤ → ℤ) (is_inet uptarget : Bool) (queued limit : ℕ) where
  unfoldable pub recv : MpegLl → Arrival → Option MpegLl
  unfolding send_up send_frags
  recv l (up pid frags) = elim uptarget [
    | false ↦ some (record l { drops = l.drops ++ up pid frags ∷ [] })
    | true ↦ elim (send_up l.receiver pid frags) [
      | none ↦ none
      | some r ↦ some (record l { receiver = r })
    ]
  ]
  recv l (down p) =
      let counted : MpegLl = record l { sent_down = l.sent_down + 1 } in
      elim (send_frags find_peer is_inet queued limit counted.sender p) [
        | none ↦ none
        | some s ↦ some (record counted { sender = s })
      ]

  -- What arrives, one after the other.
  unfoldable pub recv_all : MpegLl → List Arrival → Option MpegLl
  unfolding recv
  recv_all l [] = some l
  recv_all l (a ∷ rest) = elim (recv l a) [ none ↦ none | some l' ↦ recv_all l' rest ]

unfoldable pub reset : MpegLl → MpegLl
reset l = record l { drops = l.drops ++ l.buffer; buffer = []; sent_up = 0; sent_down = 0 }
