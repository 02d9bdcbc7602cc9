-- ===== src/Rle/Mac.antt =====
-- The entry points of `MacRle` (src/mac-rle.cc): `recv`, which shares `recv_control` with the MAC of
-- src/mac-tdmadama.cc, and `reset`.
use release.Base.{ℕ, Option, List, if◌then◌else◌}
use release.Dama.{Mac, Control, Response, recv_control, sends_control, is_for}
use release.Rle.Burst.{FragHdr}
use release.Rle.Sender.{Sender}
use release.Rle.Receiver.{Receiver, Result, send_up}

-- What reaches `recv`: a burst comes with its MAC destination, if it is not for all, and its source.
pub data Arrival : Type 0 where
  control_up : Control → Arrival
  burst_up : Option ℕ → (src : ℕ) → List FragHdr → Arrival
  control_down : Control → Arrival
  packet_down : ℕ → Arrival

-- `ignores` frees the packet and leaves the receiver alone.
pub data Reply : Type 0 where
  controls : Response → Reply
  decodes : Result → Reply
  ignores : Reply

module _ {Q : Type 0} where
  -- A packet that comes down is freed: packets are taken from the queue by `slotHandler`.
  unfoldable pub recv : (mac_da total : ℕ → ℕ) → Mac Q → Receiver → Arrival → Reply
  unfolding recv_control send_up
  recv mac_da total m r (control_up c) = controls (recv_control m c)
  recv mac_da total m r (burst_up dst src fs) =
      if is_for m dst then decodes (send_up mac_da total r src fs) else ignores
  recv mac_da total m r (control_down c) = controls (sends_control c)
  recv mac_da total m r (packet_down p) = ignores

  -- `reset`, on the counters of the sender and of the receiver.
  unfoldable pub reset : Sender Q → Receiver → Sender Q × Receiver
  reset s r =
      (record s { total_slots = 0; used_slots = 0; sent_down = 0 }, record r { sent_up = 0 })
