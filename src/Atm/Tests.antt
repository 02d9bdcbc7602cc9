-- ===== src/Atm/Tests.antt =====
-- The theorems on src/atm-encap.cc at concrete inputs, and runs of the code.
use release.Base.{
  ℕ, ◌+◌, ◌*◌, ◌<◌, ◌≤◌, ◌≡◌, refl, true, some, [], ◌∷◌, ◌++◌, map, arith, inl, length,
}
use release.Base.Int.{ℤ, pos, negsuc}
use release.Atm.Arp.{
  ArpCache, broadcast, peer, IsCoherent, resolve, lookup, Answers, resolve-IsCoherent,
}
use release.Atm.Flow.{held_by, given_by, cells_of, view, flow_run, view-send_up_all}
use release.Atm.Flow.Delivery.{stream, upward, send_up_all-stream, send_up_all_recovers}
use release.Atm.Sending.{send_frags-cells}
use release.Atm.{
  AtmLl, Cell, Datagram, sends, frags, make_cell, cells, cells_from, send_frags, send_up_all,
}

-- Packets of three cells and of one, and an empty layer.
abbrev long : Datagram
long = record { id = 7; size = 100; flowid = 2; next_hop = pos 4; is_inet = true }

abbrev short : Datagram
short = record { id = 8; size = 40; flowid = 2; next_hop = pos 4; is_inet = true }

abbrev layer : AtmLl
layer = record {
  id = 1;
  sent_up = 0;
  sent_down = 0;
  buffer = [];
  arp = record { dst = negsuc 0; mac = pos 0 };
  delivered = [];
}

abbrev other : Cell
other = record { packet = 9; pt = 0; addr = 11; length = 200 }

abbrev cell : ℕ → ℕ → Cell
cell packet pt = record { packet = packet; pt = pt; addr = 10; length = 100 }

abbrev last_cell : Cell
last_cell = record { packet = 8; pt = 1; addr = 10; length = 40 }

view-send_up_all_example :
    view 10 (send_up_all layer (cell 7 0 ∷ other ∷ last_cell ∷ []))
    ≡ flow_run (view 10 layer) (cells_of 10 (cell 7 0 ∷ other ∷ last_cell ∷ []))
view-send_up_all_example = view-send_up_all 10 layer (cell 7 0 ∷ other ∷ last_cell ∷ [])

send_up_all-stream_example :
    let end = send_up_all layer (cell 7 0 ∷ other ∷ cell 7 0 ∷ cell 7 1 ∷ other ∷ last_cell ∷ []) in
    (given_by 10 end.delivered ≡ [] ++ map (upward 1) (long ∷ short ∷ []))
    × (held_by 10 end.buffer ≡ 0)
unfolding held_by given_by cells_of stream cells cells_from make_cell frags
send_up_all-stream_example =
    send_up_all-stream 10 1 (long ∷ short ∷ []) layer
      (cell 7 0 ∷ other ∷ cell 7 0 ∷ cell 7 1 ∷ other ∷ last_cell ∷ []) refl refl

-- The second cell of the long packet is lost.
send_up_all_recovers_example :
    let end = send_up_all layer (cell 7 0 ∷ other ∷ cell 7 1 ∷ last_cell ∷ []) in
    (given_by 10 end.delivered ≡ [] ++ map (upward 1) (short ∷ [])) × (held_by 10 end.buffer ≡ 0)
unfolding held_by given_by cells_of stream cells cells_from make_cell frags
send_up_all_recovers_example =
    send_up_all_recovers 10 1 (cell 7 0 ∷ []) long (short ∷ []) layer
      (cell 7 0 ∷ other ∷ cell 7 1 ∷ last_cell ∷ []) refl (refl, tt) (omega arith) refl

abbrev peers : ℤ → ℤ
peers dst = dst

resolve-IsCoherent_example :
    Answers peers (resolve peers layer.arp true (pos 4)) (lookup peers true (pos 4))
resolve-IsCoherent_example = resolve-IsCoherent peers layer.arp true (pos 4) (inl refl)

send_frags-cells_example :
    (arp : ArpCache) × (send_frags peers 5 9 layer long
      ≡ some (
        record layer { arp = arp; sent_down = 0 + 1 },
        sends (map (λ c. (c, peer (pos 4))) (cells 1 long)),
      ))
    × IsCoherent peers arp
    × (100 + 8 ≤ 48 * length (cells 1 long))
    × (48 * length (cells 1 long) < 100 + 8 + 48)
unfolding lookup frags
send_frags-cells_example =
    send_frags-cells peers 5 9 layer long (peer (pos 4)) (omega arith) refl (inl refl)

broadcast_run : resolve peers layer.arp true (negsuc 0) ≡ some (layer.arp, broadcast)
unfolding resolve
broadcast_run = refl
