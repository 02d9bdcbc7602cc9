-- ===== src/Atm/Sending.antt =====
-- What `AtmLL::send_frags` (src/atm-encap.cc) sends.
use release.Base.{
  ℕ, zero, suc, ◌+◌, ◌*◌, ◌<◌, ◌≤◌, ◌≡◌, refl, ap, some, List, [], ◌∷◌, map, arith, length, false,
  leb,
}
use release.Base.Int.{ℤ}
use release.Atm.Arp.{ArpCache, Dest, IsCoherent, resolve, lookup, resolve-lookup}
use release.Atm.{AtmLl, Cell, Datagram, sends, frags, cells, cells_from, send_cells, send_frags}

length-cells_from : (n id i : ℕ) (p : Datagram) → length (cells_from n id p i) ≡ n
unfolding cells_from
length-cells_from zero id i p = refl
length-cells_from (suc n) id i p = ap suc (length-cells_from n id (i + 1) p)

joined :
    (find_peer : ℤ → ℤ) (p : Datagram) (d : Dest) (arp next after : ArpCache) (c : Cell)
    → (cs : List Cell) (out : List (Cell × Dest))
    → resolve find_peer arp p.is_inet p.next_hop ≡ some (next, d)
    → send_cells find_peer p next cs ≡ some (after, out)
    → send_cells find_peer p arp (c ∷ cs) ≡ some (after, (c, d) ∷ out)
unfolding send_cells
joined find_peer p d arp next after c cs out f g = rw (f, g, send_cells) refl

-- All cells of a packet go where the channel says.
send_cells-map :
    (find_peer : ℤ → ℤ) (p : Datagram) (d : Dest) (arp : ArpCache) (cs : List Cell)
    → lookup find_peer p.is_inet p.next_hop ≡ some d
    → IsCoherent find_peer arp
    → (arp' : ArpCache) × (send_cells find_peer p arp cs ≡ some (arp', map (λ c. (c, d)) cs))
      × IsCoherent find_peer arp'
unfolding send_cells
send_cells-map find_peer p d arp [] e v = (arp, refl, v)
send_cells-map find_peer p d arp (c ∷ cs) e v =
    let (next, f, w) = resolve-lookup find_peer arp p.is_inet p.next_hop d e v in
    let (after, g, u) = send_cells-map find_peer p d next cs e w in
    (after, joined find_peer p d arp next after c cs _ f g, u)

length-cells : (id : ℕ) (p : Datagram) → length (cells id p) ≡ frags p.size
unfolding cells
length-cells id p = length-cells_from (frags p.size) id 0 p

accepted :
    (find_peer : ℤ → ℤ) (queued limit : ℕ) (s : AtmLl) (p : Datagram)
    → (result : ArpCache × List (Cell × Dest)) → queued + frags p.size < limit
    → send_cells find_peer p s.arp (cells s.id p) ≡ some result
    → send_frags find_peer queued limit s p
      ≡ some (record s { arp = result.0; sent_down = s.sent_down + 1 }, sends result.1)
unfolding send_frags
accepted find_peer queued limit s p result l g =
    let room : leb limit (queued + frags p.size) ≡ false = ground arith in rw (room, g) refl

-- Where the queue has room for the cells and the channel gives the packet a destination,
-- `send_frags` with a coherent cache sends the cells of the packet, in order and all to that
-- destination, and counts one packet; the cache stays coherent. The cells have room for the packet
-- and the trailer, and less than one cell is wasted.
pub send_frags-cells :
    (find_peer : ℤ → ℤ) (queued limit : ℕ) (s : AtmLl) (p : Datagram) (d : Dest)
    → queued + frags p.size < limit
    → lookup find_peer p.is_inet p.next_hop ≡ some d
    → IsCoherent find_peer s.arp
    → (arp : ArpCache) × (send_frags find_peer queued limit s p
        ≡ some (
          record s { arp = arp; sent_down = s.sent_down + 1 },
          sends (map (λ c. (c, d)) (cells s.id p)),
        ))
      × IsCoherent find_peer arp
      × (p.size + 8 ≤ 48 * length (cells s.id p))
      × (48 * length (cells s.id p) < p.size + 8 + 48)
unfolding frags
send_frags-cells find_peer queued limit s p d l e v =
    let (arp, g, w) = send_cells-map find_peer p d s.arp (cells s.id p) e v in
    (
      arp,
      accepted find_peer queued limit s p (arp, map (λ c. (c, d)) (cells s.id p)) l g,
      w,
      omega (arith, length-cells s.id p),
      omega (arith, length-cells s.id p),
    )
