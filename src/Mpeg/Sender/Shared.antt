-- ===== src/Mpeg/Sender/Shared.antt =====
-- `MpegLL::send_frags` (src/mpeg-encap.cc) while cells of several addresses are filled: the member
-- `payload` is that of the cell that was begun last.
use release.Base.{
  ℕ, zero, suc, ◌+◌, ◌-◌, ◌%◌, ◌<◌, ◌≤◌, ◌≡◌, ◌≢◌, refl, ap, Bool, true, false, some, [], ◌∷◌, ◌++◌,
  arith, length, update, ltb, ◌==◌, ==_refl, if◌then◌else◌,
}
use release.Base.Int.{ℤ}
use release.Mpeg.{n_queues, get_queue}
use release.Mpeg.Probe.{probe_own}
use release.Mpeg.Sender.{
  Datagram, Frag, Cell, Sender, insert_frag, part, addresses, fill, finish, current_cell, send_at,
  send_frags,
}
use release.Mpeg.Sender.Filling.{update_at, with_frag}

module _ (find_peer : ℤ → ℤ) (is_inet : Bool) (queued limit : ℕ) where
  home_found :
      (s : Sender) (addr : ℕ) (c : Cell)
      → s.buffer (addr % n_queues) ≡ some c
      → c.addr ≡ addr
      → get_queue (addresses s.buffer) addr ≡ some (addr % n_queues)
  unfolding get_queue addresses
  home_found s addr c e a =
      probe_own 99 (addresses s.buffer) addr (addr % n_queues)
        (simp (addresses, e) (ap (λ k. some k) a))

  fill_fits :
      (fuel : ℕ) (p : Datagram) (queue : ℕ) (s : Sender) (c : Cell) (psize : ℕ)
      → 0 < fuel
      → psize ≤ c.dvb_space
      → fill find_peer is_inet queued limit fuel p queue s c psize ≡ some (s, c, psize)
  unfolding fill
  fill_fits zero p queue s c psize h l = absurd (omega (arith, h))
  fill_fits (suc fuel) p queue s c psize h l =
      let fits : ltb c.dvb_space psize ≡ false = ground (arith, l) in simp (fill, fits) refl

  -- A packet that fits in the cell that is being filled for its address, with room for another
  -- header left, while another cell was begun since: the packet is put into the payload of the
  -- other cell, and the room is taken from the cell, whose payload stays as it is.
  pub send_frags_misplaces :
      (p : Datagram) (s : Sender) (c : Cell)
      → s.buffer (p.next_hop % n_queues) ≡ some c
      → c.addr ≡ p.next_hop
      → c.payload ≢ s.payload
      → length (s.heap s.payload) < 10
      → p.size + 13 ≤ c.dvb_space
      → (s' : Sender) × (send_frags find_peer is_inet queued limit s p ≡ some s')
        × (s'.heap s.payload ≡ s.heap s.payload ++ part p (p.size + 8) ∷ [])
        × (s'.heap c.payload ≡ s.heap c.payload)
        × (s'.out ≡ s.out)
        × (s'.buffer (p.next_hop % n_queues)
            ≡ some (record c {
              addr = p.next_hop;
              dvb_space = c.dvb_space - (p.size + 8);
              status = true;
            }))
  unfolding send_frags send_at current_cell finish insert_frag part
  send_frags_misplaces p s c e a other few fit =
      let f : Frag = part p (p.size + 8) in
      let q : ℕ = p.next_hop % n_queues in
      let c1 : Cell = record c {
        addr = p.next_hop;
        dvb_space = c.dvb_space - (p.size + 8);
        status = true;
      } in
      let room : ltb (length (s.heap s.payload)) 10 ≡ true = ground (arith, few) in
      let stays : ltb (c.dvb_space - (p.size + 8)) (4 + (if c.pusi then 0 else 1)) ≡ false =
        ground (arith, fit) in
      let apart : (s.payload == c.payload) ≡ false = ground (arith, other) in
      let placed =
        fill_fits (p.size + 9) p q s (record c { addr = p.next_hop }) (p.size + 8) (omega arith)
          (omega (arith, fit)) in
      (
        record (with_frag s f) { buffer = update s.buffer q (some c1) },
        simp
            (
              send_frags,
              home_found s p.next_hop c e a,
              send_at,
              current_cell,
              e,
              placed,
              finish,
              insert_frag,
              room,
              stays,
            )
            refl,
        update_at s.heap s.payload (s.heap s.payload ++ f ∷ []),
        rw apart refl,
        refl,
        rw (==_refl q) refl,
      )
