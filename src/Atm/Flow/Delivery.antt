-- ===== src/Atm/Flow/Delivery.antt =====
-- The packets that the cells of one flow of src/atm-encap.cc give, with and without loss.
use release.Base.{
  ℕ, zero, suc, ◌+◌, ◌-◌, ◌*◌, ◌<◌, ◌≡◌, ◌≢◌, refl, sym, ap, ◌∙◌, List, [], ◌∷◌, ◌++◌, map, arith,
  All, length, append_assoc, append-nil,
}
use release.Atm.{Cell, AtmLl, Datagram, Upward, frags, make_cell, cells, cells_from, send_up_all}
use release.Atm.Flow.{
  Flow, held_by, given_by, cells_of, view, flow_step, flow_run, view-send_up_all,
}

-- What becomes of a packet at the other side.
abbrev pub upward : ℕ → Datagram → Upward
upward id p = record { addr = id * 8 + p.flowid; packet = p.id; size = p.size }

-- The cells of several packets, one after the other.
unfoldable pub stream : ℕ → List Datagram → List Cell
stream id [] = []
stream id (p ∷ ps) = cells id p ++ stream id ps

flow_run-append :
    (f : Flow) (xs ys : List Cell) → flow_run f (xs ++ ys) ≡ flow_run (flow_run f xs) ys
unfolding flow_run
flow_run-append f [] ys = refl
flow_run-append f (x ∷ xs) ys = flow_run-append (flow_step f x) xs ys

-- The last cell of a packet that was held whole.
last_step :
    (id i : ℕ) (p : Datagram) (g : List Upward)
    → i + 1 ≡ frags p.size
    → flow_step (record { held = i; given = g }) (make_cell id p i)
      ≡ record { held = 0; given = g ++ upward id p ∷ [] }
unfolding flow_step make_cell frags
last_step id i p g h = ground arith

middle_step :
    (id i : ℕ) (p : Datagram) (g : List Upward)
    → i + 1 < frags p.size
    → flow_step (record { held = i; given = g }) (make_cell id p i)
      ≡ record { held = i + 1; given = g }
unfolding flow_step make_cell frags
middle_step id i p g h = ground arith

run_cells :
    (n id i : ℕ) (p : Datagram) (g : List Upward)
    → suc n + i ≡ frags p.size
    → flow_run (record { held = i; given = g }) (cells_from (suc n) id p i)
      ≡ record { held = 0; given = g ++ upward id p ∷ [] }
unfolding flow_run cells_from
run_cells zero id i p g h = last_step id i p g (omega arith)
run_cells (suc n) id i p g h =
    ap (λ f. flow_run f (cells_from (suc n) id p (i + 1))) (middle_step id i p g (omega arith))
    ∙ run_cells n id (i + 1) p g (omega arith)

run_all :
    (n id : ℕ) (p : Datagram) (g : List Upward)
    → 0 < n
    → n ≡ frags p.size
    → flow_run (record { held = 0; given = g }) (cells_from n id p 0)
      ≡ record { held = 0; given = g ++ upward id p ∷ [] }
run_all zero id p g l h = absurd (omega arith)
run_all (suc n) id p g l h = run_cells n id 0 p g (omega arith)

pub frags_positive : (size : ℕ) → 0 < frags size
unfolding frags
frags_positive size = omega arith

packet_given :
    (id : ℕ) (p : Datagram) (g : List Upward)
    → flow_run (record { held = 0; given = g }) (cells id p)
      ≡ record { held = 0; given = g ++ upward id p ∷ [] }
unfolding cells
packet_given id p g = run_all (frags p.size) id p g (frags_positive p.size) refl

stream_given :
    (id : ℕ) (ps : List Datagram) (g : List Upward)
    → flow_run (record { held = 0; given = g }) (stream id ps)
      ≡ record { held = 0; given = g ++ map (upward id) ps }
unfolding stream flow_run
stream_given id [] g = ap (λ l. record { held = 0; given = l }) (sym (append-nil g))
stream_given id (p ∷ ps) g =
    flow_run-append _ (cells id p) (stream id ps)
    ∙ ap (λ f. flow_run f (stream id ps)) (packet_given id p g)
    ∙ stream_given id ps (g ++ upward id p ∷ [])
    ∙ ap (λ l. record { held = 0; given = l })
        (append_assoc g (upward id p ∷ []) (map (upward id) ps))

-- Cells that are not the last of a packet.
held_cells :
    (xs : List Cell) (i : ℕ) (g : List Upward)
    → All (λ c. c.pt ≡ 0) xs
    → flow_run (record { held = i; given = g }) xs ≡ record { held = i + length xs; given = g }
unfolding flow_run flow_step
held_cells [] i g h = ap (λ k. record { held = k; given = g }) (omega arith)
held_cells (x ∷ xs) i g (e, h) =
    rw e (held_cells xs (i + 1) g h ∙ ap (λ k. record { held = k; given = g }) (omega arith))

-- The last cell of a packet that another number of cells was held for.
dropped_step :
    (id k : ℕ) (p : Datagram) (g : List Upward)
    → k + 1 ≢ frags p.size
    → flow_step (record { held = k; given = g }) (make_cell id p (frags p.size - 1))
      ≡ record { held = 0; given = g }
unfolding flow_step make_cell frags
dropped_step id k p g h = ground arith

-- Where no cell of the address is held, and the cells of this address that arrive, among any cells
-- of others, are those of some packets one after the other, exactly these packets are given up for
-- the address, in their order and with their sizes, and no cell of the address is held then.
pub send_up_all-stream :
    (a id : ℕ) (ps : List Datagram) (s : AtmLl) (cs : List Cell)
    → held_by a s.buffer ≡ 0
    → cells_of a cs ≡ stream id ps
    → (given_by a (send_up_all s cs).delivered ≡ given_by a s.delivered ++ map (upward id) ps)
      × (held_by a (send_up_all s cs).buffer ≡ 0)
unfolding view
send_up_all-stream a id ps s cs h e =
    let run : view a (send_up_all s cs)
        ≡ record { held = 0; given = given_by a s.delivered ++ map (upward id) ps } =
      view-send_up_all a s cs
      ∙ ap (λ l. flow_run (view a s) l) e
      ∙ ap (λ k. flow_run (record { held = k; given = given_by a s.delivered }) (stream id ps)) h
      ∙ stream_given id ps (given_by a s.delivered) in
    (ap (λ f. f.given) run, ap (λ f. f.held) run)

-- A loss is over with the next last cell. Where no cell of the address is held, and some cells that
-- are not the last of a packet arrive for it, then the last cell of a packet that needs another
-- number of cells, and then those of further packets: that packet is not given up, and exactly the
-- further ones are.
pub send_up_all_recovers :
    (a id : ℕ) (xs : List Cell) (p : Datagram) (ps : List Datagram) (s : AtmLl) (cs : List Cell)
    → held_by a s.buffer ≡ 0
    → All (λ c. c.pt ≡ 0) xs
    → length xs + 1 ≢ frags p.size
    → cells_of a cs ≡ xs ++ make_cell id p (frags p.size - 1) ∷ stream id ps
    → (given_by a (send_up_all s cs).delivered ≡ given_by a s.delivered ++ map (upward id) ps)
      × (held_by a (send_up_all s cs).buffer ≡ 0)
unfolding view flow_run
send_up_all_recovers a id xs p ps s cs h n l e =
    let g : List Upward = given_by a s.delivered in
    let last : Cell = make_cell id p (frags p.size - 1) in
    let run : view a (send_up_all s cs) ≡ record { held = 0; given = g ++ map (upward id) ps } =
      view-send_up_all a s cs
      ∙ ap (λ l. flow_run (view a s) l) e
      ∙ ap (λ k. flow_run (record { held = k; given = g }) (xs ++ last ∷ stream id ps)) h
      ∙ flow_run-append _ xs (last ∷ stream id ps)
      ∙ ap (λ f. flow_run f (last ∷ stream id ps)) (held_cells xs 0 g n)
      ∙ ap (λ f. flow_run f (stream id ps))
          (dropped_step id (0 + length xs) p g (λ e. l (omega (arith, e))))
      ∙ stream_given id ps g in
    (ap (λ f. f.given) run, ap (λ f. f.held) run)
