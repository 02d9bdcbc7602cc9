-- ===== src/Atm/Flow.antt =====
-- The cells of one address among those of the others: what `AtmLL::sendUp` (src/atm-encap.cc) does
-- with each flow on its own.
pub mod Delivery
use release.Base.{
  ℕ, zero, suc, ◌+◌, ◌/◌, ◌≡◌, refl, ap, ◌∙◌, Bool, true, false, List, [], ◌∷◌, ◌++◌, arith, ◌==◌,
  if◌then◌else◌, Bool-cases, inl, inr, ==_iff, ==_refl, append-nil,
}
use release.Atm.{Cell, AtmLl, Upward, frags, dequeue, send_up, send_up_all}

-- What a flow has: the number of its cells that are held, and the packets given up.
pub record Flow : Type 0 where
  pub held : ℕ
  pub given : List Upward

unfoldable pub held_by : ℕ → List Cell → ℕ
held_by a [] = 0
held_by a (c ∷ cs) = if c.addr == a then held_by a cs + 1 else held_by a cs

unfoldable pub given_by : ℕ → List Upward → List Upward
given_by a [] = []
given_by a (u ∷ us) = let rest = given_by a us in if u.addr == a then u ∷ rest else rest

-- The cells of the address among others.
unfoldable pub cells_of : ℕ → List Cell → List Cell
cells_of a [] = []
cells_of a (c ∷ cs) = let rest = cells_of a cs in if c.addr == a then c ∷ rest else rest

unfoldable pub view : ℕ → AtmLl → Flow
unfolding held_by given_by
view a s = record { held = held_by a s.buffer; given = given_by a s.delivered }

-- One cell in its flow: a cell is held until the last one, which gives the packet up if the number
-- of cells is right; then none is held.
unfoldable pub flow_step : Flow → Cell → Flow
flow_step f c =
    if c.pt == 0
    then record f { held = f.held + 1 }
    else if f.held + 1 == frags c.length
    then record {
      held = 0;
      given = f.given ++ record { addr = c.addr; packet = c.packet; size = c.length } ∷ [];
    }
    else record f { held = 0 }

unfoldable pub flow_run : Flow → List Cell → Flow
unfolding flow_step
flow_run f [] = f
flow_run f (c ∷ cs) = flow_run (flow_step f c) cs

dequeue_counts : (a : ℕ) (cs : List Cell) → (dequeue a cs).0 ≡ held_by a cs
unfolding dequeue held_by
dequeue_counts a [] = refl
dequeue_counts a (c ∷ cs) = elim (Bool-cases (c.addr == a)) [
  | inl t ↦ rw t (omega (arith, dequeue_counts a cs))
  | inr t ↦ rw t (dequeue_counts a cs)
]

dequeue_clears : (a : ℕ) (cs : List Cell) → held_by a (dequeue a cs).1 ≡ 0
unfolding dequeue held_by
dequeue_clears a [] = refl
dequeue_clears a (c ∷ cs) = elim (Bool-cases (c.addr == a)) [
  | inl t ↦ rw t (dequeue_clears a cs)
  | inr t ↦ rw (t, t) (dequeue_clears a cs)
]

dequeue_others :
    (a b : ℕ) (cs : List Cell) → (b == a) ≡ false → held_by a (dequeue b cs).1 ≡ held_by a cs
unfolding dequeue held_by
dequeue_others a b [] n = refl
dequeue_others a b (c ∷ cs) n = elim (Bool-cases (c.addr == b)) [
  | inl t ↦
      let other : (c.addr == a) ≡ false = rw ((==_iff _ _).0 t) n in
      rw (t, other) (dequeue_others a b cs n)
  | inr t ↦ elim (Bool-cases (c.addr == a)) [
    | inl u ↦ rw (t, u) (ap (λ k. k + 1) (dequeue_others a b cs n))
    | inr u ↦ rw (t, u) (dequeue_others a b cs n)
  ]
]

given_by-append :
    (a : ℕ) (us vs : List Upward) → given_by a (us ++ vs) ≡ given_by a us ++ given_by a vs
unfolding given_by
given_by-append a [] vs = refl
given_by-append a (u ∷ us) vs = elim (Bool-cases (u.addr == a)) [
  | inl t ↦ rw t (ap (λ l. u ∷ l) (given_by-append a us vs))
  | inr t ↦ rw t (given_by-append a us vs)
]

own_given :
    (a : ℕ) (us : List Upward) (u : Upward)
    → (u.addr == a) ≡ true
    → given_by a (us ++ u ∷ []) ≡ given_by a us ++ u ∷ []
unfolding given_by
own_given a us u e = given_by-append a us (u ∷ []) ∙ rw e refl

own_cell : (s : AtmLl) (c : Cell) → view c.addr (send_up s c) ≡ flow_step (view c.addr s) c
unfolding view send_up flow_step held_by given_by
own_cell s c = elim (Bool-cases (c.pt == 0)) [
  | inl z ↦ rw (z, ==_refl c.addr) refl
  | inr z ↦ elim (Bool-cases (held_by c.addr s.buffer + 1 == (c.length + 8 + 47) / 48)) [
    | inl h ↦
        rw (z, dequeue_counts c.addr s.buffer, h, dequeue_clears c.addr s.buffer)
          (ap (λ g. record { held = 0; given = g })
            (own_given c.addr s.delivered _ (==_refl c.addr)))
    | inr h ↦ rw (z, dequeue_counts c.addr s.buffer, h, dequeue_clears c.addr s.buffer) refl
  ]
]

-- A cell of the flow.
view_own :
    (a : ℕ) (s : AtmLl) (c : Cell)
    → (c.addr == a) ≡ true
    → view a (send_up s c) ≡ flow_step (view a s) c
view_own a s c e = rw (← (==_iff c.addr a).0 e) (own_cell s c)

other_given :
    (a : ℕ) (us : List Upward) (u : Upward)
    → (u.addr == a) ≡ false
    → given_by a (us ++ u ∷ []) ≡ given_by a us
unfolding given_by
other_given a us u e = given_by-append a us (u ∷ []) ∙ rw e (append-nil (given_by a us))

view_other :
    (a : ℕ) (s : AtmLl) (c : Cell) → (c.addr == a) ≡ false → view a (send_up s c) ≡ view a s
unfolding view send_up held_by
view_other a s c e = elim (Bool-cases (c.pt == 0)) [
  | inl z ↦ rw (z, e) refl
  | inr z ↦ elim (Bool-cases ((dequeue c.addr s.buffer).0 + 1 == (c.length + 8 + 47) / 48)) [
    | inl h ↦
        rw (z, h, dequeue_others a c.addr s.buffer e)
          (ap (λ g. record { held = held_by a s.buffer; given = g })
            (other_given a s.delivered _ e))
    | inr h ↦ rw (z, h, dequeue_others a c.addr s.buffer e) refl
  ]
]

-- `sendUp` is, for each address, a counter of its own: whatever cells of other addresses come in
-- between, the cells that are held and the packets that are given up for an address are those that
-- its own cells come to.
pub view-send_up_all :
    (a : ℕ) (s : AtmLl) (cs : List Cell)
    → view a (send_up_all s cs) ≡ flow_run (view a s) (cells_of a cs)
unfolding send_up_all flow_run cells_of
view-send_up_all a s [] = refl
view-send_up_all a s (c ∷ cs) = elim (Bool-cases (c.addr == a)) [
  | inl t ↦ rw t (
      view-send_up_all a (send_up s c) cs ∙ ap (λ f. flow_run f (cells_of a cs)) (view_own a s c t))
  | inr t ↦ rw t (
      view-send_up_all a (send_up s c) cs
      ∙ ap (λ f. flow_run f (cells_of a cs)) (view_other a s c t))
]
