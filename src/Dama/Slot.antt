-- ===== src/Dama/Slot.antt =====
-- What `MacTdmaDama::slotHandler` (src/mac-tdmadama.cc) sends, and what the receivers get of it.
use native.Mathlib.Nat.{mul-le-mul_right}
use release.Base.{
  ℕ, zero, suc, ◌+◌, ◌*◌, ◌≤◌, ◌≡◌, refl, sym, subst, ap, ◌∙◌, Option, none, some, List, [], ◌∷◌,
  ◌++◌, arith, length, take, drop, length-take, append_assoc, append-nil,
}
use release.Dama.{Mac, Timeslot, resume_queue, load, slot_handler, recv}

-- What the queue of ns-2 releases: the first of its packets.
module _ {Q : Type 0} where
  abbrev pub Releases : (Q → List ℕ) → List ℕ → Q × Option ℕ → Type 0
  Releases contents [] (q, released) = (released ≡ none) × (contents q ≡ [])
  Releases contents (p ∷ ps) (q, released) = (released ≡ some p) × (contents q ≡ ps)

-- The queue of ns-2, seen as the sequence of its packets.
pub record IsQueue {Q : Type 0} (resume : Q → Q × Option ℕ) (contents : Q → List ℕ) : Type 0 where
  pub resume_lem : (q : Q) → Releases contents (contents q) (resume q)

-- The packets of a burst.
abbrev pub payload : Option (List ℕ) → List ℕ
payload none = []
payload (some pc) = pc

payload_of : (pc : List ℕ) → payload (elim pc [ [] ↦ none | p ∷ ps ↦ some (p ∷ ps) ]) ≡ pc
payload_of [] = refl
payload_of (p ∷ ps) = refl

module _ {Q : Type 0} (resume : Q → Q × Option ℕ) (mac_da : ℕ → ℕ) (contents : Q → List ℕ) where
  -- What the loop comes to over a queue of the packets `qs`.
  abbrev Loaded : ℕ → Mac Q → List ℕ → List ℕ → Mac Q × List ℕ → Type 0
  Loaded n m pc qs (r, out) =
      (out ≡ pc ++ take n qs)
      × (contents r.queue ≡ drop n qs)
      × (r.pkt_tx ≡ none)
      × (r.used_slots ≡ m.used_slots + length (take n qs) * m.slot_packet_len)
      × (r.total_slots ≡ m.total_slots)

  resume_empty :
      (m : Mac Q)
      → IsQueue resume contents
      → contents m.queue ≡ []
      → (q : Q) × (resume_queue resume mac_da m ≡ record m { queue = q }) × (contents q ≡ [])
  unfolding resume_queue
  resume_empty m v e =
      let (none_left, still) =
        subst (λ qs. Releases contents qs (resume m.queue)) e (v.resume_lem m.queue) in
      ((resume m.queue).0, rw (resume_queue, none_left) refl, still)

  resume_packet :
      (m : Mac Q) (p : ℕ) (ps : List ℕ)
      → IsQueue resume contents
      → contents m.queue ≡ p ∷ ps
      → (q : Q) × (resume_queue resume mac_da m ≡ record m { queue = q; pkt_tx = some p })
        × (contents q ≡ ps)
  unfolding resume_queue recv
  resume_packet m p ps v e =
      let (released, others) =
        subst (λ qs. Releases contents qs (resume m.queue)) e (v.resume_lem m.queue) in
      ((resume m.queue).0, rw (resume_queue, released) refl, others)

  load_stops :
      (n : ℕ) (m : Mac Q) (pc : List ℕ)
      → (resume_queue resume mac_da m).pkt_tx ≡ none
      → load resume mac_da (suc n) m pc ≡ (resume_queue resume mac_da m, pc)
  unfolding load
  load_stops n m pc z = rw (load, z) refl

  after_cell : Mac Q → Mac Q
  after_cell m = record m { pkt_tx = none; used_slots = m.used_slots + m.slot_packet_len }

  load_goes_on :
      (n p : ℕ) (m : Mac Q) (pc : List ℕ)
      → (resume_queue resume mac_da m).pkt_tx ≡ some p
      → load resume mac_da (suc n) m pc
        ≡ load resume mac_da n (after_cell (resume_queue resume mac_da m)) (pc ++ p ∷ [])
  unfolding load after_cell
  load_goes_on n p m pc z = rw (load, z) refl

  one_more : (k len : ℕ) → suc k * len ≡ len + k * len
  one_more k len = grind arith

  load-Loaded :
      (n : ℕ) (m : Mac Q) (pc qs : List ℕ)
      → IsQueue resume contents
      → contents m.queue ≡ qs
      → m.pkt_tx ≡ none
      → Loaded n m pc qs (load resume mac_da n m pc)
  unfolding load after_cell
  load-Loaded zero m pc qs v e z = (sym (append-nil pc), e, z, omega arith, refl)
  load-Loaded (suc n) m pc [] v e z =
      let (q, f, g) = resume_empty m v e in
      let stop : load resume mac_da (suc n) m pc ≡ (record m { queue = q }, pc) =
        load_stops n m pc (ap (λ r. r.pkt_tx) f ∙ z) ∙ ap (λ r. (r, pc)) f in
      subst (Loaded (suc n) m pc []) (sym stop) (sym (append-nil pc), g, z, omega arith, refl)
  load-Loaded (suc n) m pc (p ∷ ps) v e z =
      let (q, f, g) = resume_packet m p ps v e in
      let m' : Mac Q = after_cell (record m { queue = q; pkt_tx = some p }) in
      let next : load resume mac_da (suc n) m pc ≡ load resume mac_da n m' (pc ++ p ∷ []) =
        load_goes_on n p m pc (ap (λ r. r.pkt_tx) f)
        ∙ ap (λ r. load resume mac_da n (after_cell r) (pc ++ p ∷ [])) f in
      let (out, left, idle, used, same) = load-Loaded n m' (pc ++ p ∷ []) ps v g refl in
      subst (Loaded (suc n) m pc (p ∷ ps)) (sym next) (
        out ∙ append_assoc pc (p ∷ []) (take n ps),
        left,
        idle,
        omega (arith, used, one_more (length (take n ps)) m.slot_packet_len),
        same,
      )

  fits : (k cellno size len : ℕ) → k ≤ cellno → cellno * len ≤ size → k * len ≤ size
  fits k cellno size len h l = omega (arith, mul-le-mul_right {m = k} {n = cellno} len h)

  -- Over a queue that releases its packets in order, and with no packet left in the buffer, the
  -- handler of a slot sends the first packets of the queue, as many as the burst has cells, and all
  -- if there are fewer; the others stay, and the buffer is empty again. The counters grow by the
  -- size of the slot and by the length of the packets, which is at most that size where the cells
  -- of the burst fit it.
  pub slot_handler_sends :
      (m : Mac Q) (s : Timeslot)
      → IsQueue resume contents
      → m.pkt_tx ≡ none
      → s.cellno * m.slot_packet_len ≤ s.size
      → let (r, out) = slot_handler resume mac_da m s in
        (payload out ≡ take s.cellno (contents m.queue))
        × (contents r.queue ≡ drop s.cellno (contents m.queue))
        × (r.pkt_tx ≡ none)
        × (r.total_slots ≡ m.total_slots + s.size)
        × (r.used_slots ≡ m.used_slots + length (payload out) * m.slot_packet_len)
        × (length (payload out) * m.slot_packet_len ≤ s.size)
  unfolding slot_handler
  slot_handler_sends m s v z h =
      let begun : Mac Q = record m { total_slots = m.total_slots + s.size } in
      let (out, left, idle, used, total) =
        load-Loaded s.cellno begun [] (contents m.queue) v refl z in
      let sent : payload (slot_handler resume mac_da m s).1 ≡ take s.cellno (contents m.queue) =
        payload_of (load resume mac_da s.cellno begun []).1 ∙ out in
      let room = length-take s.cellno (contents m.queue) in
      (
        sent,
        left,
        idle,
        total,
        rw sent used,
        rw sent (
            fits (length (take s.cellno (contents m.queue))) s.cellno s.size m.slot_packet_len room
              h),
      )
