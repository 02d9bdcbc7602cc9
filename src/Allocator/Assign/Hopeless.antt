-- ===== src/Allocator/Assign/Hopeless.antt =====
-- A loop of `assign_timeslot` that never ends.
use release.Base.{
  ℕ, zero, suc, ◌<◌, ◌≡◌, ◌≢◌, refl, false, ◌||◌, none, List, [], ◌∷◌, arith, ◌==◌, All,
}
use release.Base.Int.{eq_ℤ, pos}
use release.Allocator.Fit.{Frame, Rule, Terminal}
use release.Allocator.Assign.{
  Config, Alloc, slot_mode, satisfied, next_request, search, refused, passes_over, try_rules,
  give_up, serve, round, loop, next_term,
}
use release.Allocator.Assign.Accounting.{after_rules-none}

module _ (c : Config) where
  -- A rule that is not "SMALL", and whose frame has no cell for the terminal.
  pub record IsRefused (sf : ℕ → Frame) (t : Terminal) (r : Rule) : Type 0 where
    pub plain : eq_ℤ r.rule (pos 1) ≡ false
    pub no_cell : search c (sf r.fp) t ≡ none

  -- Every terminal asks for capacity and has rules, and none of them helps.
  pub record IsHopeless (s : Alloc) : Type 0 where
    pub slots : s.freeslots ≢ 0
    pub left : s.left_to_check ≢ 0
    pub current : s.cur_term < c.active_node
    pub asks : (t : ℕ) → t < c.active_node → satisfied (s.deficit t) ≡ false
    pub has_rule : (t : ℕ) → t < c.active_node → (s.tr t).rules ≢ []
    pub refuses : (t : ℕ) → t < c.active_node → All (IsRefused s.sf (s.tr t)) (s.tr t).rules

  -- What the rules leave as it was.
  record Unmoved (s r : Alloc) : Type 0 where
    deficit : r.deficit ≡ s.deficit
    sf : r.sf ≡ s.sf
    tr : r.tr ≡ s.tr
    freeslots : r.freeslots ≡ s.freeslots
    left_to_check : r.left_to_check ≡ s.left_to_check
    cur_term : r.cur_term ≡ s.cur_term

  refused-Unmoved : (s r : Alloc) → Unmoved (refused c s) r → Unmoved s r
  unfolding refused
  refused-Unmoved s r u = record {
    deficit = u.deficit;
    sf = u.sf;
    tr = u.tr;
    freeslots = u.freeslots;
    left_to_check = u.left_to_check;
    cur_term = u.cur_term;
  }

  frame-refused : (s : Alloc) → (refused c s).frame ≡ none
  unfolding refused
  frame-refused s = refl

  step_refused :
      (r : Rule) (rs : List Rule) (s : Alloc)
      → IsRefused s.sf (s.tr s.cur_term) r
      → try_rules c (r ∷ rs) s ≡ try_rules c rs (refused c s)
  unfolding try_rules passes_over
  step_refused r rs s h = ground (arith, h.plain, h.no_cell)

  All-refused :
      (rs : List Rule) (s : Alloc)
      → All (IsRefused s.sf (s.tr s.cur_term)) rs
      → Unmoved s (try_rules c rs s) × (s.frame ≡ none → (try_rules c rs s).frame ≡ none)
  unfolding try_rules refused
  All-refused [] s h = (ground arith, λ e. e)
  All-refused (r ∷ rs) s (h, k) =
      let rest = All-refused rs (refused c s) k in
      rw (step_refused r rs s h) (refused-Unmoved s _ rest.0, λ e. rest.1 (frame-refused s))

  some_refused :
      (rs : List Rule) (s : Alloc)
      → rs ≢ []
      → All (IsRefused s.sf (s.tr s.cur_term)) rs
      → (try_rules c rs s).frame ≡ none
  unfolding refused
  some_refused [] s n h = absurd (n refl)
  some_refused (r ∷ rs) s n (h, k) =
      rw (step_refused r rs s h) ((All-refused rs (refused c s) k).1 (frame-refused s))

  next_request_asks : (s : Alloc) → satisfied (s.deficit s.cur_term) ≡ false → next_request c s ≡ s
  unfolding next_request
  next_request_asks s e = ground (arith, e)

  serve_refused :
      (s : Alloc)
      → c.mode ≡ slot_mode
      → (try_rules c (s.tr s.cur_term).rules s).frame ≡ none
      → let r = try_rules c (s.tr s.cur_term).rules s in
        serve c s ≡ record r { cur_term = next_term c r.cur_term }
  unfolding serve give_up
  serve_refused s m e =
      rw (after_rules-none c (try_rules c (s.tr s.cur_term).rules s) e) (ground arith)

  pub round_serves :
      (s : Alloc)
      → satisfied (s.deficit s.cur_term) ≡ false
      → s.left_to_check ≢ 0
      → round c s ≡ serve c s
  unfolding round
  round_serves s e n = rw (next_request_asks s e) (ground arith)

  moved-IsHopeless :
      (s r : Alloc)
      → IsHopeless s
      → Unmoved s r
      → IsHopeless (record r { cur_term = next_term c r.cur_term })
  moved-IsHopeless s r h u = record {
    slots = rw u.freeslots h.slots;
    left = rw u.left_to_check h.left;
    current = grind (arith, h.current);
    asks = rw u.deficit h.asks;
    has_rule = rw u.tr h.has_rule;
    refuses = rw (u.tr, u.sf) h.refuses;
  }

  round-IsHopeless : (s : Alloc) → c.mode ≡ slot_mode → IsHopeless s → IsHopeless (round c s)
  round-IsHopeless s m h =
      let rules = (s.tr s.cur_term).rules in
      let tried = try_rules c rules s in
      let all = h.refuses s.cur_term h.current in
      let none_found = some_refused rules s (h.has_rule s.cur_term h.current) all in
      rw (round_serves s (h.asks s.cur_term h.current) h.left, serve_refused s m none_found)
        (moved-IsHopeless s tried h (All-refused rules s all).0)

  -- In SLOT mode, with a slot free, when every terminal asks for capacity and no rule of any
  -- terminal, of which it has one at least and none "SMALL", finds a cell, the loop does not end
  -- with any amount of fuel.
  pub loop_hopeless :
      (fuel : ℕ) (s : Alloc) → c.mode ≡ slot_mode → IsHopeless s → loop c fuel s ≡ none
  unfolding loop
  loop_hopeless zero s m h = refl
  loop_hopeless (suc fuel) s m h =
      let goes : (s.freeslots == 0 || s.left_to_check == 0) ≡ false =
        ground (arith, h.slots, h.left) in
      rw (goes, loop) (loop_hopeless fuel (round c s) m (round-IsHopeless s m h))
