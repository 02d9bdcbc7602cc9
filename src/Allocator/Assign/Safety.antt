-- ===== src/Allocator/Assign/Safety.antt =====
-- The rounds of `assign_timeslot` keep the bursts of each terminal apart.
use native.Mathlib.Nat.{mod-lt}
use release.Base.{
  ℕ, arith, zero, suc, ◌+◌, ◌<◌, ◌≡◌, ◌||◌, Option, none, some, ◌==◌, Bool-cases, inl, inr,
}
use release.Base.Int.{ℤ}
use release.Allocator.Assign.Accounting.{Same, try_rules-Same, after_rules-none, after_rules-some}
use release.Allocator.Assign.Outcome.{Tried, nothing, gets, try_rules-Tried}
use release.Allocator.Assign.Conflict.{IsClear, NoClashes, placed-IsClear}
use release.Allocator.Assign.Ending.{loop_ends}
use release.Allocator.Assign.{
  Config, Alloc, cont_mode, slot_mode, satisfied, next_request, next_term, skip, try_rules, grant,
  give_up, after_rules, advance, serve, round, loop,
}

module _ (c : Config) where
  abbrev pub Clear : Alloc → Type 0
  Clear s = (s.cur_term < c.active_node) × IsClear c.masksize c.active_node s.sf s.tr s.bdes

  next_term-inside : (t : ℕ) → t < c.active_node → next_term c t < c.active_node
  next_term-inside t l = mod-lt (t + 1) (omega (arith, l))

  skip-inside :
      (deficit : ℕ → ℤ) (left t : ℕ) → t < c.active_node → (skip c deficit left t).1 < c.active_node
  unfolding skip
  skip-inside deficit zero t l = l
  skip-inside deficit (suc left) t l = elim (Bool-cases (satisfied (deficit (next_term c t)))) [
    | inl e ↦ rw (e, skip) (skip-inside deficit left (next_term c t) (next_term-inside t l))
    | inr e ↦ rw (e, skip) (next_term-inside t l)
  ]

  give_up-Clear : (s : Alloc) → Clear s → Clear (give_up c s)
  unfolding give_up
  give_up-Clear s h = elim (Bool-cases (c.mode == cont_mode)) [
    | inl e ↦ rw e (next_term-inside s.cur_term h.0, h.1)
    | inr e ↦ rw e h
  ]

  advance-Clear : (s : Alloc) → Clear s → Clear (advance c s)
  unfolding advance
  advance-Clear s h = elim (Bool-cases (c.mode == slot_mode)) [
    | inl e ↦ rw e (next_term-inside s.cur_term h.0, h.1)
    | inr e ↦ rw e h
  ]

  next_request-Clear : (s : Alloc) → Clear s → Clear (next_request c s)
  unfolding next_request
  next_request-Clear s h = elim (Bool-cases (satisfied (s.deficit s.cur_term))) [
    | inl e ↦ rw (e, next_request) (skip-inside s.deficit s.left_to_check s.cur_term h.0, h.1)
    | inr e ↦ rw (e, next_request) h
  ]

  after-Tried : (s r : Alloc) → Clear s → Same s r → Tried c s r → Clear (after_rules c r)
  unfolding grant
  after-Tried s r h m (nothing e f g) =
      rw (after_rules-none c r e) (give_up-Clear r (rw (f, g, m.bdes, m.cur_term) h))
  after-Tried s r h m (gets fp p e o f g k) = rw (after_rules-some c r fp e) (
      rw (f, g, m.bdes, m.cur_term, o)
        (
          h.0,
          placed-IsClear c.masksize s.sf s.tr fp s.cur_term _ p h.1.frames h.1.arrays h.1.masks
              h.1.room k c.active_node s.bdes h.1,
        ))

  serve-Clear : (s : Alloc) → Clear s → Clear (serve c s)
  unfolding serve
  serve-Clear s h =
      let rules = (s.tr s.cur_term).rules in
      let tried = try_rules c rules s in
      advance-Clear (after_rules c tried) (
        after-Tried s tried h (try_rules-Same c rules s)
          (try_rules-Tried c rules s h.1.frames (inr (h.1.plain s.cur_term h.0))))

  round-Clear : (s : Alloc) → Clear s → Clear (round c s)
  unfolding round
  round-Clear s h =
      let n = next_request c s in
      elim (Bool-cases (n.left_to_check == 0)) [
        | inl e ↦ rw (e, round) (next_request-Clear s h)
        | inr e ↦ rw (e, round) (serve-Clear n (next_request-Clear s h))
      ]

  abbrev pub ClearIfSome : Option Alloc → Type 0
  ClearIfSome none = Unit
  ClearIfSome (some r) = Clear r

  pub loop-Clear : (fuel : ℕ) (s : Alloc) → Clear s → ClearIfSome (loop c fuel s)
  unfolding loop
  loop-Clear zero s h = tt
  loop-Clear (suc fuel) s h = elim (Bool-cases (s.freeslots == 0 || s.left_to_check == 0)) [
    | inl e ↦ rw (e, loop) h
    | inr e ↦ rw (e, loop) (loop-Clear fuel (round c s) (round-Clear s h))
  ]

  -- Where each frame is inside its array and has no more timeslots than the superframe has units of
  -- time, each timeslot a whole number of them, each mask is of bytes with room for these, each of
  -- the active terminals has a rule that is not "SMALL", the current terminal is one of these, and
  -- the bursts so far are at times that the masks cover and that do not meet within a terminal: in
  -- CONT mode the loop, with more fuel than free slots and terminals to check together, ends with a
  -- table of bursts in which no two bursts of one terminal meet in time.
  pub loop_no_clash :
      (s : Alloc) (fuel : ℕ)
      → c.mode ≡ cont_mode
      → s.freeslots + s.left_to_check < fuel
      → s.cur_term < c.active_node
      → IsClear c.masksize c.active_node s.sf s.tr s.bdes
      → (r : Alloc) × (loop c fuel s ≡ some r) × NoClashes r.bdes
  loop_no_clash s fuel m h l v =
      let end = loop_ends c s fuel m h in
      let kept : Clear end.0 = (rw end.1 at (loop-Clear fuel s (l, v))) in
      (end.0, end.1, kept.1.clear)
