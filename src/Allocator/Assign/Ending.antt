-- ===== src/Allocator/Assign/Ending.antt =====
-- Whether the loop of `assign_timeslot` ends.
use release.Base.{
  ℕ, zero, suc, ◌+◌, ◌<◌, ◌≤◌, ◌≡◌, ◌≢◌, ◌⊎◌, true, ◌||◌, some, arith, ◌==◌, Bool-cases,
  Option-cases, inl, inr,
}
use release.Base.Int.{ℤ}
use release.Allocator.Assign.{
  Config, Alloc, cont_mode, skip, next_request, try_rules, grant, give_up, after_rules, advance,
  serve, round, loop, next_term,
}
use release.Allocator.Assign.Accounting.{
  Keeps, try_rules-Same, after_rules-none, after_rules-some, loop-Keeps,
}

module _ (c : Config) where
  skip-le : (d : ℕ → ℤ) (left t : ℕ) → (skip c d left t).0 ≤ left
  unfolding skip
  skip-le d zero t = omega arith
  skip-le d (suc left) t = ground (arith, skip-le d left (next_term c t))

  abbrev work : Alloc → ℕ
  work s = s.freeslots + s.left_to_check

  next_request-work :
      (s : Alloc)
      → (work (next_request c s) ≤ work s)
        × ((next_request c s).freeslots ≡ s.freeslots)
        × ((next_request c s).left_to_check ≡ 0
            → s.left_to_check ≢ 0
            → work (next_request c s) < work s)
  unfolding next_request
  next_request-work s = ground (arith, skip-le s.deficit s.left_to_check s.cur_term)

  grant-work :
      (s : Alloc) (fp : ℕ) → c.mode ≡ cont_mode → s.freeslots ≢ 0 → work (grant c s fp) < work s
  unfolding grant
  grant-work s fp m h = ground arith

  give_up-work :
      (s : Alloc) → c.mode ≡ cont_mode → s.left_to_check ≢ 0 → work (give_up c s) < work s
  unfolding give_up
  give_up-work s m h = ground arith

  advance-work : (s : Alloc) → work (advance c s) ≡ work s
  unfolding advance
  advance-work s = ground arith

  serve-work :
      (s : Alloc)
      → c.mode ≡ cont_mode
      → s.freeslots ≢ 0
      → s.left_to_check ≢ 0
      → work (serve c s) < work s
  unfolding serve
  serve-work s m h k =
      let tried = try_rules c (s.tr s.cur_term).rules s in
      let same = try_rules-Same c (s.tr s.cur_term).rules s in
      let lt : work (after_rules c tried) < work tried = elim (Option-cases tried.frame) [
        | inl e ↦ rw (after_rules-none c tried e) (give_up-work tried m (rw same.left_to_check k))
        | inr (fp, e) ↦
            rw (after_rules-some c tried fp e) (grant-work tried fp m (rw same.freeslots h))
      ] in
      omega (arith, advance-work (after_rules c tried), lt, same.freeslots, same.left_to_check)

  round-work :
      (s : Alloc)
      → c.mode ≡ cont_mode
      → s.freeslots ≢ 0
      → s.left_to_check ≢ 0
      → work (round c s) < work s
  unfolding round
  round-work s m h k =
      let n = next_request c s in
      let same = next_request-work s in
      elim (Bool-cases (n.left_to_check == 0)) [
        | inl e ↦ rw (e, round) (same.2 (ground (arith, e)) k)
        | inr e ↦
            rw (e, round) (omega (arith, same.0, serve-work n m (rw same.1 h) (ground (arith, e))))
      ]

  -- The loop stops with no slot or no terminal left.
  abbrev pub IsOver : Alloc → Type 0
  IsOver s = (s.freeslots ≡ 0) ⊎ (s.left_to_check ≡ 0)

  loop_cont :
      (fuel : ℕ) (s : Alloc)
      → c.mode ≡ cont_mode
      → work s < fuel
      → (r : Alloc) × (loop c fuel s ≡ some r) × IsOver r
  unfolding loop
  loop_cont zero s m h = absurd (omega arith)
  loop_cont (suc fuel) s m h = elim (Bool-cases (s.freeslots == 0 || s.left_to_check == 0)) [
    | inl e ↦ (s, rw (e, loop), over s e)
    | inr e ↦
        let rest =
          loop_cont fuel (round c s) m
            (omega (arith, round-work s m (ground (arith, e)) (ground (arith, e)))) in
        (rest.0, rw (e, loop) rest.1, rest.2)
  ]
    where
      over : (s : Alloc) → (s.freeslots == 0 || s.left_to_check == 0) ≡ true → IsOver s
      over s e = ground (arith, e)

  -- In CONT mode a loop with more fuel than free slots and terminals to check together ends, with
  -- no slot or no terminal left; each terminal's deficit and allocation have the sum they had,
  -- every slot that was taken is one more entry of the burst table, and no entry is written past
  -- the end of the table if it has room for all slots, free and taken.
  pub loop_ends :
      (s : Alloc) (fuel : ℕ)
      → c.mode ≡ cont_mode
      → s.freeslots + s.left_to_check < fuel
      → (r : Alloc) × (loop c fuel s ≡ some r) × IsOver r × Keeps s r
  loop_ends s fuel m h =
      let end = loop_cont fuel s m h in (end.0, end.1, end.2, (rw end.1 at (loop-Keeps c fuel s)))
