-- ===== src/Allocator/Assign/Stale.antt =====
-- The local variables `frame` and `offset` of `assign_timeslot` from an earlier round.
use release.Base.{ℕ, ◌-◌, ◌≡◌, ◌≢◌, refl, true, false, some, List, [], ◌∷◌, ◌++◌, arith, All}
use release.Allocator.Fit.{Rule}
use release.Allocator.Assign.{Config, Alloc, satisfied, passes_over, try_rules, grant, serve, round}
use release.Allocator.Assign.Accounting.{after_rules-some}
use release.Allocator.Assign.Hopeless.{round_serves}

module _ (c : Config) where
  passed_over :
      (rs : List Rule) (s : Alloc) → All (λ r. passes_over c s r ≡ true) rs → try_rules c rs s ≡ s
  unfolding try_rules
  passed_over [] s h = refl
  passed_over (r ∷ rs) s (h, k) = rw (h, try_rules) (passed_over rs s k)

  -- When every rule of a terminal that asks for capacity is passed over, as when it has no rule at
  -- all, and an earlier round has left a frame in `frame`, the round gives the terminal a burst in
  -- that frame, at the offset of the earlier burst. No cell of any frame and no mask changes.
  pub round_stale :
      (s : Alloc) (fp : ℕ)
      → s.left_to_check ≢ 0
      → satisfied (s.deficit s.cur_term) ≡ false
      → All (λ r. passes_over c s r ≡ true) (s.tr s.cur_term).rules
      → s.frame ≡ some fp
      → ((round c s).bdes
          ≡ s.bdes
            ++ record { assignment_id = s.cur_term; size = (s.sf fp).burstsize; offset = s.offset }
              ∷ [])
        × ((round c s).sf ≡ s.sf)
        × ((round c s).tr ≡ s.tr)
        × ((round c s).freeslots ≡ s.freeslots - 1)
  unfolding serve grant
  round_stale s fp n e h f =
      rw (round_serves c s e n, passed_over (s.tr s.cur_term).rules s h, after_rules-some c s fp f)
        (ground arith)
