-- ===== src/Allocator/Cycle/Limits.antt =====
-- The deficits that `allocation` carries into the next superframe.
use release.Base.{ℕ, ◌<◌, ◌≡◌, arith, lt→ltb}
use release.Base.Int.{ℤ, pos, ◌≤ℤ◌}
use release.Allocator.Cycle.{Allocator, limit_deficit, carry_forward}

limited :
    (x : Allocator) (d : ℤ)
    → pos 0 ≤ℤ x.max_req_buf
    → (limit_deficit x d ≤ℤ x.max_req_buf)
      × (x.forget_debit ≡ 1 → pos 0 ≤ℤ limit_deficit x d)
      × (d ≤ℤ x.max_req_buf → pos 0 ≤ℤ d → limit_deficit x d ≡ d)
unfolding limit_deficit
limited x d h = ground arith

-- Where the bound `max_req_buf_` is not negative, the deficit of every terminal that is carried
-- forward is at most that bound, is not negative if debits are forgotten, and is what it was if it
-- lay between 0 and the bound.
pub carry_forward_range :
    (x : Allocator) (t : ℕ)
    → t < x.config.active_node
    → pos 0 ≤ℤ x.max_req_buf
    → ((carry_forward x).core.deficit t ≤ℤ x.max_req_buf)
      × (x.forget_debit ≡ 1 → pos 0 ≤ℤ (carry_forward x).core.deficit t)
      × (x.core.deficit t ≤ℤ x.max_req_buf
          → pos 0 ≤ℤ x.core.deficit t
          → (carry_forward x).core.deficit t ≡ x.core.deficit t)
unfolding carry_forward
carry_forward_range x t l h = rw (lt→ltb t x.config.active_node l) (limited x (x.core.deficit t) h)
