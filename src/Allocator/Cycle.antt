-- ===== src/Allocator/Cycle.antt =====
-- One superframe of the allocator: `allocation` and what it calls, `rcv_req` and `command`.
pub mod Superframe
pub mod Limits
use release.Base.{
  ℕ, zero, suc, ◌+◌, ◌-◌, ◌*◌, ◌/◌, Bool, true, false, ◌&&◌, not, Option, none, some, List, [], ◌∷◌,
  ◌++◌, ltb, leb, ◌==◌, if◌then◌else◌, update, add32, add_unsigned,
}
use release.Base.Int.{ℤ, pos, negsuc, ◌+ℤ◌, ◌-ℤ◌, ltb_ℤ}
use release.Allocator.Mask.{Mask}
use release.Allocator.Mask
use release.Allocator.Fit.{Frame, Rule, Terminal, reset_frame}
use release.Allocator.Assign.{Offset, BurstDes, Config, Alloc, satisfied, loop}

-- `AllocatorMFTDMA`. The counters `utilization_` and `load_` are doubles that hold integers.
pub record Allocator : Type 0 where
  pub config : Config
  pub core : Alloc
  pub nf : ℕ
  pub slot_count : ℕ
  pub hub : ℕ
  pub max_req_buf : ℤ
  pub forget_debit : ℕ
  pub cnst_rate : ℕ → ℕ
  pub reqv_rate : ℕ → ℕ
  pub reqv_volume : ℕ → ℕ
  pub utilization : ℤ
  pub load : ℤ
  pub feedback : ℕ
  pub utility : ℕ

-- The sum over the first `n` terminals.
pub sum_ℤ : ℕ → (ℕ → ℤ) → ℤ
sum_ℤ zero f = pos 0
sum_ℤ (suc n) f = sum_ℤ n f +ℤ f n

pub count : ℕ → (ℕ → Bool) → ℕ
count zero p = 0
count (suc n) p = (if p n then 1 else 0) + count n p

-- `Terminal::reset` on a terminal.
reset_terminal : ℕ → Terminal → Terminal
reset_terminal masksize t = record t { mask = Mask.reset masksize t.mask }

pub reset_allocator : Allocator → Allocator
unfolding reset_terminal
reset_allocator x = record x {
  core = record s {
    a = λ t. if ltb t n then pos 0 else s.a t;
    sf = λ i. if ltb i x.nf then reset_frame (s.sf i) else s.sf i;
    tr = λ t. if ltb t n then reset_terminal x.config.masksize (s.tr t) else s.tr t;
    freeslots = x.slot_count;
  };
  utilization = pos 0;
  load = pos 0;
}
  where
    s : Alloc
    s = x.core

    n : ℕ
    n = x.config.active_node

pub init_request_queues : (ℕ → ℕ) → Allocator → Allocator
unfolding sum_ℤ
init_request_queues req x = record x {
  core = record s {
    deficit = λ t. if ltb t n then add_unsigned (s.deficit t) (req t) else s.deficit t;
    left_to_check = n;
  };
  utilization = x.utilization +ℤ sum_ℤ n s.deficit;
  load = x.load +ℤ sum_ℤ n (λ t. pos (req t));
}
  where
    s : Alloc
    s = x.core

    n : ℕ
    n = x.config.active_node

-- What the local variables `frame` and `offset` hold before they are assigned.
abbrev pub Junk : Type 0
Junk = Option ℕ × Option Offset

pub assign_timeslot : ℕ → Junk → Allocator → Option Allocator
assign_timeslot fuel junk x =
    elim (loop x.config fuel (record x.core { frame = junk.0; offset = junk.1 })) [
      | none ↦ none
      | some s ↦ some (record x { core = s })
    ]

-- `happy` is the test `tolerance_*(deficit[i]+requestv_[i]) <= a[i]` on doubles.
pub allocator_report : (ℕ → ℤ → ℤ → Bool) → Allocator → Allocator
unfolding sum_ℤ count
allocator_report happy x = record x {
  utilization = (x.utilization -ℤ sum_ℤ n (λ t. if owes t then s.deficit t else pos 0)) +ℤ x.load;
  utility =
      count n (λ t. not (t == x.hub) && satisfied (s.deficit t))
      + count n (λ t. owes t && happy t (s.deficit t) (s.a t));
  feedback =
      if leb n (count n (λ t. not (t == x.hub) && satisfied (s.deficit t)) + 1) then 1 else 0;
}
  where
    s : Alloc
    s = x.core

    n : ℕ
    n = x.config.active_node

    owes : ℕ → Bool
    owes t = not (t == x.hub) && not (satisfied (s.deficit t))

-- "Do not carry forward requests > max_req_buf_", and "removes negative deficits".
pub limit_deficit : Allocator → ℤ → ℤ
limit_deficit x d =
    let capped = if ltb_ℤ x.max_req_buf d then x.max_req_buf else d in
    if x.forget_debit == 1 && ltb_ℤ capped (pos 0) then pos 0 else capped

pub carry_forward : Allocator → Allocator
unfolding limit_deficit
carry_forward x = record x {
  core = record s {
    deficit =
        λ t. if ltb t x.config.active_node then limit_deficit x (s.deficit t) else s.deficit t;
  };
}
  where
    s : Alloc
    s = x.core

infixl 5 ◌>>=◌
abbrev pub ◌>>=◌ : Option Allocator → (Allocator → Option Allocator) → Option Allocator
none >>= f = none
some x >>= f = f x

pub clear_volumes : Allocator → Allocator
clear_volumes x = record x {
  reqv_volume = λ t. if ltb t x.config.active_node then 0 else x.reqv_volume t;
}

-- `allocation`: the constant rates, the requested rates and the requested volumes, in this order.
-- The new burst table is empty, with room for MAX_SLOTS bursts; `trace` only draws.
pub allocation : (ℕ → ℤ → ℤ → Bool) → ℕ → Junk → Junk → Junk → Allocator → Option Allocator
unfolding reset_allocator init_request_queues assign_timeslot allocator_report carry_forward
    clear_volumes
allocation happy fuel junk junk' junk'' x = do
  let fresh = record x { core = record x.core { bdes = []; overrun = false } }
  let ready = reset_allocator fresh
  cra ← assign_timeslot fuel junk (init_request_queues ready.cnst_rate ready)
  rbdc ← assign_timeslot fuel junk' (init_request_queues cra.reqv_rate cra)
  vbdc ← assign_timeslot fuel junk'' (clear_volumes (init_request_queues rbdc.reqv_volume rbdc))
  some (carry_forward (allocator_report happy vbdc))

-- `rcv_req`; `bytes` is the product of a rate and the constants of the frame, in doubles, taken to
-- `unsigned`.
pub rcv_req : (ℤ → ℕ) → ℕ → ℤ → ℕ → Allocator → Allocator
rcv_req bytes slot_num rate volume x = record x {
  reqv_rate = update x.reqv_rate slot_num (bytes rate);
  reqv_volume = update x.reqv_volume slot_num (add32 (x.reqv_volume slot_num) volume);
}
