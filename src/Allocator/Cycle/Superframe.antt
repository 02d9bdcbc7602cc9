-- ===== src/Allocator/Cycle/Superframe.antt =====
-- The burst table of a whole superframe.
use release.Base.{
  ℕ, ◌+◌, ◌*◌, ◌<◌, ◌≤◌, ◌≡◌, refl, ap, ◌∙◌, Bool, some, [], arith, ltb, length, Bool-cases, inl,
  inr, false,
}
use release.Base.Int.{ℤ}
use release.Allocator.Mask.Bits.{IsMask}
use release.Allocator.Mask.Slots.{reset-IsMask, length-reset}
use release.Allocator.Fit.{Frame, max_carr, max_slots, reset_frame}
use release.Allocator.Assign.Outcome.{FramesFit, IsSound, HasPlain}
use release.Allocator.Assign.Conflict.{IsClear, NoClashes}
use release.Allocator.Assign.Ending.{loop_ends}
use release.Allocator.Assign.Safety.{loop-Clear}
use release.Allocator.Assign.{Config, Alloc, cont_mode}
use release.Allocator.Cycle.{
  Allocator, Junk, reset_allocator, init_request_queues, assign_timeslot, allocator_report,
  carry_forward, clear_volumes, allocation,
}

-- The frames and terminals are set up: the frames are inside their arrays and have no more
-- timeslots than the superframe has units of time, each timeslot a whole number of them, each
-- terminal has a mask of bytes with room for these, each active one a rule that is not "SMALL", and
-- the current one is active.
pub record IsSetUp (x : Allocator) : Type 0 where
  pub frames : FramesFit x.config.masksize x.core.sf
  pub arrays : (i : ℕ) → IsSound x.config.masksize (x.core.sf i)
  pub masks : (t : ℕ) → IsMask (x.core.tr t).mask
  pub room : (t : ℕ) → x.config.masksize ≤ 8 * length (x.core.tr t).mask
  pub plain : (t : ℕ) → t < x.config.active_node → HasPlain (x.core.tr t).rules
  pub current : x.core.cur_term < x.config.active_node

abbrev Clear : Allocator → Type 0
Clear x =
    (x.core.cur_term < x.config.active_node)
    × IsClear x.config.masksize x.config.active_node x.core.sf x.core.tr x.core.bdes

timeslots-reset_frame : (f : Frame) → (reset_frame f).timeslots ≡ f.timeslots
unfolding reset_frame
timeslots-reset_frame f = refl

pub reset_frame-IsSound :
    (masksize : ℕ) (f : Frame) → IsSound masksize f → IsSound masksize (reset_frame f)
unfolding reset_frame
reset_frame-IsSound masksize f v = record {
  rows = v.rows;
  columns = v.columns;
  exact = v.exact;
  safe =
      let row : ltb max_carr f.carriers ≡ false = ground (arith, v.rows) in
      let column : ltb max_slots f.timeslots ≡ false = ground (arith, v.columns) in
      rw (v.safe, row, column) refl;
}

reset_allocator-Clear : (x : Allocator) → x.core.bdes ≡ [] → IsSetUp x → Clear (reset_allocator x)
unfolding reset_allocator reset_frame
reset_allocator-Clear x e v = (
  v.current,
  record {
    frames = λ i. elim (Bool-cases (ltb i x.nf)) [
      | inl b ↦ rw b (v.frames i)
      | inr b ↦ rw b (v.frames i)
    ];
    arrays = λ i. elim (Bool-cases (ltb i x.nf)) [
      | inl b ↦ rw b (reset_frame-IsSound x.config.masksize (x.core.sf i) (v.arrays i))
      | inr b ↦ rw b (v.arrays i)
    ];
    masks = λ t. elim (Bool-cases (ltb t x.config.active_node)) [
      | inl b ↦ rw b (reset-IsMask x.config.masksize (x.core.tr t).mask (v.masks t))
      | inr b ↦ rw b (v.masks t)
    ];
    room = λ t. elim (Bool-cases (ltb t x.config.active_node)) [
      | inl b ↦ rw (b, length-reset x.config.masksize (x.core.tr t).mask) (v.room t)
      | inr b ↦ rw b (v.room t)
    ];
    plain = λ t. elim (Bool-cases (ltb t x.config.active_node)) [
      | inl b ↦ rw b (v.plain t)
      | inr b ↦ rw b (v.plain t)
    ];
    covered = rw e tt;
    clear = rw e tt;
  },
)

-- Neither the burst table nor a frame was written outside of its array.
abbrev pub IsInside : Allocator → Type 0
IsInside x = (x.core.overrun ≡ false) × ((i : ℕ) → (x.core.sf i).overrun ≡ false)

-- The state between the passes over the terminals: `total` slots are in the table or free.
record IsReady (c : Config) (total : ℕ) (x : Allocator) : Type 0 where
  config : x.config ≡ c
  clear : Clear x
  slots : length x.core.bdes + x.core.freeslots ≡ total
  table : x.core.overrun ≡ false

module _ (c : Config) (total fuel : ℕ) (m : c.mode ≡ cont_mode) (f : total + c.active_node < fuel)
    (small : total ≤ max_slots) where
  assign-IsReady :
      (x : Allocator) (junk : Junk)
      → IsReady c total x
      → x.core.left_to_check ≡ c.active_node
      → (y : Allocator) × (assign_timeslot fuel junk x ≡ some y) × IsReady c total y
  unfolding assign_timeslot
  assign-IsReady x junk v e =
      let s : Alloc = record x.core { frame = junk.0; offset = junk.1 } in
      let end = loop_ends x.config s fuel (rw v.config m) (omega (arith, v.slots, e)) in
      let kept : (end.0.cur_term < x.config.active_node)
          × IsClear x.config.masksize x.config.active_node end.0.sf end.0.tr end.0.bdes =
        (rw end.1 at (loop-Clear x.config fuel s v.clear)) in
      (
        record x { core = end.0 },
        rw (end.1, assign_timeslot),
        record {
          config = v.config;
          clear = kept;
          slots = end.3.slots ∙ v.slots;
          table = end.3.table (omega (arith, v.slots, small)) v.table;
        },
      )

  pass :
      (x : Allocator) (req : ℕ → ℕ) (junk : Junk)
      → IsReady c total x
      → (y : Allocator) × (assign_timeslot fuel junk (init_request_queues req x) ≡ some y)
        × IsReady c total y
  unfolding init_request_queues
  pass x req junk v =
      assign-IsReady (init_request_queues req x) junk
        (record { config = v.config; clear = v.clear; slots = v.slots; table = v.table })
        (ap (λ (d : Config). d.active_node) v.config)

  last_pass :
      (x : Allocator) (req : ℕ → ℕ) (junk : Junk)
      → IsReady c total x
      → (y : Allocator) × (assign_timeslot fuel junk (clear_volumes (init_request_queues req x))
          ≡ some y)
        × IsReady c total y
  unfolding init_request_queues clear_volumes
  last_pass x req junk v =
      assign-IsReady (clear_volumes (init_request_queues req x)) junk
        (record { config = v.config; clear = v.clear; slots = v.slots; table = v.table })
        (ap (λ (d : Config). d.active_node) v.config)

bdes-report :
    (happy : ℕ → ℤ → ℤ → Bool) (x : Allocator)
    → ((carry_forward (allocator_report happy x)).core.bdes ≡ x.core.bdes)
      × ((carry_forward (allocator_report happy x)).core.overrun ≡ x.core.overrun)
      × ((carry_forward (allocator_report happy x)).core.sf ≡ x.core.sf)
unfolding carry_forward allocator_report
bdes-report happy x = (refl, refl, refl)

IsReady-at_first :
    (x : Allocator)
    → x.core.bdes ≡ []
    → x.core.overrun ≡ false
    → IsSetUp x
    → IsReady x.config x.slot_count (reset_allocator x)
unfolding reset_allocator
IsReady-at_first x e o v = record {
  config = refl;
  clear = reset_allocator-Clear x e v;
  slots = omega (arith, ap length e);
  table = o;
}

-- In CONT mode, where the frames are inside their arrays and have no more timeslots than the
-- superframe has units of time, each timeslot a whole number of them, each mask is of bytes with
-- room for these, each of the active terminals has a rule that is not "SMALL", and the current
-- terminal is one of these, with no more slots than the burst table has room for, and with more
-- fuel than slots and terminals together, `allocation` ends, whatever the local variables hold at
-- first and whatever is asked for. In its burst table no two bursts of one terminal meet in time,
-- and there are at most as many bursts as the superframe has slots; nothing was written past the
-- end of the table or outside of the array of a frame.
pub allocation_no_clash :
    (happy : ℕ → ℤ → ℤ → Bool) (fuel : ℕ) (j k l : Junk) (x : Allocator)
    → x.config.mode ≡ cont_mode
    → IsSetUp x
    → x.slot_count ≤ max_slots
    → x.slot_count + x.config.active_node < fuel
    → (y : Allocator) × (allocation happy fuel j k l x ≡ some y)
      × NoClashes y.core.bdes
      × (length y.core.bdes ≤ x.slot_count)
      × IsInside y
unfolding allocation
allocation_no_clash happy fuel j k l x m v small f =
    let fresh : Allocator = record x { core = record x.core { bdes = []; overrun = false } } in
    let set_up : IsSetUp fresh = record {
      frames = v.frames;
      arrays = v.arrays;
      masks = v.masks;
      room = v.room;
      plain = v.plain;
      current = v.current;
    } in
    let ready : Allocator = reset_allocator fresh in
    let one =
      pass x.config x.slot_count fuel m f small ready ready.cnst_rate j
        (IsReady-at_first fresh refl refl set_up) in
    let two = pass x.config x.slot_count fuel m f small one.0 one.0.reqv_rate k one.2 in
    let three = last_pass x.config x.slot_count fuel m f small two.0 two.0.reqv_volume l two.2 in
    let table = bdes-report happy three.0 in
    (
      carry_forward (allocator_report happy three.0),
      rw (one.1, two.1, three.1),
      rw table.0 (rw three.2.config at three.2.clear).1.clear,
      rw table.0 (omega (arith, three.2.slots)),
      (table.1 ∙ three.2.table, λ i. rw table.2 (three.2.clear.1.arrays i).safe),
    )
