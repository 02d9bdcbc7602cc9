-- ===== src/Analy.antt =====
-- The analysis of queue traces of src/utils/analy.c: `main` on the records of a trace, from the file
-- on. Sizes and identities of packets are not negative, and the sizes of the queue, of type
-- `double`, hold integers.
pub mod Search
pub mod Backlog
mod Tests
use release.Base.{
  ℕ, zero, suc, ◌+◌, ◌-◌, ◌*◌, ◌%◌, Bool, true, false, not, ◌&&◌, ◌||◌, Option, none, some, List,
  [], ◌∷◌, ◌++◌, update, ◌==◌, if◌then◌else◌,
}
use release.Base.Int.{ℤ, pos, ◌+ℤ◌, ◌-ℤ◌}
use release.Base.Double.{Double}

-- `struct packet`.
pub record Packet (F : Type 0) : Type 0 where
  pub ts : F
  pub pkt_id : ℕ
  pub busy : Bool

-- `code` of a record: `+`, `-`, `d` and the others.
pub data Code : Type 0 where
  enque deque drop other : Code

pub record Trace (F : Type 0) : Type 0 where
  pub code : Code
  pub time : F
  pub size : ℕ
  pub flow_id : ℕ
  pub pkt_id : ℕ

-- What is summed up in an interval.
pub record Counts (F : Type 0) : Type 0 where
  pub input_bit : ℕ
  pub input_pkt : ℕ
  pub output_bit : ℕ
  pub output_pkt : ℕ
  pub drop_bit : ℕ
  pub drop_pkt : ℕ
  pub delay : F

-- A line of the output, with the mean delay if packets left the queue.
pub record Row (F : Type 0) : Type 0 where
  pub timestamp : F
  pub counts : Counts F
  pub queuesize_bit : ℤ
  pub queuesize_pkt : ℤ
  pub mean_delay : Option F

-- `place` is `i`.
pub record Analysis (F : Type 0) : Type 0 where
  pub timestamp : F
  pub counts : Counts F
  pub queuesize_bit : ℤ
  pub queuesize_pkt : ℤ
  pub backlog : ℕ → Packet F
  pub place : ℕ
  pub rows : List (Row F)

abbrev pub dim : ℕ
dim = 100000

-- A loop that goes round the places until a test holds, over `n` places of `size`; `none` is a loop
-- that has gone round without an end.
unfoldable pub seek : ℕ → (ℕ → Bool) → ℕ → ℕ → Option ℕ
seek size stop zero i = none
seek size stop (suc n) i = elim (stop i) [
  | true ↦ some i
  | false ↦ seek size stop n ((i + 1) % size)
]

module _ {F : Type 0} ⦃d : Double F⦄ where
  -- `+` at a place that is not busy.
  unfoldable pub take_in : Trace F → Analysis F → ℕ → Analysis F
  take_in r a i = record a {
    counts = record a.counts {
      input_bit = a.counts.input_bit + r.size * 8;
      input_pkt = a.counts.input_pkt + 1;
    };
    queuesize_bit = a.queuesize_bit +ℤ pos (r.size * 8);
    queuesize_pkt = a.queuesize_pkt +ℤ pos 1;
    backlog = update a.backlog i (record { ts = r.time; pkt_id = r.pkt_id; busy = true });
    place = i;
  }

  -- `-` at the place of the packet.
  unfoldable pub let_out : Trace F → Analysis F → ℕ → Analysis F
  let_out r a i = record a {
    counts = record a.counts {
      delay = d.add a.counts.delay (d.sub r.time (a.backlog i).ts);
      output_bit = a.counts.output_bit + r.size * 8;
      output_pkt = a.counts.output_pkt + 1;
    };
    queuesize_bit = a.queuesize_bit -ℤ pos (r.size * 8);
    queuesize_pkt = a.queuesize_pkt -ℤ pos 1;
    backlog = update a.backlog i (record (a.backlog i) { busy = false });
    place = i;
  }

  -- `d` at the place where the loop ended.
  unfoldable pub count_drop : Trace F → Analysis F → ℕ → Analysis F
  count_drop r a i = record a {
    counts = record a.counts {
      drop_bit = a.counts.drop_bit + r.size * 8;
      drop_pkt = a.counts.drop_pkt + 1;
    };
    place = i;
  }

  unfoldable pub drop_at : Trace F → Analysis F → ℕ → Analysis F
  unfolding count_drop
  drop_at r a i =
      if (a.backlog i).pkt_id == r.pkt_id
      then record (count_drop r a i) {
        queuesize_bit = a.queuesize_bit -ℤ pos (r.size * 8);
        queuesize_pkt = a.queuesize_pkt -ℤ pos 1;
        backlog = update a.backlog i (record (a.backlog i) { busy = false });
      }
      else count_drop r a i

  -- The test that ends the loop of `d`: the packet's identity, or the last place of the round.
  unfoldable pub drop_stops : ℕ → Trace F → Analysis F → ℕ → Bool
  drop_stops size r a j = ((a.backlog j).pkt_id == r.pkt_id) || (j == (a.place + size - 1) % size)

  unfoldable pub enqueued : ℕ → Trace F → Analysis F → Option (Analysis F)
  unfolding seek take_in
  enqueued size r a = elim (seek size (λ j. not (a.backlog j).busy) size a.place) [
    | none ↦ none
    | some i ↦ some (take_in r a i)
  ]

  unfoldable pub dequeued : ℕ → Trace F → Analysis F → Option (Analysis F)
  unfolding seek let_out
  dequeued size r a =
      elim (seek size (λ j. (a.backlog j).busy && ((a.backlog j).pkt_id == r.pkt_id)) size
        a.place) [ none ↦ none | some i ↦ some (let_out r a i) ]

  unfoldable pub dropped : ℕ → Trace F → Analysis F → Option (Analysis F)
  unfolding seek drop_at drop_stops
  dropped size r a = elim (seek size (drop_stops size r a) size a.place) [
    | none ↦ none
    | some i ↦ some (drop_at r a i)
  ]

  unfoldable pub event_of : Code → ℕ → Trace F → Analysis F → Option (Analysis F)
  unfolding enqueued dequeued dropped
  event_of enque size r a = enqueued size r a
  event_of deque size r a = dequeued size r a
  event_of drop size r a = dropped size r a
  event_of other size r a = some a

  -- A record of the trace, less the intervals that are printed before it.
  unfoldable pub event : ℕ → Trace F → Analysis F → Option (Analysis F)
  unfolding event_of
  event size r a = event_of r.code size r a

  abbrev no_counts : Counts F
  no_counts = record {
    input_bit = 0;
    input_pkt = 0;
    output_bit = 0;
    output_pkt = 0;
    drop_bit = 0;
    drop_pkt = 0;
    delay = d.decimal 0 0;
  }

  -- A round of the loop that prints an interval.
  unfoldable pub print_interval : F → Analysis F → Analysis F
  print_interval smp a =
      let now = d.add a.timestamp smp in
      let row : Row F = record {
        timestamp = now;
        counts = a.counts;
        queuesize_bit = a.queuesize_bit;
        queuesize_pkt = a.queuesize_pkt;
        mean_delay =
            if a.counts.output_pkt == 0
            then none
            else some (d.div a.counts.delay (d.of_int (pos a.counts.output_pkt)));
      } in
      record a { timestamp = now; counts = no_counts; rows = a.rows ++ row ∷ [] }
