-- ===== src/Prio.antt =====
-- The priority queue of src/prio_fid.h and src/prio_fid.cc: `PacketQueueFid::enque` on the linked
-- list of packets that it shares with ns-2's `PacketQueue`.
pub mod Chain
pub mod Enque
mod Tests
use release.Base.{
  ℕ, zero, suc, ◌+◌, Bool, true, false, not, Option, none, some, update, if◌then◌else◌,
}
use release.Base.Int.{ℤ, ltb_ℤ}

-- The members of `PacketQueue`, and the field `next_` of each packet by its identity. The field of
-- the last packet is not read.
pub record PacketQueue : Type 0 where
  pub head : Option ℕ
  pub tail : Option ℕ
  pub len : ℕ
  pub bytes : ℕ
  pub next : ℕ → Option ℕ

-- The priorities of the packets.
module _ (prio : ℕ → ℤ) where
  -- `prio(y) <= prio(p)`.
  abbrev pub goes_before : ℕ → ℕ → Bool
  goes_before y p = not (ltb_ℤ (prio p) (prio y))

  -- The `while` loop: `prev` and `curr` after it. `none` is the use of a null packet, or lack of
  -- fuel.
  unfoldable pub seek : ℕ → (ℕ → Option ℕ) → ℕ → (prev curr : Option ℕ) → Option (Option ℕ × ℕ)
  seek zero next p prev curr = none
  seek (suc fuel) next p prev none = none
  seek (suc fuel) next p prev (some y) = elim (goes_before y p) [
    | true ↦ seek fuel next p (some y) (next y)
    | false ↦ some (prev, y)
  ]

-- `p` is linked in before `curr`.
unfoldable pub link : PacketQueue → ℕ → Option ℕ → ℕ → PacketQueue
link q p none curr = record q { head = some p; next = update q.next p (some curr) }
link q p (some v) curr = record q { next = update (update q.next v (some p)) p (some curr) }

-- The sizes and priorities of the packets.
module _ (size : ℕ → ℕ) (prio : ℕ → ℤ) where
  -- `enque`: the queue after it, and the old tail, which it returns.
  unfoldable pub enque : PacketQueue → ℕ → Option (PacketQueue × Option ℕ)
  unfolding seek link
  enque q p =
      let c = record q { len = q.len + 1; bytes = q.bytes + size p } in
      elim q.tail [
        | none ↦ some (record c { head = some p; tail = some p }, none)
        | some t ↦ elim (goes_before prio t p) [
          | true ↦ some (record c { next = update q.next t (some p); tail = some p }, some t)
          | false ↦ elim (seek prio c.len q.next p none q.head) [
            | none ↦ none
            | some (prev, curr) ↦ some (link c p prev curr, some t)
          ]
        ]
      ]
