-- ===== src/Rle/Receiver.antt =====
-- The contexts of `MacRle` and `MacRle::sendUp`, which takes a burst apart.
pub mod Table
pub mod Validity
use release.Base.{
  ℕ, ◌+◌, ◌≡◌, Bool, true, false, Option, none, some, List, [], ◌∷◌, ◌++◌, ◌==◌, if◌then◌else◌,
  update,
}
use release.Rle.Burst.{FragHdr}
use release.Rle.Context.{Context, Outcome, keeps, drops_it, delivers, crash, reassemble}
use Table.{Contexts, get_context}

-- `delivered` is the sequence of packets given to `uptarget_`.
pub record Receiver : Type 0 where
  pub index : ℕ
  pub contexts : Contexts
  pub sent_up : ℕ
  pub delivered : List ℕ

unfoldable pub deliver : Receiver → ℕ → Receiver
deliver r p = record r { sent_up = r.sent_up + 1; delivered = r.delivered ++ (p ∷ []) }

unfoldable pub store : Receiver → ℕ → Context → Receiver
store r k c = record r { contexts = record r.contexts { cell = update r.contexts.cell k c } }

-- `abort_call` is the call of `abort` in `get_context`, `null_packet` the use of a null packet.
pub data Result : Type 0 where
  finished : Receiver → Result
  abort_call : Result
  null_packet : Result

abbrev pub and_then : Result → (Receiver → Result) → Result
and_then (finished r) f = f r
and_then abort_call f = abort_call
and_then null_packet f = null_packet

unfoldable pub settle : Receiver → ℕ → Outcome → Result
unfolding deliver store
settle r k (keeps c) = finished (store r k c)
settle r k (drops_it c) = finished (store r k c)
settle r k (delivers p c) = finished (deliver (store r k c) p)
settle r k crash = null_packet

-- A fragment of a packet that was cut, from source `src`.
unfoldable pub in_context : (ℕ → ℕ) → Receiver → ℕ → FragHdr → Result
unfolding settle
in_context total r src f = elim (get_context r.contexts src f.frag_id) [
  | none ↦ abort_call
  | some (k, cs) ↦ settle (record r { contexts = cs }) k (reassemble (cs.cell k) f (total f.alpdu))
]

-- One round of the loop of `sendUp`. `mac_da` and `total` are the MAC destination and the
-- `total_length` of each packet by its identity.
unfoldable pub receive : (ℕ → ℕ) → (ℕ → ℕ) → Receiver → ℕ → FragHdr → Result
unfolding deliver in_context
receive mac_da total r src f =
    if mac_da f.alpdu == r.index
    then if f.start_end == 3 then finished (deliver r f.alpdu) else in_context total r src f
    else finished r

-- `MacRle::sendUp` on a burst from `src`.
unfoldable pub send_up : (ℕ → ℕ) → (ℕ → ℕ) → Receiver → ℕ → List FragHdr → Result
send_up mac_da total r src [] = finished r
send_up mac_da total r src (f ∷ fs) =
    and_then (receive mac_da total r src f) (λ q. send_up mac_da total q src fs)
