-- ===== src/Rle/Receiver/Table.antt =====
-- The table of contexts: the constructor `MacRle::MacRle` and `MacRle::get_context`.
pub mod Buckets
use release.Base.{
  ℕ, zero, suc, ◌+◌, ◌*◌, ◌%◌, Bool, true, false, not, ◌&&◌, Option, none, some, List, [], ◌∷◌,
  ◌==◌, update,
}
use release.Rle.Context.{Context}

abbrev pub max_cnts : ℕ
max_cnts = 512

-- `cell` is `cbuffer`, `head` the field of that name of each cell, which serves as the bucket's
-- head, and `free` the chain of unused cells, from the pointer `free` on.
pub record Contexts : Type 0 where
  pub cell : ℕ → Context
  pub head : ℕ → Option ℕ
  pub free : List ℕ

-- The numbers below `n`, the greatest first.
unfoldable pub down_from : ℕ → List ℕ
down_from zero = []
down_from (suc n) = n ∷ down_from n

-- The constructor leaves the fields of a context but `pkt` as the memory was.
unfoldable pub init : (ℕ → Context) → Contexts
unfolding down_from
init memory = record {
  cell = λ i. record (memory i) { pkt = none; next = none };
  head = λ _. none;
  free = down_from max_cnts;
}

unfoldable pub bucket : ℕ → ℕ → ℕ
bucket src fid = (src * 8 + fid) % max_cnts

-- The loop along a bucket: the context at which it stops, `none` for the end of the chain.
-- The outer `none` is lack of fuel.
unfoldable pub walk : ℕ → (ℕ → Context) → ℕ → ℕ → Option ℕ → Option (Option ℕ)
walk zero cell src fid cp = none
walk (suc fuel) cell src fid none = some none
walk (suc fuel) cell src fid (some cp) =
    elim (not ((cell cp).src == src) && not ((cell cp).fid == fid)) [
      | true ↦ walk fuel cell src fid (cell cp).next
      | false ↦ some (some cp)
    ]

-- The first free context becomes the only one of its bucket; `none` is the call of `abort`.
unfoldable pub take_free : Contexts → ℕ → ℕ → Option (ℕ × Contexts)
unfolding bucket
take_free cs src fid = elim cs.free [
  | [] ↦ none
  | cp ∷ rest ↦ some (
    cp,
    record {
      cell =
          update cs.cell cp (record (cs.cell cp) { exp_sn = 0; src = src; fid = fid; next = none });
      head = update cs.head (bucket src fid) (some cp);
      free = rest;
    },
  )
]

unfoldable pub get_context : Contexts → ℕ → ℕ → Option (ℕ × Contexts)
unfolding bucket walk take_free
get_context cs src fid = elim (walk (max_cnts + 1) cs.cell src fid (cs.head (bucket src fid))) [
  | none ↦ none
  | some none ↦ take_free cs src fid
  | some (some cp) ↦ some (cp, cs)
]
