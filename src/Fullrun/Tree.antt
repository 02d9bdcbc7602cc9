-- ===== src/Fullrun/Tree.antt =====
-- The tree of samples of src/utils/fullrun.c: `struct data_run`, `insert_sort`, `print_list`,
-- `_get_list` and `get_list`.
pub mod Order
pub mod Lookup
use release.Base.{
  ℕ, ◌+◌, ◌-◌, Bool, true, false, Option, none, some, List, [], ◌∷◌, ◌++◌, ltb, ◌==◌, if◌then◌else◌,
}
use release.Base.Int.{ℤ, pos, negsuc, ltb_ℤ, pos_part}
use release.Base.Double.{Double}

-- `node l v count r`, with the fields `lp`, `data_val`, `count` and `rp`.
pub data Tree {ℓ} (F : Type ℓ) : Type ℓ where
  null : Tree F
  node : Tree F → F → ℕ → Tree F → Tree F

module _ {ℓ} {F : Type ℓ} where
  unfoldable pub print_list : Tree F → List F
  print_list null = []
  print_list (node l v count r) = print_list l ++ v ∷ print_list r

  -- `_get_list`; `none` is the use of a null pointer.
  unfoldable pub get_list_at : Tree F → ℕ → Option F
  get_list_at null index = none
  get_list_at (node l v count r) index = elim (index == count) [
    | true ↦ some v
    | false ↦ elim (ltb index count) [
      | true ↦ get_list_at l index
      | false ↦ get_list_at r (index - count - 1)
    ]
  ]

  -- `get_list`, with the number of samples.
  unfoldable pub get_list : ℕ → Tree F → ℤ → Option F
  unfolding get_list_at
  get_list num_samples t (negsuc n) = get_list_at t 0
  get_list num_samples t (pos index) =
      if ltb_ℤ (pos (num_samples - 1)) (pos index)
      then get_list_at t (num_samples - 1)
      else get_list_at t index

module _ {ℓ} {F : Type ℓ} ⦃d : Double F⦄ where
  unfoldable pub insert_sort : F → Tree F → Tree F
  insert_sort v null = node null v 0 null
  insert_sort v (node l w count r) = elim (d.lt v w) [
    | true ↦ node (insert_sort v l) w (count + 1) r
    | false ↦ node l w count (insert_sort v r)
  ]
