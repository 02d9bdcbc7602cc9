-- ===== src/Allocator/Fit/FirstFit.antt =====
-- What `firstfit` finds: the first eligible cell, row by row.
use release.Base.{
  ℕ, zero, suc, ◌+◌, ◌<◌, ◌≤◌, ◌≡◌, refl, Bool, true, false, Option, none, some, arith, ◌==◌,
  Bool-cases, inl, inr,
}
use release.Allocator.Fit.{
  Frame, Terminal, Placement, eligible, place, first_in_row, first_from, firstfit,
}

-- The search along a row, of the timeslots from `lo` to below `hi`.
abbrev RowResult : (ℕ → Bool) → ℕ → ℕ → Option ℕ → Type 0
RowResult p lo hi none = (j : ℕ) → lo ≤ j → j < hi → p j ≡ false
RowResult p lo hi (some k) =
    (p k ≡ true) × (lo ≤ k) × (k < hi) × ((j : ℕ) → lo ≤ j → j < k → p j ≡ false)

false_from :
    (p : ℕ → Bool) (lo j : ℕ) → p lo ≡ false → (lo + 1 ≤ j → p j ≡ false) → lo ≤ j → p j ≡ false
false_from p lo j h k l = elim (Bool-cases (lo == j)) [
  | inl e ↦ let same : lo ≡ j = ground (arith, e) in rw (← same) h
  | inr e ↦ k (ground (arith, e))
]

row_longer :
    (p : ℕ → Bool) (lo n : ℕ) (o : Option ℕ)
    → p lo ≡ false
    → RowResult p (lo + 1) (lo + 1 + n) o
    → RowResult p lo (lo + suc n) o
row_longer p lo n none h r = λ j l u. false_from p lo j h (λ k. r j k (omega arith)) l
row_longer p lo n (some k) h r =
    (r.0, omega (arith, r.1), omega (arith, r.2), λ j l u. false_from p lo j h (λ m. r.3 j m u) l)

module _ (masksize : ℕ) (f : Frame) (t : Terminal) where
  abbrev pub can : ℕ → ℕ → Bool
  can i j = eligible masksize f t i j

  row_found : (i n j : ℕ) → RowResult (can i) j (j + n) (first_in_row masksize f t i n j)
  unfolding first_in_row
  row_found i zero j = λ k l u. absurd (omega arith)
  row_found i (suc n) j = elim (Bool-cases (can i j)) [
    | inl e ↦ rw e (e, omega arith, omega arith, λ k l u. absurd (omega arith))
    | inr e ↦ rw e (row_longer (can i) j n _ e (row_found i n (j + 1)))
  ]

  -- The search over the carriers from `lo` to below `hi`: the first eligible cell, row by row.
  abbrev Found : ℕ → ℕ → Option (ℕ × ℕ) → Type 0
  Found lo hi none = (i j : ℕ) → lo ≤ i → i < hi → j < f.timeslots → can i j ≡ false
  Found lo hi (some (i, j)) =
      (can i j ≡ true)
      × (lo ≤ i)
      × (i < hi)
      × (j < f.timeslots)
      × ((i' j' : ℕ) → lo ≤ i' → i' < i → j' < f.timeslots → can i' j' ≡ false)
      × ((j' : ℕ) → j' < j → can i j' ≡ false)

  Found-longer :
      (lo n : ℕ) (o : Option (ℕ × ℕ))
      → ((j : ℕ) → j < f.timeslots → can lo j ≡ false)
      → Found (lo + 1) (lo + 1 + n) o
      → Found lo (lo + suc n) o
  Found-longer lo n none h r =
      λ i j l u w. false_from (λ i'. can i' j) lo i (h j w) (λ k. r i j k (omega arith) w) l
  Found-longer lo n (some (i, j)) h (r, l, u, w, before, left) = (
    r,
    omega arith,
    omega arith,
    w,
    λ i' j' l' u' w'. false_from (λ k. can k j') lo i' (h j' w') (λ k. before i' j' k u' w') l',
    left,
  )

  all-Found : (n i : ℕ) → Found i (i + n) (first_from masksize f t n i)
  unfolding first_from
  all-Found zero i = λ k j l u w. absurd (omega arith)
  all-Found (suc n) i =
      go (first_in_row masksize f t i f.timeslots 0) (row_found i f.timeslots 0)
        (first_from masksize f t n (i + 1)) (all-Found n (i + 1))
    where
      go :
          (o : Option ℕ)
          → RowResult (can i) 0 (0 + f.timeslots) o
          → (rest : Option (ℕ × ℕ)) → Found (i + 1) (i + 1 + n) rest
          → Found i (i + suc n) (elim o [ some j ↦ some (i, j) | none ↦ rest ])
      go none r rest h = Found-longer i n rest (λ j w. r j (omega arith) (omega arith)) h
      go (some k) r rest h = (
        r.0,
        omega arith,
        omega arith,
        omega (arith, r.2),
        λ i' j' l u w. absurd (omega arith),
        λ j' u. r.3 j' (omega arith) u,
      )

  -- What the search is to return: nothing if no cell of the frame is eligible, and otherwise the
  -- placement at an eligible cell of the frame before which, row by row, none is.
  abbrev pub IsFirst : Option Placement → Type 0
  IsFirst none = (i j : ℕ) → i < f.carriers → j < f.timeslots → can i j ≡ false
  IsFirst (some p) =
      (i : ℕ) × (p ≡ place masksize f t i p.slot)
      × (can i p.slot ≡ true)
      × (i < f.carriers)
      × (p.slot < f.timeslots)
      × ((i' j' : ℕ) → i' < i → j' < f.timeslots → can i' j' ≡ false)
      × ((j' : ℕ) → j' < p.slot → can i j' ≡ false)

  IsFirst-placed :
      (o : Option (ℕ × ℕ))
      → Found 0 (0 + f.carriers) o
      → IsFirst (elim o [ none ↦ none | some (i, j) ↦ some (place masksize f t i j) ])
  unfolding place
  IsFirst-placed none h = λ i j l u. h i j (omega arith) (omega arith) u
  IsFirst-placed (some (i, j)) h =
      (i, refl, h.0, omega (arith, h.2), h.3, λ i' j' l u. h.4 i' j' (omega arith) l u, h.5)

  -- `firstfit` fails if no cell of the frame is empty at a time that the terminal has free, and
  -- otherwise gives the first such cell, carrier by carrier, to the terminal.
  pub firstfit-IsFirst : IsFirst (firstfit masksize f t)
  unfolding firstfit
  firstfit-IsFirst = IsFirst-placed (first_from masksize f t f.carriers 0) (all-Found f.carriers 0)
