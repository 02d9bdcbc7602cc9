-- ===== src/Allocator/Fit/BestFit.antt =====
-- What `bestfit` finds: an eligible cell with the least timeslot of all.
use release.Base.{
  ℕ, zero, suc, ◌+◌, ◌<◌, ◌≤◌, ◌≡◌, refl, Bool, true, false, Option, none, some, arith, ◌==◌,
  Bool-cases, inl, inr,
}
use release.Allocator.Fit.{
  Frame, Terminal, Placement, Best, eligible, place, better, best_in_row, best_from, bestfit,
}

module _ (masksize : ℕ) (f : Frame) (t : Terminal) where
  abbrev pub can : ℕ → ℕ → Bool
  can i j = eligible masksize f t i j

  -- A best cell so far is eligible and inside the frame; without one, `j_opt` is `masksize`.
  abbrev IsBestAt : ℕ → Option ℕ → Type 0
  IsBestAt j none = j ≡ masksize
  IsBestAt j (some i) = (can i j ≡ true) × (i < f.carriers) × (j < f.timeslots)

  record IsBest (b : Best) : Type 0 where
    at : IsBestAt b.j_opt b.i_opt

  -- No eligible cell of row `i` between `lo` and `hi` is to the left of the best one.
  abbrev Least : Best → ℕ → ℕ → ℕ → Type 0
  Least b i lo hi = (j : ℕ) → lo ≤ j → j < hi → can i j ≡ true → b.j_opt ≤ j

  better_lem :
      (i j : ℕ) (b : Best)
      → i < f.carriers
      → j < f.timeslots
      → IsBest b
      → let r = better masksize f t i j b in
        IsBest r × (r.j_opt ≤ b.j_opt) × (can i j ≡ true → r.j_opt ≤ j)
  unfolding better
  better_lem i j b c w h = ground arith

  best_row :
      (i n j : ℕ) (b : Best)
      → i < f.carriers
      → j + n ≤ f.timeslots
      → IsBest b
      → let r = best_in_row masksize f t i n j b in
        IsBest r × (r.j_opt ≤ b.j_opt) × Least r i j (j + n)
  unfolding best_in_row
  best_row i zero j b c w h = (h, omega arith, λ k l u e. absurd (omega arith))
  best_row i (suc n) j b c w h =
      let one = better_lem i j b c (omega arith) h in
      let rest = best_row i n (j + 1) (better masksize f t i j b) c (omega arith) one.0 in
      (
        rest.0,
        omega (arith, one.1, rest.1),
        λ k l u e. elim (Bool-cases (j == k)) [
          | inl q ↦
              let same : k ≡ j = ground (arith, q) in
              omega (arith, rest.1, one.2 (rw same at e), same)
          | inr q ↦ rest.2 k (ground (arith, q)) (omega arith) e
        ],
      )

  best_rows :
      (n i : ℕ) (b : Best)
      → i + n ≤ f.carriers
      → IsBest b
      → let r = best_from masksize f t n i b in
        IsBest r × (r.j_opt ≤ b.j_opt) × ((i' : ℕ) → i ≤ i' → i' < i + n → Least r i' 0 f.timeslots)
  unfolding best_from
  best_rows zero i b c h = (h, omega arith, λ k l u. absurd (omega arith))
  best_rows (suc n) i b c h =
      let row = best_in_row masksize f t i f.timeslots 0 b in
      let one = best_row i f.timeslots 0 b (omega arith) (omega arith) h in
      let rest = best_rows n (i + 1) row (omega arith) one.0 in
      (
        rest.0,
        omega (arith, one.1, rest.1),
        λ k l u j m w e. elim (Bool-cases (i == k)) [
          | inl q ↦
              let same : k ≡ i = ground (arith, q) in
              omega (arith, rest.1, one.2 j m (omega arith) (rw same at e))
          | inr q ↦ rest.2 k (ground (arith, q)) (omega arith) j m w e
        ],
      )

  -- What the search is to return: nothing if no cell of the frame is eligible, and otherwise the
  -- placement at an eligible cell of the frame such that no eligible one is earlier in time.
  abbrev pub IsEarliest : Option Placement → Type 0
  IsEarliest none = (i j : ℕ) → i < f.carriers → j < f.timeslots → can i j ≡ false
  IsEarliest (some p) =
      (i : ℕ) × (p ≡ place masksize f t i p.slot)
      × (can i p.slot ≡ true)
      × (i < f.carriers)
      × (p.slot < f.timeslots)
      × ((i' j' : ℕ) → i' < f.carriers → j' < f.timeslots → can i' j' ≡ true → p.slot ≤ j')

  not_true : (i j : ℕ) → (can i j ≡ true → ⊥) → can i j ≡ false
  not_true i j h = elim (Bool-cases (can i j)) [ inl e ↦ absurd (h e) | inr e ↦ e ]

  best_placed :
      (o : Option ℕ) (j : ℕ)
      → f.timeslots ≤ masksize
      → IsBestAt j o
      → ((i' j' : ℕ) → i' < f.carriers → j' < f.timeslots → can i' j' ≡ true → j ≤ j')
      → IsEarliest (elim o [ none ↦ none | some i ↦ some (place masksize f t i j) ])
  unfolding place
  best_placed none j w h least =
      λ i k l u. not_true i k (λ e. absurd (omega (arith, h, least i k l u e)))
  best_placed (some i) j w h least = (i, refl, h.0, h.1, h.2, least)

  -- Where the frame has no more timeslots than the superframe has units of time, `bestfit` fails
  -- if no cell of the frame is empty at a time that the terminal has free, and otherwise gives
  -- such a cell to the terminal that is not later than any other such cell.
  pub bestfit-IsEarliest : f.timeslots ≤ masksize → IsEarliest (bestfit masksize f t)
  unfolding bestfit
  bestfit-IsEarliest w =
      let b = best_from masksize f t f.carriers 0 (record { i_opt = none; j_opt = masksize }) in
      let all =
        best_rows f.carriers 0 (record { i_opt = none; j_opt = masksize }) (omega arith)
          (record { at = refl }) in
      best_placed b.i_opt b.j_opt w all.0.at
        (λ i j l u e. all.2 i (omega arith) (omega arith) j (omega arith) u e)
