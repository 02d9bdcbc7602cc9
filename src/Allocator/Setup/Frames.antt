-- ===== src/Allocator/Setup/Frames.antt =====
-- The frames that src/mac-allocator.cc sets up, and their units of time.
use native.Mathlib.Nat.{mul-le-mul, mul-div_cancel}
use release.Base.{ℕ, ◌*◌, ◌/◌, ◌<◌, ◌≤◌, ◌≡◌, refl, sym, ap, ◌∙◌, Bool, false, arith, ltb}
use release.Base.Int.{ℤ}
use release.Allocator.Fit.{Frame, max_carr, max_slots, reset_frame}
use release.Allocator.Assign.Outcome.{IsSound}
use release.Allocator.Command.{msk_len}

pub small_product : (a b : ℕ) → a ≤ 8 * msk_len → b ≤ max_slots → a * b < 2147483648
small_product a b h l =
    omega (arith, mul-le-mul {n₁ = a} {m₁ = b} {n₂ = 8 * msk_len} {m₂ = max_slots} h l)

swapped : (q k n : ℕ) → (q * k) * n ≡ (q * n) * k
swapped q k n = grind arith

-- A timeslot of whole units of time has whole numbers of smaller ones.
pub more_units : (m k : ℕ) (f : Frame) → IsSound m f → IsSound (m * k) f
more_units m k f v = record {
  rows = v.rows;
  columns = v.columns;
  exact = λ h.
      let n : ℕ = f.timeslots in
      let parts : ((m / n) * k) * n ≡ m * k = swapped (m / n) k n ∙ ap (λ q. q * k) (v.exact h) in
      ap (λ q. (q / n) * n) (sym parts) ∙ ap (λ q. q * n) (mul-div_cancel ((m / n) * k) h) ∙ parts;
  safe = v.safe;
}

pub positive_product : (a b : ℕ) → 0 < a → 0 < b → 0 < a * b
positive_product a b h l = grind arith

-- A frame that `add-new-frame` sets up.
pub new_frame-IsSound :
    (masksize carriers timeslots burstsize : ℕ) (memory : ℕ → ℕ → ℤ) (overrun : Bool)
    → carriers ≤ max_carr
    → timeslots ≤ max_slots
    → overrun ≡ false
    → IsSound (masksize * timeslots) (
        reset_frame (record {
          carriers = carriers;
          timeslots = timeslots;
          burstsize = burstsize;
          cells = memory;
          overrun = overrun;
        }))
unfolding reset_frame
new_frame-IsSound masksize carriers timeslots burstsize memory overrun c t o = record {
  rows = c;
  columns = t;
  exact = λ h. ap (λ q. q * timeslots) (mul-div_cancel masksize h);
  safe =
      let row : ltb max_carr carriers ≡ false = ground (arith, c) in
      let column : ltb max_slots timeslots ≡ false = ground (arith, t) in rw (o, row, column) refl;
}
