-- ===== src/Allocator/Command.antt =====
-- `AllocatorMFTDMA::command`: the calls that set up frames, rules and constant rates. Their numbers
-- come from the scripts, and are taken to be non-negative but for the terminal of `cra_`.
use release.Base.{
  ℕ, mul32, ◌+◌, ◌*◌, ◌%◌, ◌<◌, ◌≤◌, ◌≡◌, ◌↔◌, refl, Bool, true, false, ◌||◌, not, [], ◌∷◌, ◌++◌,
  arith, ltb, ◌==◌, if◌then◌else◌, update, Bool-cases, inl, inr,
}
use release.Base.Int.{ℤ, pos, ltb_ℤ, pos_part, to_i32}
use release.Allocator.Fit.{Frame, reset_frame}
use release.Allocator.Assign.Outcome.{FramesFit}
use release.Allocator.Cycle.{Allocator}

abbrev pub max_term : ℕ
max_term = 1100

abbrev pub msk_len : ℕ
msk_len = 512

-- The result beside the new state is that of `TCL_OK`. `masksize` is an `int`: a product that does
-- not fit wraps, and is compared by its sign.
unfoldable pub add_new_frame : ℕ → ℕ → ℕ → (ℕ → ℕ → ℤ) → Allocator → Allocator × Bool
unfolding reset_frame
add_new_frame carriers timeslots burstsize memory x = (
  record x {
    config = record x.config { masksize = product };
    core = record x.core { sf = update x.core.sf x.nf (reset_frame fresh) };
    nf = x.nf + 1;
  },
  not (ltb_ℤ (pos (msk_len * 8)) (to_i32 product)),
)
  where
    product : ℕ
    product = mul32 x.config.masksize timeslots

    fresh : Frame
    fresh = record {
      carriers = carriers;
      timeslots = timeslots;
      burstsize = burstsize;
      cells = memory;
      overrun = (x.core.sf x.nf).overrun;
    }

unfoldable pub new_rule : ℕ → ℤ → ℕ → Allocator → Allocator × Bool
new_rule t kind f x = (
  record x {
    core = record x.core {
      tr = update x.core.tr t (record (x.core.tr t) {
        id = pos t;
        rules = (x.core.tr t).rules ++ record { rule = kind; fp = f } ∷ [];
      });
    };
  },
  true,
)

-- `cra_`; the rate is a double: whether it is negative, and what it comes to in bytes.
unfoldable pub cra : ℤ → Bool → ℕ → Allocator → Allocator × Bool
cra t negative bytes x =
    if ltb_ℤ t (pos 0) || ltb_ℤ (pos max_term) t || negative
    then (x, false)
    else (record x { cnst_rate = update x.cnst_rate (pos_part t) bytes }, true)

grows : (a b : ℕ) → 0 < b → a ≤ a * b
grows a b h = grind arith

-- The comparison of a product that fits.
masksize_fits :
    (n : ℕ)
    → n < 2147483648
    → (not (ltb_ℤ (pos (msk_len * 8)) (to_i32 n)) ≡ true) ↔ (n ≤ 8 * msk_len)
unfolding to_i32
masksize_fits n h =
    let positive : ltb n 2147483648 ≡ true = ground (arith, h) in rw positive (ground arith)

fits_int : (n : ℕ) → n < 2147483648 → n % 4294967296 ≡ n
fits_int n h = omega (arith, h)

-- Where the product of the timeslots fits an `int`, `add-new-frame` succeeds exactly if the product of the timeslots of all frames, `masksize`, stays
-- within the bits of a mask. In both cases the frame has been added and `masksize` multiplied; the
-- frames still fit the superframe if they did, and the new one has a timeslot.
pub add_new_frame_lem :
    (carriers timeslots burstsize : ℕ) (memory : ℕ → ℕ → ℤ) (x : Allocator)
    → 0 < x.config.masksize
    → 0 < timeslots
    → x.config.masksize * timeslots < 2147483648
    → FramesFit x.config.masksize x.core.sf
    → let (y, ok) = add_new_frame carriers timeslots burstsize memory x in
      ((ok ≡ true) ↔ (y.config.masksize ≤ 8 * msk_len))
      × (y.config.masksize ≡ x.config.masksize * timeslots)
      × (y.nf ≡ x.nf + 1)
      × FramesFit y.config.masksize y.core.sf
unfolding add_new_frame reset_frame
add_new_frame_lem carriers timeslots burstsize memory x h l small fit = (
  rw (fits_int (x.config.masksize * timeslots) small)
      (masksize_fits (x.config.masksize * timeslots) small),
  fits_int (x.config.masksize * timeslots) small,
  refl,
  λ i. elim (Bool-cases (x.nf == i)) [
    | inl e ↦ rw (e, fits_int (x.config.masksize * timeslots) small) (grind arith)
    | inr e ↦
        rw (e, fits_int (x.config.masksize * timeslots) small)
          (omega (arith, fit i, grows x.config.masksize timeslots l))
  ],
)
