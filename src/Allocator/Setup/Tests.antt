-- ===== src/Allocator/Setup/Tests.antt =====
-- The setup of src/mac-allocator.cc at a concrete input: two terminals share a frame.
use release.Base.{
  ℕ, zero, suc, ◌<◌, ◌≤◌, ◌≡◌, refl, true, false, some, List, [], ◌∷◌, arith, inl, inr, length,
  get_or,
}
use release.Base.Int.{pos, to_i32}
use release.Allocator.Mask.Bits.{IsMask}
use release.Allocator.Fit.{Frame, Terminal}
use release.Allocator.Assign.Conflict.{NoClashes}
use release.Allocator.Cycle.Superframe.{IsInside}
use release.Allocator.Cycle.{Allocator, allocation}
use release.Allocator.Command.{add_new_frame, new_rule, cra}
use release.Allocator.Tests.{allocator, junk}
use release.Allocator.Setup.Rules.{GivesPlain}
use release.Allocator.Setup.Ready.{IsMemory, start, configure-allocation}
use release.Allocator.Setup.{
  Setup, add_frame, add_rule, add_rate, new_allocator, init, perform, configure,
}

abbrev zeros : ℕ → List ℕ
zeros zero = []
zeros (suc n) = 0 ∷ zeros n

length-zeros : (n : ℕ) → length (zeros n) ≡ n
length-zeros zero = refl
length-zeros (suc n) = omega (arith, length-zeros n)

zeros-IsMask : (n : ℕ) → IsMask (zeros n)
zeros-IsMask n = record { bytes = small n }
  where
    small : (n i : ℕ) → get_or (zeros n) i 0 < 256
    small zero i = omega arith
    small (suc n) zero = omega arith
    small (suc n) (suc i) = small n i

abbrev blank_frame : Frame
blank_frame = record {
  carriers = 0;
  timeslots = 0;
  burstsize = 0;
  cells = λ _ _. pos 0;
  overrun = false;
}

abbrev blank_terminal : Terminal
blank_terminal = record { id = pos 0; rules = []; mask = zeros 512 }

abbrev blank : Allocator
blank = record allocator {
  core = record allocator.core { sf = λ _. blank_frame; tr = λ _. blank_terminal };
  nf = 0;
}

blank-IsMemory : IsMemory blank
blank-IsMemory = record {
  frames = λ i. omega arith;
  arrays = λ i. record {
    rows = omega arith;
    columns = omega arith;
    exact = λ h. absurd (omega (arith, h));
    safe = refl;
  };
  masks = λ t. zeros-IsMask 512;
  sizes = λ t. length-zeros 512;
}

abbrev script : List Setup
script =
    add_frame 1 2 10 (λ _ _. pos 0)
    ∷ add_rule 0 (pos 0) 0
    ∷ add_rule 1 (pos 0) 0
    ∷ add_rate (pos 1) false 15
    ∷ []

script_succeeds : (start 2 script blank).1 ≡ true
unfolding configure perform add_new_frame new_rule cra init new_allocator to_i32
script_succeeds = refl

script_gives : (t : ℕ) → t < 2 → GivesPlain t script
script_gives zero l = inl (refl, refl)
script_gives (suc zero) l = inr (inl (refl, refl))
script_gives (suc (suc t)) l = absurd (omega (arith, l))

configure-allocation_example :
    (y : Allocator) × (allocation (λ _ _ _. false) 5 junk junk junk (start 2 script blank).0
      ≡ some y)
    × NoClashes y.core.bdes
    × (length y.core.bdes ≤ 2)
    × IsInside y
configure-allocation_example =
    configure-allocation 2 script blank (λ _ _ _. false) 5 junk junk junk (omega arith)
      blank-IsMemory refl ((omega arith, omega arith, omega arith), (tt, (tt, (tt, tt))))
      script_gives script_succeeds (omega arith) (omega arith)
