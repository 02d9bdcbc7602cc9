-- ===== src/Allocator/Setup/Rules.antt =====
-- The rules that the commands of src/mac-allocator.cc give to the terminals.
use release.Base.{
  ℕ, ◌≡◌, ◌⊎◌, false, true, ◌||◌, List, [], ◌∷◌, ◌++◌, arith, ◌==◌, subst, Bool-cases, inl, inr,
}
use release.Base.Int.{ℤ, pos, ltb_ℤ, eq_ℤ}
use release.Allocator.Fit.{Rule}
use release.Allocator.Assign.Outcome.{HasPlain}
use release.Allocator.Cycle.{Allocator}
use release.Allocator.Command.{max_term, add_new_frame, new_rule, cra}
use release.Allocator.Setup.{Setup, add_frame, add_rule, add_rate, perform, configure}

-- One of the commands gives the terminal a rule that is not "SMALL".
abbrev pub GivesPlain : ℕ → List Setup → Type 0
GivesPlain t [] = ⊥
GivesPlain t (add_frame carriers timeslots burstsize memory ∷ cs) = GivesPlain t cs
GivesPlain t (add_rate u negative bytes ∷ cs) = GivesPlain t cs
GivesPlain t (add_rule u kind f ∷ cs) =
    ((u == t) ≡ true) × (eq_ℤ kind (pos 1) ≡ false) ⊎ GivesPlain t cs

HasPlain-before : (rs ss : List Rule) → HasPlain rs → HasPlain (rs ++ ss)
HasPlain-before [] ss h = absurd h
HasPlain-before (r ∷ rs) ss (inl e) = inl e
HasPlain-before (r ∷ rs) ss (inr h) = inr (HasPlain-before rs ss h)

HasPlain-last : (rs : List Rule) (r : Rule) → eq_ℤ r.rule (pos 1) ≡ false → HasPlain (rs ++ r ∷ [])
HasPlain-last [] r e = inl e
HasPlain-last (q ∷ rs) r e = inr (HasPlain-last rs r e)

-- No command takes a rule away.
perform-HasPlain :
    (c : Setup) (x : Allocator) (t : ℕ)
    → HasPlain (x.core.tr t).rules
    → HasPlain ((perform c x).0.core.tr t).rules
unfolding perform add_new_frame new_rule cra
perform-HasPlain (add_frame carriers timeslots burstsize memory) x t h = h
perform-HasPlain (add_rule u kind f) x t h = elim (Bool-cases (u == t)) [
  | inl e ↦ rw e (
      HasPlain-before (x.core.tr u).rules _
        (subst (λ i. HasPlain (x.core.tr i).rules) (ground (arith, e)) h))
  | inr e ↦ rw e h
]
perform-HasPlain (add_rate u negative bytes) x t h =
    elim (Bool-cases (ltb_ℤ u (pos 0) || ltb_ℤ (pos max_term) u || negative)) [
      | inl e ↦ rw e h
      | inr e ↦ rw e h
    ]

configure-kept :
    (cs : List Setup) (x : Allocator) (t : ℕ)
    → HasPlain (x.core.tr t).rules
    → HasPlain ((configure cs x).0.core.tr t).rules
unfolding configure
configure-kept [] x t h = h
configure-kept (c ∷ cs) x t h = configure-kept cs (perform c x).0 t (perform-HasPlain c x t h)

new_rule-HasPlain :
    (u : ℕ) (kind : ℤ) (f : ℕ) (x : Allocator) (t : ℕ)
    → (u == t) ≡ true
    → eq_ℤ kind (pos 1) ≡ false
    → HasPlain ((new_rule u kind f x).0.core.tr t).rules
unfolding new_rule
new_rule-HasPlain u kind f x t e k =
    rw e (HasPlain-last (x.core.tr u).rules (record { rule = kind; fp = f }) k)

pub configure-HasPlain :
    (cs : List Setup) (x : Allocator) (t : ℕ)
    → GivesPlain t cs
    → HasPlain ((configure cs x).0.core.tr t).rules
unfolding configure perform
configure-HasPlain [] x t h = absurd h
configure-HasPlain (add_frame carriers timeslots burstsize memory ∷ cs) x t h =
    configure-HasPlain cs (add_new_frame carriers timeslots burstsize memory x).0 t h
configure-HasPlain (add_rate u negative bytes ∷ cs) x t h =
    configure-HasPlain cs (cra u negative bytes x).0 t h
configure-HasPlain (add_rule u kind f ∷ cs) x t (inl (e, k)) =
    configure-kept cs (new_rule u kind f x).0 t (new_rule-HasPlain u kind f x t e k)
configure-HasPlain (add_rule u kind f ∷ cs) x t (inr h) =
    configure-HasPlain cs (new_rule u kind f x).0 t h
