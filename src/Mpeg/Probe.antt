-- ===== src/Mpeg/Probe.antt =====
-- What `MpegLL::get_queue` (src/mpeg-encap.cc) finds.
use release.Base.{
  ℕ, zero, suc, ◌+◌, ◌%◌, ◌<◌, ◌≡◌, ◌≢◌, ◌⊎◌, refl, sym, ap, ◌∙◌, false, Option, none, some, arith,
  ◌==◌, ==_iff, ==_refl, subst, Bool-cases, Option-cases, inl, inr,
}
use release.Mpeg.{n_queues, Buffer, probe, get_queue}

-- The place holds no cell, or one for the address.
abbrev pub Suits : Buffer → ℕ → ℕ → Type 0
Suits buffer addr l = (buffer l ≡ none) ⊎ (buffer l ≡ some addr)

-- The place holds a cell for another address.
abbrev pub Taken : Buffer → ℕ → ℕ → Type 0
Taken buffer addr l = (a : ℕ) × (buffer l ≡ some a) × (a ≢ addr)

-- What a search from `l` on comes to, over `n` places.
abbrev pub Found : Buffer → ℕ → ℕ → ℕ → Option ℕ → Type 0
Found buffer addr n l none = (i : ℕ) → i < n → Taken buffer addr ((l + i) % n_queues)
Found buffer addr n l (some m) =
    (i : ℕ) × (i < n)
    × (m ≡ (l + i) % n_queues)
    × Suits buffer addr m
    × ((j : ℕ) → j < i → Taken buffer addr ((l + j) % n_queues))

step : (l j : ℕ) → ((l + 1) % n_queues + j) % n_queues ≡ (l + suc j) % n_queues
step l j = omega arith

here : (l : ℕ) → l < n_queues → (l + 0) % n_queues ≡ l
here l h = omega arith

one_more :
    (buffer : Buffer) (addr i l : ℕ)
    → l < n_queues
    → Taken buffer addr l
    → ((j : ℕ) → j < i → Taken buffer addr (((l + 1) % n_queues + j) % n_queues))
    → (j : ℕ) → j < suc i
    → Taken buffer addr ((l + j) % n_queues)
one_more buffer addr i l h t js zero u = subst (Taken buffer addr) (sym (here l h)) t
one_more buffer addr i l h t js (suc j) u =
    subst (Taken buffer addr) (step l j) (js j (omega (arith, u)))

later :
    (buffer : Buffer) (addr n l : ℕ) (found : Option ℕ)
    → l < n_queues
    → Taken buffer addr l
    → Found buffer addr n ((l + 1) % n_queues) found
    → Found buffer addr (suc n) l found
later buffer addr n l none h t f = one_more buffer addr n l h t f
later buffer addr n l (some m) h t (i, u, e, s, js) =
    (suc i, omega (arith, u), e ∙ step l i, s, one_more buffer addr i l h t js)

first :
    (buffer : Buffer) (addr n l : ℕ)
    → l < n_queues
    → Suits buffer addr l
    → Found buffer addr (suc n) l (some l)
first buffer addr n l h s = (0, omega arith, sym (here l h), s, λ j u. absurd (omega (arith, u)))

pub probe_empty :
    (n : ℕ) (buffer : Buffer) (addr l : ℕ) → buffer l ≡ none → probe (suc n) buffer addr l ≡ some l
unfolding probe
probe_empty n buffer addr l e = rw (probe, e) refl

pub probe_own :
    (n : ℕ) (buffer : Buffer) (addr l : ℕ)
    → buffer l ≡ some addr
    → probe (suc n) buffer addr l ≡ some l
unfolding probe
probe_own n buffer addr l e = rw (probe, e, ==_refl addr) refl

probe_other :
    (n : ℕ) (buffer : Buffer) (addr l a : ℕ)
    → buffer l ≡ some a
    → (a == addr) ≡ false
    → probe (suc n) buffer addr l ≡ probe n buffer addr ((l + 1) % n_queues)
unfolding probe
probe_other n buffer addr l a e b = rw (probe, e, b) refl

probe-Found :
    (n : ℕ) (buffer : Buffer) (addr l : ℕ)
    → l < n_queues
    → Found buffer addr n l (probe n buffer addr l)
unfolding probe
probe-Found zero buffer addr l h = λ i u. absurd (omega (arith, u))
probe-Found (suc n) buffer addr l h = elim (Option-cases (buffer l)) [
  | inl e ↦
      subst (Found buffer addr (suc n) l) (sym (probe_empty n buffer addr l e))
        (first buffer addr n l h (inl e))
  | inr (a, e) ↦ elim (Bool-cases (a == addr)) [
    | inl b ↦
        let own : buffer l ≡ some addr = e ∙ ap (λ k. some k) ((==_iff _ _).0 b) in
        subst (Found buffer addr (suc n) l) (sym (probe_own n buffer addr l own))
          (first buffer addr n l h (inr own))
    | inr b ↦ subst (Found buffer addr (suc n) l) (sym (probe_other n buffer addr l a e b)) (
        later buffer addr n l (probe n buffer addr ((l + 1) % n_queues)) h
          (a, e, λ k. ground (arith, b, k))
          (probe-Found n buffer addr ((l + 1) % n_queues) (omega arith)))
  ]
]

-- `get_queue` gives the first place, from the address's own on and round the buffer, that is empty
-- or holds a cell for the address; it aborts exactly if all places hold cells for other addresses.
pub get_queue-Found :
    (buffer : Buffer) (addr : ℕ)
    → Found buffer addr n_queues (addr % n_queues) (get_queue buffer addr)
unfolding get_queue
get_queue-Found buffer addr = probe-Found n_queues buffer addr (addr % n_queues) (omega arith)

-- While a cell for an address is being filled at another place than the address's own, and its own
-- place is empty, `get_queue` gives the empty place: a second cell is begun for the address.
pub get_queue_splits :
    (buffer : Buffer) (addr l : ℕ)
    → buffer l ≡ some addr
    → buffer (addr % n_queues) ≡ none
    → (get_queue buffer addr ≡ some (addr % n_queues)) × (l ≢ addr % n_queues)
unfolding get_queue
get_queue_splits buffer addr l e n = (probe_empty 99 buffer addr (addr % n_queues) n, λ k. cc)
