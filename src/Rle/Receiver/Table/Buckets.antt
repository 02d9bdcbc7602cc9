-- ===== src/Rle/Receiver/Table/Buckets.antt =====
-- Which contexts the buckets of `MacRle::get_context` hold.
use release.Base.{
  ℕ, zero, suc, ◌+◌, ◌*◌, ◌<◌, ◌≤◌, ◌≡◌, refl, sym, ◌∙◌, inl, inr, Option, none, some, arith, ◌==◌,
  update, Bool-cases, Option-cases,
}
use release.Rle.Context.{Context}
use release.Rle.Receiver.Table.{
  Contexts, max_cnts, down_from, init, bucket, walk, take_free, get_context,
}

abbrev full : Option ℕ → ℕ
full none = 0
full (some _) = 1

-- How many of the first `n` buckets are in use.
pub occupied : (ℕ → Option ℕ) → ℕ → ℕ
occupied head zero = 0
occupied head (suc n) = full (head n) + occupied head n

occupied-le : (head : ℕ → Option ℕ) (n : ℕ) → occupied head n ≤ n
unfolding occupied
occupied-le head zero = omega arith
occupied-le head (suc n) = ground (arith, occupied-le head n)

occupied-lt : (head : ℕ → Option ℕ) (n k : ℕ) → k < n → head k ≡ none → occupied head n < n
unfolding occupied
occupied-lt head zero k h e = absurd (omega arith)
occupied-lt head (suc n) k h e = elim (Bool-cases (k == n)) [
  | inl t ↦ ground (arith, occupied-le head n)
  | inr t ↦ ground (arith, occupied-lt head n k)
]

occupied-update_same :
    (head : ℕ → Option ℕ) (v : Option ℕ) (n k : ℕ)
    → n ≤ k
    → occupied (update head k v) n ≡ occupied head n
unfolding occupied
occupied-update_same head v zero k h = refl
occupied-update_same head v (suc n) k h = ground (arith, occupied-update_same head v n k)

occupied-update :
    (head : ℕ → Option ℕ) (cp n k : ℕ)
    → k < n
    → head k ≡ none
    → occupied (update head k (some cp)) n ≡ suc (occupied head n)
unfolding occupied
occupied-update head cp zero k h e = absurd (omega arith)
occupied-update head cp (suc n) k h e = elim (Bool-cases (k == n)) [
  | inl t ↦ ground (arith, occupied-update_same head (some cp) n k)
  | inr t ↦ ground (arith, occupied-update head cp n k)
]

-- The context at the head of bucket `k`: it is in use, alone, and of a flow of this bucket.
pub record IsHead (cs : Contexts) (level k cp : ℕ) : Type 0 where
  pub used : level ≤ cp
  pub alone : (cs.cell cp).next ≡ none
  pub small : (cs.cell cp).fid < 8
  pub own : bucket (cs.cell cp).src (cs.cell cp).fid ≡ k

-- The free contexts are those below `level`, and there are as many as empty buckets.
pub record IsSound (cs : Contexts) : Type 0 where
  pub level : ℕ
  pub chain : cs.free ≡ down_from level
  pub counted : occupied cs.head max_cnts + level ≡ max_cnts
  pub heads : (k cp : ℕ) → cs.head k ≡ some cp → IsHead cs level k cp

empty-occupied : (n : ℕ) → occupied (λ _. none) n ≡ 0
unfolding occupied
empty-occupied zero = refl
empty-occupied (suc n) = omega (arith, empty-occupied n)

pub init-IsSound : (memory : ℕ → Context) → IsSound (init memory)
unfolding init
init-IsSound memory = record {
  level = max_cnts;
  chain = refl;
  counted = omega (arith, empty-occupied max_cnts);
  heads = λ k cp e. cc;
}

same_fid : (s f t g : ℕ) → f < 8 → g < 8 → bucket s f ≡ bucket t g → f ≡ g
unfolding bucket
same_fid s f t g h k e = omega arith

bucket-lt : (s f : ℕ) → bucket s f < max_cnts
unfolding bucket
bucket-lt s f = omega arith

walk_head :
    (fuel : ℕ) (cell : ℕ → Context) (src fid cp : ℕ)
    → (cell cp).fid ≡ fid
    → walk (suc fuel) cell src fid (some cp) ≡ some (some cp)
unfolding walk
walk_head fuel cell src fid cp e = ground arith

-- A bucket in use is never walked past its head.
pub get_context_used :
    (cs : Contexts) (src fid cp : ℕ)
    → IsSound cs
    → fid < 8
    → cs.head (bucket src fid) ≡ some cp
    → get_context cs src fid ≡ some (cp, cs)
unfolding get_context
get_context_used cs src fid cp v h e =
    let top = v.heads (bucket src fid) cp e in
    let same = same_fid (cs.cell cp).src (cs.cell cp).fid src fid top.small h top.own in
    rw (e, get_context, walk_head 512 cs.cell src fid cp same)

-- The state after a free context has been taken.
taken : Contexts → ℕ → ℕ → ℕ → Contexts
taken cs src fid n = record {
  cell = update cs.cell n (record (cs.cell n) { exp_sn = 0; src = src; fid = fid; next = none });
  head = update cs.head (bucket src fid) (some n);
  free = down_from n;
}

get_context_new :
    (cs : Contexts) (src fid n : ℕ)
    → cs.free ≡ down_from (suc n)
    → cs.head (bucket src fid) ≡ none
    → get_context cs src fid ≡ some (n, taken cs src fid n)
unfolding get_context walk take_free taken down_from
get_context_new cs src fid n f e = rw (e, get_context, f, take_free)

taken-IsHead :
    (cs : Contexts) (src fid n : ℕ)
    → fid < 8
    → ((k cp : ℕ) → cs.head k ≡ some cp → IsHead cs (suc n) k cp)
    → (k cp : ℕ) → (taken cs src fid n).head k ≡ some cp
    → IsHead (taken cs src fid n) n k cp
unfolding taken
taken-IsHead cs src fid n h heads k cp e = elim (Bool-cases (bucket src fid == k)) [
  | inl t ↦ ground arith
  | inr t ↦ ground (arith, heads k cp)
]

taken-IsSound :
    (cs : Contexts) (src fid n : ℕ)
    → fid < 8
    → cs.head (bucket src fid) ≡ none
    → occupied cs.head max_cnts + suc n ≡ max_cnts
    → ((k cp : ℕ) → cs.head k ≡ some cp → IsHead cs (suc n) k cp)
    → IsSound (taken cs src fid n)
unfolding taken
taken-IsSound cs src fid n h e c heads = record {
  level = n;
  chain = refl;
  counted =
      omega (arith, occupied-update cs.head n max_cnts (bucket src fid) (bucket-lt src fid) e);
  heads = taken-IsHead cs src fid n h heads;
}

-- What `get_context` gives: a context that is now the head of the flow's bucket.
abbrev pub Gives : Contexts → ℕ → ℕ → Option (ℕ × Contexts) → Type 0
Gives cs src fid r =
    (cp : ℕ) × (after : Contexts) × (r ≡ some (cp, after))
    × IsSound after
    × (after.head (bucket src fid) ≡ some cp)

get_context_at_level :
    (cs : Contexts) (src fid level : ℕ)
    → IsSound cs
    → fid < 8
    → cs.head (bucket src fid) ≡ none
    → cs.free ≡ down_from level
    → occupied cs.head max_cnts + level ≡ max_cnts
    → ((k cp : ℕ) → cs.head k ≡ some cp → IsHead cs level k cp)
    → Gives cs src fid (get_context cs src fid)
unfolding taken
get_context_at_level cs src fid zero v h e f c heads =
    absurd (omega (arith, occupied-lt cs.head max_cnts (bucket src fid) (bucket-lt src fid) e))
get_context_at_level cs src fid (suc n) v h e f c heads = (
  n,
  taken cs src fid n,
  get_context_new cs src fid n f e,
  taken-IsSound cs src fid n h e c heads,
  ground arith,
)

-- In a sound table of contexts `get_context`, called with one of the eight fragment identifiers,
-- neither aborts nor loops: it gives a context, at the head of the flow's bucket, and leaves the
-- table sound.
pub get_context_total :
    (cs : Contexts) (src fid : ℕ) → IsSound cs → fid < 8 → Gives cs src fid (get_context cs src fid)
get_context_total cs src fid v h = elim (Option-cases (cs.head (bucket src fid))) [
  | inl e ↦ get_context_at_level cs src fid v.level v h e v.chain v.counted v.heads
  | inr (cp, e) ↦ (cp, cs, get_context_used cs src fid cp v h e, v, e)
]

same_bucket : (src n fid : ℕ) → bucket (src + 64 * n) fid ≡ bucket src fid
unfolding bucket
same_bucket src n fid = omega arith

-- Two sources whose numbers differ by a multiple of 64 share their contexts: once `get_context`
-- has served one, it gives the other, for the same fragment identifier, the very same context.
pub get_context_collides :
    (cs after : Contexts) (src n fid cp : ℕ)
    → IsSound cs
    → fid < 8
    → get_context cs src fid ≡ some (cp, after)
    → get_context after (src + 64 * n) fid ≡ some (cp, after)
get_context_collides cs after src n fid cp v h e =
    let got = get_context_total cs src fid v h in
    let same : some (cp, after) ≡ some (got.0, got.1) = sym e ∙ got.2 in
    let a : after ≡ got.1 = cc same in
    let c : cp ≡ got.0 = cc same in
    rw (a, c)
      (get_context_used got.1 (src + 64 * n) fid got.0 got.3 h (rw (same_bucket src n fid) got.4))
