-- ===== src/Atm/Arp.antt =====
-- The destination of a cell: the second half of `AtmLL::sendDown` (src/atm-encap.cc). The peers of
-- the channel (`SatChannel::find_peer_mac_addr` of ns-2) are a parameter.
use release.Base.{
  ◌≡◌, ◌⊎◌, inl, inr, refl, sym, ap, Bool-cases, Bool, true, false, Option, none, some, arith,
  if◌then◌else◌,
}
use release.Base.Int.{pos_part, neg_part, ℤ, pos, negsuc, ltb_ℤ, eq_ℤ, ◌≤ℤ◌, eq_of_parts}

-- `arpcachedst_` and `arpcache_`.
pub record ArpCache : Type 0 where
  pub dst : ℤ
  pub mac : ℤ

pub data Dest : Type 0 where
  broadcast : Dest
  peer : ℤ → Dest

-- `none` is the call of `abort`; -1 is the broadcast address.
unfoldable pub resolve : (ℤ → ℤ) → ArpCache → Bool → ℤ → Option (ArpCache × Dest)
resolve find_peer arp is_inet dst =
    if ltb_ℤ dst (negsuc 0)
    then none
    else if is_inet
    then (if eq_ℤ dst (negsuc 0)
        then some (arp, broadcast)
        else if eq_ℤ dst arp.dst
        then some (arp, peer arp.mac)
        else if ltb_ℤ (find_peer dst) (pos 0)
        then none
        else some (record { dst = dst; mac = find_peer dst }, peer (find_peer dst)))
    else none

-- The cache is empty, which it is with -1, or holds what the channel answers.
abbrev pub IsCoherent : (ℤ → ℤ) → ArpCache → Type 0
IsCoherent find_peer arp =
    (arp.dst ≡ negsuc 0) ⊎ ((arp.mac ≡ find_peer arp.dst) × (pos 0 ≤ℤ find_peer arp.dst))

-- The same without a cache: every address is asked for.
unfoldable pub lookup : (ℤ → ℤ) → Bool → ℤ → Option Dest
lookup find_peer is_inet dst =
    if ltb_ℤ dst (negsuc 0)
    then none
    else if is_inet
    then (if eq_ℤ dst (negsuc 0)
        then some broadcast
        else if ltb_ℤ (find_peer dst) (pos 0)
        then none
        else some (peer (find_peer dst)))
    else none

-- What a lookup through the cache comes to.
abbrev pub Answers : (ℤ → ℤ) → Option (ArpCache × Dest) → Option Dest → Type 0
Answers find_peer none answer = answer ≡ none
Answers find_peer (some (arp, dest)) answer = IsCoherent find_peer arp × (answer ≡ some dest)

hit :
    (find_peer : ℤ → ℤ) (arp : ArpCache) (dst : ℤ)
    → IsCoherent find_peer arp
    → eq_ℤ dst arp.dst ≡ true
    → eq_ℤ dst (negsuc 0) ≡ false
    → (arp.mac ≡ find_peer dst) × (ltb_ℤ (find_peer dst) (pos 0) ≡ false)
hit find_peer arp dst (inl e) h n = absurd (ground (arith, ap pos_part e, ap neg_part e))
hit find_peer arp dst (inr (m, p)) h n =
    rw (eq_of_parts dst arp.dst (ground arith)) (m, ground arith)

-- With a coherent cache the destination is the one that the channel gives, the code aborts exactly
-- where the lookup fails, and the cache stays coherent.
pub resolve-IsCoherent :
    (find_peer : ℤ → ℤ) (arp : ArpCache) (is_inet : Bool) (dst : ℤ)
    → IsCoherent find_peer arp
    → Answers find_peer (resolve find_peer arp is_inet dst) (lookup find_peer is_inet dst)
unfolding resolve lookup
resolve-IsCoherent find_peer arp false dst v = elim (Bool-cases (ltb_ℤ dst (negsuc 0))) [
  | inl t ↦ rw t refl
  | inr t ↦ rw t refl
]
resolve-IsCoherent find_peer arp true dst v = elim (Bool-cases (ltb_ℤ dst (negsuc 0))) [
  | inl t ↦ rw t refl
  | inr t ↦ elim (Bool-cases (eq_ℤ dst (negsuc 0))) [
    | inl b ↦ rw (t, b) (v, refl)
    | inr b ↦ elim (Bool-cases (eq_ℤ dst arp.dst)) [
      | inl c ↦
          let (found, answers) = hit find_peer arp dst v c b in
          rw (t, b, c, answers) (v, ap (λ m. some (peer m)) (sym found))
      | inr c ↦ elim (Bool-cases (ltb_ℤ (find_peer dst) (pos 0))) [
        | inl n ↦ rw (t, b, c, n) refl
        | inr n ↦ rw (t, b, c, n) (inr (refl, ground (arith, n)), refl)
      ]
    ]
  ]
]

-- The destination that the channel gives is the answer, and the cache stays coherent.
answered :
    (find_peer : ℤ → ℤ) (answer : Option Dest) (d : Dest) (result : Option (ArpCache × Dest))
    → answer ≡ some d
    → Answers find_peer result answer
    → (arp : ArpCache) × (result ≡ some (arp, d)) × IsCoherent find_peer arp
answered find_peer answer d none e h = absurd (cc)
answered find_peer answer d (some (arp, dest)) e (v, h) = (arp, cc, v)

pub resolve-lookup :
    (find_peer : ℤ → ℤ) (arp : ArpCache) (is_inet : Bool) (dst : ℤ) (d : Dest)
    → lookup find_peer is_inet dst ≡ some d
    → IsCoherent find_peer arp
    → (arp' : ArpCache) × (resolve find_peer arp is_inet dst ≡ some (arp', d))
      × IsCoherent find_peer arp'
resolve-lookup find_peer arp is_inet dst d e v =
    answered find_peer (lookup find_peer is_inet dst) d (resolve find_peer arp is_inet dst) e
      (resolve-IsCoherent find_peer arp is_inet dst v)
