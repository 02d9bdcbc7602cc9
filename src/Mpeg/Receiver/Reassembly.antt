-- ===== src/Mpeg/Receiver/Reassembly.antt =====
-- The packets that `MpegLL::sendUp` (src/mpeg-encap.cc) puts together from the fragments of cells.
use release.Base.{
  ℕ, ◌+◌, ◌-◌, ◌<◌, ◌≡◌, ◌≢◌, refl, sym, ap, subst, ◌∙◌, Option, none, some, List, [], ◌∷◌, ◌++◌,
  map, arith, ◌==◌, ==_refl, append_assoc, append-nil, false,
}
use release.Mpeg.Sender.{Datagram, Frag}
use release.Mpeg.Receiver.{Partial, Upward, matching, process, process_all}

-- The fragments are those of a packet of `total` bytes from its byte `got` to its end, and none of
-- them begins at the end.
abbrev pub Completes : (uid total got : ℕ) → List Frag → Type 0
Completes uid total got [] = got ≡ total
Completes uid total got (f ∷ fs) =
    (f.uid ≡ uid) × (f.total ≡ total) × (got < total) × Completes uid total (got + f.size) fs

abbrev pub upward : Datagram → Upward
upward p = record { uid = p.uid; size = p.size }

-- The fragments of some packets, one packet after the other.
abbrev pub Carries : List Datagram → List Frag → Type 0
Carries [] fs = fs ≡ []
Carries (p ∷ ps) fs =
    (xs : List Frag) × (ys : List Frag) × (fs ≡ xs ++ ys)
    × Completes p.uid (p.size + 8) 0 xs
    × Carries ps ys

-- No packet of the same identity is at hand.
abbrev pub IsOther : ℕ → Option Partial → Type 0
IsOther uid none = Unit {0}
IsOther uid (some c) = c.uid ≢ uid

partial : (pid uid total got : ℕ) → Partial
partial pid uid total got = record { uid = uid; size = total; length = got; addr = pid }

matching_own :
    (pid uid total got : ℕ) (f : Frag)
    → f.uid ≡ uid
    → matching pid (some (partial pid uid total got)) f ≡ partial pid uid total got
unfolding matching partial
matching_own pid uid total got f e = rw (e, ==_refl uid) refl

matching_other :
    (pid : ℕ) (o : Option Partial) (f : Frag)
    → IsOther f.uid o
    → matching pid o f ≡ partial pid f.uid f.total 0
unfolding matching partial
matching_other pid none f h = refl
matching_other pid (some c) f h =
    let differs : (c.uid == f.uid) ≡ false = ground arith in rw differs refl

process_last :
    (pid uid total got : ℕ) (o : Option Partial) (up : List Upward) (f : Frag)
    → matching pid o f ≡ partial pid uid total got
    → got + f.size ≡ total
    → process pid (o, up) f ≡ (none, up ++ record { uid = uid; size = total - 8 } ∷ [])
unfolding process partial
process_last pid uid total got o up f m e = rw (process, m, e, ==_refl total) refl

process_more :
    (pid uid total got : ℕ) (o : Option Partial) (up : List Upward) (f : Frag)
    → matching pid o f ≡ partial pid uid total got
    → got + f.size < total
    → process pid (o, up) f ≡ (some (partial pid uid total (got + f.size)), up)
unfolding process partial
process_more pid uid total got o up f m l =
    let short : (total == got + f.size) ≡ false = ground arith in rw (process, m, short) refl

-- The fragments of a packet from one on that goes on with it.
completed :
    (fs : List Frag) (f : Frag) (pid uid total got : ℕ) (o : Option Partial) (up : List Upward)
    → matching pid o f ≡ partial pid uid total got
    → Completes uid total got (f ∷ fs)
    → process_all pid (o, up) (f ∷ fs) ≡ (none, up ++ record { uid = uid; size = total - 8 } ∷ [])
unfolding process_all
completed [] f pid uid total got o up m (i, t, l, e) = process_last pid uid total got o up f m e
completed (g ∷ gs) f pid uid total got o up m (i, t, l, (i', t', l', e)) =
    ap (λ s. process_all pid s (g ∷ gs)) (process_more pid uid total got o up f m l')
    ∙ completed gs g pid uid total (got + f.size) (some (partial pid uid total (got + f.size))) up
        (matching_own pid uid total (got + f.size) g i') (i', t', l', e)

-- The fragments of a packet, when no part of it is at hand.
packet_given :
    (pid : ℕ) (p : Datagram) (o : Option Partial) (up : List Upward) (fs : List Frag)
    → IsOther p.uid o
    → Completes p.uid (p.size + 8) 0 fs
    → process_all pid (o, up) fs ≡ (none, up ++ upward p ∷ [])
packet_given pid p o up [] n e = absurd (omega (arith, e))
packet_given pid p o up (f ∷ fs) n (i, t, l, e) =
    completed fs f pid p.uid (p.size + 8) 0 o up
      (matching_other pid o f (subst (λ u. IsOther u o) (sym i) n)
        ∙ ap (λ u. partial pid u f.total 0) i
        ∙ ap (λ k. partial pid p.uid k 0) t)
      (i, t, l, e)
    ∙ ap (λ k. (none, up ++ record { uid = p.uid; size = k } ∷ [])) (omega arith)

pub process_all-append :
    (pid : ℕ) (s : Option Partial × List Upward) (xs ys : List Frag)
    → process_all pid s (xs ++ ys) ≡ process_all pid (process_all pid s xs) ys
unfolding process_all
process_all-append pid s [] ys = refl
process_all-append pid s (x ∷ xs) ys = process_all-append pid (process pid s x) xs ys

pub all_given :
    (pid : ℕ) (ps : List Datagram) (fs : List Frag) (up : List Upward)
    → Carries ps fs
    → process_all pid (none, up) fs ≡ (none, up ++ map upward ps)
unfolding process_all
all_given pid [] fs up e =
    ap (λ l. process_all pid (none, up) l) e ∙ ap (λ l. (none, l)) (sym (append-nil up))
all_given pid (p ∷ ps) fs up (xs, ys, e, c, more) =
    ap (λ l. process_all pid (none, up) l) e
    ∙ process_all-append pid (none, up) xs ys
    ∙ ap (λ s. process_all pid s ys) (packet_given pid p none up xs tt c)
    ∙ all_given pid ps ys (up ++ upward p ∷ []) more
    ∙ ap (λ l. (none, l)) (append_assoc up (upward p ∷ []) (map upward ps))

-- Packets whose fragments arrive whole and one packet after the other, on a queue where no part of
-- the first is at hand, are given up in order, each once and with its size, and no part of a packet
-- is left.
pub process_all-Carries :
    (pid : ℕ) (p : Datagram) (ps : List Datagram) (o : Option Partial) (up : List Upward)
    → (fs : List Frag) → IsOther p.uid o
    → Carries (p ∷ ps) fs
    → process_all pid (o, up) fs ≡ (none, up ++ map upward (p ∷ ps))
process_all-Carries pid p ps o up fs n (xs, ys, e, c, more) =
    ap (λ l. process_all pid (o, up) l) e
    ∙ process_all-append pid (o, up) xs ys
    ∙ ap (λ s. process_all pid s ys) (packet_given pid p o up xs n c)
    ∙ all_given pid ps ys (up ++ upward p ∷ []) more
    ∙ ap (λ l. (none, l)) (append_assoc up (upward p ∷ []) (map upward ps))
