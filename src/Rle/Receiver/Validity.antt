-- ===== src/Rle/Receiver/Validity.antt =====
-- The receiver keeps its table of contexts sound, and counts the packets that it gives up.
use release.Base.{ℕ, ◌<◌, ◌≡◌, List, [], ◌∷◌, arith, update, length, length-append, All}
use release.Rle.Burst.{FragHdr}
use release.Rle.Context.{Context, Outcome, keeps, drops_it, delivers, crash, reassemble}
use release.Rle.Receiver.Table.{Contexts}
use release.Rle.Receiver.Table.Buckets.{IsSound, IsHead, get_context_total}
use release.Rle.Receiver.{
  Receiver, Result, finished, abort_call, null_packet, and_then, deliver, store, settle, in_context,
  receive, send_up,
}

pub record IsValid (r : Receiver) : Type 0 where
  pub sound : IsSound r.contexts
  pub counted : r.sent_up ≡ length r.delivered

-- The flow of a context and its place in a bucket.
abbrev pub SamePlace : Context → Context → Type 0
SamePlace c d = (d.src ≡ c.src) × (d.fid ≡ c.fid) × (d.next ≡ c.next)

abbrev pub Places : Context → Outcome → Type 0
Places c (keeps d) = SamePlace c d
Places c (drops_it d) = SamePlace c d
Places c (delivers p d) = SamePlace c d
Places c crash = Unit {0}

pub reassemble-Places : (c : Context) (f : FragHdr) (total : ℕ) → Places c (reassemble c f total)
unfolding reassemble
reassemble-Places c f total = ground arith

update-IsHead :
    (cs : Contexts) (level k j cp : ℕ) (d : Context)
    → SamePlace (cs.cell k) d
    → IsHead cs level j cp
    → IsHead (record cs { cell = update cs.cell k d }) level j cp
update-IsHead cs level k j cp d s h = ground arith

pub update-IsSound :
    (cs : Contexts) (k : ℕ) (d : Context)
    → SamePlace (cs.cell k) d
    → IsSound cs
    → IsSound (record cs { cell = update cs.cell k d })
update-IsSound cs k d s v = record {
  level = v.level;
  chain = v.chain;
  counted = v.counted;
  heads = λ j cp e. update-IsHead cs v.level k j cp d s (v.heads j cp e);
}

deliver-IsValid : (r : Receiver) (p : ℕ) → IsValid r → IsValid (deliver r p)
unfolding deliver
deliver-IsValid r p v = record {
  sound = v.sound;
  counted = omega (arith, v.counted, length-append r.delivered (p ∷ []));
}

abbrev pub IsValidAfter : Result → Type 0
IsValidAfter (finished r) = IsValid r
IsValidAfter abort_call = ⊥
IsValidAfter null_packet = Unit

store-IsValid :
    (r : Receiver) (k : ℕ) (c : Context)
    → SamePlace (r.contexts.cell k) c
    → IsValid r
    → IsValid (store r k c)
unfolding store
store-IsValid r k c s v = record {
  sound = update-IsSound r.contexts k c s v.sound;
  counted = v.counted;
}

settle-IsValid :
    (r : Receiver) (k : ℕ) (o : Outcome)
    → Places (r.contexts.cell k) o
    → IsValid r
    → IsValidAfter (settle r k o)
unfolding settle
settle-IsValid r k (keeps c) s v = store-IsValid r k c s v
settle-IsValid r k (drops_it c) s v = store-IsValid r k c s v
settle-IsValid r k (delivers p c) s v = deliver-IsValid (store r k c) p (store-IsValid r k c s v)
settle-IsValid r k crash s v = tt

in_context-IsValid :
    (total : ℕ → ℕ) (r : Receiver) (src : ℕ) (f : FragHdr)
    → f.frag_id < 8
    → IsValid r
    → IsValidAfter (in_context total r src f)
unfolding in_context
in_context-IsValid total r src f h v =
    let got = get_context_total r.contexts src f.frag_id v.sound h in
    rw (got.2, in_context)
      (settle-IsValid (record r { contexts = got.1 }) got.0
        (reassemble (got.1.cell got.0) f (total f.alpdu))
        (reassemble-Places (got.1.cell got.0) f (total f.alpdu))
        (record { sound = got.3; counted = v.counted }))

receive-IsValid :
    (mac_da total : ℕ → ℕ) (r : Receiver) (src : ℕ) (f : FragHdr)
    → f.frag_id < 8
    → IsValid r
    → IsValidAfter (receive mac_da total r src f)
unfolding receive
receive-IsValid mac_da total r src f h v =
    ground (arith, in_context-IsValid total r src f h v, deliver-IsValid r f.alpdu v)

and_then-IsValid :
    (o : Result) (f : Receiver → Result)
    → ((r : Receiver) → IsValid r → IsValidAfter (f r))
    → IsValidAfter o
    → IsValidAfter (and_then o f)
and_then-IsValid (finished r) f rest v = rest r v
and_then-IsValid abort_call f rest v = v
and_then-IsValid null_packet f rest v = v

-- When every fragment of a burst has one of the eight identifiers, `sendUp` from a valid receiver
-- does not run out of contexts: it either uses a null packet, or leaves the table of contexts
-- sound and its counter equal to the number of packets that the receiver has given up.
pub send_up-IsValid :
    (mac_da total : ℕ → ℕ) (src : ℕ) (fs : List FragHdr) (r : Receiver)
    → All (λ f. f.frag_id < 8) fs
    → IsValid r
    → IsValidAfter (send_up mac_da total r src fs)
unfolding send_up
send_up-IsValid mac_da total src [] r a v = v
send_up-IsValid mac_da total src (f ∷ fs) r (h, a) v =
    and_then-IsValid (receive mac_da total r src f) _
      (λ q w. send_up-IsValid mac_da total src fs q a w) (receive-IsValid mac_da total r src f h v)
