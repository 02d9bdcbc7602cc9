-- ===== src/Rle/RoundTrip/Delivery.antt =====
-- The whole receiver of src/mac-rle.cc on the fragments of one packet.
use release.Base.{
  ℕ, ◌+◌, ◌<◌, ◌≡◌, ◌≢◌, ◌⊎◌, refl, sym, ◌∙◌, Option, none, some, List, [], ◌∷◌, ◌++◌, arith, All,
  append_assoc, append-nil, inl, inr, Option-cases,
}
use release.Rle.Encap.{RleHdr}
use release.Rle.Encap.Fresh.{IsFresh}
use release.Rle.Burst.{FragHdr, cut_frag, cut_hdr, fit_frag}
use release.Rle.Context.{Context, Outcome, keeps, drops_it, delivers, crash, reassemble}
use release.Rle.Receiver.Table.{Contexts, bucket, get_context}
use release.Rle.Receiver.Table.Buckets.{IsSound, get_context_total, get_context_used}
use release.Rle.Receiver.Validity.{Places, SamePlace, reassemble-Places, update-IsSound}
use release.Rle.Receiver.{
  Receiver, Result, finished, and_then, deliver, store, settle, in_context, receive, send_up,
}
use release.Rle.RoundTrip.{fragments, give, feed, Cuts, Expects, feed-fragments}

-- A fragment of a cut packet of `size` bytes, for this receiver, with the identifier `fid`.
pub record IsFlow (mac_da total : ℕ → ℕ) (index fid size : ℕ) (f : FragHdr) : Type 0 where
  pub mine : mac_da f.alpdu ≡ index
  pub part : f.start_end ≢ 3
  pub id : f.frag_id ≡ fid
  pub whole : total f.alpdu ≡ size

module _ (mac_da total : ℕ → ℕ) (src fid size : ℕ) (small : fid < 8) where
  -- The head of the flow's bucket.
  record HasContext (r : Receiver) (cp : ℕ) : Type 0 where
    sound : IsSound r.contexts
    at : r.contexts.head (bucket src fid) ≡ some cp

  receive_flow :
      (r : Receiver) (cp : ℕ) (f : FragHdr)
      → HasContext r cp
      → IsFlow mac_da total r.index fid size f
      → receive mac_da total r src f ≡ settle r cp (reassemble (r.contexts.cell cp) f size)
  unfolding receive in_context
  receive_flow r cp f h w =
      let got = get_context_used r.contexts src fid cp h.sound small h.at in
      ground (arith, w.mine, w.part, w.id, w.whole, got)

  first_receive :
      (f : FragHdr) (r : Receiver) (cp : ℕ) (cs : Contexts)
      → get_context r.contexts src fid ≡ some (cp, cs)
      → IsFlow mac_da total r.index fid size f
      → receive mac_da total r src f
        ≡ settle (record r { contexts = cs }) cp (reassemble (cs.cell cp) f size)
  unfolding receive in_context
  first_receive f r cp cs e w = ground (arith, w.mine, w.part, w.id, w.whole, e)

  store-HasContext :
      (r : Receiver) (cp : ℕ) (c : Context)
      → HasContext r cp
      → SamePlace (r.contexts.cell cp) c
      → HasContext (store r cp c) cp
  unfolding store
  store-HasContext r cp c h s = record {
    sound = update-IsSound r.contexts cp c s h.sound;
    at = h.at;
  }

  deliver-HasContext : (r : Receiver) (cp p : ℕ) → HasContext r cp → HasContext (deliver r p) cp
  unfolding deliver
  deliver-HasContext r cp p h = record { sound = h.sound; at = h.at }

  store-cell : (r : Receiver) (cp : ℕ) (c : Context) → (store r cp c).contexts.cell cp ≡ c
  unfolding store
  store-cell r cp c = ground arith

  -- The end of a burst at which the packets `ps` have been given up.
  abbrev GivesUp : Receiver → Result → List ℕ → Type 0
  GivesUp r o ps = (q : Receiver) × (o ≡ finished q) × (q.delivered ≡ r.delivered ++ ps)

  -- What is to be shown of the fragments that follow.
  abbrev Rest : Receiver → ℕ → List FragHdr → Type 0
  Rest r cp fs =
      (q : Receiver) (d : Context) (ps : List ℕ)
      → q.index ≡ r.index
      → HasContext q cp
      → feed size (q.contexts.cell cp) fs ≡ some (d, ps)
      → GivesUp q (send_up mac_da total q src fs) ps

  given_up :
      (r : Receiver) (p : ℕ) (o : Result) (c d e : Context) (ps qs : List ℕ)
      → ◌≡◌ {A = Option (Context × List ℕ)} (some (e, p ∷ qs)) (some (d, ps))
      → GivesUp (deliver r p) o qs
      → GivesUp r o ps
  unfolding deliver
  given_up r p o c d e ps qs k (q, s, t) =
      let same : ps ≡ p ∷ qs = cc k in (q, s, rw (t, same) (append_assoc r.delivered (p ∷ []) qs))

  nothing :
      {d : Context} {ps : List ℕ} → ◌≡◌ {A = Option (Context × List ℕ)} none (some (d, ps)) → ⊥
  nothing e = cc

  no_more :
      {c d : Context} {ps : List ℕ}
      → ◌≡◌ {A = Option (Context × List ℕ)} (some (c, [])) (some (d, ps))
      → [] ≡ ps
  no_more e = cc

  after_outcome :
      (fs : List FragHdr) (r : Receiver) (cp : ℕ) (d : Context) (ps : List ℕ) (o : Outcome)
      → HasContext r cp
      → Places (r.contexts.cell cp) o
      → Rest r cp fs
      → give o (λ c. feed size c fs) ≡ some (d, ps)
      → GivesUp r (and_then (settle r cp o) (λ q. send_up mac_da total q src fs)) ps
  unfolding settle store deliver
  after_outcome fs r cp d ps (keeps c) h s rest e =
      rest (store r cp c) d ps refl (store-HasContext r cp c h s) (rw (store-cell r cp c) e)
  after_outcome fs r cp d ps (drops_it c) h s rest e =
      rest (store r cp c) d ps refl (store-HasContext r cp c h s) (rw (store-cell r cp c) e)
  after_outcome fs r cp d ps (delivers p c) h s rest e = elim (Option-cases (feed size c fs)) [
    | inl n ↦ absurd (nothing (rw (n, give) at e))
    | inr ((g, qs), n) ↦ given_up (store r cp c) p _ c d g ps qs (rw (n, give) at e) (
        rest (deliver (store r cp c) p) g qs refl
          (deliver-HasContext (store r cp c) cp p (store-HasContext r cp c h s))
          (rw (store-cell r cp c) n))
  ]
  after_outcome fs r cp d ps crash h s rest e = cc

  send_up-feed :
      (fs : List FragHdr) (r : Receiver) (cp : ℕ) (d : Context) (ps : List ℕ)
      → HasContext r cp
      → All (IsFlow mac_da total r.index fid size) fs
      → feed size (r.contexts.cell cp) fs ≡ some (d, ps)
      → GivesUp r (send_up mac_da total r src fs) ps
  unfolding send_up feed
  send_up-feed [] r cp d ps h a e = (r, refl, rw (← no_more e) (sym (append-nil r.delivered)))
  send_up-feed (f ∷ fs) r cp d ps h (w, a) e = rw (receive_flow r cp f h w) (
      after_outcome fs r cp d ps (reassemble (r.contexts.cell cp) f size) h
        (reassemble-Places (r.contexts.cell cp) f size)
        (λ q d' ps' i k. send_up-feed fs q cp d' ps' k (rw i a)) e)

  send_up_new :
      (f : FragHdr) (fs : List FragHdr) (r : Receiver) (cp : ℕ) (cs : Contexts)
      → get_context r.contexts src fid ≡ some (cp, cs)
      → IsSound cs
      → cs.head (bucket src fid) ≡ some cp
      → IsFlow mac_da total r.index fid size f
      → send_up mac_da total r src (f ∷ fs)
        ≡ send_up mac_da total (record r { contexts = cs }) src (f ∷ fs)
  unfolding send_up receive in_context
  send_up_new f fs r cp cs e v t w =
      let again = get_context_used cs src fid cp v small t in
      rw (first_receive f r cp cs e w, first_receive f (record r { contexts = cs }) cp cs again w)

module _ (mac_da total : ℕ → ℕ) (index size p seq : ℕ) where
  cut-IsFlow :
      (b : ℕ) (h : RleHdr)
      → mac_da p ≡ index
      → total p ≡ size
      → (h.start_end ≡ 0) ⊎ (h.start_end ≡ 3)
      → IsFlow mac_da total index h.frag_id size (cut_frag b p h)
        × ((cut_hdr b h).start_end ≡ 0)
        × ((cut_hdr b h).frag_id ≡ h.frag_id)
  unfolding cut_frag cut_hdr
  cut-IsFlow b h m t z = ground arith

  fit-IsFlow :
      (h : RleHdr)
      → mac_da p ≡ index
      → total p ≡ size
      → h.start_end ≡ 0
      → IsFlow mac_da total index h.frag_id size (fit_frag seq p h)
  unfolding fit_frag
  fit-IsFlow h m t z = ground arith

  fragments-IsFlow :
      (bs : List ℕ) (h : RleHdr) (fid : ℕ)
      → mac_da p ≡ index
      → total p ≡ size
      → h.start_end ≡ 0
      → h.frag_id ≡ fid
      → All (IsFlow mac_da total index fid size) (fragments p seq h bs)
  unfolding fragments
  fragments-IsFlow [] h fid m t z i = (rw (← i) (fit-IsFlow h m t z), tt)
  fragments-IsFlow (b ∷ bs) h fid m t z i =
      let one = cut-IsFlow b h m t (inl z) in
      (rw (← i) one.0, fragments-IsFlow bs (cut_hdr b h) fid m t one.1 (one.2 ∙ i))

-- End to end: a fresh packet for this receiver, with one of the eight identifiers, is cut at any
-- number of bursts of one source. Where the receiver's table is sound and the context that
-- `get_context` gives for the flow expects the packet's number, `sendUp` on the fragments, in
-- order, ends and gives up that packet, once, and no other.
pub send_up-fragments :
    (mac_da total : ℕ → ℕ) (src p seq b : ℕ) (bs : List ℕ) (h : RleHdr)
    → (r : Receiver) (cp : ℕ) (cs : Contexts) → IsFresh h
    → Cuts h (b ∷ bs)
    → h.frag_id < 8
    → mac_da p ≡ r.index
    → total p ≡ h.total_length + 3
    → IsSound r.contexts
    → get_context r.contexts src h.frag_id ≡ some (cp, cs)
    → Expects (cs.cell cp) seq
    → (q : Receiver) × (send_up mac_da total r src (fragments p seq h (b ∷ bs)) ≡ finished q)
      × (q.delivered ≡ r.delivered ++ p ∷ [])
unfolding fragments
send_up-fragments mac_da total src p seq b bs h r cp cs f c w m t v e x =
    let got = get_context_total r.contexts src h.frag_id v w in
    let same : some (cp, cs) ≡ some (got.0, got.1) = sym e ∙ got.2 in
    let after : cs ≡ got.1 = cc same in
    let at : cp ≡ got.0 = cc same in
    let sound : IsSound cs = rw after got.3 in
    let top : cs.head (bucket src h.frag_id) ≡ some cp = rw (after, at) got.4 in
    let one = cut-IsFlow mac_da total r.index (h.total_length + 3) p seq b h m t (inr f.whole) in
    let rest =
      fragments-IsFlow mac_da total r.index (h.total_length + 3) p seq bs (cut_hdr b h) h.frag_id m
        t one.1 one.2 in
    rw
      (send_up_new mac_da total src h.frag_id (h.total_length + 3) w (cut_frag b p h)
        (fragments p seq (cut_hdr b h) bs) r cp cs e sound top one.0)
      (send_up-feed mac_da total src h.frag_id (h.total_length + 3) w
        (cut_frag b p h ∷ fragments p seq (cut_hdr b h) bs) (record r { contexts = cs }) cp _
        (p ∷ []) (record { sound = sound; at = top }) (one.0, rest)
        (feed-fragments p seq b bs h (cs.cell cp) f c x))
