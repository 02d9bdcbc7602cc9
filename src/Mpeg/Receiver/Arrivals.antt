-- ===== src/Mpeg/Receiver/Arrivals.antt =====
-- The cells of one sender, as `MpegLL::sendUp` (src/mpeg-encap.cc) takes them one after the other.
use release.Base.{
  ℕ, ◌%◌, ◌≡◌, refl, sym, ap, subst, ◌∙◌, Option, none, some, List, [], ◌∷◌, ◌++◌, arith, update,
  Option-cases, inl, inr, ==_refl,
}
use release.Mpeg.{n_queues, get_queue}
use release.Mpeg.Probe.{probe_empty, probe_own}
use release.Mpeg.Sender.{Frag}
use release.Mpeg.Receiver.{
  Partial, Upward, Receiver, process, process_all, addresses, send_up, send_up_all,
}
use release.Mpeg.Receiver.Reassembly.{process_all-append}

-- The fragments of the cells, in order.
abbrev pub joined : List (List Frag) → List Frag
joined [] = []
joined (c ∷ cs) = c ++ joined cs

-- A place of `rx_buffer` that is empty or holds a packet of the sender.
abbrev pub IsOwn : ℕ → Option Partial → Type 0
IsOwn pid none = Unit {0}
IsOwn pid (some c) = c.addr ≡ pid

process-IsOwn :
    (pid : ℕ) (s : Option Partial × List Upward) (f : Frag) → IsOwn pid (process pid s f).0
unfolding process
process-IsOwn pid (o, up) f = ground arith

process_all-IsOwn :
    (pid : ℕ) (s : Option Partial × List Upward) (fs : List Frag)
    → IsOwn pid s.0
    → IsOwn pid (process_all pid s fs).0
unfolding process_all
process_all-IsOwn pid s [] h = h
process_all-IsOwn pid s (f ∷ fs) h =
    process_all-IsOwn pid (process pid s f) fs (process-IsOwn pid s f)

home_found :
    (r : Receiver) (pid : ℕ)
    → IsOwn pid (r.buffer (pid % n_queues))
    → get_queue (addresses r.buffer) pid ≡ some (pid % n_queues)
unfolding get_queue addresses
home_found r pid v = elim (Option-cases (r.buffer (pid % n_queues))) [
  | inl e ↦ probe_empty 99 (addresses r.buffer) pid (pid % n_queues) (simp (addresses, e) refl)
  | inr (c, e) ↦
      probe_own 99 (addresses r.buffer) pid (pid % n_queues)
        (simp (addresses, e) (ap (λ k. some k) (subst (IsOwn pid) e v)))
]

update_at : (b : ℕ → Option Partial) (q : ℕ) (o : Option Partial) → update b q o q ≡ o
update_at b q o = rw (==_refl q) refl

-- The sender's own place and what was given up, after all cells: as of the fragments in order.
pub send_up_all-joined :
    (pid : ℕ) (cells : List (List Frag)) (r : Receiver)
    → IsOwn pid (r.buffer (pid % n_queues))
    → (r' : Receiver) × (send_up_all r pid cells ≡ some r')
      × (process_all pid (r.buffer (pid % n_queues), r.delivered) (joined cells)
          ≡ (r'.buffer (pid % n_queues), r'.delivered))
unfolding send_up_all send_up process_all
send_up_all-joined pid [] r v = (r, refl, refl)
send_up_all-joined pid (c ∷ cs) r v =
    let q : ℕ = pid % n_queues in
    let s : Option Partial × List Upward = process_all pid (r.buffer q, r.delivered) c in
    let r1 : Receiver = record { buffer = update r.buffer q s.0; delivered = s.1 } in
    let at : r1.buffer q ≡ s.0 = update_at r.buffer q s.0 in
    let own : IsOwn pid s.0 = process_all-IsOwn pid (r.buffer q, r.delivered) c v in
    let (r', f, g) = send_up_all-joined pid cs r1 (subst (IsOwn pid) (sym at) own) in
    (
      r',
      simp (send_up_all, send_up, home_found r pid v) f,
      process_all-append pid (r.buffer q, r.delivered) c (joined cs)
          ∙ ap (λ o. process_all pid (o, s.1) (joined cs)) (sym at)
          ∙ g,
    )
