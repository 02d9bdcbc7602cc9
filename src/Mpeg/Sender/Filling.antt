-- ===== src/Mpeg/Sender/Filling.antt =====
-- How `MpegLL::send_frags` (src/mpeg-encap.cc) fills the cell of one address.
use release.Base.{
  ℕ, ◌+◌, ◌*◌, ◌<◌, ◌≤◌, ◌≡◌, refl, sym, ap, ◌∙◌, Bool, true, false, some, List, [], ◌∷◌, ◌++◌,
  arith, All, length, append_assoc, update, ltb, ==_refl, append-nil, ◌==◌,
}
use release.Base.Int.{ℤ, pos}
use release.Atm.Arp.{ArpCache, Dest, lookup, IsCoherent, resolve-lookup}
use release.Mpeg.Sender.{Frag, Cell, Sender, insert_frag, send_down}

-- The bytes of the fragments of a cell.
abbrev pub bytes : List Frag → ℕ
bytes [] = 0
bytes (f ∷ fs) = f.size + bytes fs

pub bytes-snoc : (fs : List Frag) (f : Frag) → bytes (fs ++ f ∷ []) ≡ bytes fs + f.size
bytes-snoc [] f = omega arith
bytes-snoc (g ∷ fs) f = omega (arith, bytes-snoc fs f)

-- The fragments of the cells that were sent, in order.
abbrev pub sent_frags : (ℕ → List Frag) → List (Cell × Dest) → List Frag
sent_frags heap [] = []
sent_frags heap ((c, d) ∷ out) = heap c.payload ++ sent_frags heap out

pub sent_frags-snoc :
    (heap : ℕ → List Frag) (out : List (Cell × Dest)) (c : Cell) (d : Dest)
    → sent_frags heap (out ++ (c, d) ∷ []) ≡ sent_frags heap out ++ heap c.payload
sent_frags-snoc heap [] c d = append-nil (heap c.payload)
sent_frags-snoc heap ((b, e) ∷ out) c d =
    ap (λ l. heap b.payload ++ l) (sent_frags-snoc heap out c d)
    ∙ sym (append_assoc (heap b.payload) (sent_frags heap out) (heap c.payload))

-- The payloads of the cells that were sent are older than `k`.
abbrev pub Older : ℕ → List (Cell × Dest) → Type 0
Older k out = All (λ x. x.0.payload < k) out

pub Older-le : (j k : ℕ) (out : List (Cell × Dest)) → j ≤ k → Older j out → Older k out
Older-le j k [] h o = tt
Older-le j k (x ∷ out) h (o, os) = (omega (arith, o, h), Older-le j k out h os)

pub Older-snoc :
    (k : ℕ) (out : List (Cell × Dest)) (x : Cell × Dest)
    → Older k out
    → x.0.payload < k
    → Older k (out ++ x ∷ [])
Older-snoc k [] x o h = (h, tt)
Older-snoc k (y ∷ out) x (o, os) h = (o, Older-snoc k out x os h)

pub update_at : (heap : ℕ → List Frag) (k : ℕ) (fs : List Frag) → update heap k fs k ≡ fs
update_at heap k fs = rw (==_refl k) refl

pub sent_frags-update :
    (heap : ℕ → List Frag) (out : List (Cell × Dest)) (k : ℕ) (fs : List Frag)
    → Older k out
    → sent_frags (update heap k fs) out ≡ sent_frags heap out
sent_frags-update heap [] k fs o = refl
sent_frags-update heap ((c, d) ∷ out) k fs (o, os) =
    let apart : (k == c.payload) ≡ false = ground (arith, o) in
    rw apart (ap (λ l. heap c.payload ++ l) (sent_frags-update heap out k fs os))

-- The cells that were sent bear the sender's number.
abbrev pub Marked : ℕ → List (Cell × Dest) → Type 0
Marked id out = All (λ x. x.0.pid ≡ id) out

pub Marked-snoc :
    (id : ℕ) (out : List (Cell × Dest)) (x : Cell × Dest)
    → Marked id out
    → x.0.pid ≡ id
    → Marked id (out ++ x ∷ [])
Marked-snoc id [] x m h = (h, tt)
Marked-snoc id (y ∷ out) x (m, ms) h = (m, Marked-snoc id out x ms h)

-- No cell that was sent carries more than 184 bytes.
abbrev pub Full : (ℕ → List Frag) → List (Cell × Dest) → Type 0
Full heap out = All (λ x. bytes (heap x.0.payload) ≤ 184) out

pub Full-update :
    (heap : ℕ → List Frag) (out : List (Cell × Dest)) (k : ℕ) (fs : List Frag)
    → Older k out
    → Full heap out
    → Full (update heap k fs) out
Full-update heap [] k fs o f = tt
Full-update heap ((c, d) ∷ out) k fs (o, os) (f, more) =
    let apart : (k == c.payload) ≡ false = ground (arith, o) in
    rw apart (f, Full-update heap out k fs os more)

pub Full-snoc :
    (heap : ℕ → List Frag) (out : List (Cell × Dest)) (x : Cell × Dest)
    → Full heap out
    → bytes (heap x.0.payload) ≤ 184
    → Full heap (out ++ x ∷ [])
Full-snoc heap [] x f h = (h, tt)
Full-snoc heap (y ∷ out) x (f, more) h = (f, Full-snoc heap out x more h)

-- A cell that is being filled: its payload is the member `payload` of the sender and younger than
-- those of the cells that were sent; it has room for a header, and its bytes, the number of its
-- fragments and its room are in bounds.
pub record IsFilling (find_peer : ℤ → ℤ) (s : Sender) (c : Cell) : Type 0 where
  pub own : c.payload ≡ s.payload
  pub mark : c.pid ≡ s.id
  pub marked : Marked s.id s.out
  pub young : s.payload < s.fresh
  pub older : Older s.payload s.out
  pub few : 20 * length (s.heap s.payload) + c.dvb_space ≤ 203
  pub room : 4 ≤ c.dvb_space
  pub fits : bytes (s.heap s.payload) + c.dvb_space ≤ 184
  pub full : Full s.heap s.out
  pub coherent : IsCoherent find_peer s.arp

-- All fragments so far: those that were sent, and those of the cell.
abbrev pub flow : Sender → List Frag
flow s = sent_frags s.heap s.out ++ s.heap s.payload

-- The sender after a fragment was put into the payload.
abbrev pub with_frag : Sender → Frag → Sender
with_frag s f = record s { heap = update s.heap s.payload (s.heap s.payload ++ f ∷ []) }

pub flow-with_frag :
    (s : Sender) (f : Frag) → Older s.payload s.out → flow (with_frag s f) ≡ flow s ++ f ∷ []
flow-with_frag s f o =
    ap (λ l. l ++ update s.heap s.payload (s.heap s.payload ++ f ∷ []) s.payload)
      (sent_frags-update s.heap s.out s.payload (s.heap s.payload ++ f ∷ []) o)
    ∙ ap (λ l. sent_frags s.heap s.out ++ l)
        (update_at s.heap s.payload (s.heap s.payload ++ f ∷ []))
    ∙ sym (append_assoc (sent_frags s.heap s.out) (s.heap s.payload) (f ∷ []))

module _ (find_peer : ℤ → ℤ) where
  -- The array of fragments has room.
  pub inserted :
      (s : Sender) (c : Cell) (f : Frag)
      → IsFilling find_peer s c
      → insert_frag s f ≡ some (with_frag s f)
  unfolding insert_frag
  inserted s c f v =
      let fewer : ltb (length (s.heap s.payload)) 10 ≡ true = ground (arith, v.few, v.room) in
      rw fewer refl

  module _ (is_inet : Bool) (queued limit : ℕ) (d : Dest) where
    -- The cell is sent when the queue is not over its limit.
    pub sent :
        (s : Sender) (c : Cell)
        → queued ≤ limit
        → lookup find_peer is_inet (pos c.addr) ≡ some d
        → IsCoherent find_peer s.arp
        → (arp : ArpCache) × (send_down find_peer is_inet queued limit s c
            ≡ some (record s { arp = arp; out = s.out ++ (c, d) ∷ [] }))
          × IsCoherent find_peer arp
    unfolding send_down
    sent s c l e v =
        let (arp, f, w) = resolve-lookup find_peer s.arp is_inet (pos c.addr) d e v in
        let below : ltb limit queued ≡ false = ground (arith, l) in (arp, simp (below, f) refl, w)
