-- ===== src/Rle/Context.antt =====
-- src/mac-rle.h (`struct context`) and what `MacRle::sendUp` does with a fragment once it has the
-- context of its flow.
use release.Base.{ℕ, ◌&&◌, Option, none, some, bit_and, add32, add8, ◌==◌, if◌then◌else◌}
use release.Rle.Burst.{FragHdr}

-- `next` chains the contexts of a bucket; `exp_sn` is an `unsigned char`.
pub record Context : Type 0 where
  pub src : ℕ
  pub fid : ℕ
  pub pkt : Option ℕ
  pub exp_sn : ℕ
  pub len : ℕ
  pub next : Option ℕ

-- `drops_it` leaves by `continue`, and `crash` reads the header of a null packet.
pub data Outcome : Type 0 where
  keeps : Context → Outcome
  drops_it : Context → Outcome
  delivers : ℕ → Context → Outcome
  crash : Outcome

-- "the fragment is the first": a packet that was being assembled is given up.
unfoldable pub begin : Context → FragHdr → Context
begin c f = if bit_and f.start_end 2 == 0 then c else record c {
  exp_sn = elim c.pkt [ none ↦ c.exp_sn | some _ ↦ add8 c.exp_sn 1 ];
  pkt = some f.alpdu;
  len = 0;
}

-- "the fragment is the last", of a packet of `total` bytes.
unfoldable pub finish : Context → FragHdr → ℕ → Outcome
finish c f total =
    if c.len == total && c.exp_sn == f.seqno
    then elim c.pkt [
      | none ↦ crash
      | some p ↦ delivers p (record c { len = 0; pkt = none; exp_sn = add8 c.exp_sn 1 })
    ]
    else drops_it (record c { exp_sn = add8 f.seqno 1; pkt = none })

-- The body of the loop, from the context on. `total` is the packet's `total_length` at that time.
unfoldable pub reassemble : Context → FragHdr → ℕ → Outcome
unfolding begin finish
reassemble c f total =
    let d = begin c f in
    let e = record d { len = add32 d.len f.length } in
    if bit_and f.start_end 1 == 0 then keeps e else finish e f total
