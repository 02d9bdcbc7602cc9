-- ===== src/Prio/Tests.antt =====
-- The theorem on src/prio_fid.cc at a concrete input, and a run of the code.
use release.Base.{ℕ, ◌/◌, ◌≡◌, refl, some, [], ◌∷◌, arith, ◌==◌, true, false}
use release.Base.Int.{ℤ, pos}
use release.Prio.{PacketQueue, enque}
use release.Prio.Chain.{insert, IsSorted}
use release.Prio.Enque.{Enqueued, enque-Holds}

-- The priority of a packet is its identity divided by ten: 10 and 11 are equal.
abbrev prio : ℕ → ℤ
prio k = pos (k / 10)

-- The packets 10 and 20; 20 has a stale link.
abbrev queue : PacketQueue
queue = record {
  head = some 10;
  tail = some 20;
  len = 2;
  bytes = 80;
  next = λ k. elim (k == 10) [ true ↦ some 20 | false ↦ some 99 ];
}

enque-Holds_example :
    Enqueued (λ _. 40) prio 11 queue (10 ∷ 20 ∷ []) (enque (λ _. 40) prio queue 11)
    × IsSorted prio (insert prio 11 (10 ∷ 20 ∷ []))
enque-Holds_example =
    enque-Holds (λ _. 40) prio 11 queue (10 ∷ 20 ∷ []) (20, refl, refl, (refl, refl), refl)
      ((omega arith, tt), (tt, tt)) (((λ e. absurd (omega (arith, e))), tt), (tt, tt))
      ((λ e. absurd (omega (arith, e))), ((λ e. absurd (omega (arith, e))), tt))

insert_run : insert prio 11 (10 ∷ 20 ∷ []) ≡ 10 ∷ 11 ∷ 20 ∷ []
unfolding insert
insert_run = refl
