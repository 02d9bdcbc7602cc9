-- ===== src/Rle/ReceiverTests.antt =====
-- The theorems on the receiver of src/mac-rle.cc at concrete inputs, and runs of the code.
use release.Base.{ℕ, ◌+◌, ◌-◌, update, ◌≡◌, refl, true, none, some, List, [], ◌∷◌, arith}
use release.Base.Int.{pos}
use release.Rle.Encap.{RleHdr, RleLl, Packet, down, sends_down, init_packet, recv}
use release.Rle.Encap.Fresh.{IsFresh}
use release.Rle.Burst.{FragHdr, cut_frag, cut_hdr, fit_frag}
use release.Rle.Context.{Context, reassemble}
use release.Rle.Receiver.Table.{Contexts, down_from, init, get_context}
use release.Rle.Receiver.Table.Buckets.{init-IsSound, Gives, get_context_total}
use release.Rle.Receiver.Validity.{IsValid, IsValidAfter, send_up-IsValid}
use release.Rle.Receiver.{Receiver, finished, send_up, receive, in_context, settle, deliver, store}
use release.Rle.RoundTrip.{fragments, feed, Cuts}
use release.Rle.RoundTrip.Loss.{feed_second_lost, feed_crash}
use release.Rle.RoundTrip.Delivery.{send_up-fragments}
use release.Rle.RoundTrip.Link.{recv-send_up}

abbrev hdr : RleHdr
hdr = record {
  total_length = 100;
  frag_id = 2;
  start_end = 3;
  stream_id = 1;
  seqno = 0;
  psize = 100;
}

abbrev cuts : List ℕ
cuts = 40 ∷ []

abbrev idle : Context
idle = record { src = 3; fid = 2; pkt = none; exp_sn = 255; len = 17; next = none }

hdr-IsFresh : IsFresh hdr
hdr-IsFresh = omega arith

hdr-Cuts : Cuts hdr (40 ∷ cuts)
unfolding cut_hdr
hdr-Cuts = omega arith

feed_second_lost_example :
    feed (100 + 3) idle (cut_frag 40 5 hdr ∷ fragments 5 255 (cut_hdr 40 (cut_hdr 40 hdr)) [])
    ≡ some (record idle { len = 100 + 3 - (40 - 2); pkt = none; exp_sn = 0 }, [])
feed_second_lost_example =
    feed_second_lost 5 255 40 40 [] hdr idle hdr-IsFresh hdr-Cuts (omega arith)

feed_crash_example :
    feed (100 + 3) idle (
      cut_frag 40 5 hdr
      ∷ fit_frag 255 5 (cut_hdr 40 (cut_hdr 40 hdr))
      ∷ fit_frag 0 6 (cut_hdr 67 hdr)
      ∷ [])
    ≡ none
unfolding cut_hdr
feed_crash_example =
    feed_crash 5 6 255 40 40 67 hdr hdr idle hdr-IsFresh hdr-IsFresh refl hdr-Cuts (omega arith)
      (omega arith) (omega arith)

abbrev blank : ℕ → Context
blank _ = record { src = 0; fid = 0; pkt = none; exp_sn = 0; len = 0; next = none }

abbrev receiver : Receiver
receiver = record { index = 1; contexts = init blank; sent_up = 0; delivered = [] }

get_context_total_example : Gives (init blank) 3 2 (get_context (init blank) 3 2)
get_context_total_example = get_context_total (init blank) 3 2 (init-IsSound blank) (omega arith)

abbrev served : Contexts
served = record {
  cell = update (init blank).cell 511 (record (blank 511) { src = 3; fid = 2 });
  head = update (init blank).head 26 (some 511);
  free = down_from 511;
}

served_lem : get_context (init blank) 3 2 ≡ some (511, served)
unfolding get_context init
served_lem = refl

abbrev fresh_receiver-IsValid : IsValid receiver
unfolding init
fresh_receiver-IsValid = record { sound = init-IsSound blank; counted = refl }

abbrev arrived : List FragHdr
arrived =
    record { start_end = 2; length = 38; frag_id = 2; seqno = 0; alpdu = 5 }
    ∷ record { start_end = 3; length = 20; frag_id = 0; seqno = 0; alpdu = 9 }
    ∷ record { start_end = 0; length = 38; frag_id = 2; seqno = 0; alpdu = 5 }
    ∷ record { start_end = 1; length = 27; frag_id = 2; seqno = 0; alpdu = 5 }
    ∷ []

-- A whole packet between the fragments of another.
send_up_runs :
    (q : Receiver) × (send_up (λ _. 1) (λ _. 103) receiver 3 arrived ≡ finished q)
    × (q.delivered ≡ 9 ∷ 5 ∷ [])
unfolding send_up receive in_context settle deliver store get_context init reassemble
send_up_runs = (_, refl, refl)

send_up-IsValid_example : IsValidAfter (send_up (λ _. 1) (λ _. 103) receiver 3 arrived)
send_up-IsValid_example =
    send_up-IsValid (λ _. 1) (λ _. 103) 3 arrived receiver (omega arith) fresh_receiver-IsValid

send_up-fragments_example :
    (q : Receiver) × (send_up (λ _. 1) (λ _. 103) receiver 3 (fragments 5 0 hdr (40 ∷ cuts))
      ≡ finished q)
    × (q.delivered ≡ 5 ∷ [])
send_up-fragments_example =
    send_up-fragments (λ _. 1) (λ _. 103) 3 5 0 40 cuts hdr receiver 511 served hdr-IsFresh hdr-Cuts
      (omega arith) refl refl (init-IsSound blank) served_lem refl

abbrev link : RleLl
link = record {
  sent_up = 0;
  sent_down = 0;
  alpdu_hdr = pos 2;
  has_uptarget = true;
  initialized = true;
}

abbrev packet : Packet
packet = record { uid = 5; size = pos 98; prio = pos 2; flowid = pos 1; direction = down }

hdr-init_packet : init_packet link packet ≡ some hdr
unfolding init_packet
hdr-init_packet = refl

recv-send_up_example :
    (recv link packet ≡ some (record link { sent_down = 0 + 1 }, sends_down packet hdr))
    × ((q : Receiver) × (send_up (λ _. 1) (λ _. 103) receiver 3 (fragments 5 0 hdr (40 ∷ cuts))
          ≡ finished q)
        × (q.delivered ≡ 5 ∷ []))
recv-send_up_example =
    recv-send_up link packet 98 2 2 hdr (λ _. 1) (λ _. 103) 3 0 40 cuts receiver 511 served refl
      refl refl refl (omega arith) refl (omega arith) hdr-init_packet hdr-Cuts refl refl
      (init-IsSound blank) served_lem refl
