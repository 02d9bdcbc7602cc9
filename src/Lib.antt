-- ===== src/Lib.antt =====
-- A verification of the satellite access network of this repository: an MF-TDMA/DAMA medium access
-- layer for ns-2 with its encapsulations and its capacity allocator. Every terminal keeps packets
-- in a queue, asks the allocator for capacity, and sends in the timeslots that the allocator's
-- burst table gives it; the MAC of the receiver puts the packets together again.
--
-- Files and the code they model:
-- - Base: numbers, words, integers and lists that the other files share; the type `double` as an
--   interface (Base/Double), and sorting for its order (Base/Sorting).
-- - Rle/Encap: `RleLL` (src/rle-encap.cc, src/rle-encap.h): `recv` and `init_packet`, which
--   writes the RLE metadata of a packet. Rle/Encap/Fresh: what it writes.
-- - Rle/Burst and Rle/Sender: `MacRle::slotHandler` (src/mac-rle.cc), which fills the burst of a
--   timeslot from the packet queue, its two branches first. Rle/Sender/Accounting: the bytes of
--   the slot; Rle/Sender/Order: the packets that it takes.
-- - Rle/Receiver/Table: the constructor `MacRle::MacRle` and `MacRle::get_context`, the hash
--   table of contexts; Rle/Receiver/Table/Buckets: its soundness. Rle/Context: what a fragment
--   does to its context; Rle/Receiver: `MacRle::sendUp`; Rle/Receiver/Validity: its invariant;
--   Rle/Mac: `MacRle::recv` and `reset`.
-- - Rle/RoundTrip: the fragments of one packet fed to a context; Rle/RoundTrip/Loss: with
--   fragments lost; Rle/RoundTrip/Delivery: fed to the whole receiver; Rle/RoundTrip/Link: from
--   `RleLL` on.
-- - Allocator/Mask: `Terminal::setmask`, `testmask` and `reset` (src/mac-allocator.cc);
--   Allocator/Fit: `Frame::reset`, `firstfit` and `bestfit`; Allocator/Assign: `assign_timeslot`;
--   Allocator/Cycle: `reset_allocator`, `init_request_queues`, `allocator_report`, `rcv_req` and
--   `allocation`; Allocator/Command: the calls of `command` that set up frames, rules and rates.
--   Allocator/Setup: the constructor, `init`, `reset` and these calls in a row;
--   Allocator/Setup/Frames, Rules and Ready: what they leave is ready for `allocation`. The other
--   child modules hold the proofs and are named for what these are about.
-- - Atm: `AtmLL` (src/atm-encap.cc): `send_frags`, `sendUp`, `recv` and `reset`; Atm/Arp: the ARP
--   cache of `sendDown`. Atm/Flow: `sendUp` for one address; Atm/Flow/Delivery: round trip and
--   loss; Atm/Sending: what is sent.
-- - Dama: `MacTdmaDama` (src/mac-tdmadama.cc): `recv`, `recv_control`, `btp_decoding`, `sendUp`
--   and `slotHandler`. Dama/Schedule: the timeslots of one table; Dama/Slot: the packets of one
--   slot; Dama/Superframe: from the allocator's `allocation` to the timeslots of the MACs.
-- - Prio: `PacketQueueFid::enque` (src/prio_fid.cc) on linked packets; Prio/Chain: these as
--   sequences; Prio/Enque: the insertion.
-- - Requester: `rate`, `volume` and `dorequest` (src/mac-requester.cc); Requester/Window: the
--   window of requested volumes; Requester/Coverage: what a request asks for. Requester/Timer:
--   the constructor, `init`, "start", "stop" and `expire`; Requester/Timer/Reached: the window
--   over the life of a requester.
-- - Mpeg: `MpegLL` (src/mpeg-encap.cc): `get_queue`; Mpeg/Probe: what it finds. Mpeg/Sender:
--   `new_dvb`, `setpusi`, `insert_frag`, `send_frags`, `sendDown` and `handle_timer`;
--   Mpeg/Sender/Filling, Idle, Packing, Closing and Cells: how the cell of one address is filled;
--   Mpeg/Sender/Shared: cells of several addresses. Mpeg/Receiver: `sendUp`;
--   Mpeg/Receiver/Reassembly and Arrivals: the packets that it puts together. Mpeg/Link: the
--   constructor, `recv` and `reset`; Mpeg/RoundTrip: from one link to another.
-- - Voice: `Voice` (src/voicemodel.cc): `next_interval`, `timeout`, `process_data`, `rscore`,
--   `init` and `reset`. Voice/Spurt: the packets of a burst; Voice/Delays: what is kept of those
--   that arrive; Voice/Score: the choice of `rscore`.
-- - Fullrun: the program of utils/fullrun.c. Fullrun/Tree: its tree of samples;
--   Fullrun/Tree/Order and Lookup: its order and places. Fullrun/Stats: `update_stats`,
--   `save_data` and what `sched_run` does with outputs; Fullrun/Stats/History, Runs and
--   Agreement: what is recorded of the runs. Fullrun/Jobs: its threads and their semaphore;
--   Fullrun/Jobs/Bounds, Work and Invariant: what every step keeps; Fullrun/Jobs/Ending and
--   Progress: their end and their next steps. Fullrun/Config: the numbers of its configuration;
--   Fullrun/Config/Missing: missing keys.
-- - Analy: the records of utils/analy.c; Analy/Search: its loops round the places; Analy/Backlog:
--   the packets in the queue.
-- - Allocator/Tests, Allocator/Setup/Tests, Analy/Tests, Atm/Tests, Dama/Tests, Fullrun/Tests,
--   Mpeg/Tests, Prio/Tests, Requester/Tests, Rle/Tests, Rle/ReceiverTests and Voice/Tests: the
--   theorems at concrete inputs, and runs; Base/Whole: an instance of `double` for them.
--
-- How the code is read:
-- - Numbers are natural numbers; sums and differences of `unsigned` and `unsigned char` wrap at
--   2^32 and 2^8. Signed counters are integers without overflow, but `deficit += req_vec[i]` goes
--   through `unsigned` and back. Sizes of bursts, carriers and timeslots are not negative.
-- - A packet is its identity: `refcopy` shares the packet with its headers, so that the headers
--   are a store `hdr` from identities to `RleHdr`, which the sender updates. For the receiver the
--   length and the destination of each packet are functions of its identity.
-- - The queue lengths that `send_frags` of the ATM layer asks for, the next hop of a packet and
--   the peers of the channel (`find_peer_mac_addr`) are parameters.
-- - The queue that `MacTdmaDama` resumes is a parameter with its operation `resume`, whose packet
--   comes back to the MAC by `recv`; `IsQueue` of Dama/Slot says that it is a sequence of
--   packets.
-- - ns-2's `PacketQueue` is a parameter with its operations `head` and `remove`; the order
--   theorem takes as hypothesis `IsQueue` that they are those of a sequence of packets.
-- - Doubles: an offset `j*frame_duration_/timeslots_` is kept as the pair of `j` and `timeslots_`
--   (`frame_duration_` is not negative, so that a found offset is never below zero); the
--   tolerance test of `allocator_report` and the conversions of rates to bytes are parameters;
--   `utilization_`, `load_` and the limits of the requester hold integers; the filter of the
--   requester's `rate` is a parameter.
-- - In Voice and Fullrun the operations of `double` are an interface whose only law is that `<`
--   is irreflexive and transitive, which holds for all its values, those that are not numbers
--   included. `sort` of the standard library is sorting by insertion.
-- - A cell of the MPE/ULE layer is a copy of a packet for its address, so that its next hop is
--   that address; the content of each `DvbPayload` is kept in a store by its identity, since the
--   member `payload` and the cells share it. Sizes of packets and addresses are not negative.
-- - A thread of utils/fullrun.c takes one step for each test and for each call that other threads
--   can see; what it does while it holds `mutex` is one step of its own, between that of
--   `sem_wait` and that of `sem_post`. The outputs of a run are read in one step, since the
--   command is taken to end, which closes its pipe. `exit` ends all threads. The buffer for the
--   outputs of a run has 1024 bytes, too few for more numbers than the 1024 that `drp` and
--   `stats` have room for.
-- - The sizes of arrays that the code does not check: the burst table and the cells of a frame
--   keep what is written past their end or outside of them, and a flag `overrun` tells that it
--   was, after which C++ says nothing of what the program does. The numbers of frames, terminals
--   and rules are taken to fit their arrays. `masksize` and the squares in `t_distr` are products
--   of `int`s, which wrap at 2^32.
-- - Timeslot `k` of a frame of `n` is the time from `k / n` to `(k + 1) / n` of the superframe.
-- - The pointer chain of free contexts is a list; the chains of buckets are the field `next`.
-- - The local variables `frame` and `offset` of `assign_timeslot` are not initialised in the
--   code: what they hold at first is a parameter of each call.
-- - A call of `abort` or a failed assertion is `none` or a constructor of its own.
-- - Loops that are not counted run on fuel: one unit for each byte of the slot, and one more, in
--   `slot_handler` of Rle/Sender; one for each packet of the queue, and one more, in `enque`; one
--   for each of the 512 contexts, and one more, in `get_context`; one for each of the 100 places
--   in `get_queue`; one for each byte of the packet with its header, and one more, in `fill` of
--   Mpeg/Sender; one for each place in `seek` of Analy; a parameter of `loop` in
--   Allocator/Assign. The theorems that say that these end say that the fuel is enough.
--
-- Not modelled: the physical layer (src/phy-tdmadama.cc), which drops bursts at random and hands
-- the others to channels of ns-2; of utils/fullrun.c `erfinv`, whose loops end by the precision
-- of `double`, the configuration of that type, the start of the command, and signals; of
-- utils/analy.c the loop over the intervals, which ends by that precision, and the reading of
-- traces; the drawing and printing of the allocator, the binding of variables to Tcl, the
-- scheduler, timers and channels of ns-2, routing, and the scripts.
pub mod Base
pub mod Rle
pub mod Atm
pub mod Allocator
pub mod Dama
pub mod Prio
pub mod Requester
pub mod Mpeg
pub mod Fullrun
pub mod Voice
pub mod Analy
