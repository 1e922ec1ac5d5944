-- ===== src/GapIdentifier/Tests.antt =====
-- GapIdentifier at concrete packets.
use conn.Common.{ℕ, ◌≡◌, refl, true, List, [], ◌∷◌, arith}
use conn.Common.Window.{store}
use conn.GapIdentifier.{
  Packet, max_seq, Config, GapIdentifier, no_packet, init, get_index, update, packet_of, replay,
  drain_and_replay, receive, update_full, update_ahead, ask_wanted, ask, insert, landed, fill_slot,
  replay_packet, on_packet_gap, process_buffer, replay_loop, ask_next,
}
use conn.GapIdentifier.Queue
use conn.GapIdentifier.Queue.{Waiting}
use conn.GapIdentifier.Inv.{contents, IsValid}
use conn.GapIdentifier.Slots.{view}
use conn.GapIdentifier.Refine.{Shows}
use conn.GapIdentifier.Arrive.{update-Shows}
use conn.GapIdentifier.Promises.{Ran, replay-Ran, Flushed, drain_and_replay-Flushed}
use conn.GapIdentifier.Run.{Call, arrives, replays, run, exec, queue_run, run-Shows}

-- A client that takes each request for a gap.
abbrev cfg : Config
cfg = record {
  overflow = max_seq;
  max_pkt_size = 2;
  packet_bytes = 4;
  overrun = λ p. 0;
  answer = λ _ _ _ _. true;
}

abbrev calls : List Call
calls =
    arrives 3 (7 ∷ []) 1 1 0 0
    ∷ arrives 4 (8 ∷ []) 1 2 0 0
    ∷ arrives 4 (8 ∷ []) 1 3 0 0
    ∷ arrives 6 (9 ∷ []) 1 4 0 0
    ∷ replays 3
    ∷ []

run_replays_the_run :
    (run cfg (init 4) calls).log
    ≡ on_packet_gap 1 3 3
      ∷ replay_packet (7 ∷ []) 3 0
      ∷ replay_packet (8 ∷ []) 4 0
      ∷ on_packet_gap 5 6 6
      ∷ []
unfolding run exec update receive update_full update_ahead ask_wanted ask insert landed fill_slot
    init replay replay_loop ask_next process_buffer
run_replays_the_run = refl

abbrev packet : ℕ → Packet
packet n = record { obj = n ∷ []; size = 1; seq_num = n; ts = 0; kind = 0 }

-- 3, 4 and 6 wait at the indices 1 to 3 of four slots.
abbrev waiting : GapIdentifier
waiting = record {
  expected_seq_num = 1;
  max_index = 3;
  max_seq_num = 6;
  write_index = 4;
  read_index = 1;
  packet_num = 0;
  request_gap = true;
  slots = store (store (store (λ _. no_packet) 1 (packet 3)) 2 (packet 4)) 3 (packet 6);
  log = [];
}

waiting-IsValid : IsValid waiting
waiting-IsValid = record {
  range = omega arith;
  spare = λ k lo hi. spare_zero k (omega arith);
  ascending = omega arith;
}
  where
    spare_zero : (k : ℕ) → k ≡ 4 → (waiting.slots (get_index waiting k)).seq_num ≡ 0
    spare_zero k e = rw e

update-Shows_example :
    let (done, g') = update cfg waiting 8 (9 ∷ []) 1 0 0 0 in
    let (done', w) = Queue.update cfg (view waiting) (packet_of 8 (9 ∷ []) 1 0 0) 0 4 in
    (done ≡ done') × Shows g' w
update-Shows_example =
    update-Shows cfg waiting 8 (9 ∷ []) 1 0 0 0 waiting-IsValid (omega arith) (omega arith)

run-Shows_example : Shows (run cfg waiting calls) (queue_run cfg 4 (view waiting) calls)
run-Shows_example = run-Shows cfg calls waiting waiting-IsValid (omega arith) (omega arith)

replay-Ran_example :
    (after : Waiting) × Ran 3
      (contents waiting)
      (record (view waiting) { expected = 3; request_gap = true })
      after
    × (view (replay cfg waiting 3) ≡ Queue.ask_head cfg after.queue after)
    × IsValid (replay cfg waiting 3)
replay-Ran_example = replay-Ran cfg waiting 3 waiting-IsValid (omega arith)

drain_and_replay-Flushed_example :
    Flushed 1 (contents waiting) (view waiting) (view (drain_and_replay waiting))
    × IsValid (drain_and_replay waiting)
drain_and_replay-Flushed_example = drain_and_replay-Flushed waiting waiting-IsValid (omega arith)
