-- ===== src/GapIdentifier/Run.antt =====
-- Sequences of calls.
use conn.Common.{
  ℕ, suc, ◌+◌, ◌^◌, ◌<◌, ◌≤◌, refl, ap₂, ◌∙◌, List, [], ◌∷◌, arith, Bytes, length, add64, lt→ltb,
  not_lt→ltb,
}
use native.Mathlib.Decide.{dec_lt}
use conn.GapIdentifier.{
  Config, GapIdentifier, update, packet_of, update_seq_num, update_seq_num_flush, drain_packet,
  drain_packet_to, drain_and_replay, replay,
}
use conn.GapIdentifier.Queue
use conn.GapIdentifier.Queue.{Waiting, flush_run, skip_to}
use conn.GapIdentifier.Inv.{contents, IsValid, IsValid-other}
use conn.GapIdentifier.Slots.{view, contents_of_empty}
use conn.GapIdentifier.Refine.{
  Shows, drain_packet-Shows, drain_packet_to-Shows, drain_and_replay-Shows, replay-Shows,
}
use conn.GapIdentifier.Frame.{
  Grows, update-Grows, update_seq_num_flush-Keeps, drain_packet-Keeps, drain_packet_to-Keeps,
  drain_and_replay-Keeps, replay-Keeps,
}
use conn.GapIdentifier.Arrive.{update-Shows}

-- One call of the code that feeds a GapIdentifier.
pub data Call : Type 0 where
  arrives : ℕ → Bytes → ℕ → ℕ → ℕ → ℕ → Call
  in_sequence : ℕ → Call
  in_sequence_flush : ℕ → Call
  drain : Call
  drain_to : ℕ → Call
  flush : Call
  replays : ℕ → Call

update_seq_num_flush-Shows :
    (g : GapIdentifier) (n : ℕ)
    → IsValid g
    → Shows
        (update_seq_num_flush g n)
        (flush_run (contents g) (record (view g) { expected = add64 n 1 }))
unfolding update_seq_num_flush flush_run
update_seq_num_flush-Shows g n v =
    let g1 : GapIdentifier = update_seq_num g n in
    let v1 = IsValid-other (add64 n 1) g.packet_num g.request_gap g.log v in
    elim (dec_lt g.read_index g.write_index) [
      | yes more ↦ rw (lt→ltb _ _ more) (drain_and_replay-Shows g1 v1)
      | no none_left ↦ rw (not_lt→ltb _ _ none_left, contents_of_empty g none_left) (v1, refl)
    ]

module _ (cfg : Config) where
  unfoldable pub exec : GapIdentifier → Call → GapIdentifier
  exec g (arrives seq_num obj size packet_num kind ts) =
      (update cfg g seq_num obj size packet_num kind ts).1
  exec g (in_sequence n) = update_seq_num g n
  exec g (in_sequence_flush n) = update_seq_num_flush g n
  exec g drain = drain_packet g
  exec g (drain_to n) = drain_packet_to g n
  exec g flush = drain_and_replay g
  exec g (replays n) = replay cfg g n

  -- The same call on the queue, of which at most `room` packets may wait.
  unfoldable pub queue_exec : ℕ → Waiting → Call → Waiting
  queue_exec room w (arrives seq_num obj size packet_num kind ts) =
      (Queue.update cfg w (packet_of seq_num obj size kind ts) packet_num room).1
  queue_exec room w (in_sequence n) = record w { expected = add64 n 1 }
  queue_exec room w (in_sequence_flush n) = flush_run w.queue (record w { expected = add64 n 1 })
  queue_exec room w drain = record w { queue = [] }
  queue_exec room w (drain_to n) = record w { queue = skip_to n w.queue }
  queue_exec room w flush = flush_run w.queue w
  queue_exec room w (replays n) = Queue.replay cfg w n

  -- The packet of a call fits `m_obj`.
  abbrev pub Fits : Call → Type 0
  Fits (arrives seq_num obj size packet_num kind ts) = size ≤ cfg.max_pkt_size
  Fits _ = Unit {0}

  abbrev pub AllFit : List Call → Type 0
  AllFit [] = Unit {0}
  AllFit (c ∷ cs) = Fits c × AllFit cs

  exec-Shows :
      (g : GapIdentifier) (c : Call)
      → IsValid g
      → suc g.write_index < 2 ^ 32
      → Fits c
      → Shows (exec g c) (queue_exec (g.max_index + 1) (view g) c)
  unfolding exec queue_exec
  exec-Shows g (arrives seq_num obj size packet_num kind ts) v small fit =
      (update-Shows cfg g seq_num obj size packet_num kind ts v small fit).1
  exec-Shows g (in_sequence n) v small fit =
      (IsValid-other (add64 n 1) g.packet_num g.request_gap g.log v, refl)
  exec-Shows g (in_sequence_flush n) v small fit = update_seq_num_flush-Shows g n v
  exec-Shows g drain v small fit = drain_packet-Shows g v
  exec-Shows g (drain_to n) v small fit = drain_packet_to-Shows g n v
  exec-Shows g flush v small fit = drain_and_replay-Shows g v
  exec-Shows g (replays n) v small fit = replay-Shows cfg g n v

  exec-Grows : (g : GapIdentifier) (c : Call) → suc g.write_index < 2 ^ 32 → Grows cfg g (exec g c)
  unfolding exec
  exec-Grows g (arrives seq_num obj size packet_num kind ts) small =
      update-Grows cfg g seq_num obj size packet_num kind ts small
  exec-Grows g (in_sequence n) small = omega arith
  exec-Grows g (in_sequence_flush n) small = omega (arith, update_seq_num_flush-Keeps g n)
  exec-Grows g drain small = omega (arith, drain_packet-Keeps g)
  exec-Grows g (drain_to n) small = omega (arith, drain_packet_to-Keeps g n)
  exec-Grows g flush small = omega (arith, drain_and_replay-Keeps g)
  exec-Grows g (replays n) small = omega (arith, replay-Keeps cfg g n)

  unfoldable pub run : GapIdentifier → List Call → GapIdentifier
  run g [] = g
  run g (c ∷ cs) = run (exec g c) cs

  unfoldable pub queue_run : ℕ → Waiting → List Call → Waiting
  queue_run room w [] = w
  queue_run room w (c ∷ cs) = queue_run room (queue_exec room w c) cs

  -- After any sequence of calls the array is valid, and no client can tell it from the queue: it has
  -- had the same calls, the same packets wait, and the same numbers are expected. Each packet must fit
  -- `m_obj`, with at most `max_pkt_size` bytes, and the write index must be able to count the calls
  -- without passing 2 ^ 32.
  pub run-Shows :
      (cs : List Call) (g : GapIdentifier)
      → IsValid g
      → g.write_index + length cs < 2 ^ 32
      → AllFit cs
      → Shows (run g cs) (queue_run (g.max_index + 1) (view g) cs)
  unfolding run queue_run
  run-Shows [] g v small fits = (v, refl)
  run-Shows (c ∷ cs) g v small (fit, fits) =
      let (v1, e1) = exec-Shows g c v (omega arith) fit in
      let (same, grown) = exec-Grows g c (omega arith) in
      let (v2, e2) = run-Shows cs (exec g c) v1 (omega arith) fits in
      (v2, e2 ∙ ap₂ (λ k w. queue_run k w cs) (omega arith) e1)
