-- ===== src/GapIdentifier/Refine.antt =====
-- The array behaves as the queue of the packets that wait in it: each operation of the code, seen
-- through `view`, is that of the queue.
use conn.Common.{
  ℕ, zero, suc, ◌≤◌, ◌≡◌, refl, sym, ap, ◌∙◌, Bool, true, false, [], ◌∷◌, ◌++◌, ltb, leb, ◌==◌,
  arith, inl, inr, Bool-cases, lt→ltb, not_lt→ltb,
}
use native.Mathlib.Decide.{dec_lt}
use conn.GapIdentifier.{
  on_packet_gap, Config, GapIdentifier, first_slot, drop_first, process_buffer, rounds, ask,
  drain_packet_loop, drain_packet, drain_packet_to_loop, drain_packet_to, drain_and_replay_loop,
  drain_and_replay, replay_loop, ask_next, replay,
}
use conn.GapIdentifier.Queue
use conn.GapIdentifier.Queue.{Waiting, replay_run, flush_run, skip_to}
use conn.GapIdentifier.Inv.{contents, IsValid, IsValid-other}
use conn.GapIdentifier.Slots.{
  view, contents-drop_first, contents_of_empty, drop_first-IsValid, process_buffer-IsValid,
  rounds-drop_first,
}

-- `IsValid`, and the same view.
abbrev pub Shows : GapIdentifier → Waiting → Type 0
Shows g w = IsValid g × (view g ≡ w)

view-drop_first :
    (g : GapIdentifier) → view (drop_first g) ≡ record (view g) { queue = contents (drop_first g) }
unfolding drop_first
view-drop_first g = refl

replay_loop-Shows :
    (n : ℕ) (g : GapIdentifier)
    → IsValid g
    → rounds g ≤ n
    → Shows (replay_loop n g) (replay_run (contents g) (view g))
unfolding replay_loop replay_run process_buffer
replay_loop-Shows zero g v h = let e = contents_of_empty g (omega arith) in (v, rw e)
replay_loop-Shows (suc n) g v h = elim (dec_lt g.read_index g.write_index) [
  | yes more ↦
      let e = contents-drop_first g v.range more in
      let ih =
        replay_loop-Shows n (process_buffer g) (process_buffer-IsValid g v more) (omega arith) in
      elim (Bool-cases ((first_slot g).seq_num == g.expected_seq_num)) [
        | inl same ↦ rw (lt→ltb _ _ more, same, e) (rw same ih)
        | inr other ↦ rw (lt→ltb _ _ more, other, e) (v, rw other)
      ]
  | no none_left ↦ rw (not_lt→ltb _ _ none_left, contents_of_empty g none_left) (v, refl)
]

flush_loop-Shows :
    (n : ℕ) (g : GapIdentifier)
    → IsValid g
    → rounds g ≤ n
    → Shows (drain_and_replay_loop n g) (flush_run (contents g) (view g))
unfolding drain_and_replay_loop flush_run process_buffer
flush_loop-Shows zero g v h = let e = contents_of_empty g (omega arith) in (v, rw e)
flush_loop-Shows (suc n) g v h = elim (dec_lt g.read_index g.write_index) [
  | yes more ↦
      let e = contents-drop_first g v.range more in
      let dropped =
        flush_loop-Shows n (drop_first g) (drop_first-IsValid g v more)
          (rounds-drop_first g n v.range more h) in
      let replayed =
        flush_loop-Shows n (process_buffer g) (process_buffer-IsValid g v more)
          (rounds-drop_first g n v.range more h) in
      elim (Bool-cases (ltb (first_slot g).seq_num g.expected_seq_num)) [
        | inl old ↦ rw (lt→ltb _ _ more, old, e) (rw old (rw (view-drop_first g) at dropped))
        | inr new ↦ elim (Bool-cases ((first_slot g).seq_num == g.expected_seq_num)) [
          | inl same ↦ rw (lt→ltb _ _ more, new, same, e) (rw (new, same) replayed)
          | inr other ↦ rw (lt→ltb _ _ more, new, other, e) (v, rw (new, other))
        ]
      ]
  | no none_left ↦ rw (not_lt→ltb _ _ none_left, contents_of_empty g none_left) (v, refl)
]

-- `skip_to` on the queue of `w`.
abbrev skip : ℕ → Waiting → Waiting
skip n w = record w { queue = skip_to n w.queue }

drain_to_loop-Shows :
    (n seq_num : ℕ) (g : GapIdentifier)
    → IsValid g
    → rounds g ≤ n
    → Shows (drain_packet_to_loop n seq_num g) (skip seq_num (view g))
unfolding drain_packet_to_loop skip_to
drain_to_loop-Shows zero seq_num g v h = let e = contents_of_empty g (omega arith) in (v, rw e)
drain_to_loop-Shows (suc n) seq_num g v h = elim (dec_lt g.read_index g.write_index) [
  | yes more ↦
      let e = contents-drop_first g v.range more in
      let dropped =
        drain_to_loop-Shows n seq_num (drop_first g) (drop_first-IsValid g v more)
          (rounds-drop_first g n v.range more h) in
      elim (Bool-cases (leb (first_slot g).seq_num seq_num)) [
        | inl old ↦
            rw (lt→ltb _ _ more, old, e)
              (rw old (dropped.0, dropped.1 ∙ ap (skip seq_num) (view-drop_first g)))
        | inr new ↦ rw (lt→ltb _ _ more, new, e) (v, rw new)
      ]
  | no none_left ↦ rw (not_lt→ltb _ _ none_left, contents_of_empty g none_left) (v, refl)
]

drain_loop-Shows :
    (n : ℕ) (g : GapIdentifier)
    → IsValid g
    → rounds g ≤ n
    → Shows (drain_packet_loop n g) (record (view g) { queue = [] })
unfolding drain_packet_loop
drain_loop-Shows zero g v h = let e = contents_of_empty g (omega arith) in (v, rw e)
drain_loop-Shows (suc n) g v h = elim (dec_lt g.read_index g.write_index) [
  | yes more ↦
      let (v', d) =
        drain_loop-Shows n (drop_first g) (drop_first-IsValid g v more)
          (rounds-drop_first g n v.range more h) in
      rw (lt→ltb _ _ more)
        (v', d ∙ ap (λ (w : Waiting). record w { queue = [] }) (view-drop_first g))
  | no none_left ↦ rw (not_lt→ltb _ _ none_left) (v, rw (contents_of_empty g none_left))
]

-- `drainPacket()` leaves a valid and empty array, and changes nothing else.
pub drain_packet-Shows :
    (g : GapIdentifier) → IsValid g → Shows (drain_packet g) (record (view g) { queue = [] })
unfolding drain_packet
drain_packet-Shows g v = drain_loop-Shows (rounds g) g v (omega arith)

-- `drainPacket(n)` drops the waiting packets from the oldest on up to the first with a number above
-- `n`, and nothing else.
pub drain_packet_to-Shows :
    (g : GapIdentifier) (seq_num : ℕ)
    → IsValid g
    → Shows (drain_packet_to g seq_num) (record (view g) { queue = skip_to seq_num (contents g) })
unfolding drain_packet_to
drain_packet_to-Shows g seq_num v = drain_to_loop-Shows (rounds g) seq_num g v (omega arith)

-- `drainAndReplay` is `flush_run` of the queue: on a valid array its loop ends by itself.
pub drain_and_replay-Shows :
    (g : GapIdentifier) → IsValid g → Shows (drain_and_replay g) (flush_run (contents g) (view g))
unfolding drain_and_replay
drain_and_replay-Shows g v = flush_loop-Shows (rounds g) g v (omega arith)

pub ask-Shows :
    (cfg : Config) (g : GapIdentifier) (start buff incr : ℕ)
    → IsValid g
    → Shows (ask cfg g start buff incr) (Queue.ask cfg (view g) start buff incr)
unfolding ask Queue.ask
ask-Shows cfg g start buff incr v = elim (Bool-cases (cfg.answer g.log start buff incr)) [
  | inl stop ↦ rw stop (keeps false, refl)
  | inr on ↦ rw on (keeps g.request_gap, refl)
]
  where
    keeps :
        (flag : Bool)
        → IsValid
            (record g { request_gap = flag; log = g.log ++ on_packet_gap start buff incr ∷ [] })
    keeps flag = IsValid-other g.expected_seq_num g.packet_num flag _ v

ask_next-Shows :
    (cfg : Config) (g : GapIdentifier)
    → IsValid g
    → Shows (ask_next cfg g) (Queue.ask_head cfg (contents g) (view g))
unfolding ask_next Queue.ask_head
ask_next-Shows cfg g v = elim (dec_lt g.read_index g.write_index) [
  | yes more ↦
      let e = contents-drop_first g v.range more in
      let s = ask-Shows cfg g g.expected_seq_num (first_slot g).seq_num (first_slot g).seq_num v in
      rw (lt→ltb _ _ more) (s.0, s.1 ∙ sym (ap (λ q. Queue.ask_head cfg q (view g)) e))
  | no none_left ↦ rw (not_lt→ltb _ _ none_left, contents_of_empty g none_left) (v, refl)
]

-- `replayPacket(n)` is `Queue.replay`: the run of consecutive packets from `n` on is replayed, and
-- the client is asked about the next gap if packets are left.
pub replay-Shows :
    (cfg : Config) (g : GapIdentifier) (seq_num : ℕ)
    → IsValid g
    → Shows (replay cfg g seq_num) (Queue.replay cfg (view g) seq_num)
unfolding replay Queue.replay
replay-Shows cfg g seq_num v =
    let start : GapIdentifier = record g { expected_seq_num = seq_num; request_gap = true } in
    let (v1, e1) =
      replay_loop-Shows (rounds start) start (IsValid-other seq_num g.packet_num true g.log v)
        (omega arith) in
    let (v2, e2) = ask_next-Shows cfg (replay_loop (rounds start) start) v1 in
    (v2, e2 ∙ ap (λ (w : Waiting). Queue.ask_head cfg w.queue w) e1)
