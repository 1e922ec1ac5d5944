-- ===== src/GapIdentifier/Queue.antt =====
-- What GapIdentifier promises, without the array: the packets that wait are a queue.
use conn.Common.{
  ℕ, Bool, true, false, not, ◌&&◌, ◌||◌, List, [], ◌∷◌, ◌++◌, ltb, leb, ◌==◌, if◌then◌else◌, add64,
  length, drop,
}
use conn.GapIdentifier.{Packet, Event, on_packet_gap, replay_event, Config, overwrites}

pub record Waiting : Type 0 where
  pub expected : ℕ
  pub max_seen : ℕ
  pub packet_num : ℕ
  pub request_gap : Bool
  pub queue : List Packet
  pub log : List Event

abbrev pub head_or : List Packet → ℕ → ℕ
head_or [] d = d
head_or (p ∷ q) d = p.seq_num

-- Drop every packet up to the number.
unfoldable pub skip_to : ℕ → List Packet → List Packet
skip_to n [] = []
skip_to n (p ∷ q) = if leb p.seq_num n then skip_to n q else p ∷ q

-- Replay the packets at the front that carry the next number, one after the other. The first
-- argument is the queue.
unfoldable pub replay_run : List Packet → Waiting → Waiting
replay_run [] w = w
replay_run (p ∷ q) w =
    let rest =
      replay_run q (record w {
        expected = add64 w.expected 1;
        queue = q;
        log = w.log ++ replay_event p ∷ [];
      }) in
    if p.seq_num == w.expected then rest else w

-- Drop what is older than the next number, and replay what carries it.
unfoldable pub flush_run : List Packet → Waiting → Waiting
flush_run [] w = w
flush_run (p ∷ q) w =
    let dropped = flush_run q (record w { queue = q }) in
    let replayed =
      flush_run q (record w {
        expected = add64 w.expected 1;
        queue = q;
        log = w.log ++ replay_event p ∷ [];
      }) in
    if ltb p.seq_num w.expected then dropped else if p.seq_num == w.expected then replayed else w

module _ (cfg : Config) where
  unfoldable pub ask : Waiting → ℕ → ℕ → ℕ → Waiting
  ask w start buff incr = record w {
    request_gap = if cfg.answer w.log start buff incr then false else w.request_gap;
    log = w.log ++ on_packet_gap start buff incr ∷ [];
  }

  -- `ask` at the number of the packet in front.
  unfoldable pub ask_head : List Packet → Waiting → Waiting
  unfolding ask
  ask_head [] w = w
  ask_head (p ∷ q) w = ask w w.expected p.seq_num p.seq_num

  unfoldable pub replay : Waiting → ℕ → Waiting
  unfolding ask_head replay_run
  replay w seq_num =
      let w1 = replay_run w.queue (record w { expected = seq_num; request_gap = true }) in
      ask_head w1.queue w1

  -- Wait behind the others; where the queue is full the oldest gives way, or the packet is refused.
  unfoldable pub enqueue : Bool → Waiting → Packet → Waiting
  enqueue full w p =
      if ltb 0 p.size && (not full || overwrites cfg.overflow)
      then record w {
        queue = (if full then drop 1 w.queue else w.queue) ++ p ∷ [];
        max_seen = p.seq_num;
      }
      else w

  -- A packet ahead of the expected one, where `room` packets may wait.
  unfoldable pub arrive : Waiting → Packet → ℕ → Bool × Waiting
  unfolding ask enqueue
  arrive w p room =
      let full = leb room (length w.queue) in
      let w1 = enqueue full w p in
      let w2 =
        if w1.request_gap then ask w1 w1.expected (head_or w1.queue p.seq_num) p.seq_num else w1 in
      (not full, w2)

  unfoldable pub update : Waiting → Packet → ℕ → ℕ → Bool × Waiting
  unfolding arrive
  update w p packet_num room =
      if ltb cfg.packet_bytes p.size
      then (false, w)
      else if leb p.seq_num w.max_seen || ltb p.seq_num w.expected
      then (false, w)
      else if ltb w.expected p.seq_num
      then arrive w p room
      else (true, record w { packet_num = packet_num })
