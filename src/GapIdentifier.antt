-- ===== src/GapIdentifier.antt =====
-- common/GapIdentifier.h: packets that arrive ahead of a gap wait in a circular array, and are
-- replayed to the client once the gap is filled.
pub mod Queue
pub mod Inv
pub mod Slots
pub mod Refine
pub mod Promises
pub mod Overrun
pub mod Frame
pub mod Run
pub mod Arrive
mod Tests
use conn.Common.{
  ℕ, zero, suc, ◌+◌, ◌-◌, ◌%◌, Bool, true, false, ◌&&◌, ◌||◌, List, [], ◌∷◌, ◌++◌, ltb, leb, ◌==◌,
  if◌then◌else◌, add32, sub32, add64, Bytes, take,
}
use conn.Common.Window.{store}

-- `SeqPacket` of GapIdentifier.h. `obj` holds the bytes that the last memcpy put into `m_obj`; what
-- older packets left behind them is not modelled. A `MsgType` is any number.
pub record Packet : Type 0 where
  pub obj : Bytes
  pub size : ℕ
  pub seq_num : ℕ
  pub ts : ℕ
  pub kind : ℕ

-- The calls that the client `m_seq_cli` receives, with their arguments.
pub data Event : Type 0 where
  replay_packet : Bytes → ℕ → ℕ → Event
  replay_packet_at : Bytes → ℕ → ℕ → ℕ → Event
  on_packet_gap : ℕ → ℕ → ℕ → Event

-- `Overflow`: what happens to a packet that finds the array full.
pub data Overflow : Type 0 where
  min_seq max_seq : Overflow

-- The template arguments and the client. `packet_bytes` is sizeof(SeqPacket<MAX_PKT_SIZE>),
-- `overrun` what `m_seq_num` holds behind a memcpy of more than `max_pkt_size` bytes into `m_obj`, which
-- the layout of SeqPacket decides, and `answer` what onPacketGap returns, given all the calls that the
-- client has had.
pub record Config : Type 0 where
  pub overflow : Overflow
  pub max_pkt_size : ℕ
  pub packet_bytes : ℕ
  pub overrun : Packet → ℕ
  pub answer : List Event → ℕ → ℕ → ℕ → Bool

pub record GapIdentifier : Type 0 where
  pub expected_seq_num : ℕ
  pub max_index : ℕ
  pub max_seq_num : ℕ
  pub write_index : ℕ
  pub read_index : ℕ
  pub packet_num : ℕ
  pub request_gap : Bool
  pub slots : ℕ → Packet
  pub log : List Event

abbrev pub no_packet : Packet
no_packet = record { obj = []; size = 0; seq_num = 0; ts = 0; kind = 0 }

-- The constructor, where posix_memalign succeeds; `size - 1` is a uint32_t.
unfoldable pub init : ℕ → GapIdentifier
init size = record {
  expected_seq_num = 1;
  max_index = sub32 size 1;
  max_seq_num = 0;
  write_index = 0;
  read_index = 0;
  packet_num = 0;
  request_gap = true;
  slots = λ _. no_packet;
  log = [];
}

abbrev pub get_index : GapIdentifier → ℕ → ℕ
get_index g idx = idx % (g.max_index + 1)

-- The slot at `m_read_index`.
abbrev pub first_slot : GapIdentifier → Packet
first_slot g = g.slots (get_index g g.read_index)

abbrev pub set_re_request_flag : GapIdentifier → GapIdentifier
set_re_request_flag g = record g { request_gap = false }

abbrev pub unset_re_request_flag : GapIdentifier → GapIdentifier
unset_re_request_flag g = record g { request_gap = true }

abbrev pub num_elements : GapIdentifier → ℕ
num_elements g = sub32 g.write_index g.read_index

abbrev pub is_in_seq : GapIdentifier → ℕ → Bool
is_in_seq g seq_num = g.expected_seq_num == seq_num

abbrev pub is_duplicate : GapIdentifier → ℕ → Bool
is_duplicate g seq_num = ltb seq_num g.expected_seq_num

abbrev pub update_seq_num : GapIdentifier → ℕ → GapIdentifier
update_seq_num g seq_num = record g { expected_seq_num = add64 seq_num 1 }

-- The call that replays a packet: a time stamp of 0 selects the shorter overload.
abbrev pub replay_event : Packet → Event
replay_event p =
    if p.ts == 0
    then replay_packet p.obj p.seq_num p.kind
    else replay_packet_at p.obj p.seq_num p.ts p.kind

-- The slot at `m_read_index` with number 0, and the index moved on.
unfoldable pub drop_first : GapIdentifier → GapIdentifier
drop_first g = record g {
  slots = store g.slots (get_index g g.read_index) (record (first_slot g) { seq_num = 0 });
  read_index = add32 g.read_index 1;
}

-- `processBuffer`
unfoldable pub process_buffer : GapIdentifier → GapIdentifier
unfolding drop_first
process_buffer g = record (drop_first g) {
  expected_seq_num = add64 g.expected_seq_num 1;
  log = g.log ++ replay_event (first_slot g) ∷ [];
}

-- `m_read_index < m_write_index`
abbrev pub has_packet : GapIdentifier → Bool
has_packet g = ltb g.read_index g.write_index

-- Each loop below runs at most once for each index from the read to the write index.
abbrev pub rounds : GapIdentifier → ℕ
rounds g = g.write_index - g.read_index

drain_packet_loop : ℕ → GapIdentifier → GapIdentifier
drain_packet_loop zero g = g
drain_packet_loop (suc n) g =
    let rest = drain_packet_loop n (drop_first g) in if has_packet g then rest else g

-- `drainPacket()`
unfoldable pub drain_packet : GapIdentifier → GapIdentifier
unfolding drain_packet_loop
drain_packet g = drain_packet_loop (rounds g) g

drain_packet_to_loop : ℕ → ℕ → GapIdentifier → GapIdentifier
drain_packet_to_loop zero seq_num g = g
drain_packet_to_loop (suc n) seq_num g =
    let rest = drain_packet_to_loop n seq_num (drop_first g) in
    if has_packet g && leb (first_slot g).seq_num seq_num then rest else g

-- `drainPacket(seq_num)`
unfoldable pub drain_packet_to : GapIdentifier → ℕ → GapIdentifier
unfolding drain_packet_to_loop
drain_packet_to g seq_num = drain_packet_to_loop (rounds g) seq_num g

drain_and_replay_loop : ℕ → GapIdentifier → GapIdentifier
drain_and_replay_loop zero g = g
drain_and_replay_loop (suc n) g =
    let dropped = drain_and_replay_loop n (drop_first g) in
    let replayed = drain_and_replay_loop n (process_buffer g) in
    if has_packet g
    then if ltb (first_slot g).seq_num g.expected_seq_num
      then dropped
      else if (first_slot g).seq_num == g.expected_seq_num
      then replayed
      else g
    else g

-- `drainAndReplay`
unfoldable pub drain_and_replay : GapIdentifier → GapIdentifier
unfolding drain_and_replay_loop
drain_and_replay g = drain_and_replay_loop (rounds g) g

-- `updateSeqNumFlush`
unfoldable pub update_seq_num_flush : GapIdentifier → ℕ → GapIdentifier
update_seq_num_flush g seq_num =
    let g1 = update_seq_num g seq_num in if has_packet g1 then drain_and_replay g1 else g1

replay_loop : ℕ → GapIdentifier → GapIdentifier
replay_loop zero g = g
replay_loop (suc n) g =
    let rest = replay_loop n (process_buffer g) in
    if has_packet g && (first_slot g).seq_num == g.expected_seq_num then rest else g

-- The packet that `update` is given; the memcpy takes `size` bytes of it.
abbrev pub packet_of : ℕ → Bytes → ℕ → ℕ → ℕ → Packet
packet_of seq_num obj size kind ts = record {
  obj = take size obj;
  size = size;
  seq_num = seq_num;
  ts = ts;
  kind = kind;
}

-- The slot at `m_write_index` is filled; `seq_num` is the number of the packet.
unfoldable pub fill_slot : GapIdentifier → Packet → ℕ → GapIdentifier
fill_slot g p seq_num = record g {
  slots = store g.slots (get_index g g.write_index) p;
  write_index = add32 g.write_index 1;
  max_seq_num = seq_num;
}

-- `(m_write_index - m_read_index) > m_max_index`
abbrev pub is_full : GapIdentifier → Bool
is_full g = ltb g.max_index (num_elements g)

abbrev pub overwrites : Overflow → Bool
overwrites min_seq = true
overwrites max_seq = false

module _ (cfg : Config) where
  -- What a slot holds behind the assignments and the memcpy. The check of `update` lets a packet pass
  -- that is larger than `m_obj`, and not than the SeqPacket: its memcpy runs over the members behind
  -- `m_obj`, of which all but `m_seq_num` are assigned afterwards.
  unfoldable pub landed : Packet → Packet
  landed p =
      if leb p.size cfg.max_pkt_size
      then p
      else record p { obj = take cfg.max_pkt_size p.obj; seq_num = cfg.overrun p }

  -- The branches of `update` that keep the packet.
  unfoldable pub insert : GapIdentifier → Packet → GapIdentifier
  unfolding landed fill_slot
  insert g p = fill_slot g (landed p) p.seq_num

  -- `if (m_seq_cli->onPacketGap(start, buff, incr)) setReRequestFlag();`
  unfoldable pub ask : GapIdentifier → ℕ → ℕ → ℕ → GapIdentifier
  ask g start buff incr =
      let asked = record g { log = g.log ++ on_packet_gap start buff incr ∷ [] } in
      if cfg.answer g.log start buff incr then set_re_request_flag asked else asked

  -- The end of `replayPacket`: ask for what is missing before the packet in front.
  pub ask_next : GapIdentifier → GapIdentifier
  unfolding ask
  ask_next g =
      if has_packet g
      then ask g g.expected_seq_num (first_slot g).seq_num (first_slot g).seq_num
      else g

  -- `replayPacket(seq_num)`
  unfoldable pub replay : GapIdentifier → ℕ → GapIdentifier
  unfolding replay_loop ask_next
  replay g seq_num =
      let start = unset_re_request_flag (record g { expected_seq_num = seq_num }) in
      ask_next (replay_loop (rounds start) start)

  -- `if (m_request_gap && m_seq_cli->onPacketGap(m_expected_seq_num, buff, seq_num)) …`, the end of
  -- both branches of `update`.
  pub ask_wanted : GapIdentifier → ℕ → ℕ → GapIdentifier
  ask_wanted g buff seq_num = if g.request_gap then ask g g.expected_seq_num buff seq_num else g

  -- `update`, where the array is full.
  pub update_full : GapIdentifier → Packet → GapIdentifier
  update_full g p =
      let g1 =
        if ltb 0 p.size && overwrites cfg.overflow
        then record (insert g p) { read_index = add32 g.read_index 1 }
        else g in
      ask_wanted g1 (first_slot g1).seq_num p.seq_num

  -- `update` of a packet ahead of the expected one, where there is room.
  pub update_ahead : GapIdentifier → Packet → GapIdentifier
  update_ahead g p =
      let g1 = if ltb 0 p.size then insert g p else g in
      let buff = if (first_slot g1).seq_num == 0 then p.seq_num else (first_slot g1).seq_num in
      ask_wanted g1 buff p.seq_num

  pub receive : GapIdentifier → Packet → ℕ → Bool × GapIdentifier
  receive g p packet_num =
      if ltb cfg.packet_bytes p.size
      then (false, g)
      else if leb p.seq_num g.max_seq_num || ltb p.seq_num g.expected_seq_num
      then (false, g)
      else if ltb g.expected_seq_num p.seq_num
      then if is_full g then (false, update_full g p) else (true, update_ahead g p)
      else (true, record g { packet_num = packet_num })

  unfoldable pub update : GapIdentifier → ℕ → Bytes → ℕ → ℕ → ℕ → ℕ → Bool × GapIdentifier
  unfolding receive
  update g seq_num obj size packet_num kind ts =
      receive g (packet_of seq_num obj size kind ts) packet_num
