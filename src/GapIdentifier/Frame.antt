-- ===== src/GapIdentifier/Frame.antt =====
-- What no call changes: the size of the array; and the write index moves on by one at most.
use conn.Common.{
  add32, ℕ, zero, suc, ◌^◌, ◌≤◌, ◌<◌, ◌≡◌, refl, true, ◌&&◌, ltb, Bool-cases, inl, inr, arith,
  add64, ◌-◌, Bytes,
}
use conn.GapIdentifier.{
  Packet, Config, GapIdentifier, overwrites, drop_first, process_buffer, drain_packet_loop,
  drain_packet, drain_packet_to_loop, drain_packet_to, drain_and_replay_loop, drain_and_replay,
  update_seq_num_flush, replay_loop, ask, ask_next, ask_wanted, replay, insert, fill_slot,
  update_full, update_ahead, receive, update, packet_of, first_slot,
}

abbrev pub Keeps : GapIdentifier → GapIdentifier → Type 0
Keeps g g' = (g'.max_index ≡ g.max_index) × (g'.write_index ≡ g.write_index)

drop_first-Keeps : (g : GapIdentifier) → Keeps g (drop_first g)
unfolding drop_first
drop_first-Keeps g = (refl, refl)

process_buffer-Keeps : (g : GapIdentifier) → Keeps g (process_buffer g)
unfolding process_buffer
process_buffer-Keeps g = (refl, refl)

drain_packet_loop-Keeps : (n : ℕ) (g : GapIdentifier) → Keeps g (drain_packet_loop n g)
unfolding drain_packet_loop
drain_packet_loop-Keeps zero g = (refl, refl)
drain_packet_loop-Keeps (suc n) g =
    ground (arith, drain_packet_loop-Keeps n (drop_first g), drop_first-Keeps g)

drain_packet_to_loop-Keeps : (n k : ℕ) (g : GapIdentifier) → Keeps g (drain_packet_to_loop n k g)
unfolding drain_packet_to_loop
drain_packet_to_loop-Keeps zero k g = (refl, refl)
drain_packet_to_loop-Keeps (suc n) k g =
    ground (arith, drain_packet_to_loop-Keeps n k (drop_first g), drop_first-Keeps g)

drain_and_replay_loop-Keeps : (n : ℕ) (g : GapIdentifier) → Keeps g (drain_and_replay_loop n g)
unfolding drain_and_replay_loop
drain_and_replay_loop-Keeps zero g = (refl, refl)
drain_and_replay_loop-Keeps (suc n) g = ground (
  arith,
  drain_and_replay_loop-Keeps n (drop_first g),
  drain_and_replay_loop-Keeps n (process_buffer g),
  drop_first-Keeps g,
  process_buffer-Keeps g,
)

replay_loop-Keeps : (n : ℕ) (g : GapIdentifier) → Keeps g (replay_loop n g)
unfolding replay_loop
replay_loop-Keeps zero g = (refl, refl)
replay_loop-Keeps (suc n) g =
    ground (arith, replay_loop-Keeps n (process_buffer g), process_buffer-Keeps g)

pub drain_packet-Keeps : (g : GapIdentifier) → Keeps g (drain_packet g)
unfolding drain_packet
drain_packet-Keeps g = drain_packet_loop-Keeps _ g

pub drain_packet_to-Keeps : (g : GapIdentifier) (n : ℕ) → Keeps g (drain_packet_to g n)
unfolding drain_packet_to
drain_packet_to-Keeps g n = drain_packet_to_loop-Keeps _ n g

pub drain_and_replay-Keeps : (g : GapIdentifier) → Keeps g (drain_and_replay g)
unfolding drain_and_replay
drain_and_replay-Keeps g = drain_and_replay_loop-Keeps _ g

pub update_seq_num_flush-Keeps : (g : GapIdentifier) (n : ℕ) → Keeps g (update_seq_num_flush g n)
unfolding update_seq_num_flush
update_seq_num_flush-Keeps g n =
    ground (arith, drain_and_replay-Keeps (record g { expected_seq_num = add64 n 1 }))

module _ (cfg : Config) where
  ask-Keeps : (g : GapIdentifier) (a b c : ℕ) → Keeps g (ask cfg g a b c)
  unfolding ask
  ask-Keeps g a b c = ground arith

  ask_next-Keeps : (g : GapIdentifier) → Keeps g (ask_next cfg g)
  unfolding ask_next
  ask_next-Keeps g = ground arith

  pub replay-Keeps : (g : GapIdentifier) (n : ℕ) → Keeps g (replay cfg g n)
  unfolding replay
  replay-Keeps g n =
      let start : GapIdentifier = record g { expected_seq_num = n; request_gap = true } in
      let l = replay_loop-Keeps (start.write_index - start.read_index) start in
      let a = ask_next-Keeps (replay_loop (start.write_index - start.read_index) start) in
      omega arith

  ask_wanted-Keeps : (g : GapIdentifier) (b c : ℕ) → Keeps g (ask_wanted cfg g b c)
  unfolding ask_wanted
  ask_wanted-Keeps g b c = ground (arith, ask-Keeps g g.expected_seq_num b c)

  -- The array is as large as before, and the write index moved on by at most one.
  abbrev pub Grows : GapIdentifier → GapIdentifier → Type 0
  Grows g g' = (g'.max_index ≡ g.max_index) × (g'.write_index ≤ suc g.write_index)

  -- The array is full, and the packet takes the slot of the oldest.
  abbrev over : GapIdentifier → Packet → GapIdentifier
  over g p = record (insert cfg g p) { read_index = add32 g.read_index 1 }

  update_full-Grows :
      (g : GapIdentifier) (p : Packet) → suc g.write_index < 2 ^ 32 → Grows g (update_full cfg g p)
  unfolding update_full insert fill_slot
  update_full-Grows g p small = elim (Bool-cases (ltb 0 p.size && overwrites cfg.overflow)) [
    | inl taken ↦
        rw taken
          (omega (arith, ask_wanted-Keeps (over g p) (first_slot (over g p)).seq_num p.seq_num))
    | inr kept ↦ rw kept (omega (arith, ask_wanted-Keeps g (first_slot g).seq_num p.seq_num))
  ]

  update_ahead-Grows :
      (g : GapIdentifier) (p : Packet) → suc g.write_index < 2 ^ 32 → Grows g (update_ahead cfg g p)
  unfolding update_ahead insert fill_slot
  update_ahead-Grows g p small = elim (Bool-cases (ltb 0 p.size)) [
    | inl taken ↦ rw taken (omega (arith, ask_wanted-Keeps (insert cfg g p)))
    | inr kept ↦ rw kept (omega (arith, ask_wanted-Keeps g))
  ]

  pub update-Grows :
      (g : GapIdentifier) (seq_num : ℕ) (obj : Bytes) (size packet_num kind ts : ℕ)
      → suc g.write_index < 2 ^ 32
      → Grows g (update cfg g seq_num obj size packet_num kind ts).1
  unfolding update receive
  update-Grows g seq_num obj size packet_num kind ts small =
      let p : Packet = packet_of seq_num obj size kind ts in
      ground (arith, update_full-Grows g p small, update_ahead-Grows g p small)
