-- ===== src/GapIdentifier/Overrun.antt =====
-- The size check of `update` compares with sizeof(SeqPacket), not with the size of `m_obj`.
use conn.Common.{ℕ, ◌+◌, ◌≤◌, ◌<◌, ◌≡◌, refl, true, false, ap, ltb, leb, arith, Bytes, take}
use conn.Common.Window.{store_self}
use conn.GapIdentifier.{
  Packet, Config, GapIdentifier, get_index, insert, landed, fill_slot, ask, ask_wanted,
  update_ahead, receive, update, packet_of,
}
use conn.GapIdentifier.Inv.{IsInRange, IsValid}

ask_wanted-slots :
    (cfg : Config) (g : GapIdentifier) (buff n : ℕ) → (ask_wanted cfg g buff n).slots ≡ g.slots
unfolding ask_wanted ask
ask_wanted-slots cfg g buff n = ground arith

update_ahead-slots :
    (cfg : Config) (g : GapIdentifier) (p : Packet)
    → ltb 0 p.size ≡ true
    → (update_ahead cfg g p).slots ≡ (insert cfg g p).slots
unfolding update_ahead
update_ahead-slots cfg g p h = rw h (ask_wanted-slots cfg (insert cfg g p) _ p.seq_num)

insert-slot :
    (cfg : Config) (g : GapIdentifier) (p : Packet)
    → cfg.max_pkt_size < p.size
    → ((insert cfg g p).slots (get_index g g.write_index)).seq_num ≡ cfg.overrun p
unfolding insert landed fill_slot
insert-slot cfg g p over =
    let large : leb p.size cfg.max_pkt_size ≡ false = ground arith in
    rw large (
      ap (λ q. q.seq_num)
        (store_self g.slots (get_index g g.write_index)
          (record p { obj = take cfg.max_pkt_size p.obj; seq_num = cfg.overrun p })))

receive-update_ahead :
    (cfg : Config) (g : GapIdentifier) (p : Packet) (packet_num : ℕ)
    → IsInRange g
    → g.write_index < g.read_index + (g.max_index + 1)
    → g.expected_seq_num < p.seq_num
    → g.max_seq_num < p.seq_num
    → p.size ≤ cfg.packet_bytes
    → receive cfg g p packet_num ≡ (true, update_ahead cfg g p)
unfolding receive
receive-update_ahead cfg g p packet_num v room ahead newer fits = ground arith

-- A packet ahead of a gap that is larger than `m_obj`, and not than the whole SeqPacket, is accepted where
-- there is room; its slot then holds, for its number, what the memcpy left there.
pub update_overruns_slot :
    (cfg : Config) (g : GapIdentifier) (seq_num : ℕ) (obj : Bytes) (size packet_num kind ts : ℕ)
    → IsValid g
    → g.write_index < g.read_index + (g.max_index + 1)
    → g.expected_seq_num < seq_num
    → g.max_seq_num < seq_num
    → cfg.max_pkt_size < size
    → size ≤ cfg.packet_bytes
    → let p = packet_of seq_num obj size kind ts in
      let (done, g') = update cfg g seq_num obj size packet_num kind ts in
      (done ≡ true) × ((g'.slots (get_index g g.write_index)).seq_num ≡ cfg.overrun p)
unfolding update
update_overruns_slot cfg g seq_num obj size packet_num kind ts v room ahead newer over fits =
    let p : Packet = packet_of seq_num obj size kind ts in
    let pos : ltb 0 size ≡ true = ground arith in
    rw (receive-update_ahead cfg g p packet_num v.range room ahead newer fits)
      (refl, rw (update_ahead-slots cfg g p pos) (insert-slot cfg g p over))
