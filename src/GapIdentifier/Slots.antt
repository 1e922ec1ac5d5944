-- ===== src/GapIdentifier/Slots.antt =====
-- What one step does to the array, to the packets that wait in it and to the invariant.
use conn.Common.{
  ℕ, zero, suc, ◌+◌, ◌-◌, ◌%◌, ◌^◌, ◌≤◌, ◌<◌, ◌≡◌, sym, ap, ap₂, ◌∙◌, [], ◌∷◌, ◌++◌, arith, add32,
  add64, drop, mod-ne-mod,
}
use native.Mathlib.Decide.{dec_lt}
use native.Mathlib.Nat.{add-mod_right}
use conn.Common.Window.{store, window, window-append, window-store_before, window-store_behind}
use conn.GapIdentifier.{
  Packet, GapIdentifier, get_index, first_slot, drop_first, process_buffer, replay_event, rounds,
  fill_slot,
}
use conn.GapIdentifier.Queue.{Waiting}
use conn.GapIdentifier.Inv.{
  contents, Ascends-append, Ascends-weaken, Ascends-drop, IsInRange, SpareZero, IsValid,
  IsValid-other,
}

-- One step of a loop takes the packet in front.
pub contents-drop_first :
    (g : GapIdentifier)
    → IsInRange g
    → g.read_index < g.write_index
    → contents g ≡ first_slot g ∷ contents (drop_first g)
unfolding drop_first
contents-drop_first g v h =
    ap (window g.slots cap g.read_index) e1
    ∙ ap (◌∷◌ (first_slot g)) (
        sym (
          ap₂ (window after cap) e2 e3
          ∙ window-store_before g.slots cap cleared m (suc g.read_index) g.read_index (omega arith)
              (omega arith)))
  where
    cap : ℕ
    cap = g.max_index + 1

    m : ℕ
    m = g.write_index - suc g.read_index

    cleared : Packet
    cleared = record (first_slot g) { seq_num = 0 }

    after : ℕ → Packet
    after = store g.slots (get_index g g.read_index) cleared

    e1 : rounds g ≡ suc m
    e1 = omega arith

    e2 : add32 g.read_index 1 ≡ suc g.read_index
    e2 = omega arith

    e3 : g.write_index - add32 g.read_index 1 ≡ m
    e3 = omega arith

drop_first-IsInRange :
    {g : GapIdentifier} → IsInRange g → g.read_index < g.write_index → IsInRange (drop_first g)
unfolding drop_first
drop_first-IsInRange v h = ground arith

drop_first-SpareZero :
    (g : GapIdentifier)
    → IsInRange g
    → g.read_index < g.write_index
    → SpareZero g
    → SpareZero (drop_first g)
unfolding drop_first
drop_first-SpareZero g v h spare k lo hi = elim (dec_lt k (g.read_index + (g.max_index + 1))) [
  | yes old ↦ ground (arith, spare k lo old)
  | no new ↦
      let end : k ≡ g.read_index + (g.max_index + 1) = omega arith in
      rw (end, add-mod_right g.read_index (g.max_index + 1)) (ground arith)
]

pub drop_first-IsValid :
    (g : GapIdentifier) → IsValid g → g.read_index < g.write_index → IsValid (drop_first g)
unfolding drop_first
drop_first-IsValid g v h = record {
  range = drop_first-IsInRange v.range h;
  spare = drop_first-SpareZero g v.range h v.spare;
  ascending =
      Ascends-weaken (first_slot g).seq_num 0 (contents (drop_first g)) g.max_seq_num (omega arith)
        (rw (contents-drop_first g v.range h) at v.ascending).1;
}

pub process_buffer-IsValid :
    (g : GapIdentifier) → IsValid g → g.read_index < g.write_index → IsValid (process_buffer g)
unfolding process_buffer
process_buffer-IsValid g v h =
    IsValid-other (add64 g.expected_seq_num 1) g.packet_num g.request_gap
      (g.log ++ replay_event (first_slot g) ∷ []) (drop_first-IsValid g v h)

pub rounds-drop_first :
    (g : GapIdentifier) (n : ℕ)
    → IsInRange g
    → g.read_index < g.write_index
    → rounds g ≤ suc n
    → rounds (drop_first g) ≤ n
unfolding drop_first
rounds-drop_first g n v h k = omega arith

-- What a client of GapIdentifier can tell: the array is only the queue that it holds.
abbrev pub view : GapIdentifier → Waiting
view g = record {
  expected = g.expected_seq_num;
  max_seen = g.max_seq_num;
  packet_num = g.packet_num;
  request_gap = g.request_gap;
  queue = contents g;
  log = g.log;
}

pub contents_of_empty : (g : GapIdentifier) → ¬ (g.read_index < g.write_index) → contents g ≡ []
contents_of_empty g h = ap (window g.slots (g.max_index + 1) g.read_index) {y = zero} (omega arith)

-- A slot is filled with the packet as it came.
abbrev pub put : GapIdentifier → Packet → GapIdentifier
put g p = fill_slot g p p.seq_num

-- Where `put` finds room, the packet goes behind the others.
module _ (g : GapIdentifier) (p : Packet) (v : IsInRange g)
    (room : g.write_index < g.read_index + (g.max_index + 1))
    (small : suc g.write_index < 2 ^ 32) where
  pub contents-put : contents (put g p) ≡ contents g ++ p ∷ []
  unfolding fill_slot
  contents-put =
      ap (window after cap g.read_index) grown
      ∙ window-append after cap g.read_index (rounds g) 1
      ∙ ap₂ ◌++◌
          (window-store_behind g.slots cap p (rounds g) g.read_index g.write_index (omega arith)
            room)
          (ap (λ i. after (i % cap) ∷ []) end ∙ ground arith)
    where
      cap : ℕ
      cap = g.max_index + 1

      after : ℕ → Packet
      after = store g.slots (get_index g g.write_index) p

      grown : rounds (put g p) ≡ rounds g + 1
      grown = omega arith

      end : g.read_index + rounds g ≡ g.write_index
      end = omega arith

  put-SpareZero : SpareZero g → SpareZero (put g p)
  unfolding fill_slot
  put-SpareZero spare k lo hi =
      ground
        (arith, spare k, mod-ne-mod (g.max_index + 1) g.write_index k (omega arith) (omega arith))

  pub put-IsValid : IsValid g → g.max_seq_num < p.seq_num → IsValid (put g p)
  unfolding fill_slot
  put-IsValid w h = record {
    range = ground arith;
    spare = put-SpareZero w.spare;
    ascending = rw contents-put (Ascends-append 0 (contents g) g.max_seq_num p w.ascending h);
  }

-- A full array: the new packet takes the slot of the oldest, and both indices move on.
abbrev pub overwrite : GapIdentifier → Packet → GapIdentifier
overwrite g p = record (put g p) { read_index = add32 g.read_index 1 }

module _ (g : GapIdentifier) (p : Packet) (v : IsInRange g)
    (full : g.write_index ≡ g.read_index + (g.max_index + 1))
    (small : suc g.write_index < 2 ^ 32) where
  pub contents-overwrite : contents (overwrite g p) ≡ drop 1 (contents g) ++ p ∷ []
  unfolding fill_slot
  contents-overwrite =
      ap₂ (window after cap) next size
      ∙ window-append after cap (suc g.read_index) g.max_index 1
      ∙ ap₂ ◌++◌
          (window-store_behind g.slots cap p g.max_index (suc g.read_index) g.write_index
              (omega arith) (omega arith)
            ∙ sym (ap (λ n. drop 1 (window g.slots cap g.read_index n)) whole))
          (ap (λ i. after (i % cap) ∷ []) end ∙ ground arith)
    where
      cap : ℕ
      cap = g.max_index + 1

      after : ℕ → Packet
      after = store g.slots (get_index g g.write_index) p

      next : add32 g.read_index 1 ≡ suc g.read_index
      next = omega arith

      size : rounds (overwrite g p) ≡ g.max_index + 1
      size = omega arith

      whole : rounds g ≡ suc g.max_index
      whole = omega arith

      end : suc g.read_index + g.max_index ≡ g.write_index
      end = omega arith

  pub overwrite-IsValid : IsValid g → g.max_seq_num < p.seq_num → IsValid (overwrite g p)
  unfolding fill_slot
  overwrite-IsValid w h = record {
    range = ground arith;
    spare = λ k lo hi. absurd (omega arith);
    ascending = rw contents-overwrite (
        Ascends-append 0 (drop 1 (contents g)) g.max_seq_num p
          (Ascends-drop 0 (contents g) g.max_seq_num w.ascending) h);
  }
