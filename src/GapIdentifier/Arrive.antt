-- ===== src/GapIdentifier/Arrive.antt =====
-- `update`: what it does to the array is what `Queue.update` does to the queue.
use conn.Common.{
  ℕ, suc, ◌+◌, ◌^◌, ◌<◌, ◌≤◌, ◌≡◌, refl, ap, ◌∙◌, Bool, true, false, not, ◌&&◌, ◌||◌, [], ◌∷◌, ◌++◌,
  ltb, leb, ◌==◌, if◌then◌else◌, arith, Bytes, length, drop, inl, inr, Bool-cases, lt→ltb,
  not_lt→ltb,
}
use native.Mathlib.Decide.{dec_lt}
use conn.Common.Window.{length-window}
use conn.GapIdentifier.{
  Packet, Config, GapIdentifier, first_slot, rounds, fill_slot, landed, insert, is_full, ask,
  ask_wanted, overwrites, update_full, update_ahead, receive, update, packet_of,
}
use conn.GapIdentifier.Queue
use conn.GapIdentifier.Queue.{Waiting, head_or}
use conn.GapIdentifier.Inv.{contents, IsValid, IsValid-other}
use conn.GapIdentifier.Slots.{
  view, put, contents-drop_first, contents_of_empty, contents-put, put-IsValid, overwrite,
  contents-overwrite, overwrite-IsValid,
}
use conn.GapIdentifier.Refine.{Shows, ask-Shows}

-- The slot at the read index has number 0 exactly when nothing waits.
buff-head_or :
    (g : GapIdentifier) (d : ℕ)
    → IsValid g
    → (if (first_slot g).seq_num == 0 then d else (first_slot g).seq_num) ≡ head_or (contents g) d
buff-head_or g d v = elim (dec_lt g.read_index g.write_index) [
  | yes more ↦
      let e = contents-drop_first g v.range more in
      let pos : 0 < (first_slot g).seq_num = (rw e at v.ascending).0 in rw e (ground arith)
  | no none_left ↦
      let z = v.spare g.read_index (omega arith) (omega arith) in
      rw (contents_of_empty g none_left, z)
]

first-head_or :
    (g : GapIdentifier) (d : ℕ)
    → IsValid g
    → g.read_index < g.write_index
    → (first_slot g).seq_num ≡ head_or (contents g) d
first-head_or g d v more = rw (contents-drop_first g v.range more)

module _ (cfg : Config) where
  -- The end of `Queue.arrive`.
  abbrev asks : Waiting → ℕ → Waiting
  asks w n = if w.request_gap then Queue.ask cfg w w.expected (head_or w.queue n) n else w

  ask_if-Shows :
      (flag : Bool) (g : GapIdentifier) (buff n : ℕ)
      → IsValid g
      → Shows
          (if flag then ask cfg g g.expected_seq_num buff n else g)
          (if flag then Queue.ask cfg (view g) g.expected_seq_num buff n else view g)
  ask_if-Shows true g buff n v = ask-Shows cfg g g.expected_seq_num buff n v
  ask_if-Shows false g buff n v = (v, refl)

  ask_wanted-Shows :
      (g : GapIdentifier) (w : Waiting) (buff n : ℕ)
      → Shows g w
      → buff ≡ head_or (contents g) n
      → Shows (ask_wanted cfg g buff n) (asks w n)
  unfolding ask_wanted
  ask_wanted-Shows g w buff n (v, s) e =
      let (v', a) = ask_if-Shows g.request_gap g buff n v in
      (
        v',
        a
            ∙ ap
                (λ b.
                  if g.request_gap then Queue.ask cfg (view g) g.expected_seq_num b n else view g)
                e
            ∙ ap (λ u. asks u n) s,
      )

  module _ (g : GapIdentifier) (p : Packet) (v : IsValid g) (newer : g.max_seq_num < p.seq_num)
      (small : suc g.write_index < 2 ^ 32) where
    put-Shows :
        g.write_index < g.read_index + (g.max_index + 1)
        → Shows (put g p) (record (view g) { queue = contents g ++ p ∷ []; max_seen = p.seq_num })
    put-Shows room = (
      put-IsValid g p v.range room small v newer,
      unfold fill_slot in
          ap (λ q. record (view g) { queue = q; max_seen = p.seq_num })
            (contents-put g p v.range room small),
    )

    overwrite-Shows :
        g.write_index ≡ g.read_index + (g.max_index + 1)
        → Shows
            (overwrite g p)
            (record (view g) { queue = drop 1 (contents g) ++ p ∷ []; max_seen = p.seq_num })
    overwrite-Shows full = (
      overwrite-IsValid g p v.range full small v newer,
      unfold fill_slot in
          ap (λ q. record (view g) { queue = q; max_seen = p.seq_num })
            (contents-overwrite g p v.range full small),
    )

    overwrite-more :
        g.write_index ≡ g.read_index + (g.max_index + 1)
        → (overwrite g p).read_index < (overwrite g p).write_index
    unfolding fill_slot
    overwrite-more full = omega arith

    ahead-Shows :
        leb p.size cfg.max_pkt_size ≡ true
        → g.write_index < g.read_index + (g.max_index + 1)
        → Shows (update_ahead cfg g p) (asks (Queue.enqueue cfg false (view g) p) p.seq_num)
    unfolding update_ahead insert landed Queue.enqueue
    ahead-Shows whole room = elim (Bool-cases (ltb 0 p.size)) [
      | inl bytes ↦
          let s = put-Shows room in
          rw (bytes, whole)
            (ask_wanted-Shows (put g p) _ _ p.seq_num s (buff-head_or (put g p) p.seq_num s.0))
      | inr empty ↦
          rw empty (ask_wanted-Shows g (view g) _ p.seq_num (v, refl) (buff-head_or g p.seq_num v))
    ]

    full-Shows :
        leb p.size cfg.max_pkt_size ≡ true
        → g.write_index ≡ g.read_index + (g.max_index + 1)
        → Shows (update_full cfg g p) (asks (Queue.enqueue cfg true (view g) p) p.seq_num)
    unfolding update_full insert landed Queue.enqueue
    full-Shows whole full = elim (Bool-cases (ltb 0 p.size && overwrites cfg.overflow)) [
      | inl taken ↦
          let s = overwrite-Shows full in
          rw (taken, whole)
            (ask_wanted-Shows (overwrite g p) _ _ p.seq_num s
              (first-head_or (overwrite g p) p.seq_num s.0 (overwrite-more full)))
      | inr kept ↦ rw kept (
          ask_wanted-Shows g (view g) _ p.seq_num (v, refl)
            (first-head_or g p.seq_num v (omega arith)))
    ]

    -- The code's test for a full array is the queue's.
    arrive-Shows :
        leb p.size cfg.max_pkt_size ≡ true
        → let (done, w) = Queue.arrive cfg (view g) p (g.max_index + 1) in
          (not (is_full g) ≡ done)
          × Shows (if is_full g then update_full cfg g p else update_ahead cfg g p) w
    unfolding Queue.arrive
    arrive-Shows whole = elim (dec_lt g.max_index (rounds g)) [
      | yes full ↦
          let e : is_full g ≡ true = lt→ltb _ _ (omega arith) in
          let q : leb (g.max_index + 1) (length (contents g)) ≡ true = ground (arith, count) in
          rw (e, q) (refl, full-Shows whole (omega arith))
      | no room ↦
          let e : is_full g ≡ false = not_lt→ltb _ _ (omega arith) in
          let q : leb (g.max_index + 1) (length (contents g)) ≡ false = ground (arith, count) in
          rw (e, q) (refl, ahead-Shows whole (omega arith))
    ]
      where
        count : length (contents g) ≡ rounds g
        count = length-window g.slots (g.max_index + 1) g.read_index (rounds g)

receive-Shows :
    (cfg : Config) (g : GapIdentifier) (p : Packet) (packet_num : ℕ)
    → IsValid g
    → suc g.write_index < 2 ^ 32
    → p.size ≤ cfg.max_pkt_size
    → let (done, g') = receive cfg g p packet_num in
      let (done', w) = Queue.update cfg (view g) p packet_num (g.max_index + 1) in
      (done ≡ done') × Shows g' w
unfolding receive Queue.update
receive-Shows cfg g p packet_num v small whole = elim (Bool-cases (ltb cfg.packet_bytes p.size)) [
  | inl long ↦ rw long (refl, (v, refl))
  | inr fits ↦ elim (Bool-cases (leb p.seq_num g.max_seq_num || ltb p.seq_num g.expected_seq_num)) [
    | inl old ↦ rw (fits, old) (refl, (v, refl))
    | inr new ↦ elim (Bool-cases (ltb g.expected_seq_num p.seq_num)) [
      | inl ahead ↦
          let newer : g.max_seq_num < p.seq_num = ground arith in
          let a = arrive-Shows cfg g p v newer small (ground arith) in
          rw (fits, new, ahead)
            (elim (Bool-cases (is_full g)) [
              | inl full ↦ rw full (rw full at a)
              | inr room ↦ rw room (rw room at a)
            ])
      | inr next ↦
          rw (fits, new, next)
            (refl, (IsValid-other g.expected_seq_num packet_num g.request_gap g.log v, refl))
    ]
  ]
]

-- `update` does to the array exactly what `Queue.update` does to the queue, on every branch: it gives
-- the same result, the view of the new array is the new queue with the same calls of the client, and
-- the array stays valid. The packet must fit `m_obj`, with at most `max_pkt_size` bytes, and the write index
-- must not yet be at 2 ^ 32 - 1.
pub update-Shows :
    (cfg : Config) (g : GapIdentifier) (seq_num : ℕ) (obj : Bytes) (size packet_num kind ts : ℕ)
    → IsValid g
    → suc g.write_index < 2 ^ 32
    → size ≤ cfg.max_pkt_size
    → let (done, g') = update cfg g seq_num obj size packet_num kind ts in
      let (done', w) =
        Queue.update cfg
          (view g)
          (packet_of seq_num obj size kind ts)
          packet_num
          (g.max_index + 1) in
      (done ≡ done') × Shows g' w
unfolding update
update-Shows cfg g seq_num obj size packet_num kind ts v small whole =
    receive-Shows cfg g (packet_of seq_num obj size kind ts) packet_num v small whole
