-- ===== src/RingBuffer/Race.antt =====
-- What `write_buffer` of one thread sees while another is inside `advance_read`.
use conn.Common.{ℕ, ◌+◌, ◌≤◌, ◌≡◌, true, false, ltb, arith, none, some, [], ◌∷◌, if◌then◌else◌}
use conn.RingBuffer.{RingBuffer, write_buffer_loads, advance_read, rewind_read, passes_end}
use conn.RingBuffer.Inv.{IsValid, unread, room}

-- Between the two `fetch_sub` of `advance_read` a writer is not given any byte: its load is refused
-- and repeated while other bytes are unread, and otherwise it is offered 0 bytes.
pub write_buffer_between :
    {r : RingBuffer} (n : ℕ)
    → IsValid r
    → n ≤ unread r
    → passes_end r n ≡ true
    → write_buffer_loads r.capacity (((rewind_read r n).read_idx, r.write_idx) ∷ [])
      ≡ (if ltb n (unread r) then none else some (r.write_idx, 0))
unfolding write_buffer_loads rewind_read
write_buffer_between {r} n v h p = ground arith

-- A writer that loads the read index before an `advance_read` and the write index behind it: where
-- the reader goes back to the lower half, the load is refused unless the ring was full, and then the
-- writer is offered the whole capacity, though only the `n` bytes just read are free.
pub write_buffer_torn :
    {r : RingBuffer} (n : ℕ)
    → IsValid r
    → n ≤ unread r
    → passes_end r n ≡ true
    → let r' = advance_read r n in
      (write_buffer_loads r.capacity ((r.read_idx, r'.write_idx) ∷ [])
        ≡ (if ltb (unread r) r.capacity then none else some (r'.write_idx, r.capacity)))
      × (room r' ≡ room r + n)
unfolding write_buffer_loads advance_read
write_buffer_torn {r} n v h p = ground arith

-- Where the reader stays in the same half, the torn load only offers too little: what was free
-- before the read.
pub write_buffer_stale :
    {r : RingBuffer} (n : ℕ)
    → IsValid r
    → n ≤ unread r
    → passes_end r n ≡ false
    → let r' = advance_read r n in
      (write_buffer_loads r.capacity ((r.read_idx, r'.write_idx) ∷ []) ≡ some (r.write_idx, room r))
      × (room r' ≡ room r + n)
unfolding write_buffer_loads advance_read
write_buffer_stale {r} n v h p = ground arith
