-- ===== src/RingBuffer/Inv.antt =====
-- The invariant of a mapped ring, with one thread: indices in range and accesses in the mapping.
use conn.Common.{ℕ, suc, ◌+◌, ◌-◌, ◌*◌, ◌^◌, ◌≤◌, ◌<◌, ◌≡◌, true, arith, some}
use conn.RingBuffer.{
  RingBuffer, read_buffer, write_buffer, write_buffer_loads, advance_write, advance_read,
}

pub record IsValid (r : RingBuffer) : Type 0 where
  pub is_mapped : r.mapped ≡ true
  pub pos : 0 < r.capacity
  pub small : r.capacity < 2 ^ 31
  pub read_in : r.read_idx ≤ r.capacity
  pub ordered : r.read_idx ≤ r.write_idx
  pub not_over : r.write_idx ≤ r.read_idx + r.capacity

-- The bytes that a reader may take, and those that a writer may add.
abbrev pub unread : RingBuffer → ℕ
unread r = r.write_idx - r.read_idx

abbrev pub room : RingBuffer → ℕ
room r = r.capacity - unread r

-- In a valid ring `read_buffer` and `write_buffer` return the unread bytes and the free ones, which
-- together make up the capacity; `write_buffer` does so at its first load, however many more it
-- might make; and both stretches end inside the doubled mapping.
pub buffers_lem :
    {r : RingBuffer} (n : ℕ)
    → IsValid r
    → (read_buffer r ≡ (r.read_idx, unread r))
      × (write_buffer (suc n) r ≡ some (r.write_idx, room r))
      × (unread r + room r ≡ r.capacity)
      × (r.read_idx + unread r ≤ 2 * r.capacity)
      × (r.write_idx + room r ≤ 2 * r.capacity)
unfolding read_buffer write_buffer write_buffer_loads
buffers_lem {r} n v = ground arith

-- Advancing the write index by no more than the free bytes keeps the ring valid, and turns that
-- many free bytes into unread ones.
pub advance_write-IsValid :
    {r : RingBuffer} (n : ℕ)
    → IsValid r
    → n ≤ room r
    → IsValid (advance_write r n) × (unread (advance_write r n) ≡ unread r + n)
unfolding advance_write
advance_write-IsValid {r} n v h = ground arith

-- Advancing the read index by no more than the unread bytes keeps the ring valid, whether or not it
-- passes the end of the lower half, and leaves that many fewer unread.
pub advance_read-IsValid :
    {r : RingBuffer} (n : ℕ)
    → IsValid r
    → n ≤ unread r
    → IsValid (advance_read r n) × (unread (advance_read r n) + n ≡ unread r)
unfolding advance_read
advance_read-IsValid {r} n v h = ground arith
