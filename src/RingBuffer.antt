-- ===== src/RingBuffer.antt =====
-- common/RingBuffer.cpp: a byte ring whose pages are mapped twice, one copy behind the other, so
-- that every run of up to `capacity` bytes is contiguous. Address `m_buf + i` is cell
-- `i % capacity` of the file behind the mapping, for `i` below `2 * capacity`.
pub mod Inv
pub mod Refine
pub mod Run
pub mod Race
pub mod Alloc
mod Tests
use conn.Common.{
  ℤ, ℕ, suc, ◌*◌, ◌/◌, ◌%◌, ◌^◌, Bool, true, false, not, List, [], ◌∷◌, Option, none, some, ltb,
  if◌then◌else◌, add32, sub32, Bytes, replicate,
}
use conn.Common.Window.{store}
use conn.NotifierFd.{NotifierFd, init_fd, close_fd, closed}

-- `mapped` is `m_buf != nullptr`; `cells` is the file that both halves of the mapping show.
pub record RingBuffer : Type 0 where
  pub mapped : Bool
  pub cells : ℕ → ℕ
  pub capacity : ℕ
  pub read_idx : ℕ
  pub write_idx : ℕ
  pub notifier : NotifierFd

-- `RingBuffer::RingBuffer`. The constructor leaves `m_capacity` unset: `junk` is what it holds.
unfoldable pub init : ℕ → RingBuffer
init junk = record {
  mapped = false;
  cells = λ _. 0;
  capacity = junk;
  read_idx = 0;
  write_idx = 0;
  notifier = closed;
}

-- What the system answers to the calls of `alloc`, in the order of the calls. The last three say
-- whether mmap returned what was asked for.
pub record Os : Type 0 where
  pub page_size : ℕ
  pub eventfd : ℤ
  pub mkstemp_ok : Bool
  pub unlink_ok : Bool
  pub ftruncate_ok : Bool
  pub reserve_ok : Bool
  pub map_low_ok : Bool
  pub map_high_ok : Bool

-- `SC_PAGE_UP` on a uint32_t.
unfoldable pub page_up : ℕ → ℕ → ℕ
page_up page x = (sub32 (add32 x page) 1 / page * page) % 2 ^ 32

-- The calls of `alloc` behind the assignment to `m_capacity`: the first that fails returns.
map_pages : Os → RingBuffer → Bool × RingBuffer
map_pages os r =
    if not os.mkstemp_ok
    then (false, r)
    else if not os.unlink_ok
    then (false, r)
    else if not os.ftruncate_ok
    then (false, r)
    else if not os.reserve_ok
    then (false, r)
    else if not os.map_low_ok
    then (false, r)
    else if not os.map_high_ok
    then (false, r)
    else (true, record r { mapped = true; cells = λ _. 0 })

unfoldable pub alloc : Os → RingBuffer → ℕ → Bool × RingBuffer
unfolding map_pages
alloc os r capacity =
    if r.mapped
    then (false, r)
    else let (ready, n) = init_fd os.eventfd r.notifier in
      if not ready
      then (false, record r { notifier = n })
      else map_pages os (record r { notifier = n; capacity = page_up os.page_size capacity })

unfoldable pub free : RingBuffer → RingBuffer
free r = record r { mapped = false; notifier = (close_fd r.notifier).1 }

-- `read_buffer`: the offset of the first unread byte from `m_buf`, and how many there are.
unfoldable pub read_buffer : RingBuffer → ℕ × ℕ
read_buffer r = (r.read_idx, sub32 r.write_idx r.read_idx)

-- The loop of `write_buffer`, over the pairs of indices that its successive loads return; `none`
-- means that none of the listed loads ended it.
unfoldable pub write_buffer_loads : ℕ → List (ℕ × ℕ) → Option (ℕ × ℕ)
write_buffer_loads capacity [] = none
write_buffer_loads capacity ((read, write) ∷ loads) =
    let used = sub32 write read in
    let retry = write_buffer_loads capacity loads in
    if ltb capacity used then retry else some (write, sub32 capacity used)

-- `write_buffer` where no other thread moves the indices: all of the first `n` loads see them.
unfoldable pub write_buffer : ℕ → RingBuffer → Option (ℕ × ℕ)
unfolding write_buffer_loads
write_buffer n r = write_buffer_loads r.capacity (replicate n (r.read_idx, r.write_idx))

unfoldable pub advance_write : RingBuffer → ℕ → RingBuffer
advance_write r increment = record r { write_idx = add32 r.write_idx increment }

-- The test of `advance_read`, on the index that it loaded.
abbrev pub passes_end : RingBuffer → ℕ → Bool
passes_end r increment = ltb r.capacity (add32 r.read_idx increment)

-- The first `fetch_sub` of the branch that goes back to the lower half.
unfoldable pub rewind_read : RingBuffer → ℕ → RingBuffer
rewind_read r increment = record r { read_idx = sub32 r.read_idx (sub32 r.capacity increment) }

-- The second one.
unfoldable pub rewind_write : RingBuffer → RingBuffer
rewind_write r = record r { write_idx = sub32 r.write_idx r.capacity }

unfoldable pub advance_read : RingBuffer → ℕ → RingBuffer
unfolding rewind_read rewind_write
advance_read r increment =
    if passes_end r increment
    then rewind_write (rewind_read r increment)
    else record r { read_idx = add32 r.read_idx increment }

-- The byte at `m_buf + i`: the two halves of the mapping share their cells.
abbrev pub byte_at : RingBuffer → ℕ → ℕ
byte_at r i = r.cells (i % r.capacity)

-- What a reader of the socket does with the pointer of `write_buffer`: it stores bytes from there on.
unfoldable pub store_bytes : ℕ → (ℕ → ℕ) → ℕ → Bytes → (ℕ → ℕ)
store_bytes capacity cells i [] = cells
store_bytes capacity cells i (b ∷ bs) =
    store_bytes capacity (store cells (i % capacity) b) (suc i) bs
