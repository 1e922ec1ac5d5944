-- ===== src/RingBuffer/Alloc.antt =====
-- `alloc` and `free`: every way out of them.
use conn.Common.{
  ℕ, ◌+◌, ◌-◌, ◌*◌, ◌/◌, ◌%◌, ◌^◌, ◌≤◌, ◌<◌, ◌≡◌, Bool, true, ◌&&◌, ◌||◌, not, arith, add32, sub32,
}
use native.Mathlib.Nat.{div-add-mod, mod-lt, mod-eq_of_lt, mul-mod_left}
use conn.NotifierFd.{init_fd}
use conn.RingBuffer.{RingBuffer, Os, init, alloc, free, page_up, byte_at}
use conn.RingBuffer.Inv.{IsValid, unread}

abbrev pub all_ok : Os → Bool
all_ok os =
    os.mkstemp_ok && os.unlink_ok && os.ftruncate_ok && os.reserve_ok && os.map_low_ok
    && os.map_high_ok

-- `SC_PAGE_UP` rounds up to a multiple of the page size by less than a page, where the sum with the
-- page size fits 32 bits.
pub page_up_lem :
    (page x : ℕ)
    → 0 < page
    → x + page < 2 ^ 32
    → (x ≤ page_up page x) × (page_up page x < x + page) × (page_up page x % page ≡ 0)
unfolding page_up
page_up_lem page x hp h =
    let s : ℕ = x + page - 1 in
    let whole : sub32 (add32 x page) 1 ≡ s = omega arith in
    let split : page * (s / page) + s % page ≡ s = div-add-mod s page in
    let left : s % page < page = mod-lt s hp in
    let fits : s / page * page < 2 ^ 32 = omega arith in
    rw whole (rw (mod-eq_of_lt fits) (omega arith, omega arith, mul-mod_left (s / page) page))

-- `alloc` refuses a ring that is mapped and leaves it as it is; on one that is not it succeeds
-- exactly when all six calls behind the notifier's do, and only then is the ring mapped.
pub alloc_cases :
    (os : Os) (r : RingBuffer) (capacity : ℕ)
    → let (done, r') = alloc os r capacity in
      (done ≡ (not r.mapped && all_ok os))
      × (r'.mapped ≡ (r.mapped || all_ok os))
      × (r.mapped ≡ true → r' ≡ r)
      × (r'.read_idx ≡ r.read_idx)
      × (r'.write_idx ≡ r.write_idx)
unfolding alloc init_fd
alloc_cases os r capacity = ground arith

-- `alloc` on a new ring, when it succeeds, gives a valid and empty ring of at least the capacity
-- asked for, if that and the page size are positive and together below 2 ^ 31.
pub alloc-IsValid :
    (os : Os) (junk capacity : ℕ) {r : RingBuffer}
    → 0 < capacity
    → 0 < os.page_size
    → capacity + os.page_size < 2 ^ 31
    → alloc os (init junk) capacity ≡ (true, r)
    → IsValid r × (unread r ≡ 0) × (capacity ≤ r.capacity)
unfolding alloc init init_fd
alloc-IsValid os junk capacity hc hp hs e =
    ground (arith, page_up_lem os.page_size capacity hp (omega arith))

-- `free` unmaps the ring and leaves both indices: after `free` and a successful `alloc` as many
-- bytes count as unread as before, and all that can be read of them are zeros.
pub alloc-free_keeps_unread :
    (os : Os) (r : RingBuffer) (capacity i : ℕ)
    → all_ok os ≡ true
    → let (done, r') = alloc os (free r) capacity in
      (done ≡ true) × (unread r' ≡ unread r) × (byte_at r' i ≡ 0)
unfolding alloc free init_fd
alloc-free_keeps_unread os r capacity i h = ground arith
