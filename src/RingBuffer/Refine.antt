-- ===== src/RingBuffer/Refine.antt =====
-- A valid ring holds a queue of bytes: filling appends to it, and advancing the read index drops
-- from its front.
use conn.Common.{
  ℕ, zero, suc, ◌+◌, ◌-◌, ◌%◌, ◌≤◌, ◌<◌, ◌≡◌, refl, ap, ap₂, ◌∙◌, arith, [], ◌∷◌, ◌++◌, length,
  drop, Bytes, mod-ne-mod,
}
use conn.Common.Window.{store, window, length-window, window_mirror, drop-window, window-append}
use conn.RingBuffer.{RingBuffer, advance_write, advance_read, store_bytes}
use conn.RingBuffer.Inv.{IsValid, unread, room}

-- The bytes that a reader would take, oldest first.
abbrev pub contents : RingBuffer → Bytes
contents r = window r.cells r.capacity r.read_idx (unread r)

pub length-contents : (r : RingBuffer) → length (contents r) ≡ unread r
length-contents r = length-window r.cells r.capacity r.read_idx (unread r)

-- Storing from address `j` on does not touch the cell of an earlier address that is less than a
-- round before the last byte stored.
store_bytes_skip :
    (capacity : ℕ) (bs : Bytes) (cells : ℕ → ℕ) (i j : ℕ)
    → i < j
    → j + length bs ≤ i + capacity
    → store_bytes capacity cells j bs (i % capacity) ≡ cells (i % capacity)
unfolding store_bytes
store_bytes_skip capacity [] cells i j lo hi = refl
store_bytes_skip capacity (b ∷ bs) cells i j lo hi =
    store_bytes_skip capacity bs (store cells (j % capacity) b) i (suc j) (omega arith)
      (omega arith)
    ∙ ground (arith, mod-ne-mod capacity i j lo (omega arith))

window-store_bytes_before :
    (capacity : ℕ) (bs : Bytes) (cells : ℕ → ℕ) (n i j : ℕ)
    → i + n ≤ j
    → j + length bs ≤ i + capacity
    → window (store_bytes capacity cells j bs) capacity i n ≡ window cells capacity i n
window-store_bytes_before capacity bs cells zero i j lo hi = refl
window-store_bytes_before capacity bs cells (suc n) i j lo hi =
    ap₂ ◌∷◌ (store_bytes_skip capacity bs cells i j (omega arith) hi)
      (window-store_bytes_before capacity bs cells n (suc i) j (omega arith) (omega arith))

window-store_bytes :
    (capacity : ℕ) (bs : Bytes) (cells : ℕ → ℕ) (j : ℕ)
    → length bs ≤ capacity
    → window (store_bytes capacity cells j bs) capacity j (length bs) ≡ bs
unfolding store_bytes
window-store_bytes capacity [] cells j h = refl
window-store_bytes capacity (b ∷ bs) cells j h =
    ap₂ ◌∷◌
      (store_bytes_skip capacity bs (store cells (j % capacity) b) j (suc j) (omega arith)
          (omega arith)
        ∙ ground arith)
      (window-store_bytes capacity bs (store cells (j % capacity) b) (suc j) (omega arith))

-- What `handle_read` of a connection does with a ring: the socket has stored `bs` at the pointer
-- `start` of `write_buffer`, and `advance_write` takes them in.
unfoldable pub fill : RingBuffer → ℕ → Bytes → RingBuffer
fill r start bs =
    advance_write (record r { cells = store_bytes r.capacity r.cells start bs }) (length bs)

-- Storing no more bytes than `write_buffer` offers, then `advance_write`, appends exactly those
-- bytes to the unread ones, whichever half of the mapping they fall in.
pub contents-fill :
    {r : RingBuffer} (bs : Bytes)
    → IsValid r
    → length bs ≤ room r
    → IsValid (fill r r.write_idx bs) × (contents (fill r r.write_idx bs) ≡ contents r ++ bs)
unfolding fill advance_write
contents-fill {r} bs v h = (ground arith, joined)
  where
    after : ℕ → ℕ
    after = store_bytes r.capacity r.cells r.write_idx bs

    grown : unread (fill r r.write_idx bs) ≡ unread r + length bs
    grown = ground arith

    ends : r.read_idx + unread r ≡ r.write_idx
    ends = omega arith

    joined : contents (fill r r.write_idx bs) ≡ contents r ++ bs
    joined =
        ap (window after r.capacity r.read_idx) grown
        ∙ window-append after r.capacity r.read_idx (unread r) (length bs)
        ∙ ap₂ ◌++◌
            (window-store_bytes_before r.capacity bs r.cells (unread r) r.read_idx r.write_idx
              (omega arith) (omega arith))
            (ap (λ i. window after r.capacity i (length bs)) ends
              ∙ window-store_bytes r.capacity bs r.cells r.write_idx (omega arith))

-- `advance_read` by no more than the unread bytes drops that many from the front, and keeps the
-- others in their order, also where both indices go back by the capacity.
pub contents-advance_read :
    {r : RingBuffer} (n : ℕ)
    → IsValid r
    → n ≤ unread r
    → contents (advance_read r n) ≡ drop n (contents r)
unfolding advance_read
contents-advance_read {r} n v h = ground (
  arith,
  drop-window r.cells r.capacity n r.read_idx (unread r) h,
  window_mirror r.cells r.capacity (r.read_idx + n - r.capacity) (unread r - n),
)
