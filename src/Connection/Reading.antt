-- ===== src/Connection/Reading.antt =====
-- The asynchronous reads of a connection: `handle_connect`, `handle_read` and `async_read` of
-- common/TcpConnection.cpp, UnixConnection.cpp and ShmConnection.cpp, and `handle_recv` of
-- McastConnection.cpp, which are alike in what they do with the ring.
use conn.Common.{
  ℕ, ◌≤◌, ◌≡◌, refl, sym, ap, ◌∙◌, Bool, true, false, List, [], ◌∷◌, ◌++◌, Option, none, some,
  if◌then◌else◌, Bytes, length, arith,
}
use mathlib.Core.List.{append_assoc, append-nil}
use mathlib.Core.Option
use conn.Common.Window.{window}
use conn.RingBuffer.{
  RingBuffer, read_buffer, write_buffer, advance_write, advance_read, store_bytes,
}
use conn.RingBuffer.Inv.{IsValid, unread, room, buffers_lem, advance_read-IsValid}
use conn.RingBuffer.Refine.{fill, contents, length-contents, contents-fill}
use conn.Connection.{Connection}

-- A read into the memory that `write_buffer` offers; `none` where that does not return. No other
-- thread moves the indices, so one load decides.
unfoldable pub request : Connection → Option (ℕ × ℕ) → Option Connection
request c none = none
request c (some p) = some (record c { requests = c.requests ++ p ∷ [] })

-- `async_read`
unfoldable pub async_read : Connection → Option Connection
unfolding request
async_read c = request c (write_buffer 1 c.read_buf)

-- `handle_connect`
unfoldable pub handle_connect : Connection → Bool → Option Connection
handle_connect c error = let reading = async_read c in if error then some c else reading

-- The `n` bytes at the pointer of `read_buffer`, which are logged.
abbrev pub message : RingBuffer → ℕ → Bytes
message r n = window r.cells r.capacity (read_buffer r).0 n

-- `handle_read`
unfoldable pub handle_read : Connection → Bool → ℕ → Option Connection
handle_read c error bytes_transferred =
    let taken = record c {
      received = c.received ++ message c.read_buf bytes_transferred ∷ [];
      read_buf = advance_read (advance_write c.read_buf bytes_transferred) bytes_transferred;
    } in
    let reading = async_read taken in if error then some c else reading

-- The socket stores bytes at the start of the read that was asked for last.
abbrev last_request : List (ℕ × ℕ) → ℕ
last_request [] = 0
last_request (p ∷ []) = p.0
last_request (p ∷ q ∷ ps) = last_request (q ∷ ps)

unfoldable pub socket_stores : Connection → Bytes → Connection
socket_stores c bs =
    let r = c.read_buf in
    record c {
      read_buf = record r { cells = store_bytes r.capacity r.cells (last_request c.requests) bs };
    }

-- Messages that arrive one after the other.
unfoldable pub serve : Connection → List Bytes → Option Connection
serve c [] = some c
serve c (m ∷ ms) =
    Option.bind (handle_read (socket_stores c m) false (length m)) (λ c'. serve c' ms)

-- A ring in which nothing is unread, and a read that was asked for into all of it.
pub record IsIdle (c : Connection) : Type 0 where
  pub ring_ok : IsValid c.read_buf
  pub empty : unread c.read_buf ≡ 0
  pub waits :
      (before : List (ℕ × ℕ)) × (c.requests
        ≡ before ++ (c.read_buf.write_idx, c.read_buf.capacity) ∷ [])

abbrev stored : RingBuffer → Bytes → RingBuffer
stored r bs = record r { cells = store_bytes r.capacity r.cells r.write_idx bs }

abbrev passed : RingBuffer → Bytes → RingBuffer
passed r bs = advance_read (advance_write (stored r bs) (length bs)) (length bs)

passed-capacity : (r : RingBuffer) (bs : Bytes) → (passed r bs).capacity ≡ r.capacity
unfolding advance_read advance_write
passed-capacity r bs = ground arith

-- One message through an empty ring: it is read back whole, and the ring is empty again.
passed-message :
    {r : RingBuffer} (bs : Bytes)
    → IsValid r
    → unread r ≡ 0
    → length bs ≤ r.capacity
    → (message (stored r bs) (length bs) ≡ bs) × IsValid (passed r bs) × (unread (passed r bs) ≡ 0)
unfolding fill read_buffer advance_write
passed-message {r} bs v e h =
    let (v1, joined) = contents-fill bs v (omega arith) in
    let nothing : contents r ≡ [] = rw e refl in
    let whole = joined ∙ ap (λ t. t ++ bs) nothing in
    let count : unread (fill r r.write_idx bs) ≡ length bs =
      sym (length-contents (fill r r.write_idx bs)) ∙ ap length whole in
    let (v2, left) = advance_read-IsValid (length bs) v1 (omega arith) in
    (ap (window (stored r bs).cells r.capacity r.read_idx) (sym count) ∙ whole, v2, omega arith)

last_request-append : (before : List (ℕ × ℕ)) (p : ℕ × ℕ) → last_request (before ++ p ∷ []) ≡ p.0
last_request-append [] p = refl
last_request-append (q ∷ []) p = refl
last_request-append (q ∷ q' ∷ qs) p = last_request-append (q' ∷ qs) p

-- A message that arrives at an idle connection, no longer than the ring: it is handed on whole, and
-- the connection is idle again.
handle_read-IsIdle :
    (c : Connection) (m : Bytes)
    → IsIdle c
    → length m ≤ c.read_buf.capacity
    → (c' : Connection) × (handle_read (socket_stores c m) false (length m) ≡ some c')
      × (c'.received ≡ c.received ++ m ∷ [])
      × (c'.read_buf.capacity ≡ c.read_buf.capacity)
      × IsIdle c'
unfolding handle_read socket_stores async_read request
handle_read-IsIdle c m i h =
    let (before, asked) = i.waits in
    let r = c.read_buf in
    let start : last_request c.requests ≡ r.write_idx =
      ap last_request asked ∙ last_request-append before (r.write_idx, r.capacity) in
    let (heard, v, e) = passed-message m i.ring_ok i.empty h in
    let next = passed r m in
    let (_, offer, total, _, _) = buffers_lem 0 v in
    let all : room next ≡ next.capacity = omega arith in
    let after : Connection = record c {
      received = c.received ++ message (stored r m) (length m) ∷ [];
      read_buf = next;
      requests = c.requests ++ (next.write_idx, room next) ∷ [];
    } in
    let idle : IsIdle after = record {
      ring_ok = v;
      empty = e;
      waits = (c.requests, ap (λ n. c.requests ++ (next.write_idx, n) ∷ []) all);
    } in
    (
      after,
      rw start (ap (request (record after { requests = c.requests })) offer),
      ap (λ b. c.received ++ b ∷ []) heard,
      passed-capacity r m,
      idle,
    )

abbrev pub AllFit : ℕ → List Bytes → Type 0
AllFit n [] = Unit {0}
AllFit n (m ∷ ms) = (length m ≤ n) × AllFit n ms

-- Messages that arrive one after the other at an idle connection, none longer than its ring: each
-- call of `handle_read` returns, every message is handed on whole and in order, and in the end a
-- read into the whole ring is asked for again.
pub serve-received :
    (ms : List Bytes) (c : Connection)
    → IsIdle c
    → AllFit c.read_buf.capacity ms
    → (c' : Connection) × (serve c ms ≡ some c') × (c'.received ≡ c.received ++ ms) × IsIdle c'
unfolding serve Option.bind
serve-received [] c i k = (c, refl, sym (append-nil c.received), i)
serve-received (m ∷ ms) c i (k, ks) =
    let (c1, step, heard, size, i1) = handle_read-IsIdle c m i k in
    let (c2, rest, all, i2) = serve-received ms c1 i1 (rw size ks) in
    (c2, rw step rest, all ∙ ap (λ l. l ++ ms) heard ∙ append_assoc c.received (m ∷ []) ms, i2)

-- `handle_connect` on an empty ring makes the connection idle; where there was an error, and where a
-- read failed, nothing is asked for and nothing changes, so that nothing is ever received again.
pub handle_connect-IsIdle :
    (c : Connection)
    → IsValid c.read_buf
    → unread c.read_buf ≡ 0
    → ((c' : Connection) × (handle_connect c false ≡ some c')
        × IsIdle c'
        × (c'.received ≡ c.received))
      × (handle_connect c true ≡ some c)
      × ((n : ℕ) → handle_read c true n ≡ some c)
unfolding handle_connect handle_read async_read request
handle_connect-IsIdle c v e =
    let (_, offer, total, _, _) = buffers_lem 0 v in
    let r = c.read_buf in
    let all : room r ≡ r.capacity = omega arith in
    let after : Connection = record c { requests = c.requests ++ (r.write_idx, room r) ∷ [] } in
    (
      (
        after,
        ap (request c) offer,
        record {
          ring_ok = v;
          empty = e;
          waits = (c.requests, ap (λ n. c.requests ++ (r.write_idx, n) ∷ []) all);
        },
        refl,
      ),
      refl,
      λ n. refl,
    )
