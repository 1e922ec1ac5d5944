-- ===== src/RingBuffer/Run.antt =====
-- Any sequence of writes and reads through the pointers that the ring hands out is first in, first
-- out.
use conn.Common.{
  ℕ, ◌-◌, ◌≤◌, ◌≡◌, sym, ap, ◌∙◌, arith, List, [], ◌∷◌, ◌++◌, length, drop, take, length-take,
  Bytes, min, Option, none, some,
}
use mathlib.Core.List.{append-nil, append_assoc}
use conn.Common.Window.{window, drop-window, window-append}
use conn.RingBuffer.{RingBuffer, read_buffer, write_buffer, advance_read}
use conn.RingBuffer.Inv.{IsValid, unread, room, buffers_lem, advance_read-IsValid}
use conn.RingBuffer.Refine.{contents, fill, contents-fill, contents-advance_read}

-- One call of a client: bytes that arrive, of which it stores as many as it is offered, or a wish to
-- read some, of which it takes as many as there are.
pub data Op : Type 0 where
  put : Bytes → Op
  get : ℕ → Op

-- What was read so far, what was taken in so far, and the ring.
pub record Session : Type 0 where
  pub out : Bytes
  pub taken : Bytes
  pub ring : RingBuffer

-- Store what fits at the pointer that `write_buffer` returned.
accept : Session → Bytes → Option (ℕ × ℕ) → Session
accept s bs none = s
accept s bs (some (start, size)) =
    let fits = take size bs in
    record { out = s.out; taken = s.taken ++ fits; ring = fill s.ring start fits }

unfoldable pub exec : Session → Op → Session
unfolding accept
exec s (put bs) = accept s bs (write_buffer 1 s.ring)
exec s (get n) =
    let (start, size) = read_buffer s.ring in
    let k = min n size in
    record {
      out = s.out ++ window s.ring.cells s.ring.capacity start k;
      taken = s.taken;
      ring = advance_read s.ring k;
    }

unfoldable pub run : Session → List Op → Session
unfolding exec
run s [] = s
run s (op ∷ ops) = run (exec s op) ops

abbrev pub IsFifo : Bytes → Session → Type 0
IsFifo before s = IsValid s.ring × (before ++ s.taken ≡ s.out ++ contents s.ring)

take-window :
    (cells : ℕ → ℕ) (capacity i k n : ℕ)
    → k ≤ n
    → window cells capacity i k ++ drop k (window cells capacity i n) ≡ window cells capacity i n
take-window cells capacity i k n h =
    ap (◌++◌ (window cells capacity i k)) (drop-window cells capacity k i n h)
    ∙ sym (window-append cells capacity i k (n - k))
    ∙ ap (window cells capacity i) (omega arith)

exec-IsFifo : (before : Bytes) (s : Session) (op : Op) → IsFifo before s → IsFifo before (exec s op)
unfolding exec
exec-IsFifo before s (put bs) (v, e) = rw ((buffers_lem 0 v).1) (
  v',
  sym (append_assoc before s.taken fits)
      ∙ ap (λ t. t ++ fits) e
      ∙ append_assoc s.out (contents s.ring) fits
      ∙ ap (◌++◌ s.out) (sym c),
)
  where
    fits : Bytes
    fits = take (room s.ring) bs

    small : length fits ≤ room s.ring
    small = omega (arith, length-take (room s.ring) bs)

    v' : IsValid (fill s.ring s.ring.write_idx fits)
    v' = (contents-fill fits v small).0

    c : contents (fill s.ring s.ring.write_idx fits) ≡ contents s.ring ++ fits
    c = (contents-fill fits v small).1
exec-IsFifo before s (get n) (v, e) = rw ((buffers_lem 0 v).0) (
  (advance_read-IsValid k v small).0,
  e
      ∙ ap (◌++◌ s.out) (sym halves)
      ∙ sym (append_assoc s.out read (drop k (contents s.ring)))
      ∙ ap (◌++◌ (s.out ++ read)) (sym (contents-advance_read k v small)),
)
  where
    k : ℕ
    k = min n (unread s.ring)

    small : k ≤ unread s.ring
    small = omega arith

    read : Bytes
    read = window s.ring.cells s.ring.capacity s.ring.read_idx k

    halves : read ++ drop k (contents s.ring) ≡ contents s.ring
    halves = take-window s.ring.cells s.ring.capacity s.ring.read_idx k (unread s.ring) small

-- After any sequence of calls from a valid ring, the ring is valid, and the bytes that were unread at
-- the start followed by those taken in are the bytes read followed by those still unread: none is
-- lost, doubled or out of order.
pub run-IsFifo :
    (ops : List Op) {r : RingBuffer}
    → IsValid r
    → IsFifo (contents r) (run (record { out = []; taken = []; ring = r }) ops)
unfolding run
run-IsFifo ops {r} v =
    loop ops (record { out = []; taken = []; ring = r }) (v, append-nil (contents r))
  where
    loop : (ops : List Op) (s : Session) → IsFifo (contents r) s → IsFifo (contents r) (run s ops)
    loop [] s h = h
    loop (op ∷ ops) s h = loop ops (exec s op) (exec-IsFifo (contents r) s op h)
