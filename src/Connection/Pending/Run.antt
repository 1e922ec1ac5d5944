-- ===== src/Connection/Pending/Run.antt =====
-- A connection in which no operation fails: it always waits for bytes.
use conn.Common.{
  ℕ, suc, ◌+◌, ◌≤◌, ◌<◌, ◌≡◌, refl, sym, ap, ◌∙◌, false, List, [], ◌∷◌, ◌++◌, some, Bytes, arith,
  subst,
}
use conn.RingBuffer.{RingBuffer, advance_write, advance_read}
use conn.RingBuffer.Inv.{
  IsValid, unread, room, buffers_lem, advance_write-IsValid, advance_read-IsValid,
}
use conn.Connection.{Transport, tcp, mcast, unix, shm, Connection}
use conn.Connection.Reading.{async_read as ask_ring, handle_read as take_message, request, message}
use conn.Connection.Pending.{
  Memory, in_ring, in_frame, Operation, connecting, reading, writing, Async, started, asked,
  async_read, handle_connect, async_write, handle_write, handle_read,
}

-- An operation is taken out of the pending ones.
pub data Takes (op : Operation) : List Operation → List Operation → Type 0 where
  first : {ops : List Operation} → Takes op (op ∷ ops) ops
  later :
      {o : Operation} {ops rest : List Operation}
      → Takes op ops rest
      → Takes op (o ∷ ops) (o ∷ rest)

abbrev pub without : Async → List Operation → Async
without a ops = record a { pending = ops }

-- What can happen behind a connection while nothing fails: the program writes, a write is complete, and
-- bytes arrive for a pending read. The number is that of the writes that are complete.
pub data Run (a : Async) : ℕ → Async → Type 0 where
  start : Run a 0 a
  writes : {n : ℕ} {b : Async} → Run a n b → (buf : Bytes) → Run a n (async_write b buf)
  sent :
      {n : ℕ} {b : Async} {buf : Bytes} {ops : List Operation}
      → Run a n b
      → Takes (writing buf) b.pending ops
      → Run a (suc n) (handle_write (without b ops) false)
  arrives :
      {n : ℕ} {b c : Async} {m : Memory} {ops : List Operation}
      → Run a n b
      → Takes (reading m) b.pending ops
      → (bytes_transferred : ℕ) → bytes_transferred ≤ b.conn.read_buf.capacity
      → handle_read (without b ops) false bytes_transferred ≡ some c
      → Run a n c

abbrev is_reading : Operation → ℕ
is_reading connecting = 0
is_reading (reading m) = 1
is_reading (writing buf) = 0

abbrev pub reads : List Operation → ℕ
reads [] = 0
reads (op ∷ ops) = is_reading op + reads ops

reads-append : (ops more : List Operation) → reads (ops ++ more) ≡ reads ops + reads more
reads-append [] more = omega arith
reads-append (op ∷ ops) more = omega (arith, reads-append ops more)

reads-Takes :
    {op : Operation} {ops rest : List Operation}
    → Takes op ops rest
    → reads ops ≡ is_reading op + reads rest
reads-Takes first = refl
reads-Takes (later t) = omega (arith, reads-Takes t)

-- The further reads that a transport has started behind `n` writes.
abbrev pub further : Transport → ℕ → ℕ
further unix n = n
further tcp n = 0
further mcast n = 0
further shm n = 0

-- The ring between the handlers: valid and without unread bytes.
pub record IsReady (a : Async) : Type 0 where
  pub ring_ok : IsValid a.conn.read_buf
  pub empty : unread a.conn.read_buf ≡ 0

abbrev after_message : Connection → ℕ → RingBuffer
after_message c n = advance_read (advance_write c.read_buf n) n

message_passes :
    (c : Connection) (n : ℕ)
    → IsValid c.read_buf
    → unread c.read_buf ≡ 0
    → n ≤ c.read_buf.capacity
    → IsValid (after_message c n) × (unread (after_message c n) ≡ 0)
message_passes c n v e h =
    let (v1, e1) = advance_write-IsValid n v (omega arith) in
    let (v2, e2) = advance_read-IsValid n v1 (omega arith) in (v2, omega arith)

-- `handle_read` on a ready connection returns, and leaves it ready, with a read more.
pub handle_read-IsReady :
    (a : Async) (n : ℕ)
    → IsReady a
    → n ≤ a.conn.read_buf.capacity
    → (b : Async) × (handle_read a false n ≡ some b)
      × IsReady b
      × (b.transport ≡ a.transport)
      × (reads b.pending ≡ suc (reads a.pending))
unfolding handle_read take_message ask_ring request
handle_read-IsReady a n r h =
    let (v, e) = message_passes a.conn n r.ring_ok r.empty h in
    let next = after_message a.conn n in
    let (_, offer, _, _, _) = buffers_lem 0 v in
    let taken : Connection = record a.conn {
      received = a.conn.received ++ message a.conn.read_buf n ∷ [];
      read_buf = next;
    } in
    (
      started
          (record a {
            conn = record taken { requests = taken.requests ++ (next.write_idx, room next) ∷ [] };
          })
          (reading in_ring),
      ap (λ o. asked a (request taken o)) offer,
      record { ring_ok = v; empty = e },
      refl,
      reads-append a.pending (reading in_ring ∷ []) ∙ omega arith,
    )

-- What holds in every run behind `a`.
record Held (a : Async) (n : ℕ) (b : Async) : Type 0 where
  ready : IsReady b
  same : b.transport ≡ a.transport
  count : reads b.pending ≡ reads a.pending + further a.transport n

further-suc :
    (t : Transport) (b : Async) (n k : ℕ)
    → b.transport ≡ t
    → reads b.pending ≡ k + further t n
    → reads (handle_write b false).pending ≡ k + further t (suc n)
unfolding handle_write
further-suc tcp b n k e h = rw e h
further-suc mcast b n k e h = rw e h
further-suc shm b n k e h = rw e h
further-suc unix b n k e h =
    rw e (reads-append b.pending (reading in_frame ∷ []) ∙ omega (arith, h))

written_conn :
    (b : Async)
    → ((handle_write b false).conn ≡ b.conn) × ((handle_write b false).transport ≡ b.transport)
unfolding handle_write
written_conn b = by_transport b.transport
  where
    by_transport :
        (t : Transport)
        → let b' = elim t as (λ _. Async) [ unix ↦ started b (reading in_frame) | _ ↦ b ] in
          (b'.conn ≡ b.conn) × (b'.transport ≡ b.transport)
    by_transport tcp = (refl, refl)
    by_transport mcast = (refl, refl)
    by_transport unix = (refl, refl)
    by_transport shm = (refl, refl)

some_inj : {x y : Async} → some x ≡ some y → x ≡ y
some_inj q = cc

Run-Held : {a b : Async} {n : ℕ} → IsReady a → Run a n b → Held a n b
Run-Held {a} r start = record { ready = r; same = refl; count = nothing a.transport }
  where
    nothing : (t : Transport) → reads a.pending ≡ reads a.pending + further t 0
    nothing tcp = omega arith
    nothing mcast = omega arith
    nothing unix = omega arith
    nothing shm = omega arith
Run-Held r (writes {b = b} run buf) =
    let h = Run-Held r run in
    record {
      ready = record { ring_ok = h.ready.ring_ok; empty = h.ready.empty };
      same = h.same;
      count = reads-append b.pending (writing buf ∷ []) ∙ omega (arith, h.count);
    }
Run-Held {a} r (sent {n = n} {b = b} {ops = ops} run taken) =
    let h = Run-Held r run in
    let (conn, transport) = written_conn (without b ops) in
    record {
      ready = record {
        ring_ok = subst (λ (c : Connection). IsValid c.read_buf) (sym conn) h.ready.ring_ok;
        empty = subst (λ (c : Connection). unread c.read_buf ≡ 0) (sym conn) h.ready.empty;
      };
      same = transport ∙ h.same;
      count =
          further-suc a.transport (without b ops) n (reads a.pending) h.same
            (omega (arith, reads-Takes taken, h.count));
    }
Run-Held {a} r (arrives {n = n} {b = b} {c = c} {ops = ops} run taken k fits e) =
    let h = Run-Held r run in
    let (d, done, ready, same, count) =
      handle_read-IsReady (without b ops) k
        (record { ring_ok = h.ready.ring_ok; empty = h.ready.empty }) fits in
    let result : d ≡ c = some_inj (sym done ∙ e) in
    subst (Held a n) result (record {
      ready = ready;
      same = same ∙ h.same;
      count = omega (arith, count, reads-Takes taken, h.count);
    })

handle_connect-IsReady :
    (a : Async)
    → IsReady a
    → (b : Async) × (handle_connect a false ≡ some b)
      × IsReady b
      × (b.transport ≡ a.transport)
      × (reads b.pending ≡ suc (reads a.pending))
unfolding handle_connect async_read ask_ring request
handle_connect-IsReady a r =
    let (_, offer, _, _, _) = buffers_lem 0 r.ring_ok in
    let ring = a.conn.read_buf in
    (
      started
          (record a {
            conn = record a.conn { requests = a.conn.requests ++ (ring.write_idx, room ring) ∷ [] };
          })
          (reading in_ring),
      ap (λ o. asked a (request a.conn o)) offer,
      record { ring_ok = r.ring_ok; empty = r.empty },
      refl,
      reads-append a.pending (reading in_ring ∷ []) ∙ omega arith,
    )

reading_pending :
    (ops : List Operation)
    → 0 < reads ops
    → (m : Memory) × (rest : List Operation) × Takes (reading m) ops rest
reading_pending [] h = absurd (omega arith)
reading_pending (reading m ∷ ops) h = (m, ops, first)
reading_pending (connecting ∷ ops) h =
    let (m, rest, t) = reading_pending ops (omega arith) in (m, connecting ∷ rest, later t)
reading_pending (writing buf ∷ ops) h =
    let (m, rest, t) = reading_pending ops (omega arith) in (m, writing buf ∷ rest, later t)

-- A connection with an empty ring and no pending read, once connected, always waits for bytes as long
-- as no operation fails and it is not closed: after any writes and messages, in any order, one read is
-- pending, and for a Unix connection one more for each write that is complete; there is one among them
-- for which, when bytes arrive, no more than the ring holds, `handle_read` returns, and as many reads
-- are pending again.
pub Run-waits :
    (a b c : Async) (n k : ℕ)
    → IsReady a
    → reads a.pending ≡ 0
    → handle_connect a false ≡ some b
    → Run b n c
    → k ≤ c.conn.read_buf.capacity
    → (reads c.pending ≡ 1 + further a.transport n)
      × ((m : Memory) × (ops : List Operation) × (d : Async) × Takes (reading m) c.pending ops
          × (handle_read (without c ops) false k ≡ some d)
          × (reads d.pending ≡ 1 + further a.transport n))
Run-waits a b c n k r nobody connected run fits =
    let (b', done, ready, same, count) = handle_connect-IsReady a r in
    let result : b' ≡ b = some_inj (sym done ∙ connected) in
    let h : Held b' n c = Run-Held ready (subst (λ s. Run s n c) (sym result) run) in
    let further_same : further b'.transport n ≡ further a.transport n =
      ap (λ t. further t n) same in
    let waiting : reads c.pending ≡ 1 + further a.transport n =
      omega (arith, h.count, count, nobody, further_same) in
    let (m, ops, taken) = reading_pending c.pending (omega arith) in
    let (d, returns, _, _, again) =
      handle_read-IsReady (without c ops) k
        (record { ring_ok = h.ready.ring_ok; empty = h.ready.empty }) fits in
    let back : reads d.pending ≡ 1 + further a.transport n =
      omega (arith, again, reads-Takes taken, waiting) in
    (waiting, (m, ops, d, taken, returns, back))
