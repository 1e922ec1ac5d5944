-- ===== src/EchoServer/Mixed.antt =====
-- Two clients whose messages meet in the array.
use conn.Common.{
  ℕ, zero, suc, ◌≡◌, refl, ap, ◌∙◌, true, false, List, [], ◌∷◌, ◌++◌, some, ◌≤◌, leb, Bytes, length,
  take, drop, arith,
}
use conn.EchoServer.{
  reading, writing, sent, Server, Event, init, buffer_size, on_accept, on_read, overlaid, hear,
  send, change, accepted, read, taken, step, run,
}

take-append : (n : ℕ) (a b : Bytes) → n ≤ length a → take n (a ++ b) ≡ take n a
take-append zero a b h = refl
take-append (suc n) [] b h = absurd (omega arith)
take-append (suc n) (x ∷ a) b h = ap (λ t. x ∷ t) (take-append n a b (omega (arith, h)))

run_step :
    (e : Event) (es : List Event) (s s1 : Server) → step e s ≡ some s1 → run (e ∷ es) s ≡ run es s1
unfolding run
run_step e es s s1 h = rw (h, run) refl

-- The first client has sent its message.
abbrev one_asked : Bytes → Bytes → Server
one_asked memory first = record {
  buffer = overlaid first memory;
  clients =
      record { waits = writing (length first); received = first ∷ []; echoed = [] }
      ∷ record { waits = reading; received = []; echoed = [] }
      ∷ [];
  accepts = true;
}

-- So has the second.
abbrev both_asked : Bytes → Bytes → Bytes → Server
both_asked memory first second = record {
  buffer = overlaid second (overlaid first memory);
  clients =
      record { waits = writing (length first); received = first ∷ []; echoed = [] }
      ∷ record { waits = writing (length second); received = second ∷ []; echoed = [] }
      ∷ [];
  accepts = true;
}

abbrev two_clients : Bytes → Server
two_clients memory = record {
  buffer = memory;
  clients =
      record { waits = reading; received = []; echoed = [] }
      ∷ record { waits = reading; received = []; echoed = [] }
      ∷ [];
  accepts = true;
}

one_asks :
    (memory first : Bytes)
    → length first ≤ buffer_size
    → step (read 0 first) (two_clients memory) ≡ some (one_asked memory first)
unfolding step change hear on_read
one_asks memory first h =
    let fits : leb (length first) buffer_size ≡ true = ground arith in rw fits refl

other_asks :
    (memory first second : Bytes)
    → length second ≤ buffer_size
    → step (read 1 second) (one_asked memory first) ≡ some (both_asked memory first second)
unfolding step change hear on_read
other_asks memory first second h =
    let fits : leb (length second) buffer_size ≡ true = ground arith in rw fits refl

-- Where a message of a second client is read before that of the first was sent, and is not the shorter
-- one, the first client is sent the start of the message of the second. The messages fit the array.
pub run_mixed :
    (memory first second : Bytes)
    → length first ≤ length second
    → length second ≤ buffer_size
    → run
        (accepted false ∷ accepted false ∷ read 0 first ∷ read 1 second ∷ taken 0 ∷ [])
        (init memory)
      ≡ some (record {
        buffer = overlaid second (overlaid first memory);
        clients =
            record { waits = sent; received = first ∷ []; echoed = take (length first) second ∷ [] }
            ∷ record { waits = writing (length second); received = second ∷ []; echoed = [] }
            ∷ [];
        accepts = true;
      })
unfolding run step on_accept change send
run_mixed memory first second h k =
    run_step (read 0 first) (read 1 second ∷ taken 0 ∷ []) (two_clients memory)
      (one_asked memory first) (one_asks memory first (omega arith))
    ∙ run_step (read 1 second) (taken 0 ∷ []) (one_asked memory first)
        (both_asked memory first second) (other_asks memory first second k)
    ∙ rw (take-append (length first) second (drop (length second) (overlaid first memory)) h) refl
