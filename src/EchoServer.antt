-- ===== src/EchoServer.antt =====
-- server.cpp: a server that sends back what it receives, with one array for the reads of all clients.
pub mod Quiet
pub mod Mixed
pub mod RunOnce
pub mod Single
mod Tests
use conn.Common.{
  ℕ, zero, suc, Bool, true, false, List, [], ◌∷◌, ◌++◌, Option, none, some, if◌then◌else◌, leb,
  Bytes, length, take, drop, replicate,
}
use mathlib.Core.Option

-- What a client's socket waits for: a read; a write of the first bytes of the array, which are still to
-- be sent; the handler of a write whose bytes were sent; or nothing any more.
pub data Waits : Type 0 where
  reading : Waits
  writing : ℕ → Waits
  sent : Waits
  nothing : Waits

-- A client, with the messages that were read from it and those that were sent to it.
pub record Client : Type 0 where
  pub waits : Waits
  pub received : List Bytes
  pub echoed : List Bytes

-- `Server`: the array, the clients, and whether a client is accepted.
pub record Server : Type 0 where
  pub buffer : Bytes
  pub clients : List Client
  pub accepts : Bool

abbrev pub buffer_size : ℕ
buffer_size = 1024

-- `handleClient`
abbrev pub handle_client : Client → Client
handle_client c = record c { waits = reading }

-- `startAccept`
abbrev pub start_accept : Server → Server
start_accept s = record s { accepts = true }

-- `Server::Server`; `memory` is what the array holds.
abbrev pub init : Bytes → Server
init memory = start_accept (record { buffer = memory; clients = []; accepts = false })

abbrev pub new_client : Client
new_client = record { waits = nothing; received = []; echoed = [] }

-- The handler of `async_accept`.
unfoldable pub on_accept : Bool → Server → Server
on_accept error s =
    start_accept
      (if error then s else record s { clients = s.clients ++ handle_client new_client ∷ [] })

-- The handler of `async_read_some`.
unfoldable pub on_read : Bool → ℕ → Client → Client
on_read error n c = if error then record c { waits = nothing } else record c { waits = writing n }

-- The handler of `async_write`.
unfoldable pub on_written : Bool → Client → Client
on_written error c = if error then record c { waits = nothing } else handle_client c

-- What asio does between the handlers. A read puts the message in front in the array, which it fits.
abbrev pub overlaid : Bytes → Bytes → Bytes
overlaid message buffer = message ++ drop (length message) buffer

abbrev pub heard_by : Bytes → Client → Waits → Option Client
heard_by message c reading =
    if leb (length message) buffer_size
    then some (on_read false (length message) (record c { received = c.received ++ message ∷ [] }))
    else none
heard_by message c _ = none

unfoldable pub hear : Bytes → Client → Option Client
hear message c = heard_by message c c.waits

abbrev pub lost_by : Client → Waits → Option Client
lost_by c reading = some (on_read true 0 c)
lost_by c _ = none

-- A read that fails.
unfoldable pub lose : Client → Option Client
lose c = lost_by c c.waits

abbrev pub sent_to : Bytes → Client → Waits → Option Client
sent_to buffer c (writing n) =
    some (record c { waits = sent; echoed = c.echoed ++ take n buffer ∷ [] })
sent_to buffer c _ = none

-- The bytes of a write are taken from the array some time before its handler is called.
unfoldable pub send : Bytes → Client → Option Client
send buffer c = sent_to buffer c c.waits

abbrev pub done_with : Client → Waits → Option Client
done_with c sent = some (on_written false c)
done_with c _ = none

unfoldable pub finish : Client → Option Client
finish c = done_with c c.waits

abbrev pub failed_with : Client → Waits → Option Client
failed_with c (writing n) = some (on_written true c)
failed_with c sent = some (on_written true c)
failed_with c _ = none

-- A write that fails, whether its bytes were sent or not.
unfoldable pub fail : Client → Option Client
fail c = failed_with c c.waits

-- One of the clients changes, the one at the index.
unfoldable pub change : ℕ → (Client → Option Client) → List Client → Option (List Client)
change i f [] = none
change zero f (c ∷ cs) = Option.map (λ d. d ∷ cs) (f c)
change (suc i) f (c ∷ cs) = Option.map (λ ds. c ∷ ds) (change i f cs)

pub data Event : Type 0 where
  accepted : Bool → Event
  read : ℕ → Bytes → Event
  read_failed : ℕ → Event
  taken : ℕ → Event
  written : ℕ → Event
  write_failed : ℕ → Event

abbrev pub with_clients : Server → Option (List Client) → Option Server
with_clients s cs = Option.map (λ l. record s { clients = l }) cs

-- An event, where the client at the index waits for it.
unfoldable pub step : Event → Server → Option Server
step (accepted error) s = some (on_accept error s)
step (read i message) s =
    with_clients (record s { buffer = overlaid message s.buffer })
      (change i (hear message) s.clients)
step (read_failed i) s = with_clients s (change i lose s.clients)
step (taken i) s = with_clients s (change i (send s.buffer) s.clients)
step (written i) s = with_clients s (change i finish s.clients)
step (write_failed i) s = with_clients s (change i fail s.clients)

-- Events one after the other.
unfoldable pub run : List Event → Server → Option Server
run [] s = some s
run (e ∷ es) s = elim (step e s) [ none ↦ none | some s1 ↦ run es s1 ]
