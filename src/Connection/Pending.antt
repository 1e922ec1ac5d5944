-- ===== src/Connection/Pending.antt =====
-- The operations that a connection has given to asio and that are not complete: common/TcpConnection.cpp,
-- UnixConnection.cpp, ShmConnection.cpp and McastConnection.cpp. What the handlers do with the ring is in
-- Connection.Reading.
pub mod Run
mod Tests
use conn.Common.{
  ℕ, Bool, true, false, not, List, [], ◌∷◌, ◌++◌, Option, none, some, if◌then◌else◌, Bytes, ℤ,
  is_neg,
}
use conn.Connection.{Transport, tcp, mcast, unix, shm, Connection}
use conn.Connection.Reading.{async_read as ask_ring, handle_read as take_message}

-- Where the bytes of a read go: to the ring, or to the local array of a function that has returned.
pub data Memory : Type 0 where
  in_ring in_frame : Memory

pub data Operation : Type 0 where
  connecting : Operation
  reading : Memory → Operation
  writing : Bytes → Operation

-- A connection, whether its socket or file is open, and its pending operations.
pub record Async : Type 0 where
  pub conn : Connection
  pub transport : Transport
  pub is_open : Bool
  pub pending : List Operation

abbrev pub started : Async → Operation → Async
started a op = record a { pending = a.pending ++ op ∷ [] }

-- A read into the ring that was asked for; none where `write_buffer` does not return.
unfoldable pub asked : Async → Option Connection → Option Async
asked a none = none
asked a (some c) = some (started (record a { conn = c }) (reading in_ring))

-- `async_read`
unfoldable pub async_read : Async → Option Async
unfolding asked
async_read a = asked a (ask_ring a.conn)

-- `connect`
abbrev pub connect : Async → Async
connect a = started a connecting

-- `handle_connect`, with an error or without.
unfoldable pub handle_connect : Async → Bool → Option Async
unfolding async_read
handle_connect a error = let reads = async_read a in if error then some a else reads

-- `async_write`
abbrev pub async_write : Async → Bytes → Async
async_write a buf = started a (writing buf)

-- `handle_write`: a Unix connection starts a read, into an array of its own.
unfoldable pub handle_write : Async → Bool → Async
handle_write a error = elim a.transport [
  | unix ↦ if error then a else started a (reading in_frame)
  | _ ↦ a
]

-- `handle_read` and `handle_recv`
unfoldable pub handle_read : Async → Bool → ℕ → Option Async
unfolding asked
handle_read a error bytes_transferred =
    let reads = asked a (take_message a.conn false bytes_transferred) in
    if error then some a else reads

-- `ShmConnection::open`, given what `open` returns and whether `mmap` succeeds. Its result, -1, is only
-- returned where it fails.
unfoldable pub open_file : Async → ℤ → Bool → Option Async
unfolding async_read
open_file a fd mapped =
    let reads = async_read (record a { is_open = true }) in
    if is_neg fd
    then some (record a { is_open = false })
    else if not mapped
    then some (record a { is_open = false })
    else reads

-- `McastConnection::join_group`, behind the options of the socket.
abbrev pub join_group : Async → Option Async
join_group a = async_read a

-- `do_close`: the pending operations are cancelled, which calls their handlers with an error, and the
-- socket is closed. A shared-memory connection does nothing, and so does a multicast one.
unfoldable pub do_close : Async → Async
do_close a =
    let closed = record a { pending = []; is_open = false } in
    elim a.transport [ tcp ↦ closed | unix ↦ closed | shm ↦ a | mcast ↦ a ]
