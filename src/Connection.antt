-- ===== src/Connection.antt =====
-- common/Connection.cpp with TcpConnection.cpp, McastConnection.cpp, UnixConnection.cpp and
-- ShmConnection.cpp: what a connection is made of, and how it is made from a URL.
pub mod Reading
pub mod Pending
pub mod Fresh
pub mod Client
pub mod Server
mod Tests
use conn.Common.{
  ℕ, ◌*◌, Bool, true, false, not, ◌||◌, ◌&&◌, List, [], ◌∷◌, Option, none, some, if◌then◌else◌,
  Bytes, codes, equal,
}
use mathlib.Core.Option
use conn.RingBuffer
use conn.RingBuffer.{RingBuffer, Os, alloc}
use conn.Url
use conn.Url.{Url, get_type_str, get_option, is_empty}

pub data Transport : Type 0 where
  tcp mcast unix shm : Transport

-- `requests` are the reads that were started, each the offset and the size of the memory given to the
-- socket; `received` are the messages that `handle_read` has seen.
pub record Connection : Type 0 where
  pub transport : Transport
  pub is_stream : Bool
  pub address : Bytes
  pub port : ℕ
  pub interface_addr : Bytes
  pub is_open : Bool
  pub read_buf : RingBuffer
  pub write_buf : RingBuffer
  pub requests : List (ℕ × ℕ)
  pub received : List Bytes

-- What a call that makes a connection comes to: an exception, a null pointer, or a connection.
pub data Made : Type 0 where
  threw : Made
  null : Made
  made : Connection → Made

-- `Connection::MAX_PACKET_SIZE`
abbrev pub max_packet_size : ℕ
max_packet_size = 1024 * 1024 * 8

-- What the constructors are given by the system: the answers to the two `alloc` calls, what the
-- rings' capacities hold before, and whether a stream socket that is given only a context is open.
pub record System : Type 0 where
  pub os_read : Os
  pub os_write : Os
  pub junk : ℕ
  pub socket_open : Bool

-- What `is_open()` of a new connection returns: a multicast connection always counts as open, and a
-- shared-memory one starts without a file.
abbrev pub starts_open : System → Transport → Bool
starts_open sys mcast = true
starts_open sys shm = false
starts_open sys _ = sys.socket_open

-- `Connection::Connection`, with the members of the transport.
unfoldable pub new_connection : System → Transport → Bool → Bytes → ℕ → Bytes → Made
new_connection sys transport is_stream address port interface_addr =
    let (ready, read_buf) = alloc sys.os_read (RingBuffer.init sys.junk) max_packet_size in
    let (ready', write_buf) = alloc sys.os_write (RingBuffer.init sys.junk) max_packet_size in
    if not ready
    then threw
    else if not ready'
    then threw
    else made (record {
      transport = transport;
      is_stream = is_stream;
      address = address;
      port = port;
      interface_addr = interface_addr;
      is_open = starts_open sys transport;
      read_buf = read_buf;
      write_buf = write_buf;
      requests = [];
      received = [];
    })

-- A connection that was made, where the port is no number, is lost and a null pointer returned.
abbrev null_of : Made → Made
null_of threw = threw
null_of _ = null

-- `to_port` is boost::lexical_cast<unsigned short>: none where it throws.
abbrev with_port : System → Transport → Bool → Bytes → Bytes → Option ℕ → Made
with_port sys transport is_stream host interface_addr none =
    null_of (new_connection sys transport is_stream host 0 interface_addr)
with_port sys transport is_stream host interface_addr (some port) =
    new_connection sys transport is_stream host port interface_addr

-- `TcpConnection::create`
unfoldable pub create_tcp : System → (Bytes → Option ℕ) → Url → Made
create_tcp sys to_port url =
    let port = get_option url (codes "port") in
    if is_empty url.address || is_empty port
    then null
    else with_port sys tcp true url.address [] (to_port port)

-- `McastConnection::create`
unfoldable pub create_mcast : System → (Bytes → Option ℕ) → Url → Made
create_mcast sys to_port url =
    let port = get_option url (codes "port") in
    if is_empty url.address || is_empty port
    then null
    else with_port sys mcast false url.address (get_option url (codes "interface_addr"))
        (to_port port)

-- `UnixConnection::create` and `ShmConnection::create`
unfoldable pub create_unix : System → Url → Made
create_unix sys url =
    if is_empty url.address then null else new_connection sys unix true url.address 0 []

unfoldable pub create_shm : System → Url → Made
create_shm sys url =
    if is_empty url.address then null else new_connection sys shm true url.address 0 []

-- `m_conn_creator` behind `register_factory`: the functions by name.
abbrev pub creators : List (Bytes × Transport)
creators =
    (codes "tcp", tcp)
    ∷ (codes "mcp", mcast)
    ∷ (codes "unix", unix)
    ∷ (codes "shm", shm)
    ∷ (codes "chr", shm)
    ∷ []

unfoldable pub find_creator : List (Bytes × Transport) → Bytes → Option Transport
find_creator [] type_str = none
find_creator ((name, t) ∷ rest) type_str =
    let found = find_creator rest type_str in if equal name type_str then some t else found

abbrev pub create : System → (Bytes → Option ℕ) → Url → Option Transport → Made
create sys to_port url none = null
create sys to_port url (some tcp) = create_tcp sys to_port url
create sys to_port url (some mcast) = create_mcast sys to_port url
create sys to_port url (some unix) = create_unix sys url
create sys to_port url (some shm) = create_shm sys url

abbrev create_from : System → (Bytes → Option ℕ) → Option Url → Made
create_from sys to_port none = threw
create_from sys to_port (some url) =
    create sys to_port url (find_creator creators (get_type_str url))

-- `Connection::get_connection`: the constructor of the URL throws where it cannot be parsed.
unfoldable pub get_connection : System → (Bytes → Option ℕ) → Bytes → Made
get_connection sys to_port url_str = create_from sys to_port (Url.init url_str)

-- `close`: `do_close` closes the socket, where there is one and it is open.
abbrev pub closes : Transport → Bool
closes shm = false
closes mcast = false
closes _ = true

unfoldable pub close : Connection → Connection
close c = if c.is_open then record c { is_open = c.is_open && not (closes c.transport) } else c
