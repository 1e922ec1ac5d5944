-- ===== src/Connection/Tests.antt =====
-- Connections at concrete URLs.
use conn.Common.{
  ◌∷◌, ℕ, ◌≡◌, refl, true, false, Option, none, some, [], ◌∷◌, Bytes, codes, equal, arith, pos,
  if◌then◌else◌,
}
use conn.RingBuffer.{RingBuffer, Os, alloc, page_up}
use conn.RingBuffer
use conn.RingBuffer.Inv.{IsValid}
use conn.NotifierFd.{init_fd}
use conn.Url
use conn.Url.{
  Url, parse, parse_rest, type_of, option_loop, take_option, getline, take_line, find_option,
  insert_option,
}
use conn.Connection.{
  Connection, mcast, made, System, new_connection, create_mcast, find_creator, get_connection,
}
use conn.Connection.Fresh.{IsFresh, IsUsual, get_connection-IsFresh}
use conn.Connection.Reading.{IsIdle, serve, serve-received}
use conn.Connection.Client.{ConnClient, no_client, connect, returned, Connects, connect-Connects}

abbrev linux : Os
linux = record {
  page_size = 4096;
  eventfd = pos 5;
  mkstemp_ok = true;
  unlink_ok = true;
  ftruncate_ok = true;
  reserve_ok = true;
  map_low_ok = true;
  map_high_ok = true;
}

abbrev sys : System
sys = record { os_read = linux; os_write = linux; junk = 0; socket_open = false }

sys-IsUsual : IsUsual sys
sys-IsUsual = omega arith

-- A stand-in for the number of a port.
abbrev to_port : Bytes → Option ℕ
to_port s = if equal s (codes "19601") then some 19601 else none

abbrev ring : RingBuffer
ring = record {
  mapped = true;
  cells = λ _. 0;
  capacity = 8388608;
  read_idx = 0;
  write_idx = 0;
  notifier = record { event_fd = pos 5 };
}

abbrev feed : Connection
feed = record {
  transport = mcast;
  is_stream = false;
  address = codes "233.24.10.1";
  port = 19601;
  interface_addr = [];
  is_open = true;
  read_buf = ring;
  write_buf = ring;
  requests = [];
  received = [];
}

abbrev feed_url : Bytes
feed_url = codes "mcp://233.24.10.1:19601"

made_feed : get_connection sys to_port feed_url ≡ made feed
unfolding get_connection create_mcast find_creator new_connection alloc RingBuffer.init init_fd
    page_up Url.init parse parse_rest Url.find type_of option_loop take_option getline take_line
    find_option insert_option equal
made_feed = refl

get_connection-IsFresh_example : IsFresh sys feed
get_connection-IsFresh_example =
    get_connection-IsFresh sys to_port feed_url feed sys-IsUsual made_feed

ring-IsValid : IsValid ring
ring-IsValid = ground arith

abbrev waiting : Connection
waiting = record feed { requests = (0, 8388608) ∷ [] }

waiting-IsIdle : IsIdle waiting
waiting-IsIdle = record { ring_ok = ring-IsValid; empty = refl; waits = ([], refl) }

serve-received_example :
    (c' : Connection) × (serve waiting ((1 ∷ 2 ∷ []) ∷ (3 ∷ []) ∷ []) ≡ some c')
    × (c'.received ≡ (1 ∷ 2 ∷ []) ∷ (3 ∷ []) ∷ [])
    × IsIdle c'
serve-received_example =
    serve-received ((1 ∷ 2 ∷ []) ∷ (3 ∷ []) ∷ []) waiting waiting-IsIdle
      (omega arith, (omega arith, tt))

connect-Connects_example :
    Connects
      (λ _. true)
      no_client
      feed_url
      (get_connection sys to_port feed_url)
      (connect sys to_port (λ _. true) no_client feed_url)
connect-Connects_example = connect-Connects sys to_port (λ _. true) no_client feed_url

abbrev connected : ConnClient
connected = record no_client { connection = some feed; url = feed_url }

connects : connect sys to_port (λ _. true) no_client feed_url ≡ returned true connected
unfolding connect get_connection create_mcast find_creator new_connection alloc RingBuffer.init
    init_fd page_up Url.init parse parse_rest Url.find type_of option_loop take_option getline
    take_line find_option insert_option equal
connects = refl

abbrev server_url : Url
server_url = record {
  kind = Url.ConnType.tcp;
  address = codes "0.0.0.0";
  options = (codes "port", codes "19601") ∷ [];
}
