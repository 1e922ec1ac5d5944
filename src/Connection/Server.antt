-- ===== src/Connection/Server.antt =====
-- common/ConnServer.cpp, ServerConnection.cpp and the `create` functions of TcpServerConnection.cpp and
-- UnixServerConnection.cpp: the listening side.
use conn.Common.{
  ℕ, zero, suc, ℤ, pos, negsuc, ◌-◌, ◌%◌, ◌^◌, ◌≡◌, refl, ap, ◌∙◌, Bool, true, false, ◌||◌, List,
  [], ◌∷◌, ◌++◌, Option, none, some, if◌then◌else◌, Bytes, codes, equal, Bool-cases, inl, inr,
}
use conn.Url
use conn.Url.{Url, parse, get_type_str, get_option, is_empty}
use conn.Connection.{Connection, close}

pub data ServerTransport : Type 0 where
  tcp unix : ServerTransport

-- `ServerConnection::m_conn_creator`, empty when the program starts.
abbrev pub Creators : Type 0
Creators = List (Bytes × ServerTransport)

abbrev pub both : Creators
both = (codes "tcp", tcp) ∷ (codes "unix", unix) ∷ []

-- `register_factory`: it returns at once where the map is empty.
unfoldable pub register_factory : Creators → Bool × Creators
register_factory [] = (false, [])
register_factory (c ∷ cs) = (true, (c ∷ cs) ++ both)

unfoldable pub find_creator : Creators → Bytes → Option ServerTransport
find_creator [] type_str = none
find_creator ((name, t) ∷ rest) type_str =
    let found = find_creator rest type_str in if equal name type_str then some t else found

-- `threw` from the constructor of the URL, `null` for a type that was found, and `undefined` for the
-- call through `end()` for one that was not.
pub data Served : Type 0 where
  threw null undefined : Served

abbrev serve_found : Option ServerTransport → Served
serve_found none = undefined
serve_found (some t) = null

abbrev serve_url : Creators → Option Url → Served
serve_url cs none = threw
serve_url cs (some url) = serve_found (find_creator cs (get_type_str url))

-- `ServerConnection::get_connection`
unfoldable pub get_connection : Creators → Bytes → Served
get_connection cs url_str = serve_url cs (Url.init url_str)

-- The map behind `n` calls of `register_factory`.
unfoldable pub registered : ℕ → Creators
registered zero = []
registered (suc n) = (register_factory (registered n)).1

registered-empty : (n : ℕ) → registered n ≡ []
unfolding registered register_factory
registered-empty zero = refl
registered-empty (suc n) = ap (λ cs. (register_factory cs).1) (registered-empty n)

-- However often `register_factory` is called, `get_connection` of a server never returns a connection:
-- it throws where the URL cannot be parsed, and otherwise calls through the end of an empty map.
pub get_connection-registered :
    (n : ℕ) (url_str : Bytes)
    → get_connection (registered n) url_str ≡ (if (parse url_str).0 then undefined else threw)
unfolding get_connection find_creator Url.init
get_connection-registered n url_str =
    rw (registered-empty n)
      (elim (Bool-cases (parse url_str).0) [ inl ok ↦ rw ok refl | inr bad ↦ rw bad refl ])

-- `m_port`, and the port that the acceptor is bound to: the `int` as an unsigned short.
pub record TcpServerConnection : Type 0 where
  pub port : ℤ
  pub bound : ℕ

abbrev pub unsigned_short : ℤ → ℕ
unsigned_short (pos n) = n % 2 ^ 16
unsigned_short (negsuc n) = 2 ^ 16 - 1 - n % 2 ^ 16

abbrev tcp_server : ℤ → TcpServerConnection
tcp_server port = record { port = port; bound = unsigned_short port }

-- The number that is read is put in a variable of its own; `uport` stays -1.
abbrev tcp_with_port : Option ℕ → Option TcpServerConnection
tcp_with_port none = none
tcp_with_port (some uport) = some (tcp_server (negsuc 0))

-- `TcpServerConnection::create`; `to_port` is boost::lexical_cast<unsigned short>.
unfoldable pub create_tcp : (Bytes → Option ℕ) → Url → Option TcpServerConnection
create_tcp to_port url =
    let port = get_option url (codes "port") in
    if is_empty url.address || is_empty port then none else tcp_with_port (to_port port)

-- `UnixServerConnection::create`: the path that the acceptor is bound to.
unfoldable pub create_unix : Url → Option Bytes
create_unix url = if is_empty url.address then none else some url.address

-- Whatever number the URL has as its port, a TCP server is made with port -1 and bound to 65535.
pub create_tcp-port :
    (to_port : Bytes → Option ℕ) (url : Url) (n : ℕ)
    → is_empty url.address ≡ false
    → is_empty (get_option url (codes "port")) ≡ false
    → to_port (get_option url (codes "port")) ≡ some n
    → create_tcp to_port url ≡ some (record { port = negsuc 0; bound = 65535 })
unfolding create_tcp
create_tcp-port to_port url n h k e = rw (h, k, e) refl

-- `calls` are those of the callbacks, in order.
pub data Callback : Type 0 where
  client_disconnect closed_cb : Callback

-- `closed` are the connections that were closed.
pub record ConnServer : Type 0 where
  pub conn : Option Connection
  pub calls : List Callback
  pub closed : List Connection

-- The constructor.
abbrev pub new_server : Connection → ConnServer
new_server c = record { conn = some c; calls = []; closed = [] }

abbrev disconnect_from : ConnServer → Option Connection → ConnServer
disconnect_from s none = s
disconnect_from s (some c) = record s { conn = none; closed = s.closed ++ close c ∷ [] }

-- `disconnect`
unfoldable pub disconnect : ConnServer → ConnServer
disconnect s = disconnect_from s s.conn

-- `on_disconnect`: the connection is let go of, not closed.
unfoldable pub on_disconnect : ConnServer → ConnServer
on_disconnect s = record s { conn = none; calls = s.calls ++ client_disconnect ∷ closed_cb ∷ [] }

pub data ServerCall : Type 0 where
  disconnects peer_disconnects : ServerCall

unfoldable pub run : ConnServer → List ServerCall → ConnServer
run s [] = s
run s (disconnects ∷ cs) = run (disconnect s) cs
run s (peer_disconnects ∷ cs) = run (on_disconnect s) cs

-- The connection of a server is closed at most once: exactly where `disconnect` is called before the
-- peer goes. Where the peer goes first, it is never closed, however often `disconnect` follows.
abbrev pub closed_by : List ServerCall → Connection → List Connection
closed_by [] c = []
closed_by (disconnects ∷ cs) c = close c ∷ []
closed_by (peer_disconnects ∷ cs) c = []

run_gone : (cs : List ServerCall) (s : ConnServer) → s.conn ≡ none → (run s cs).closed ≡ s.closed
unfolding run disconnect on_disconnect
run_gone [] s e = refl
run_gone (disconnects ∷ cs) s e =
    ap (λ o. (run (disconnect_from s o) cs).closed) e ∙ run_gone cs s e
run_gone (peer_disconnects ∷ cs) s e = run_gone cs (on_disconnect s) refl

-- Over any calls of `disconnect` and `on_disconnect`, a server closes its connection at most once:
-- where `disconnect` is the first of them; where the peer goes first, never.
pub run-closed_by :
    (cs : List ServerCall) (c : Connection) → (run (new_server c) cs).closed ≡ closed_by cs c
unfolding run disconnect on_disconnect
run-closed_by [] c = refl
run-closed_by (disconnects ∷ cs) c = run_gone cs (disconnect (new_server c)) refl
run-closed_by (peer_disconnects ∷ cs) c = run_gone cs (on_disconnect (new_server c)) refl
