-- ===== src/Connection/Client.antt =====
-- common/ConnClient.cpp and GWClient.h: a client that holds at most one connection.
use conn.Common.{
  ℕ, ◌≡◌, refl, sym, ap, Bool, true, false, not, ◌&&◌, ◌||◌, List, [], ◌∷◌, ◌++◌, Option, none,
  some, if◌then◌else◌, Bytes, Bool-cases, inl, inr, arith,
}
use mathlib.Core.List.{map, append-nil}
use conn.Connection.{Connection, Made, threw, null, made, System, get_connection, close}

-- `lost` are the connections that the client held and let go of without closing them; `closed` those
-- that it closed.
pub record ConnClient : Type 0 where
  pub url : Bytes
  pub connection : Option Connection
  pub logged_in : Bool
  pub lost : List Connection
  pub closed : List Connection

-- The constructors of ConnClient and GWClient.
abbrev pub no_client : ConnClient
no_client = record { url = []; connection = none; logged_in = false; lost = []; closed = [] }

-- A call either returns, throws, or uses a null pointer.
pub data Outcome : Type 0 where
  returned : Bool → ConnClient → Outcome
  failed : Outcome
  crashed : Outcome

abbrev pub held : Option Connection → List Connection
held none = []
held (some c) = c ∷ []

-- `connect` behind `get_connection`; `listens` is what `add_listener` returns.
abbrev connect_with : ConnClient → Bytes → Bool → Made → Outcome
connect_with cl url listens threw = failed
connect_with cl url listens null = crashed
connect_with cl url listens (made c) =
    let dropped = record cl { lost = cl.lost ++ held cl.connection } in
    if not listens || not c.is_open
    then returned false (record dropped { connection = none })
    else returned true (record dropped { connection = some c; url = url })

-- `ConnClient::connect`
unfoldable pub connect :
    System → (Bytes → Option ℕ) → (Connection → Bool) → ConnClient → Bytes → Outcome
connect sys to_port add_listener cl url =
    let m = get_connection sys to_port url in
    connect_with cl url (elim m [ made c ↦ add_listener c | _ ↦ true ]) m

abbrev disconnect_from : ConnClient → Option Connection → ConnClient
disconnect_from cl none = cl
disconnect_from cl (some c) = record cl { connection = none; closed = cl.closed ++ close c ∷ [] }

-- `ConnClient::disconnect`
unfoldable pub disconnect : ConnClient → ConnClient
disconnect cl = disconnect_from cl cl.connection

-- `is_connected`
abbrev pub is_connected : ConnClient → Bool
is_connected cl = elim cl.connection [ none ↦ false | some c ↦ true ]

-- `GWClient::send(NPacket*)`; `has_packet` is whether the pointer is not null, and `send_packet` what
-- the connection's send returns.
unfoldable pub send : (Connection → Bool) → ConnClient → Bool → Bool
send send_packet cl has_packet =
    if not has_packet
    then false
    else if not (is_connected cl) || not cl.logged_in
    then false
    else elim cl.connection [ none ↦ false | some c ↦ send_packet c ]

-- A call that returns: `connected` is whether the connection `c` took the listener and is open.
abbrev pub IsConnected : ConnClient → Bytes → Connection → Bool → Outcome → Type 0
IsConnected cl url c connected failed = ⊥
IsConnected cl url c connected crashed = ⊥
IsConnected cl url c connected (returned done cl') =
    (done ≡ connected)
    × (cl'.connection ≡ (if connected then some c else none))
    × (cl'.url ≡ (if connected then url else cl.url))
    × (cl'.lost ≡ cl.lost ++ held cl.connection)
    × (cl'.closed ≡ cl.closed)
    × (cl'.logged_in ≡ cl.logged_in)

-- What `connect` comes to, for each thing that `get_connection` can come to.
abbrev pub Connects : (Connection → Bool) → ConnClient → Bytes → Made → Outcome → Type 0
Connects listens cl url threw out = out ≡ failed
Connects listens cl url null out = out ≡ crashed
Connects listens cl url (made c) out = IsConnected cl url c (listens c && c.is_open) out

connect_with-Connects :
    (listens : Connection → Bool) (cl : ConnClient) (url : Bytes) (m : Made)
    → Connects listens cl url m (connect_with cl url (elim m [ made c ↦ listens c | _ ↦ true ]) m)
connect_with-Connects listens cl url threw = refl
connect_with-Connects listens cl url null = refl
connect_with-Connects listens cl url (made c) = elim (Bool-cases (listens c)) [
  | inr deaf ↦ rw deaf (refl, refl, refl, refl, refl, refl)
  | inl heard ↦ elim (Bool-cases c.is_open) [
    | inl open_ ↦ simp (heard, open_) (refl, refl, refl, refl, refl, refl)
    | inr shut ↦ simp (heard, shut) (refl, refl, refl, refl, refl, refl)
  ]
]

-- `connect` throws where `get_connection` throws, and uses a null pointer where `get_connection` returns
-- one. Otherwise it returns whether the connection that is made takes the listener and is open: if so
-- the client holds that connection and has the URL, and if not it holds none and keeps the URL that it
-- had. A connection that the client had before is lost, and none is closed.
pub connect-Connects :
    (sys : System) (to_port : Bytes → Option ℕ) (add_listener : Connection → Bool) (cl : ConnClient)
    (url : Bytes)
    → Connects add_listener cl url
        (get_connection sys to_port url)
        (connect sys to_port add_listener cl url)
unfolding connect
connect-Connects sys to_port add_listener cl url =
    connect_with-Connects add_listener cl url (get_connection sys to_port url)

-- `disconnect` closes the connection that is held, once: behind it the client is not connected, cannot
-- send, and another `disconnect` changes nothing.
pub disconnect-twice :
    (cl : ConnClient) (send_packet : Connection → Bool) (has_packet : Bool)
    → let cl' = disconnect cl in
      (is_connected cl' ≡ false)
      × (cl'.closed ≡ cl.closed ++ map close (held cl.connection))
      × (cl'.lost ≡ cl.lost)
      × (send send_packet cl' has_packet ≡ false)
      × (disconnect cl' ≡ cl')
unfolding disconnect send
disconnect-twice cl send_packet has_packet = by cl.connection refl
  where
    by :
        (o : Option Connection)
        → cl.connection ≡ o
        → let cl' = disconnect_from cl o in
          (is_connected cl' ≡ false)
          × (cl'.closed ≡ cl.closed ++ map close (held o))
          × (cl'.lost ≡ cl.lost)
          × (send send_packet cl' has_packet ≡ false)
          × (disconnect cl' ≡ cl')
    by none e = (
      ap (λ o. elim o as (λ _. Bool) [ none ↦ false | some c ↦ true ]) e,
      sym (append-nil cl.closed),
      refl,
      ground arith,
      ap (disconnect_from cl) e,
    )
    by (some c) e = (refl, refl, refl, ground arith, refl)
