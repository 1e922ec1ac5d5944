-- ===== src/Connection/Fresh.antt =====
-- What `get_connection` makes.
use conn.Common.{
  subst, [], ℕ, ◌^◌, ◌≤◌, ◌<◌, ◌≡◌, refl, Bool, true, false, Option, none, some, Bytes, codes,
  equal, Bool-cases, inl, inr, arith, ap,
}
use conn.RingBuffer.{RingBuffer, Os, alloc, init}
use conn.RingBuffer.Inv.{IsValid, unread}
use conn.RingBuffer.Alloc.{alloc-IsValid}
use conn.Url
use conn.Url.{ConnType, Url, parse, get_type_str, get_option, is_empty}
use conn.Url.Types.{IsRead, parse-IsRead}
use conn.Connection.{
  Transport, tcp, mcast, unix, shm, Connection, Made, threw, null, made, max_packet_size, System,
  starts_open, new_connection, null_of, with_port, create_tcp, create_mcast, create_shm, creators,
  find_creator, create, get_connection,
}

abbrev pub NotUnix : Transport → Type 0
NotUnix unix = ⊥
NotUnix _ = Unit {0}

abbrev pub IsFreshRing : RingBuffer → Type 0
IsFreshRing r = IsValid r × (unread r ≡ 0) × (max_packet_size ≤ r.capacity)

pub record IsFresh (sys : System) (c : Connection) : Type 0 where
  pub starts : c.is_open ≡ starts_open sys c.transport
  pub not_unix : NotUnix c.transport
  pub addressed : is_empty c.address ≡ false
  pub reads : IsFreshRing c.read_buf
  pub writes : IsFreshRing c.write_buf

-- Pages of a positive size of at most 2 ^ 30 bytes.
pub record IsUsual (sys : System) : Type 0 where
  pub page_pos : (0 < sys.os_read.page_size) × (0 < sys.os_write.page_size)
  pub page_small : (sys.os_read.page_size ≤ 2 ^ 30) × (sys.os_write.page_size ≤ 2 ^ 30)

abbrev pub AllFresh : System → Made → Type 0
AllFresh sys threw = Unit {0}
AllFresh sys null = Unit {0}
AllFresh sys (made c) = IsFresh sys c

alloc-fresh :
    (os : Os) (junk : ℕ)
    → 0 < os.page_size
    → os.page_size ≤ 2 ^ 30
    → (alloc os (init junk) max_packet_size).0 ≡ true
    → IsFreshRing (alloc os (init junk) max_packet_size).1
alloc-fresh os junk pos small ok =
    alloc-IsValid os junk max_packet_size (omega arith) pos (omega arith)
      (ap (λ d. (d, (alloc os (init junk) max_packet_size).1)) ok)

new_connection-fresh :
    (sys : System) (t : Transport) (is_stream : Bool) (host : Bytes) (port : ℕ) (addr : Bytes)
    → IsUsual sys
    → NotUnix t
    → is_empty host ≡ false
    → AllFresh sys (new_connection sys t is_stream host port addr)
unfolding new_connection
new_connection-fresh sys t is_stream host port addr u k h =
    let r = (alloc sys.os_read (init sys.junk) max_packet_size) in
    let w = (alloc sys.os_write (init sys.junk) max_packet_size) in
    elim (Bool-cases r.0) [
      | inr bad ↦ rw bad tt
      | inl ok ↦ elim (Bool-cases w.0) [
        | inr bad ↦ rw (ok, bad) tt
        | inl ok' ↦
            rw (ok, ok')
              (record {
                starts = refl;
                not_unix = k;
                addressed = h;
                reads = alloc-fresh sys.os_read sys.junk u.page_pos.0 u.page_small.0 ok;
                writes = alloc-fresh sys.os_write sys.junk u.page_pos.1 u.page_small.1 ok';
              })
      ]
    ]

null_of-fresh : (sys : System) (m : Made) → AllFresh sys (null_of m)
null_of-fresh sys threw = tt
null_of-fresh sys null = tt
null_of-fresh sys (made c) = tt

with_port-fresh :
    (sys : System) (t : Transport) (is_stream : Bool) (host addr : Bytes) (port : Option ℕ)
    → IsUsual sys
    → NotUnix t
    → is_empty host ≡ false
    → AllFresh sys (with_port sys t is_stream host addr port)
with_port-fresh sys t is_stream host addr none u k h =
    null_of-fresh sys (new_connection sys t is_stream host 0 addr)
with_port-fresh sys t is_stream host addr (some p) u k h =
    new_connection-fresh sys t is_stream host p addr u k h

create_shm-fresh : (sys : System) (url : Url) → IsUsual sys → AllFresh sys (create_shm sys url)
unfolding create_shm
create_shm-fresh sys url u = elim (Bool-cases (is_empty url.address)) [
  | inl e ↦ rw e tt
  | inr e ↦ rw e (new_connection-fresh sys shm true url.address 0 [] u tt e)
]

create_tcp-fresh :
    (sys : System) (to_port : Bytes → Option ℕ) (url : Url)
    → IsUsual sys
    → AllFresh sys (create_tcp sys to_port url) × AllFresh sys (create_mcast sys to_port url)
unfolding create_tcp create_mcast
create_tcp-fresh sys to_port url u =
    let port = get_option url (codes "port") in
    elim (Bool-cases (is_empty url.address)) [
      | inl e ↦ rw e (tt, tt)
      | inr e ↦ elim (Bool-cases (is_empty port)) [
        | inl f ↦ rw (e, f) (tt, tt)
        | inr f ↦
            rw (e, f)
              (
                with_port-fresh sys tcp true url.address [] (to_port port) u tt e,
                with_port-fresh sys mcast false url.address
                    (get_option url (codes "interface_addr")) (to_port port) u tt e,
              )
      ]
    ]

create-fresh :
    (sys : System) (to_port : Bytes → Option ℕ) (url : Url) (kind : ConnType)
    → url.kind ≡ kind
    → IsUsual sys
    → IsRead kind
    → AllFresh sys (create sys to_port url (find_creator creators (get_type_str url)))
unfolding find_creator equal create_tcp create_mcast create_shm
create-fresh sys to_port url ConnType.tcp e u k = rw e (create_tcp-fresh sys to_port url u).0
create-fresh sys to_port url ConnType.mcp e u k = rw e (create_tcp-fresh sys to_port url u).1
create-fresh sys to_port url ConnType.shm e u k = rw e (create_shm-fresh sys url u)
create-fresh sys to_port url ConnType.chronicle e u k = rw e (create_shm-fresh sys url u)
create-fresh sys to_port url ConnType.default e u k = rw e tt
create-fresh sys to_port url ConnType.unix e u k = absurd k
create-fresh sys to_port url ConnType.udp e u k = absurd k

-- Whatever text is asked for, a connection that `get_connection` makes has an address, empty rings of
-- at least 8 MB in a valid state, is open only as its transport starts, and is not a Unix connection; it is assumed that pages have a
-- positive size of at most 2 ^ 30 bytes.
pub get_connection-IsFresh :
    (sys : System) (to_port : Bytes → Option ℕ) (url_str : Bytes) (c : Connection)
    → IsUsual sys
    → get_connection sys to_port url_str ≡ made c
    → IsFresh sys c
unfolding get_connection Url.init
get_connection-IsFresh sys to_port url_str c u e = subst (AllFresh sys) e all
  where
    all : AllFresh sys (get_connection sys to_port url_str)
    all = elim (Bool-cases (parse url_str).0) [
      | inl ok ↦ rw ok (
          create-fresh sys to_port (parse url_str).1 (parse url_str).1.kind refl u
            (parse-IsRead url_str))
      | inr bad ↦ rw bad tt
    ]
