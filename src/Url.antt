-- ===== src/Url.antt =====
-- common/Url.cpp: the address of a connection, `type://address:port,option=value,…`.
pub mod Lines
pub mod Options
pub mod Print
pub mod RoundTrip
pub mod Types
mod Tests
use conn.Common.{
  ℕ, zero, suc, ◌+◌, Bool, true, false, ◌&&◌, not, List, [], ◌∷◌, ◌++◌, Option, none, some, ◌==◌,
  if◌then◌else◌, Bytes, codes, equal, length, take, drop,
}
use mathlib.Core.Option

-- `CONN_TYPE`
pub data ConnType : Type 0 where
  tcp mcp unix shm udp chronicle default : ConnType

-- `std::map`, by its first entry for a key; `insert` never makes a second.
abbrev pub Options : Type 0
Options = List (Bytes × Bytes)

unfoldable pub find_option : Options → Bytes → Option Bytes
find_option [] key = none
find_option ((k, v) ∷ opts) key =
    let rest = find_option opts key in if equal k key then some v else rest

abbrev pub append_if_absent : Options → Bytes → Bytes → Option Bytes → Options
append_if_absent opts k v none = opts ++ (k, v) ∷ []
append_if_absent opts k v (some w) = opts

-- `std::map::insert`: a key that is there keeps its value.
unfoldable pub insert_option : Options → Bytes → Bytes → Options
insert_option opts k v = append_if_absent opts k v (find_option opts k)

pub record Url : Type 0 where
  pub kind : ConnType
  pub address : Bytes
  pub options : Options

-- `get_option`
abbrev pub get_option : Url → Bytes → Bytes
get_option u def = elim (find_option u.options def) [ none ↦ [] | some v ↦ v ]

-- `get_type_str`
abbrev pub get_type_str : Url → Bytes
get_type_str u = elim u.kind [
  | tcp ↦ codes "tcp"
  | mcp ↦ codes "mcp"
  | unix ↦ codes "unix"
  | shm ↦ codes "shm"
  | udp ↦ codes "udp"
  | chronicle ↦ codes "chr"
  | default ↦ codes "default"
]

-- A std::stringstream that is read from: what is left of it, and `good()`.
pub record Stream : Type 0 where
  pub rest : Bytes
  pub good : Bool

-- The characters up to the delimiter, which is dropped, or up to the end, which is noticed.
unfoldable pub take_line : ℕ → Bytes → Bytes × Stream
take_line c [] = ([], record { rest = []; good = false })
take_line c (x ∷ xs) =
    let (line, s) = take_line c xs in
    if x == c then ([], record { rest = xs; good = true }) else (x ∷ line, s)

-- `std::getline(s, line, delim)`, where `line` held `old`.
unfoldable pub getline : Stream → ℕ → Bytes → Bytes × Stream
getline s delim old = if s.good then take_line delim s.rest else (old, s)

abbrev pub starts_with : Bytes → Bytes → Bool
starts_with [] s = true
starts_with (p ∷ ps) [] = false
starts_with (p ∷ ps) (x ∷ s) = p == x && starts_with ps s

-- `std::string::find`
unfoldable pub find : Bytes → Bytes → Option ℕ
find pat [] = if starts_with pat [] then some 0 else none
find pat (x ∷ s) =
    let rest = find pat s in if starts_with pat (x ∷ s) then some 0 else Option.map suc rest

-- The chain of tests on the text in front of the delimiter. `unix` is read as TCP.
unfoldable pub type_of : Bytes → Option ConnType
type_of s =
    if equal s (codes "tcp")
    then some tcp
    else if equal s (codes "mcp")
    then some mcp
    else if equal s (codes "unix")
    then some tcp
    else if equal s (codes "shm")
    then some shm
    else if equal s (codes "chr")
    then some chronicle
    else none

-- `s.length()` as a test
abbrev pub is_empty : Bytes → Bool
is_empty [] = true
is_empty (x ∷ s) = false

-- One round of the option loop: the first text without a `=` is the port. A text with an empty name
-- or value is not an option.
unfoldable pub take_option : Bytes → Bool × Options → Bool × Options
take_option op_val (port_identified, opts) =
    let (option, s) = getline (record { rest = op_val; good = true }) 61 [] in
    let first = not s.good && not port_identified in
    let opts1 = if first then insert_option opts (codes "port") option else opts in
    let (value, s') = getline s 44 [] in
    (
      if first then true else port_identified,
      if not (is_empty option) && not (is_empty value)
          then insert_option opts1 option value
          else opts1,
    )

-- The option loop; a line is taken in each round, so there are at most as many rounds as characters
-- and one more.
unfoldable pub option_loop : ℕ → Stream → Bool × Options → Bool × Options
option_loop zero s st = st
option_loop (suc n) s st =
    let (op_val, s1) = getline s 44 [] in
    let rest = option_loop n s1 (take_option op_val st) in if s.good then rest else st

abbrev pub options_of : Stream → Options
options_of s = (option_loop (suc (length s.rest)) s (false, [])).1

-- `parse` behind the type: the address goes up to the first `:`, or up to the first `,` if there is
-- no `:` in all of the rest.
abbrev pub split_address : Bytes → Option ℕ → Bytes × Stream
split_address rem none = getline (record { rest = rem; good = true }) 44 []
split_address rem (some pos) = (take pos rem, record { rest = drop (pos + 1) rem; good = true })

unfoldable pub parse_rest : ConnType → Bytes → Bool × Url
parse_rest kind rem =
    let (address, s) = split_address rem (find (codes ":") rem) in
    (not (is_empty address), record { kind = kind; address = address; options = options_of s })

abbrev pub no_url : Url
no_url = record { kind = default; address = []; options = [] }

abbrev pub parse_typed : Bytes → Option ConnType → Bool × Url
parse_typed rem none = (false, no_url)
parse_typed rem (some kind) = parse_rest kind rem

abbrev pub parse_at : Bytes → Option ℕ → Bool × Url
parse_at url none = (false, no_url)
parse_at url (some pos) = parse_typed (drop (pos + 3) url) (type_of (take pos url))

-- `parse`: its result, and the members as it leaves them.
unfoldable pub parse : Bytes → Bool × Url
parse url = parse_at url (find (codes "://") url)

-- The constructor throws where `parse` returns false.
unfoldable pub init : Bytes → Option Url
init url = let (done, u) = parse url in if done then some u else none
