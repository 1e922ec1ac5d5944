-- ===== src/Url/Types.antt =====
-- The types of connection that `parse` can read.
use conn.Common.{
  ℕ, Bool, true, false, Option, none, some, Bytes, equal, codes, if◌then◌else◌, ◌+◌, take, drop,
}
use conn.Url.{
  ConnType, tcp, mcp, shm, chronicle, default, type_of, parse, parse_at, parse_typed, parse_rest,
  find,
}

-- A type that a connection is registered for and that `parse` reads, or none.
abbrev pub IsRead : ConnType → Type 0
IsRead tcp = Unit {0}
IsRead mcp = Unit {0}
IsRead shm = Unit {0}
IsRead chronicle = Unit {0}
IsRead default = Unit {0}
IsRead _ = ⊥

abbrev AllRead : Option ConnType → Type 0
AllRead none = Unit {0}
AllRead (some c) = IsRead c

if-AllRead :
    (b : Bool) (x y : Option ConnType) → AllRead x → AllRead y → AllRead (if b then x else y)
if-AllRead true x y k l = k
if-AllRead false x y k l = l

type_of-AllRead : (s : Bytes) → AllRead (type_of s)
unfolding type_of
type_of-AllRead s = if-AllRead (equal s (codes "tcp")) _ _ tt (
    if-AllRead (equal s (codes "mcp")) _ _ tt (
      if-AllRead (equal s (codes "unix")) _ _ tt
        (if-AllRead (equal s (codes "shm")) _ _ tt (if-AllRead (equal s (codes "chr")) _ _ tt tt))))

-- No text is read as a Unix socket, nor as UDP.
pub parse-IsRead : (url : Bytes) → IsRead (parse url).1.kind
unfolding parse parse_rest
parse-IsRead url = at (find (codes "://") url)
  where
    typed : (rem : Bytes) (c : Option ConnType) → AllRead c → IsRead (parse_typed rem c).1.kind
    typed rem none k = tt
    typed rem (some c) k = k

    at : (o : Option ℕ) → IsRead (parse_at url o).1.kind
    at none = tt
    at (some pos) =
        typed (drop (pos + 3) url) (type_of (take pos url)) (type_of-AllRead (take pos url))
