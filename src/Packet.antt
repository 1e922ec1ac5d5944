-- ===== src/Packet.antt =====
-- common/Packet.cpp: a message buffer into which values are put and from which they are got again in
-- the same order.
pub mod Inv
pub mod Strings
pub mod Arrays
pub mod RoundTrip
mod Tests
use conn.Common.{
  ℕ, ◌+◌, ◌-◌, ◌*◌, ◌/◌, ◌%◌, ◌^◌, Bool, true, false, [], ◌∷◌, Option, none, some, ltb, ◌==◌,
  if◌then◌else◌, add64, sub32, Bytes, length, take,
}
use mathlib.Core.Option
use conn.Common.Memory.{slice, copy}

-- `m_buf` is null only behind the destructor, so the tests of it in `write_size` and `read_size`
-- hold here.
pub record NPacket : Type 0 where
  pub buf : ℕ → ℕ
  pub size : ℕ
  pub read_idx : ℕ

abbrev pub max_packet_size : ℕ
max_packet_size = 1024 * 1024

-- The constructor; `junk` is what `new uint8_t[MAX_PACKET_SIZE]` holds.
unfoldable pub init : (ℕ → ℕ) → NPacket
init junk = record { buf = junk; size = 0; read_idx = 0 }

unfoldable pub reset_read : NPacket → NPacket
reset_read p = record p { size = 0; read_idx = 0 }

abbrev pub write_size : NPacket → ℕ
write_size p = sub32 max_packet_size p.size

abbrev pub read_size : NPacket → ℕ
read_size p = sub32 p.size p.read_idx

-- `memcpy(&m_buf[m_size], …); m_size += …`
abbrev pub append : NPacket → Bytes → NPacket
append p bs = record p { buf = copy p.buf p.size bs; size = p.size + length bs }

-- `put<T>`, given the bytes of the value.
unfoldable pub put : NPacket → Bytes → Bool × NPacket
put p bs = if ltb (write_size p) (length bs) then (false, p) else (true, append p bs)

-- `get<T>` of a T of `n` bytes: its bytes, if there are so many.
unfoldable pub get : NPacket → ℕ → Option Bytes × NPacket
get p n =
    if ltb (read_size p) n
    then (none, p)
    else (some (slice p.buf p.read_idx n), record p { read_idx = p.read_idx + n })

-- The bytes of a uint16_t, the low one first.
abbrev pub le16 : ℕ → Bytes
le16 v = v % 256 ∷ v / 256 % 256 ∷ []

abbrev pub of_le16 : Bytes → ℕ
of_le16 (a ∷ b ∷ []) = a + 256 * b
of_le16 _ = 0

-- `get<uint16_t>`: the number, if two bytes are left.
unfoldable pub get16 : NPacket → Option ℕ × NPacket
unfolding get
get16 p = let (v, q) = get p 2 in (Option.map of_le16 v, q)

-- The bytes up to the first 0: what strlen and memcpy see of `s.c_str()`.
unfoldable pub c_str : Bytes → Bytes
c_str [] = []
c_str (c ∷ s) = if c == 0 then [] else c ∷ c_str s

-- `put(const char*)`, given the bytes in front of the 0; their number is cut to 16 bits first.
unfoldable pub put_chars : NPacket → Bytes → Bool × NPacket
put_chars p s =
    let len = length s % 2 ^ 16 in
    if ltb (write_size p) (2 + len)
    then (false, p)
    else (true, append (put p (le16 len)).1 (take len s))

-- `put(const std::string&)`
unfoldable pub put_string : NPacket → Bytes → Bool × NPacket
unfolding put_chars
put_string p s = put_chars p (c_str s)

-- `put(const uint8_t*, size_t)`: the room asked for counts sizeof(size_t), the number written is cut
-- to 16 bits, and all the bytes are copied.
unfoldable pub put_array : NPacket → Bytes → Bool × NPacket
put_array p ba =
    if ltb (write_size p) (add64 8 (length ba))
    then (false, p)
    else (true, append (put p (le16 (length ba % 2 ^ 16))).1 ba)

-- The read index goes back over the number that was just read.
abbrev pub unread16 : NPacket → NPacket
unread16 p = record p { read_idx = p.read_idx - 2 }

-- `get(std::string&)` behind its `get<uint16_t>`.
get_chars : Option ℕ → NPacket → Option Bytes × NPacket
get_chars none q = (none, q)
get_chars (some slen) q =
    if ltb (read_size q) slen
    then (none, unread16 q)
    else (some (slice q.buf q.read_idx slen), record q { read_idx = q.read_idx + slen })

unfoldable pub get_string : NPacket → Option Bytes × NPacket
unfolding get_chars
get_string p = let (n, q) = get16 p in get_chars n q

-- What `get(uint8_t*, size_t)` returns: -1; a length above the room given, with nothing copied; or
-- the length of what was copied, with the bytes.
pub data Got : Type 0 where
  failed : Got
  needs : ℕ → Got
  got : Bytes → Got

-- `get(uint8_t*, size_t)` behind its `get<uint16_t>`, for a buffer of `room` bytes.
get_bytes : ℕ → Option ℕ → NPacket → Got × NPacket
get_bytes room none q = (failed, q)
get_bytes room (some n) q =
    if ltb (read_size q) n
    then (failed, unread16 q)
    else if ltb room n
    then (needs n, unread16 q)
    else (got (slice q.buf q.read_idx n), record q { read_idx = q.read_idx + n })

unfoldable pub get_array : NPacket → ℕ → Got × NPacket
unfolding get_bytes
get_array p room = let (n, q) = get16 p in get_bytes room n q
