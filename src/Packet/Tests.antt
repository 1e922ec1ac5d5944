-- ===== src/Packet/Tests.antt =====
-- Packets at concrete values.
use conn.Common.{◌+◌, ◌^◌, ◌≡◌, refl, List, [], ◌∷◌, some, arith, Bytes, replicate}
use conn.Packet.{NPacket, append, put, c_str, put_string, put_array, put_chars}
use conn.Packet.Inv.{IsValid, unread}
use conn.Packet.RoundTrip.{Item, plain, text, blob, put_all, get_all, put_item, get_all-put_all}

abbrev empty : NPacket
empty = record { buf = λ _. 0; size = 0; read_idx = 0 }

empty-IsValid : IsValid empty
empty-IsValid = omega arith

-- Two bytes with the number 3 in front of one byte.
abbrev short : NPacket
short = append empty (3 ∷ 0 ∷ 9 ∷ [])

abbrev message : List Item
message = plain (1 ∷ 2 ∷ []) ∷ text (65 ∷ 66 ∷ []) ∷ blob (0 ∷ 7 ∷ []) ∷ []

abbrev long : Bytes
long = replicate (2 ^ 16 + 5) 1

get_all-put_all_example :
    let (vs, q) = get_all (put_all empty message).1 message in
    (vs ≡ some message) × IsValid q × (unread q ≡ [])
unfolding put_all put_item put put_string put_chars put_array c_str
get_all-put_all_example =
    get_all-put_all message empty empty-IsValid refl (tt, ((refl, omega arith), (omega arith, tt)))
      refl
