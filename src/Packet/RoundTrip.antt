-- ===== src/Packet/RoundTrip.antt =====
-- Whole messages: what is put is got again, in the same order.
use conn.Common.{
  ◌^◌, ◌%◌, ◌<◌, ◌≡◌, refl, sym, ap, ◌∙◌, Bool, true, false, List, [], ◌∷◌, ◌++◌, Option, none,
  some, if◌then◌else◌, arith, Bytes, length, not_lt→ltb, Bool-cases, inl, inr,
}
use mathlib.Core.Bool.{false≢true}
use mathlib.Core.Option
use mathlib.Core.List.{append_assoc, append-nil}
use conn.Packet.{
  NPacket, put, get, le16, c_str, put_string, get_string, put_array, get_array, Got, got,
}
use conn.Packet.Inv.{IsValid, unread, unread-put, get_front}
use conn.Packet.Strings.{put_string_lem, get_string_front}
use conn.Packet.Arrays.{put_array_lem, get_array_front}

-- One value of a message. A plain value is the bytes that it has in memory.
pub data Item : Type 0 where
  plain : Bytes → Item
  text : Bytes → Item
  blob : Bytes → Item

-- Texts without a 0, and texts and arrays whose length fits 16 bits.
abbrev pub IsPortable : Item → Type 0
IsPortable (plain bs) = Unit {0}
IsPortable (text s) = (c_str s ≡ s) × (length s < 2 ^ 16)
IsPortable (blob ba) = length ba < 2 ^ 16

abbrev pub AllPortable : List Item → Type 0
AllPortable [] = Unit {0}
AllPortable (x ∷ xs) = IsPortable x × AllPortable xs

unfoldable pub put_item : NPacket → Item → Bool × NPacket
put_item p (plain bs) = put p bs
put_item p (text s) = put_string p s
put_item p (blob ba) = put_array p ba

-- `put(…) && put(…) && …`
unfoldable pub put_all : NPacket → List Item → Bool × NPacket
put_all p [] = (true, p)
put_all p (x ∷ xs) =
    let (done, q) = put_item p x in let rest = put_all q xs in if done then rest else (false, q)

abbrev blob_of : Got → Option Item
blob_of (got ba) = some (blob ba)
blob_of _ = none

-- Read a value of the same kind and, for plain values and arrays, into as much room.
unfoldable pub get_like : NPacket → Item → Option Item × NPacket
get_like p (plain bs) = let (v, q) = get p (length bs) in (Option.map plain v, q)
get_like p (text s) = let (v, q) = get_string p in (Option.map text v, q)
get_like p (blob ba) = let (v, q) = get_array p (length ba) in (blob_of v, q)

cons_if : Option Item → Option (List Item) → Option (List Item)
cons_if (some x) (some xs) = some (x ∷ xs)
cons_if _ _ = none

unfoldable pub get_all : NPacket → List Item → Option (List Item) × NPacket
unfolding cons_if
get_all p [] = (some [], p)
get_all p (x ∷ xs) = let (v, q) = get_like p x in let (vs, r) = get_all q xs in (cons_if v vs, r)

abbrev encoding : Item → Bytes
encoding (plain bs) = bs
encoding (text s) = le16 (length s) ++ s
encoding (blob ba) = le16 (length ba) ++ ba

abbrev encodings : List Item → Bytes
encodings [] = []
encodings (x ∷ xs) = encoding x ++ encodings xs

put_item-encoding :
    (p : NPacket) (x : Item)
    → IsValid p
    → IsPortable x
    → (put_item p x).0 ≡ true
    → IsValid (put_item p x).1 × (unread (put_item p x).1 ≡ unread p ++ encoding x)
unfolding put_item
put_item-encoding p (plain bs) v k d = unread-put p bs v d
put_item-encoding p (text s) v (k, short) d =
    let (_, v1, u, _) = put_string_lem p s v (rw k short) in (v1, u d ∙ rw k)
put_item-encoding p (blob ba) v k d =
    let (_, v1, u, _) = put_array_lem p ba v (omega arith) in
    let whole : length ba % 2 ^ 16 ≡ length ba = omega arith in (v1, u d ∙ rw whole)

get_like-encoding :
    (p : NPacket) (x : Item) (rest : Bytes)
    → IsValid p
    → IsPortable x
    → unread p ≡ encoding x ++ rest
    → let (v, q) = get_like p x in (v ≡ some x) × IsValid q × (unread q ≡ rest)
unfolding get_like
get_like-encoding p (plain bs) rest v k e =
    let (g, v1, back) = get_front p bs rest v e in rw g (refl, v1, back)
get_like-encoding p (text s) rest v (k, short) e =
    let (g, v1, back) =
      get_string_front p s rest v short (e ∙ append_assoc (le16 (length s)) s rest) in
    (rw g, v1, back)
get_like-encoding p (blob ba) rest v k e =
    let (g, v1, back, _) =
      get_array_front p ba rest (length ba) v k (e ∙ append_assoc (le16 (length ba)) ba rest) in
    (rw (g, not_lt→ltb (length ba) (length ba) (omega arith)), v1, back (omega arith))

-- A message that was put whole stands behind what was there, value after value.
pub put_all-encodings :
    (xs : List Item) (p : NPacket)
    → IsValid p
    → AllPortable xs
    → (put_all p xs).0 ≡ true
    → IsValid (put_all p xs).1 × (unread (put_all p xs).1 ≡ unread p ++ encodings xs)
unfolding put_all
put_all-encodings [] p v k d = (v, sym (append-nil (unread p)))
put_all-encodings (x ∷ xs) p v (kx, ks) d = elim (Bool-cases (put_item p x).0) [
  | inl done ↦
      let (v1, e1) = put_item-encoding p x v kx done in
      let (v2, e2) = put_all-encodings xs (put_item p x).1 v1 ks (rw done at d) in
      rw done (
        v2,
        e2 ∙ ap (λ t. t ++ encodings xs) e1 ∙ append_assoc (unread p) (encoding x) (encodings xs),
      )
  | inr stopped ↦ absurd (false≢true (rw stopped at d))
]

pub get_all-encodings :
    (xs : List Item) (p : NPacket) (rest : Bytes)
    → IsValid p
    → AllPortable xs
    → unread p ≡ encodings xs ++ rest
    → let (vs, q) = get_all p xs in (vs ≡ some xs) × IsValid q × (unread q ≡ rest)
unfolding get_all
get_all-encodings [] p rest v k e = (refl, v, e)
get_all-encodings (x ∷ xs) p rest v (kx, ks) e =
    let (g, v1, e1) =
      get_like-encoding p x (encodings xs ++ rest) v kx
        (e ∙ append_assoc (encoding x) (encodings xs) rest) in
    let (h, v2, e2) = get_all-encodings xs (get_like p x).1 rest v1 ks e1 in (rw (g, h), v2, e2)

-- A message of any plain values, texts without a 0 and arrays, whose texts and arrays have fewer than
-- 2 ^ 16 bytes, is got back value for value from the packet into which it was put whole, and nothing
-- is left over.
pub get_all-put_all :
    (xs : List Item) (p : NPacket)
    → IsValid p
    → unread p ≡ []
    → AllPortable xs
    → (put_all p xs).0 ≡ true
    → let (vs, q) = get_all (put_all p xs).1 xs in (vs ≡ some xs) × IsValid q × (unread q ≡ [])
get_all-put_all xs p v e k d =
    let (v1, e1) = put_all-encodings xs p v k d in
    get_all-encodings xs (put_all p xs).1 [] v1 k (e1 ∙ rw (e, append-nil))
