-- ===== src/Operators/Tests.antt =====
-- common/Operators.h at concrete inputs.
use conn.Common.{ℕ, ◌≡◌, refl, List, [], ◌∷◌, ◌++◌, none, some, Bytes, codes, arith}
use conn.Operators.{
  text_item, text_field, char_element, value_item, value_field, read_vector, print_vector,
  read_pair, read_place,
}
use conn.Operators.Streams.{good, peek_is, get_char, squeeze}
use conn.Url.{getline, take_line}
use conn.Operators.Pair.{pair_element}
use conn.Operators.RoundTrip.{read_vector-print_vector}

print_two : print_vector (text_item 0) (codes "a" ∷ codes "b c" ∷ []) ≡ codes "[a,b c]"
unfolding print_vector
print_two = refl

read_two :
    read_vector (text_item 0) 9 0 (good (codes "[a,b c] x")) []
    ≡ some (codes "a" ∷ codes "bc" ∷ [], good (codes " x"))
unfolding read_vector
read_two = refl

-- The vector of one empty text is printed like the empty one, and is read back as that.
print_one_empty : print_vector (text_item 0) ([] ∷ []) ≡ print_vector (text_item 0) []
unfolding print_vector
print_one_empty = refl

read_one_empty :
    read_vector (text_item 0) 9 0 (good (print_vector (text_item 0) ([] ∷ []))) []
    ≡ some ([], good [])
unfolding read_vector print_vector
read_one_empty = refl

-- A text that stops short is read for ever: here for a hundred rounds.
read_cut : read_vector (text_item 0) 100 0 (good (codes "[a,b")) [] ≡ none
unfolding read_vector
read_cut = refl

read_of_pairs :
    read_vector
      (value_item (pair_element text_field (value_field char_element) 0))
      20
      0
      (good (codes "[<a,b>,<c d,e>]"))
      []
    ≡ some ((codes "a", 98) ∷ (codes "c d", 101) ∷ [], good [])
unfolding read_vector read_pair read_place getline take_line
read_of_pairs = refl

-- The first place is empty, and keeps what it held.
read_blank :
    read_pair text_field text_field 0 (good (codes "<,b>")) (codes "old", codes "older")
    ≡ ((codes "old", codes "b"), good [])
unfolding read_pair read_place peek_is get_char getline take_line
read_blank = refl

abbrev sample : List Bytes
sample = codes "a" ∷ [] ∷ codes "b c" ∷ []

read_vector-print_vector_example :
    read_vector (text_item 0) 20 0 (good (print_vector (text_item 0) sample ++ codes "!")) []
    ≡ some (codes "a" ∷ [] ∷ codes "bc" ∷ [], good (codes "!"))
unfolding print_vector squeeze
read_vector-print_vector_example =
    read_vector-print_vector 20 0 sample [] (codes "!")
      (((refl, tt), (tt, ((refl, (refl, (refl, tt))), tt))), λ e. cc) (omega arith)

abbrev table : List (Bytes × ℕ)
table = (codes "a", 120) ∷ (codes "b,", 121) ∷ []
