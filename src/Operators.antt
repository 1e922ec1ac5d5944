-- ===== src/Operators.antt =====
-- common/Operators.h: pairs, tuples and containers, written to a stream as text and read back.
pub mod Streams
pub mod Extract
pub mod Insert
pub mod Container
pub mod Items
pub mod Pair
pub mod RoundTrip
mod Tests
use conn.Common.{
  ℕ, zero, suc, Bool, true, false, ◌||◌, List, [], ◌∷◌, ◌++◌, Option, none, some, ◌==◌,
  if◌then◌else◌, Bytes,
}
use conn.Url.{Stream, getline}
use conn.Operators.Streams.{get_char, peek_is}

-- `extractString`: the loop, at a character `c` that was read.
unfoldable pub extract_loop : ℕ → ℕ → ℕ → ℕ → Stream → Bytes → Option (Bytes × Bool × Stream)
extract_loop zero delim end c s val = none
extract_loop (suc n) delim end c s val =
    let (c', s') = get_char s c in
    let rest = extract_loop n delim end c' s' (val ++ c ∷ []) in
    if c == delim || c == end then some (val, c == end, s) else rest

-- The characters up to `delim` or `end`, and whether it was `end`. `junk` is what `char c` held.
unfoldable pub extract_string : ℕ → ℕ → ℕ → ℕ → Stream → Option (Bytes × Bool × Stream)
extract_string n junk delim end s =
    let (c, s') = get_char s junk in extract_loop n delim end c s' []

-- A type with an `operator<<` and an `operator>>` of its own. The second is given what the variable
-- held.
pub record Element (A : Type 0) : Type 0 where
  pub print : A → Bytes
  pub read : Stream → A → A × Stream
  pub initial : A

-- `char`
abbrev pub char_element : Element ℕ
char_element = record { print = λ c. c ∷ []; read = λ s old. get_char s old; initial = 0 }

-- A place in a pair, or the key of a map: how it is printed, and how it is read together with the
-- character behind it. The reader is given that character, `dc` and what the variable held.
pub record Field (A : Type 0) : Type 0 where
  pub print : A → Bytes
  pub read : ℕ → ℕ → Stream → A → A × ℕ × Stream
  pub initial : A

-- The branch for `std::string`: a line up to the character.
abbrev pub text_field : Field Bytes
text_field = record {
  print = λ x. x;
  read = λ delim dc s old. (let (x, s') = getline s delim [] in (x, dc, s'));
  initial = [];
}

-- The branch for other types: their own operator, and one more character, whatever it is.
abbrev pub value_field : {A : Type 0} → Element A → Field A
value_field e = record {
  print = e.print;
  read = λ delim dc s old.
      (let (x, s1) = e.read s old in let (dc', s2) = get_char s1 dc in (x, dc', s2));
  initial = e.initial;
}

module _ {X Y : Type 0} (f : Field X) (g : Field Y) where
  -- `operator<<` of a pair, and of a tuple of two
  unfoldable pub print_pair : X × Y → Bytes
  print_pair (x, y) = 60 ∷ f.print x ++ (44 ∷ g.print y ++ 62 ∷ [])

  -- `operator<<` of a tuple of three
  unfoldable pub print_triple : {Z : Type 0} → (Z → Bytes) → X × Y × Z → Bytes
  print_triple h (x, y, z) = 60 ∷ f.print x ++ (44 ∷ g.print y ++ (44 ∷ h z ++ 62 ∷ []))

-- A place that is empty is left as it was, and only the character behind it is taken.
unfoldable pub read_place : {A : Type 0} → Field A → ℕ → ℕ → Stream → A → A × ℕ × Stream
read_place f delim dc s old =
    let (empty, s1) = peek_is delim s in
    let (dc', s2) = get_char s1 dc in if empty then (old, dc', s2) else f.read delim dc s1 old

-- `operator>>` of a pair
unfoldable pub read_pair :
    {X Y : Type 0} → Field X → Field Y → ℕ → Stream → X × Y → (X × Y) × Stream
read_pair f g junk s (x0, y0) =
    let (dc, s1) = get_char s junk in
    let (x, dc1, s2) = read_place f 44 dc s1 x0 in
    let (y, dc2, s3) = read_place g 62 dc1 s2 y0 in ((x, y), s3)

-- An item of a container: how it is printed, and how one round of the loop reads it with the character
-- behind it. The round is given `dc` and returns it, and tells whether it was the last.
pub record Item (A : Type 0) : Type 0 where
  pub print : A → Bytes
  pub read : ℕ → ℕ → Stream → Option (A × Bool × ℕ × Stream)

abbrev text_round : ℕ → Option (Bytes × Bool × Stream) → Option (Bytes × Bool × ℕ × Stream)
text_round dc none = none
text_round dc (some (val, fin, s)) = some (val, fin, dc, s)

-- The branch for `std::string`
abbrev pub text_item : ℕ → Item Bytes
text_item junk = record {
  print = λ x. x;
  read = λ n dc s. text_round dc (extract_string n junk 44 93 s);
}

-- The branch for other types
abbrev pub value_item : {A : Type 0} → Element A → Item A
value_item e = record {
  print = e.print;
  read = λ n dc s.
      (let (x, s1) = e.read s e.initial in
        let (dc', s2) = get_char s1 dc in some (x, dc' == 93, dc', s2));
}

abbrev entry_round :
    {K V : Type 0} → K → Option (V × Bool × ℕ × Stream) → Option ((K × V) × Bool × ℕ × Stream)
entry_round k none = none
entry_round k (some (v, fin, dc, s)) = some ((k, v), fin, dc, s)

-- An entry of a map: the key up to the `=`, and the value.
abbrev pub entry_item : {K V : Type 0} → Field K → Item V → Item (K × V)
entry_item f i = record {
  print = λ (k, v). f.print k ++ 61 ∷ i.print v;
  read = λ n dc s. (let (k, dc', s') = f.read 61 dc s f.initial in entry_round k (i.read n dc' s'));
}

module _ {A : Type 0} (i : Item A) where
  -- The loop of `operator<<`; a comma stands in front of each item but the first.
  unfoldable pub print_items : Bool → List A → Bytes
  print_items first [] = []
  print_items first (x ∷ xs) =
      (if first then [] else 44 ∷ []) ++ (i.print x ++ print_items false xs)

  unfoldable pub print_container : List A → Bytes
  print_container xs = 91 ∷ print_items true xs ++ 93 ∷ []

  -- The loop of `operator>>` of a container that takes an item by `insert`.
  unfoldable pub fill : (A → List A → List A) → ℕ → ℕ → Stream → List A → Option (List A × Stream)
  fill insert zero dc s xs = none
  fill insert (suc n) dc s xs = elim (i.read (suc n) dc s) [
    | none ↦ none
    | some (x, fin, dc', s') ↦
        let rest = fill insert n dc' s' (insert x xs) in
        if fin then some (insert x xs, s') else rest
  ]

  unfoldable pub read_container :
      (A → List A → List A) → ℕ → ℕ → Stream → List A → Option (List A × Stream)
  read_container insert n junk s xs =
      let (dc, s1) = get_char s junk in
      let (empty, s2) = peek_is 93 s1 in
      let rest = fill insert n dc s2 xs in if empty then some (xs, (get_char s2 dc).1) else rest

-- `push_back`
abbrev pub push_back : {A : Type 0} → A → List A → List A
push_back x xs = xs ++ x ∷ []

-- A container that is kept in the order of its comparison; `same` is what becomes of an item that is
-- there and of one that is equal to it.
unfoldable pub ordered_insert : {A : Type 0} → (A → A → Bool) → (A → A → A) → A → List A → List A
ordered_insert lt same y [] = y ∷ []
ordered_insert lt same y (x ∷ xs) =
    let rest = ordered_insert lt same y xs in
    if lt y x then y ∷ x ∷ xs else if lt x y then x ∷ rest else same x y ∷ xs

-- A container that is kept in the order in which its items came.
unfoldable pub hashed_insert : {A : Type 0} → (A → A → Bool) → (A → A → A) → A → List A → List A
hashed_insert eq same y [] = y ∷ []
hashed_insert eq same y (x ∷ xs) =
    let rest = hashed_insert eq same y xs in if eq x y then same x y ∷ xs else x ∷ rest

-- `insert` of a set keeps the old item.
abbrev pub keep_old : {A : Type 0} → A → A → A
keep_old x y = x

-- `m[key] = value`
abbrev pub assign_value : {K V : Type 0} → K × V → K × V → K × V
assign_value (k, v) (k', v') = (k, v')

abbrev pub on_keys : {K V : Type 0} → (K → K → Bool) → K × V → K × V → Bool
on_keys lt (k, v) (k', v') = lt k k'

-- The operators of `std::vector`
unfoldable pub print_vector : {A : Type 0} → Item A → List A → Bytes
unfolding print_container print_items
print_vector i = print_container i

unfoldable pub read_vector :
    {A : Type 0} → Item A → ℕ → ℕ → Stream → List A → Option (List A × Stream)
unfolding read_container fill get_char peek_is extract_string extract_loop
read_vector i = read_container i push_back

-- The operators of `std::set`
unfoldable pub print_set : {A : Type 0} → Item A → List A → Bytes
unfolding print_container print_items
print_set i = print_container i

unfoldable pub read_set :
    {A : Type 0} → Item A → (A → A → Bool) → ℕ → ℕ → Stream → List A → Option (List A × Stream)
unfolding read_container fill get_char peek_is extract_string extract_loop
read_set i lt = read_container i (ordered_insert lt keep_old)

-- The operators of `std::unordered_set`
unfoldable pub print_unordered_set : {A : Type 0} → Item A → List A → Bytes
unfolding print_container print_items
print_unordered_set i = print_container i

unfoldable pub read_unordered_set :
    {A : Type 0} → Item A → (A → A → Bool) → ℕ → ℕ → Stream → List A → Option (List A × Stream)
unfolding read_container fill get_char peek_is extract_string extract_loop
read_unordered_set i eq = read_container i (hashed_insert eq keep_old)

module _ {K V : Type 0} (f : Field K) (i : Item V) where
  -- The operators of `std::map`
  unfoldable pub print_map : List (K × V) → Bytes
  unfolding print_container print_items
  print_map = print_container (entry_item f i)

  unfoldable pub read_map :
      (K → K → Bool) → ℕ → ℕ → Stream → List (K × V) → Option (List (K × V) × Stream)
  unfolding read_container fill get_char peek_is extract_string extract_loop
  read_map lt = read_container (entry_item f i) (ordered_insert (on_keys lt) assign_value)

  -- The operators of `std::unordered_map`
  unfoldable pub print_unordered_map : List (K × V) → Bytes
  unfolding print_container print_items
  print_unordered_map = print_container (entry_item f i)

  unfoldable pub read_unordered_map :
      (K → K → Bool) → ℕ → ℕ → Stream → List (K × V) → Option (List (K × V) × Stream)
  unfolding read_container fill get_char peek_is extract_string extract_loop
  read_unordered_map eq = read_container (entry_item f i) (hashed_insert (on_keys eq) assign_value)
