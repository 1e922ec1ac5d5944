-- ===== src/Config.antt =====
-- engine/book/ConfigBook.h: the streams that are read from the tree of an XML file. The tree and the
-- conversion of numbers are Boost's: they are parameters.
pub mod Commas
pub mod Levels
pub mod Load
pub mod Sample
mod Tests
use conn.Common.{
  ℕ, zero, suc, ◌+◌, ◌-◌, Bool, true, false, List, [], ◌∷◌, ◌++◌, Option, none, some, if◌then◌else◌,
  Bytes, codes, equal, less, length, take, drop, ltb, ℤ, pos, negsuc,
}
use mathlib.Core.Option
use conn.Url.{find}
use conn.Exchange.{Exchange, str2ex}
use conn.Operators.{ordered_insert, keep_old, on_keys}

-- A failed step is an exception of the `try` block.
infixl 5 ◌>>=◌
abbrev pub ◌>>=◌ : {A B : Type 0} → Option A → (A → Option B) → Option B
none >>= f = none
some a >>= f = f a

-- `LevelRule`
pub record LevelRule : Type 0 where
  pub level : ℤ
  pub level_exch_vec : List Exchange

-- `StreamConfig`
pub record StreamConfig : Type 0 where
  pub stream_name : Bytes
  pub symbol : Bytes
  pub primary_exch_vec : List Exchange
  pub secondary_exch_vec : List Exchange
  pub secondary_exch_fullamount_vec : List Exchange
  pub secondary_exch_sweepable_vec : List Exchange
  pub level_vec : List ℤ
  pub rule_map : List (ℤ × LevelRule)

-- `text.find(',', pos)`
unfoldable pub find_from : Bytes → ℕ → Option ℕ
find_from text start = Option.map (λ n. start + n) (find (codes ",") (drop start text))

-- The loop over the commas of a text, and the last item, which has no comma. `read` is what is made of
-- an item, or fails.
unfoldable pub comma_loop :
    {A : Type 0} → (Bytes → Option A) → ℕ → Bytes → ℕ → List A → Option (List A)
comma_loop read zero text start vec = none
comma_loop read (suc n) text start vec = elim (find_from text start) [
  | none ↦ Option.map (λ a. vec ++ a ∷ []) (read (drop start text))
  | some found ↦ elim (read (take (found - start) (drop start text))) [
    | none ↦ none
    | some a ↦ comma_loop read n text (found + 1) (vec ++ a ∷ [])
  ]
]

-- A text of `n` characters has at most `n` commas.
unfoldable pub read_commas : {A : Type 0} → (Bytes → Option A) → Bytes → Option (List A)
unfolding comma_loop
read_commas read text = comma_loop read (suc (length text)) text 0 []

-- `str2ex` does not fail.
unfoldable pub read_exchanges : Bytes → Option (List Exchange)
unfolding read_commas
read_exchanges text = read_commas (λ name. some (str2ex name)) text

abbrev pub less_int : ℤ → ℤ → Bool
less_int (pos m) (pos n) = ltb m n
less_int (pos m) (negsuc n) = false
less_int (negsuc m) (pos n) = true
less_int (negsuc m) (negsuc n) = ltb n m

unfoldable pub insert_level : ℤ → List ℤ → List ℤ
insert_level v [] = v ∷ []
insert_level v (w ∷ ws) =
    let rest = insert_level v ws in if less_int w v then w ∷ rest else v ∷ w ∷ ws

-- `std::sort` of the levels: of the sorted lists with the same numbers there is but one.
unfoldable pub sort_levels : List ℤ → List ℤ
unfolding insert_level
sort_levels [] = []
sort_levels (v ∷ vs) = insert_level v (sort_levels vs)

-- `boost::property_tree::ptree`: the children with their names, in order, and the text and the child
-- at a path, for which `get` and `get_child` throw where there is none.
pub record PropertyTree : Type 1 where
  pub Tree : Type 0
  pub children : Tree → List (Bytes × Tree)
  pub get : Tree → Bytes → Option Bytes
  pub get_child : Tree → Bytes → Option Tree

-- What `load` does: an exception of `read_xml`, which stands before the `try`, leaves it.
pub data Loaded : Type 0 where
  thrown : Loaded
  returned : Bool → List (Bytes × StreamConfig) → Loaded

-- `lexical_cast` is `boost::lexical_cast<int>`, or its exception.
module _ (ptree : PropertyTree) (lexical_cast : Bytes → Option ℤ) where
  open ptree use {Tree, children, get, get_child}

  -- One `level_rule`
  unfoldable pub read_rule : Tree → Option LevelRule
  unfolding read_exchanges
  read_rule hr = do
    text ← get hr (codes "<xmlattr>.level")
    level ← lexical_cast text
    in_exchanges ← get hr (codes "<xmlattr>.primary_exchanges")
    vec ← read_exchanges in_exchanges
    some (record { level = level; level_exch_vec = vec })

  -- The loop over the rules; `insert` keeps the first rule for a level.
  unfoldable pub read_rules :
      List (Bytes × Tree) → List (ℤ × LevelRule) → Option (List (ℤ × LevelRule))
  read_rules [] rule_map = some rule_map
  read_rules ((name, hr) ∷ hrules) rule_map =
      let skipped = read_rules hrules rule_map in
      let taken : Option (List (ℤ × LevelRule)) = elim (read_rule hr) [
        | none ↦ none
        | some lr ↦
            read_rules hrules (ordered_insert (on_keys less_int) keep_old (lr.level, lr) rule_map)
      ] in
      if equal name (codes "level_rule") then taken else skipped

  -- One `stream`
  unfoldable pub read_stream : Tree → Option StreamConfig
  unfolding read_exchanges read_commas read_rules
  read_stream s = do
    stream_name ← get s (codes "<xmlattr>.name")
    symbol ← get s (codes "<xmlattr>.symbol")
    primary ← get s (codes "primary_exchanges")
    primary_exch_vec ← read_exchanges primary
    order_book ← get s (codes "secondary_exchanges_order_book")
    secondary_exch_vec ← read_exchanges order_book
    fullamount ← get s (codes "secondary_exchanges_quote_book_fullamount")
    secondary_exch_fullamount_vec ← read_exchanges fullamount
    sweepable ← get s (codes "secondary_exchanges_quote_book_sweepable")
    secondary_exch_sweepable_vec ← read_exchanges sweepable
    hrules ← get_child s (codes "horizontal")
    rule_map ← read_rules (children hrules) []
    levels ← get s (codes "vertical.levels")
    level_vec ← read_commas lexical_cast levels
    some (record {
      stream_name = stream_name;
      symbol = symbol;
      primary_exch_vec = primary_exch_vec;
      secondary_exch_vec = secondary_exch_vec;
      secondary_exch_fullamount_vec = secondary_exch_fullamount_vec;
      secondary_exch_sweepable_vec = secondary_exch_sweepable_vec;
      level_vec = sort_levels level_vec;
      rule_map = rule_map;
    })

  -- `str_cfg.insert`: the first stream of a name stays.
  abbrev pub insert_stream :
      StreamConfig → List (Bytes × StreamConfig) → List (Bytes × StreamConfig)
  insert_stream sc str_cfg = ordered_insert (on_keys less) keep_old (sc.stream_name, sc) str_cfg

  -- The loop over the streams. An exception ends it; what was inserted before stays.
  unfoldable pub read_streams :
      List (Bytes × Tree) → List (Bytes × StreamConfig) → Bool × List (Bytes × StreamConfig)
  read_streams [] str_cfg = (true, str_cfg)
  read_streams ((name, s) ∷ streams) str_cfg =
      let skipped = read_streams streams str_cfg in
      let taken : Bool × List (Bytes × StreamConfig) = elim (read_stream s) [
        | none ↦ (false, str_cfg)
        | some sc ↦ read_streams streams (insert_stream sc str_cfg)
      ] in
      if equal name (codes "stream") then taken else skipped

  -- `load`, given the tree that `read_xml` made of the file, if it made one, and `str_cfg`.
  unfoldable pub load : Option Tree → List (Bytes × StreamConfig) → Loaded
  unfolding read_streams
  load none str_cfg = thrown
  load (some prop) str_cfg = elim (get_child prop (codes "IN")) [
    | none ↦ returned false str_cfg
    | some streams ↦
        let (done, str_cfg') = read_streams (children streams) str_cfg in returned done str_cfg'
  ]
