-- ===== src/Config/Sample.antt =====
-- A file of engine/book/ConfigBook.h with two streams, of which the second has no name.
use conn.Common.{
  ℕ, zero, suc, ◌-◌, List, [], ◌∷◌, Option, none, some, Bytes, codes, equal, if◌then◌else◌, ℤ, pos,
}
use conn.Exchange.{null, ccil, d2, nse, ebs, citi}
use conn.Config.{PropertyTree, StreamConfig}

-- The text at a path.
abbrev entry : Bytes → List (Bytes × Bytes) → Option Bytes
entry path [] = none
entry path ((p, t) ∷ ts) = if equal p path then some t else entry path ts

abbrev stream_texts : List (Bytes × Bytes)
stream_texts =
    (codes "<xmlattr>.name", codes "usd")
    ∷ (codes "<xmlattr>.symbol", codes "USDINR")
    ∷ (codes "primary_exchanges", codes "CCIL,D2")
    ∷ (codes "secondary_exchanges_order_book", codes "NSE")
    ∷ (codes "secondary_exchanges_quote_book_fullamount", [])
    ∷ (codes "secondary_exchanges_quote_book_sweepable", codes "EBS,CITI")
    ∷ (codes "vertical.levels", codes "5,1,3")
    ∷ []

abbrev rule_texts : List (Bytes × Bytes)
rule_texts =
    (codes "<xmlattr>.level", codes "1") ∷ (codes "<xmlattr>.primary_exchanges", codes "D2") ∷ []

-- The file is 0, its child `IN` 1, the streams 2 and 5, the rules of the first 3, and the one rule 4.
abbrev texts_of : ℕ → List (Bytes × Bytes)
texts_of (suc (suc zero)) = stream_texts
texts_of (suc (suc (suc (suc zero)))) = rule_texts
texts_of n = []

abbrev children_of : ℕ → List (Bytes × ℕ)
children_of (suc zero) = (codes "stream", 2) ∷ (codes "stream", 5) ∷ []
children_of (suc (suc (suc zero))) = (codes "level_rule", 4) ∷ []
children_of n = []

abbrev child_of : ℕ → Bytes → Option ℕ
child_of zero path = some 1
child_of (suc (suc zero)) path = some 3
child_of n path = none

abbrev pub sample_tree : PropertyTree
sample_tree = record {
  Tree = ℕ;
  children = children_of;
  get = λ n path. entry path (texts_of n);
  get_child = child_of;
}

-- A number of one digit.
abbrev pub digit : Bytes → Option ℤ
digit (c ∷ []) = some (pos (c - 48))
digit s = none

abbrev pub usd : StreamConfig
usd = record {
  stream_name = codes "usd";
  symbol = codes "USDINR";
  primary_exch_vec = ccil ∷ d2 ∷ [];
  secondary_exch_vec = nse ∷ [];
  secondary_exch_fullamount_vec = null ∷ [];
  secondary_exch_sweepable_vec = ebs ∷ citi ∷ [];
  level_vec = pos 1 ∷ pos 3 ∷ pos 5 ∷ [];
  rule_map = (pos 1, record { level = pos 1; level_exch_vec = d2 ∷ [] }) ∷ [];
}
