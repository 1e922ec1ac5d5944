-- ===== src/Config/Tests.antt =====
-- engine/book/ConfigBook.h at a concrete file.
use conn.Common.{◌≡◌, refl, false, [], ◌∷◌, some, codes, equal}
use conn.Url.{find}
use conn.Exchange.{null, ccil, d2, ex2str, str2ex, find_exchange}
use conn.Config.{returned, find_from, read_exchanges, read_stream, read_rule, load, sort_levels}
use conn.Operators.{ordered_insert}
use conn.Config.Commas.{read_exchanges-joined}
use conn.Config.Load.{IsStreamAt, read_stream_lem}
use conn.Config.Sample.{sample_tree, digit, usd}

-- An empty text of exchanges is one exchange, `null`.
read_nothing : read_exchanges [] ≡ some (null ∷ [])
unfolding read_exchanges find_from find str2ex find_exchange equal
read_nothing = refl

read_usd : read_stream sample_tree digit 2 ≡ some usd
unfolding read_stream read_rule find_from find str2ex find_exchange equal sort_levels ordered_insert
read_usd = refl

load-usd : load sample_tree digit (some 0) [] ≡ returned false ((codes "usd", usd) ∷ [])
unfolding load read_stream read_rule find_from find str2ex find_exchange equal sort_levels
    ordered_insert
load-usd = refl

read_exchanges-joined_example : read_exchanges (codes "CCIL,D2") ≡ some (ccil ∷ d2 ∷ [])
unfolding ex2str
read_exchanges-joined_example = read_exchanges-joined ccil (d2 ∷ [])

read_stream_lem_example : IsStreamAt sample_tree digit 2 usd
read_stream_lem_example = read_stream_lem sample_tree digit 2 usd read_usd
