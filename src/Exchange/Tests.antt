-- ===== src/Exchange/Tests.antt =====
-- Exchanges and keys at concrete names.
use conn.Common.{◌≡◌, refl, true, false, codes, equal}
use conn.Exchange.{null, nse, bse, str2ex, find_exchange}
use conn.Exchange.Key.{ExchSymKey, less_key, equal_key, less_key-IsStrictTotal}

unknown_is_null : str2ex (codes "X360T_") ≡ null
unfolding str2ex find_exchange equal
unknown_is_null = refl

abbrev key : ExchSymKey
key = record { symbol = codes "USDINR"; exchange = nse }

abbrev other : ExchSymKey
other = record { symbol = codes "EURUSD"; exchange = bse }

less_key-IsStrictTotal_example :
    (less_key key key ≡ false)
    × (less_key key other ≡ true → less_key other key ≡ true → less_key key key ≡ true)
    × (less_key key other ≡ false
        → less_key other key ≡ false
        → (key ≡ other) × (equal_key key other ≡ true))
less_key-IsStrictTotal_example = less_key-IsStrictTotal key other key
