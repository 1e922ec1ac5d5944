-- ===== src/Registry/Tests.antt =====
-- engine/book/main.cpp at concrete configurations.
use conn.Common.{◌≡◌, refl, List, [], ◌∷◌, Bytes, codes, equal}
use conn.Exchange.{d2, nse}
use conn.Exchange.Key.{ExchSymKey, equal_key}
use conn.Config.{StreamConfig}
use conn.Url.{find as find_text}
use conn.Config.Sample.{usd}
use conn.Registry.{add_streams, dispatch, find, push_stream}
use conn.Registry.Targets.{targets, dispatch-add_streams}

-- A stream that lists an exchange twice.
abbrev again : StreamConfig
again = record usd { secondary_exch_vec = d2 ∷ nse ∷ [] }

abbrev streams : List (Bytes × StreamConfig)
streams = (codes "eur", again) ∷ (codes "usd", usd) ∷ []

abbrev usd_at_d2 : ExchSymKey
usd_at_d2 = record { symbol = codes "USDINR"; exchange = d2 }

-- It is given each snapshot twice.
given_twice : dispatch (add_streams 0 streams []) usd_at_d2 ≡ 0 ∷ 0 ∷ 1 ∷ []
unfolding dispatch add_streams find push_stream equal_key equal
given_twice = refl

dispatch-add_streams_example :
    dispatch (add_streams 0 streams []) usd_at_d2 ≡ targets 0 streams usd_at_d2
dispatch-add_streams_example = dispatch-add_streams streams usd_at_d2
