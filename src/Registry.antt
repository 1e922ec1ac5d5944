-- ===== src/Registry.antt =====
-- engine/book/main.cpp: which streams are given the snapshots of an exchange and a symbol. A stream is
-- the number of its creation, in place of its pointer.
pub mod Targets
mod Tests
use conn.Common.{ℕ, suc, List, [], ◌∷◌, ◌++◌, Option, none, some, if◌then◌else◌, Bytes, ltb}
use conn.Exchange.{Exchange}
use conn.Exchange.Key.{ExchSymKey, equal_key}
use conn.Config.{StreamConfig, Loaded, thrown, returned}

-- `maps_exchange_stream_ptr`: a `std::map`, by its only entry for a key.
abbrev pub Registry : Type 0
Registry = List (ExchSymKey × List ℕ)

-- `find`
unfoldable pub find : Registry → ExchSymKey → Option (List ℕ)
find [] key = none
find ((k, v) ∷ r) key = let rest = find r key in if equal_key k key then some v else rest

-- `found->second.push_back(str)`
unfoldable pub push_stream : Registry → ExchSymKey → ℕ → Registry
push_stream [] key str = []
push_stream ((k, v) ∷ r) key str =
    let rest = push_stream r key str in
    if equal_key k key then (k, v ++ str ∷ []) ∷ r else (k, v) ∷ rest

-- The branches behind `find`: the stream joins the others of the key, or is the first.
abbrev pub add_found : Registry → ExchSymKey → ℕ → Option (List ℕ) → Registry
add_found r key str (some v) = push_stream r key str
add_found r key str none = (key, str ∷ []) ∷ r

-- The loop over the exchanges of one list of a stream.
unfoldable pub add_exchanges : Bytes → ℕ → List Exchange → Registry → Registry
add_exchanges symbol str [] r = r
add_exchanges symbol str (ex ∷ exs) r =
    let key : ExchSymKey = record { symbol = symbol; exchange = ex } in
    add_exchanges symbol str exs (add_found r key str (find r key))

-- One stream: its four lists, one after the other.
unfoldable pub add_stream : ℕ → StreamConfig → Registry → Registry
unfolding add_exchanges
add_stream str sc r =
    let r1 = add_exchanges sc.symbol str sc.primary_exch_vec r in
    let r2 = add_exchanges sc.symbol str sc.secondary_exch_vec r1 in
    let r3 = add_exchanges sc.symbol str sc.secondary_exch_fullamount_vec r2 in
    add_exchanges sc.symbol str sc.secondary_exch_sweepable_vec r3

-- The loop over the configured streams; the next one created is number `str`.
unfoldable pub add_streams : ℕ → List (Bytes × StreamConfig) → Registry → Registry
unfolding add_stream
add_streams str [] r = r
add_streams str ((name, sc) ∷ cfg) r = add_streams (suc str) cfg (add_stream str sc r)

abbrev pub or_nobody : Option (List ℕ) → List ℕ
or_nobody none = []
or_nobody (some v) = v

-- One round of the last loop: the streams whose `onSnapshot` is called, in order.
unfoldable pub dispatch : Registry → ExchSymKey → List ℕ
dispatch r key = or_nobody (find r key)

-- How `main` goes on: it ends with a status, or is ended by an exception, or serves snapshots by a
-- registry.
pub data Main : Type 0 where
  exits : ℕ → Main
  terminated : Main
  serves : Registry → Main

abbrev pub main_loaded : Loaded → Main
main_loaded thrown = terminated
main_loaded (returned done str_cfg) = if done then exits 1 else serves (add_streams 0 str_cfg [])

-- `main`, given the number of its arguments and what `load` does with the first.
unfoldable pub main : ℕ → Loaded → Main
unfolding add_streams
main argc loaded = if ltb argc 2 then exits 1 else main_loaded loaded
