-- ===== src/Registry/Targets.antt =====
-- The streams that a snapshot is given to, from the configuration alone.
use conn.Common.{
  ℕ, suc, ◌+◌, ◌≡◌, refl, sym, ap, ◌∙◌, Bool, true, false, List, [], ◌∷◌, ◌++◌, none, some,
  if◌then◌else◌, Bytes, Bool-cases, Option-cases, inl, inr, arith, replicate,
}
use mathlib.Core.List.{append_assoc, append-nil}
use mathlib.Core.Bool.{false≢true}
use conn.Exchange.{Exchange}
use conn.Exchange.Key.{ExchSymKey, equal_key, equal_key-decides}
use conn.Config.{StreamConfig}
use conn.Registry.{
  Registry, find, push_stream, add_found, add_exchanges, add_stream, add_streams, or_nobody,
  dispatch,
}

same_key : (a b : ExchSymKey) → equal_key a b ≡ true → a ≡ b
same_key a b h = (equal_key-decides a b).0 h

self_key : (a : ExchSymKey) → equal_key a a ≡ true
self_key a = (equal_key-decides a a).1 refl

-- A key that is that of an entry is not one that differs from it.
other_key :
    (j key k : ExchSymKey)
    → equal_key j key ≡ false
    → equal_key j k ≡ true
    → equal_key key k ≡ false
other_key j key k past asked = elim (Bool-cases (equal_key key k)) [
  | inr other ↦ other
  | inl same ↦
      let e : j ≡ key = same_key j k asked ∙ sym (same_key key k same) in
      absurd (false≢true (sym past ∙ ap (λ i. equal_key i key) e ∙ self_key key))
]

-- The stream, if the key is the one that is asked for.
abbrev once : Bool → ℕ → List ℕ
once b str = if b then str ∷ [] else []

dispatch-push_stream :
    (r : Registry) (key k : ExchSymKey) (str : ℕ) (v : List ℕ)
    → find r key ≡ some v
    → or_nobody (find (push_stream r key str) k)
      ≡ or_nobody (find r k) ++ once (equal_key key k) str
unfolding find push_stream
dispatch-push_stream [] key k str v h = cc
dispatch-push_stream ((j, w) ∷ r) key k str v h = elim (Bool-cases (equal_key j key)) [
  | inl here ↦
      let e : equal_key j k ≡ equal_key key k = ap (λ i. equal_key i k) (same_key j key here) in
      elim (Bool-cases (equal_key key k)) [
        | inl asked ↦ rw (here, e, asked) refl
        | inr other ↦ rw (here, e, other, append-nil) refl
      ]
  | inr past ↦
      let rest = dispatch-push_stream r key k str v (rw past at h) in
      elim (Bool-cases (equal_key j k)) [
        | inl asked ↦ rw (past, asked, other_key j key k past asked, append-nil) refl
        | inr other ↦ rw (past, other) rest
      ]
]

dispatch-add_found :
    (r : Registry) (key k : ExchSymKey) (str : ℕ)
    → dispatch (add_found r key str (find r key)) k ≡ dispatch r k ++ once (equal_key key k) str
unfolding dispatch find
dispatch-add_found r key k str = elim (Option-cases (find r key)) [
  | inr (v, found) ↦ rw found (dispatch-push_stream r key k str v found)
  | inl absent ↦ elim (Bool-cases (equal_key key k)) [
    | inl asked ↦
        let nobody : find r k ≡ none = ap (find r) (sym (same_key key k asked)) ∙ absent in
        rw (absent, asked, nobody) refl
    | inr other ↦ rw (absent, other, append-nil) refl
  ]
]

-- How often a list of exchanges, for a symbol, has the key.
abbrev mentions : Bytes → List Exchange → ExchSymKey → ℕ
mentions symbol [] k = 0
mentions symbol (ex ∷ exs) k =
    (if equal_key (record { symbol = symbol; exchange = ex }) k then 1 else 0)
    + mentions symbol exs k

once-replicate :
    (b : Bool) (str n : ℕ)
    → once b str ++ replicate n str ≡ replicate ((if b then 1 else 0) + n) str
once-replicate true str n = ap (λ m. replicate m str) {x = suc n} (omega arith)
once-replicate false str n = ap (λ m. replicate m str) {x = n} (omega arith)

dispatch-add_exchanges :
    (symbol : Bytes) (str : ℕ) (exs : List Exchange) (r : Registry) (k : ExchSymKey)
    → dispatch (add_exchanges symbol str exs r) k
      ≡ dispatch r k ++ replicate (mentions symbol exs k) str
unfolding add_exchanges
dispatch-add_exchanges symbol str [] r k = sym (append-nil (dispatch r k))
dispatch-add_exchanges symbol str (ex ∷ exs) r k =
    let key : ExchSymKey = record { symbol = symbol; exchange = ex } in
    dispatch-add_exchanges symbol str exs (add_found r key str (find r key)) k
    ∙ ap (λ l. l ++ replicate (mentions symbol exs k) str) (dispatch-add_found r key k str)
    ∙ append_assoc (dispatch r k) (once (equal_key key k) str)
        (replicate (mentions symbol exs k) str)
    ∙ ap (λ l. dispatch r k ++ l) (once-replicate (equal_key key k) str (mentions symbol exs k))

-- The four lists of a stream.
abbrev listed : StreamConfig → List Exchange
listed sc =
    sc.primary_exch_vec
    ++ (sc.secondary_exch_vec
        ++ (sc.secondary_exch_fullamount_vec ++ sc.secondary_exch_sweepable_vec))

add_exchanges-append :
    (symbol : Bytes) (str : ℕ) (a b : List Exchange) (r : Registry)
    → add_exchanges symbol str b (add_exchanges symbol str a r)
      ≡ add_exchanges symbol str (a ++ b) r
unfolding add_exchanges
add_exchanges-append symbol str [] b r = refl
add_exchanges-append symbol str (ex ∷ a) b r =
    let key : ExchSymKey = record { symbol = symbol; exchange = ex } in
    add_exchanges-append symbol str a b (add_found r key str (find r key))

add_stream-listed :
    (str : ℕ) (sc : StreamConfig) (r : Registry)
    → add_stream str sc r ≡ add_exchanges sc.symbol str (listed sc) r
unfolding add_stream
add_stream-listed str sc r =
    add_exchanges-append sc.symbol str sc.secondary_exch_fullamount_vec
      sc.secondary_exch_sweepable_vec _
    ∙ add_exchanges-append sc.symbol str sc.secondary_exch_vec
        (sc.secondary_exch_fullamount_vec ++ sc.secondary_exch_sweepable_vec) _
    ∙ add_exchanges-append sc.symbol str sc.primary_exch_vec
        (sc.secondary_exch_vec
          ++ (sc.secondary_exch_fullamount_vec ++ sc.secondary_exch_sweepable_vec))
        r

-- Each stream, in the order of the configuration, as often as its lists name the exchange of the key,
-- if the symbol is its own.
abbrev pub targets : ℕ → List (Bytes × StreamConfig) → ExchSymKey → List ℕ
targets str [] k = []
targets str ((name, sc) ∷ cfg) k =
    replicate (mentions sc.symbol (listed sc) k) str ++ targets (suc str) cfg k

dispatch-targets :
    (str : ℕ) (cfg : List (Bytes × StreamConfig)) (r : Registry) (k : ExchSymKey)
    → dispatch (add_streams str cfg r) k ≡ dispatch r k ++ targets str cfg k
unfolding add_streams
dispatch-targets str [] r k = sym (append-nil (dispatch r k))
dispatch-targets str ((name, sc) ∷ cfg) r k =
    dispatch-targets (suc str) cfg (add_stream str sc r) k
    ∙ ap (λ r'. dispatch r' k ++ targets (suc str) cfg k) (add_stream-listed str sc r)
    ∙ ap (λ l. l ++ targets (suc str) cfg k) (dispatch-add_exchanges sc.symbol str (listed sc) r k)
    ∙ append_assoc (dispatch r k) (replicate (mentions sc.symbol (listed sc) k) str)
        (targets (suc str) cfg k)

-- By the registry of a configuration, a snapshot is given to each stream, in the order of the
-- configuration, once for each time that one of its four lists names the exchange, if the stream has
-- the symbol; and to no other.
pub dispatch-add_streams :
    (cfg : List (Bytes × StreamConfig)) (k : ExchSymKey)
    → dispatch (add_streams 0 cfg []) k ≡ targets 0 cfg k
unfolding dispatch find
dispatch-add_streams cfg k = dispatch-targets 0 cfg [] k
