-- ===== src/Exchange/Key.antt =====
-- engine/book/ExchSymKey.h: a symbol at an exchange, as the key of a map.
use conn.Common.{
  get_or, ℕ, ◌≡◌, ◌↔◌, refl, sym, ap, ap₂, ◌∙◌, Bool, true, false, ◌&&◌, List, [], ◌∷◌, ◌++◌, Bytes,
  codes, ltb, ◌==◌, if◌then◌else◌, less, less_irrefl, less_trans, less_total, equal, equal-decides,
  upto, upto-append, append_left_cancel, arith,
}
use conn.Exchange.{
  Exchange, null, ccil, d2, nse, bse, ebs, x360t, x360t_f, x360t_s, citi, citi_f, citi_s, any_exch,
  ex2str, str2ex, str2ex_back,
}

pub record ExchSymKey : Type 0 where
  pub symbol : Bytes
  pub exchange : Exchange

-- The number behind an enumerator.
abbrev pub index : Exchange → ℕ
index null = 0
index ccil = 1
index d2 = 2
index nse = 3
index bse = 4
index ebs = 5
index x360t = 6
index x360t_f = 7
index x360t_s = 8
index citi = 9
index citi_f = 10
index citi_s = 11
index any_exch = 12

-- `operator ==`
unfoldable pub equal_key : ExchSymKey → ExchSymKey → Bool
equal_key a b = equal a.symbol b.symbol && index a.exchange == index b.exchange

-- `operator <`
unfoldable pub less_key : ExchSymKey → ExchSymKey → Bool
less_key a b =
    if ltb (index a.exchange) (index b.exchange)
    then true
    else if ltb (index b.exchange) (index a.exchange)
    then false
    else less a.symbol b.symbol

unfoldable pub to_string : ExchSymKey → Bytes
to_string k = ex2str k.exchange ++ (codes "::" ++ k.symbol)

-- The enumerators in order.
abbrev exchanges : List Exchange
exchanges =
    null ∷ ccil ∷ d2 ∷ nse ∷ bse ∷ ebs ∷ x360t ∷ x360t_f ∷ x360t_s ∷ citi ∷ citi_f ∷ citi_s
    ∷ any_exch ∷ []

abbrev of_index : ℕ → Exchange
of_index n = get_or exchanges n null

of_index-index : (e : Exchange) → of_index (index e) ≡ e
of_index-index null = refl
of_index-index ccil = refl
of_index-index d2 = refl
of_index-index nse = refl
of_index-index bse = refl
of_index-index ebs = refl
of_index-index x360t = refl
of_index-index x360t_f = refl
of_index-index x360t_s = refl
of_index-index citi = refl
of_index-index citi_f = refl
of_index-index citi_s = refl
of_index-index any_exch = refl

index_inj : (e f : Exchange) → index e ≡ index f → e ≡ f
index_inj e f h = sym (of_index-index e) ∙ ap of_index h ∙ of_index-index f

equal_key_refl :
    (a b : ExchSymKey) → a.symbol ≡ b.symbol → a.exchange ≡ b.exchange → equal_key a b ≡ true
unfolding equal_key
equal_key_refl a b h k = rw (k, (equal-decides a.symbol b.symbol).1 h) (ground arith)

key_parts :
    (a b : ExchSymKey)
    → equal_key a b ≡ true
    → (equal a.symbol b.symbol ≡ true) × (index a.exchange ≡ index b.exchange)
unfolding equal_key
key_parts a b h = ground arith

-- `operator ==` decides equality.
pub equal_key-decides : (a b : ExchSymKey) → (equal_key a b ≡ true) ↔ (a ≡ b)
equal_key-decides a b = (
  λ h.
      let (symbols, exch) = key_parts a b h in
      ap₂ (λ s e. record { symbol = s; exchange = e }) ((equal-decides a.symbol b.symbol).0 symbols)
        (index_inj a.exchange b.exchange exch),
  λ e.
      equal_key_refl a b (ap (λ (k : ExchSymKey). k.symbol) e)
        (ap (λ (k : ExchSymKey). k.exchange) e),
)

-- The order of the keys is a strict total order: no key is below itself, it is transitive, and two
-- keys of which neither is below the other are equal, for `operator ==` too.
pub less_key-IsStrictTotal :
    (a b c : ExchSymKey)
    → (less_key a a ≡ false)
      × (less_key a b ≡ true → less_key b c ≡ true → less_key a c ≡ true)
      × (less_key a b ≡ false → less_key b a ≡ false → (a ≡ b) × (equal_key a b ≡ true))
unfolding less_key
less_key-IsStrictTotal a b c = (irrefl, trans, total)
  where
    irrefl : less_key a a ≡ false
    irrefl = let same = less_irrefl a.symbol in ground arith

    trans : less_key a b ≡ true → less_key b c ≡ true → less_key a c ≡ true
    trans h k = let rest = less_trans a.symbol b.symbol c.symbol in ground arith

    total : less_key a b ≡ false → less_key b a ≡ false → (a ≡ b) × (equal_key a b ≡ true)
    total h k =
        let symbols : a.symbol ≡ b.symbol =
          let rest = less_total a.symbol b.symbol in ground arith in
        let exch : a.exchange ≡ b.exchange = index_inj a.exchange b.exchange (ground arith) in
        (
          ap₂ (λ s e. record { symbol = s; exchange = e }) symbols exch,
          equal_key_refl a b symbols exch,
        )

ex2str_no_colon : (e : Exchange) → upto 58 (ex2str e) ≡ ex2str e
unfolding ex2str upto
ex2str_no_colon null = refl
ex2str_no_colon ccil = refl
ex2str_no_colon d2 = refl
ex2str_no_colon nse = refl
ex2str_no_colon bse = refl
ex2str_no_colon ebs = refl
ex2str_no_colon x360t = refl
ex2str_no_colon x360t_f = refl
ex2str_no_colon x360t_s = refl
ex2str_no_colon citi = refl
ex2str_no_colon citi_f = refl
ex2str_no_colon citi_s = refl
ex2str_no_colon any_exch = refl

name_of : (k : ExchSymKey) → upto 58 (to_string k) ≡ ex2str k.exchange
unfolding to_string
name_of k = upto-append 58 (ex2str k.exchange) (58 ∷ k.symbol) (ex2str_no_colon k.exchange)

-- Two keys that print alike are the same, whatever their symbols contain.
pub to_string_inj : (a b : ExchSymKey) → to_string a ≡ to_string b → a ≡ b
unfolding to_string
to_string_inj a b h =
    let names : ex2str a.exchange ≡ ex2str b.exchange =
      sym (name_of a) ∙ ap (upto 58) h ∙ name_of b in
    let exch : a.exchange ≡ b.exchange =
      sym (str2ex_back a.exchange) ∙ ap str2ex names ∙ str2ex_back b.exchange in
    let symbols : codes "::" ++ a.symbol ≡ codes "::" ++ b.symbol =
      append_left_cancel (ex2str b.exchange) (codes "::" ++ a.symbol) (codes "::" ++ b.symbol)
        (ap (λ n. n ++ (codes "::" ++ a.symbol)) (sym names) ∙ h) in
    ap₂ (λ s e. record { symbol = s; exchange = e })
      (append_left_cancel (codes "::") a.symbol b.symbol symbols) exch
