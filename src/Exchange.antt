-- ===== src/Exchange.antt =====
-- engine/book/Exchange.h: the exchanges and their names.
pub mod Key
mod Tests
use conn.Common.{
  ◌≡◌, refl, ◌∙◌, ◌⊎◌, inl, inr, List, [], ◌∷◌, Bytes, codes, equal, equal-decides, if◌then◌else◌,
  Bool-cases,
}

pub data Exchange : Type 0 where
  null ccil d2 nse bse ebs x360t x360t_f x360t_s citi citi_f citi_s any_exch : Exchange

-- `ex2str`
unfoldable pub ex2str : Exchange → Bytes
ex2str ccil = codes "CCIL"
ex2str d2 = codes "D2"
ex2str nse = codes "NSE"
ex2str bse = codes "BSE"
ex2str ebs = codes "EBS"
ex2str x360t = codes "X360T"
ex2str x360t_f = codes "X360T_F"
ex2str x360t_s = codes "X360T_S"
ex2str citi = codes "CITI"
ex2str citi_f = codes "CITI_F"
ex2str citi_s = codes "CITI_S"
ex2str any_exch = codes "ANY_EXCHANGE"
ex2str null = codes "--"

-- `TO_EX`; its keys are different, so the order does not matter.
abbrev pub to_ex : List (Bytes × Exchange)
to_ex =
    (codes "CCIL", ccil)
    ∷ (codes "D2", d2)
    ∷ (codes "NSE", nse)
    ∷ (codes "BSE", bse)
    ∷ (codes "EBS", ebs)
    ∷ (codes "X360T", x360t)
    ∷ (codes "X360T_F", x360t_f)
    ∷ (codes "X360T_S", x360t_s)
    ∷ (codes "CITI", citi)
    ∷ (codes "CITI_F", citi_f)
    ∷ (codes "CITI_S", citi_s)
    ∷ (codes "ANY_EXCHANGE", any_exch)
    ∷ []

unfoldable pub find_exchange : List (Bytes × Exchange) → Bytes → Exchange
find_exchange [] ex = null
find_exchange ((name, e) ∷ rest) ex =
    let found = find_exchange rest ex in if equal name ex then e else found

-- `str2ex`
unfoldable pub str2ex : Bytes → Exchange
unfolding find_exchange
str2ex ex = find_exchange to_ex ex

-- Each name of a list names its exchange.
abbrev Named : List (Bytes × Exchange) → Type 0
Named [] = Unit {0}
Named ((name, e) ∷ rest) = (ex2str e ≡ name) × Named rest

find_exchange-Named :
    (table : List (Bytes × Exchange)) (ex : Bytes)
    → Named table
    → (ex2str (find_exchange table ex) ≡ ex) ⊎ (find_exchange table ex ≡ null)
unfolding find_exchange
find_exchange-Named [] ex k = inr refl
find_exchange-Named ((name, e) ∷ rest) ex (k, ks) = elim (Bool-cases (equal name ex)) [
  | inl same ↦ rw same (inl (k ∙ (equal-decides name ex).0 same))
  | inr other ↦ rw other (find_exchange-Named rest ex ks)
]

to_ex-Named : Named to_ex
unfolding ex2str
to_ex-Named = (
  refl,
  (refl, (refl, (refl, (refl, (refl, (refl, (refl, (refl, (refl, (refl, (refl, tt))))))))))),
)

pub str2ex_back : (e : Exchange) → str2ex (ex2str e) ≡ e
unfolding str2ex ex2str find_exchange equal
str2ex_back null = refl
str2ex_back ccil = refl
str2ex_back d2 = refl
str2ex_back nse = refl
str2ex_back bse = refl
str2ex_back ebs = refl
str2ex_back x360t = refl
str2ex_back x360t_f = refl
str2ex_back x360t_s = refl
str2ex_back citi = refl
str2ex_back citi_f = refl
str2ex_back citi_s = refl
str2ex_back any_exch = refl

-- Every exchange is got back from its name; a text that is no exchange's name is read as the null
-- exchange, and any other is the name of the exchange it is read as.
pub str2ex-ex2str :
    (e : Exchange) (ex : Bytes)
    → (str2ex (ex2str e) ≡ e) × ((ex2str (str2ex ex) ≡ ex) ⊎ (str2ex ex ≡ null))
unfolding str2ex
str2ex-ex2str e ex = (str2ex_back e, find_exchange-Named to_ex ex to_ex-Named)
