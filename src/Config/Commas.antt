-- ===== src/Config/Commas.antt =====
-- The loop over the commas of a text, against the list of the texts between them.
use conn.Common.{
  ℕ, zero, suc, ◌+◌, ◌-◌, ◌<◌, ◌≡◌, ◌⊎◌, refl, sym, ap, ap₂, ◌∙◌, List, [], ◌∷◌, ◌++◌, Option, none,
  some, ◌==◌, Bytes, length, length-append, arith, drop, map, Bool-cases, ==_iff, Option-cases, inl,
  inr,
}
use mathlib.Core.Option
use mathlib.Core.List.{append_assoc, append-nil}
use conn.Url.Lines.{
  Lacks, split, split-append, split_self, find_at, find_none, take_front, drop_front,
}
use conn.Url.Options.{joined, AllLack, split-joined}
use conn.Exchange.{
  Exchange, null, ccil, d2, nse, bse, ebs, x360t, x360t_f, x360t_s, citi, citi_f, citi_s, any_exch,
  ex2str, str2ex, str2ex_back,
}
use conn.Config.{find_from, comma_loop, read_commas, read_exchanges}

-- A text has no `c`, or it is cut at its first.
cut : (c : ℕ) (s : Bytes) → Lacks c s ⊎ ((a : Bytes) × (b : Bytes) × (s ≡ a ++ c ∷ b) × Lacks c a)
cut c [] = inl tt
cut c (x ∷ s) = elim (Bool-cases (x == c)) [
  | inl here ↦ inr ([], s, ap (λ y. y ∷ s) ((==_iff x c).0 here), tt)
  | inr past ↦ elim (cut c s) [
    | inl k ↦ inl (past, k)
    | inr (a, b, e, k) ↦ inr (x ∷ a, b, ap (λ r. x ∷ r) e, (past, k))
  ]
]

drop-drop : (m n : ℕ) (s : Bytes) → drop (m + n) s ≡ drop n (drop m s)
drop-drop zero n s = ap (λ k. drop k s) {y = n} (omega arith)
drop-drop (suc m) n [] = ap (λ k. drop k []) {y = suc (m + n)} (omega arith) ∙ sym (drop_nil n)
  where
    drop_nil : (k : ℕ) → drop {A = ℕ} k [] ≡ []
    drop_nil zero = refl
    drop_nil (suc k) = refl
drop-drop (suc m) n (x ∷ s) =
    ap (λ k. drop k (x ∷ s)) {y = suc (m + n)} (omega arith) ∙ drop-drop m n s

module _ {A : Type 0} (read : Bytes → Option A) where
  -- Each of the texts, until one fails.
  abbrev pub read_all : List A → List Bytes → Option (List A)
  read_all vec [] = some vec
  read_all vec (t ∷ ts) = elim (read t) [ none ↦ none | some a ↦ read_all (vec ++ a ∷ []) ts ]

  read_last :
      (vec : List A) (t : Bytes) → Option.map (λ a. vec ++ a ∷ []) (read t) ≡ read_all vec (t ∷ [])
  read_last vec t = elim (Option-cases (read t)) [
    | inl e ↦ rw (read_all, e) refl
    | inr (a, e) ↦ rw (read_all, e) refl
  ]

  comma_loop-split :
      (n start : ℕ) (text rest : Bytes) (vec : List A)
      → drop start text ≡ rest
      → length rest < n
      → comma_loop read n text start vec ≡ read_all vec (split 44 rest)
  unfolding comma_loop find_from
  comma_loop-split zero start text rest vec e h = absurd (omega arith)
  comma_loop-split (suc n) start text rest vec e h = elim (cut 44 rest) [
    | inl k ↦
        rw (comma_loop, find_from, e, find_none 44 rest k, e, split_self 44 rest k)
          (read_last vec rest)
    | inr (a, b, c, k) ↦
        let place : start + length a - start ≡ length a = omega arith in
        let behind : drop (start + length a + 1) text ≡ b =
          ap (λ i. drop i text) {y = start + (length a + 1)} (omega arith)
          ∙ drop-drop start (length a + 1) text
          ∙ ap (drop (length a + 1)) (e ∙ c)
          ∙ drop_front 44 a b in
        elim (Option-cases (read a)) [
          | inl failed ↦
              rw
                (
                  comma_loop,
                  find_from,
                  e,
                  c,
                  find_at 44 a b k,
                  e,
                  c,
                  split-append 44 a b k,
                  place,
                  take_front,
                  read_all,
                  failed,
                )
                refl
          | inr (v, done) ↦
              rw
                (
                  comma_loop,
                  find_from,
                  e,
                  c,
                  find_at 44 a b k,
                  e,
                  c,
                  split-append 44 a b k,
                  place,
                  take_front,
                  read_all,
                  done,
                )
                (comma_loop-split n (start + length a + 1) text b (vec ++ v ∷ []) behind
                  (omega (arith, ap length c, length-append a (44 ∷ b))))
        ]
  ]

  -- The loop takes each of the texts between the commas of a text, in order, until one is refused; its
  -- rounds are enough.
  pub read_commas-split : (text : Bytes) → read_commas read text ≡ read_all [] (split 44 text)
  unfolding read_commas
  read_commas-split text = comma_loop-split (suc (length text)) 0 text text [] refl (omega arith)

read_all-str2ex :
    (vec : List Exchange) (ts : List Bytes)
    → read_all (λ name. some (str2ex name)) vec ts ≡ some (vec ++ map str2ex ts)
read_all-str2ex vec [] = ap some (sym (append-nil vec))
read_all-str2ex vec (t ∷ ts) =
    read_all-str2ex (vec ++ str2ex t ∷ []) ts
    ∙ ap some (append_assoc vec (str2ex t ∷ []) (map str2ex ts))

-- Every text of exchanges is read, as the exchanges of the texts between its commas.
pub read_exchanges-split : (text : Bytes) → read_exchanges text ≡ some (map str2ex (split 44 text))
unfolding read_exchanges
read_exchanges-split text =
    read_commas-split (λ name. some (str2ex name)) text ∙ read_all-str2ex [] (split 44 text)

ex2str-Lacks : (e : Exchange) → Lacks 44 (ex2str e)
unfolding ex2str
ex2str-Lacks null = (refl, (refl, tt))
ex2str-Lacks ccil = (refl, (refl, (refl, (refl, tt))))
ex2str-Lacks d2 = (refl, (refl, tt))
ex2str-Lacks nse = (refl, (refl, (refl, tt)))
ex2str-Lacks bse = (refl, (refl, (refl, tt)))
ex2str-Lacks ebs = (refl, (refl, (refl, tt)))
ex2str-Lacks x360t = (refl, (refl, (refl, (refl, (refl, tt)))))
ex2str-Lacks x360t_f = (refl, (refl, (refl, (refl, (refl, (refl, (refl, tt)))))))
ex2str-Lacks x360t_s = (refl, (refl, (refl, (refl, (refl, (refl, (refl, tt)))))))
ex2str-Lacks citi = (refl, (refl, (refl, (refl, tt))))
ex2str-Lacks citi_f = (refl, (refl, (refl, (refl, (refl, (refl, tt))))))
ex2str-Lacks citi_s = (refl, (refl, (refl, (refl, (refl, (refl, tt))))))
ex2str-Lacks any_exch = (
  refl,
  (refl, (refl, (refl, (refl, (refl, (refl, (refl, (refl, (refl, (refl, (refl, tt))))))))))),
)

names-AllLack : (es : List Exchange) → AllLack (map ex2str es)
names-AllLack [] = tt
names-AllLack (e ∷ es) = (ex2str-Lacks e, names-AllLack es)

names_back : (es : List Exchange) → map str2ex (map ex2str es) ≡ es
names_back [] = refl
names_back (e ∷ es) = ap₂ (λ x xs. x ∷ xs) (str2ex_back e) (names_back es)

-- The names of some exchanges, with commas between them, are read as those exchanges, in order and as
-- often as they stand there.
pub read_exchanges-joined :
    (e : Exchange) (es : List Exchange)
    → read_exchanges (joined (ex2str e) (map ex2str es)) ≡ some (e ∷ es)
read_exchanges-joined e es =
    read_exchanges-split (joined (ex2str e) (map ex2str es))
    ∙ ap (λ ts. some (map str2ex ts))
        (split-joined (ex2str e) (map ex2str es) (ex2str-Lacks e) (names-AllLack es))
    ∙ ap some (names_back (e ∷ es))
