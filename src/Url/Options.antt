-- ===== src/Url/Options.antt =====
-- The options of a URL, as a list of pairs of which the first for a key counts.
use conn.Common.{
  ℕ, zero, suc, ◌<◌, ◌≡◌, refl, sym, ap, ◌∙◌, Bool, true, false, List, [], ◌∷◌, ◌++◌, Option, none,
  some, Bytes, codes, equal, equal-decides, length, arith, Bool-cases, Option-cases, inl, inr,
}
use mathlib.Core.List.{append_assoc, append-nil}
use conn.Url.{
  Options, find_option, insert_option, Stream, take_line, getline, take_option, option_loop,
  is_empty,
}
use conn.Url.Lines.{
  Lacks, split, take_line-split, take_line_at, take_line_end, split_self, split-append,
}

abbrev or_else : Option Bytes → Option Bytes → Option Bytes
or_else none b = b
or_else (some v) b = some v

find_option-append :
    (a b : Options) (key : Bytes)
    → find_option (a ++ b) key ≡ or_else (find_option a key) (find_option b key)
unfolding find_option
find_option-append [] b key = refl
find_option-append ((k, v) ∷ a) b key = elim (Bool-cases (equal k key)) [
  | inl same ↦ rw same refl
  | inr other ↦ rw other (find_option-append a b key)
]

or_else_none : (o : Option Bytes) → or_else o none ≡ o
or_else_none none = refl
or_else_none (some v) = refl

pub find_option-insert_option :
    (opts : Options) (k v key : Bytes)
    → find_option (insert_option opts k v) key ≡ find_option (opts ++ (k, v) ∷ []) key
unfolding insert_option find_option
find_option-insert_option opts k v key = elim (Option-cases (find_option opts k)) [
  | inl absent ↦ rw absent refl
  | inr (w, there) ↦ rw there (sym (find_option-append opts ((k, v) ∷ []) key ∙ kept w there))
]
  where
    kept :
        (w : Bytes)
        → find_option opts k ≡ some w
        → or_else (find_option opts key) (find_option ((k, v) ∷ []) key) ≡ find_option opts key
    kept w there = elim (Bool-cases (equal k key)) [
      | inl same ↦
          let at_key : find_option opts key ≡ some w =
            ap (find_option opts) (sym ((equal-decides k key).0 same)) ∙ there in
          rw at_key refl
      | inr other ↦ rw other (or_else_none (find_option opts key))
    ]

-- A text `name=value`.
abbrev pub option_text : Bytes × Bytes → Bytes
option_text (k, v) = k ++ 61 ∷ v

abbrev pub IsOption : Bytes × Bytes → Type 0
IsOption (k, v) =
    Lacks 61 k × (is_empty k ≡ false) × (is_empty v ≡ false) × Lacks 44 v × Lacks 44 (k ++ 61 ∷ v)

take_option_pair :
    (k v : Bytes) (st : Bool × Options)
    → IsOption (k, v)
    → take_option (option_text (k, v)) st ≡ (st.0, insert_option st.1 k v)
unfolding take_option getline
take_option_pair k v st (plain, named, valued, ends, _) =
    rw (take_line_at 61 k v plain, take_line_end 44 v ends, named, valued) refl

pub take_option_port :
    (port : Bytes) (opts : Options)
    → Lacks 61 port
    → take_option port (false, opts) ≡ (true, insert_option opts (codes "port") port)
unfolding take_option getline
take_option_port port opts plain = elim (Bool-cases (is_empty port)) [
  | inl e ↦ rw (take_line_end 61 port plain, e) refl
  | inr e ↦ rw (take_line_end 61 port plain, e) refl
]

unfoldable pub take_options : List Bytes → Bool × Options → Bool × Options
take_options [] st = st
take_options (t ∷ ts) st = take_options ts (take_option t st)

option_loop_bad :
    (n : ℕ) (s : Stream) (st : Bool × Options) → s.good ≡ false → option_loop n s st ≡ st
unfolding option_loop
option_loop_bad zero s st h = refl
option_loop_bad (suc n) s st h = rw h refl

-- The option loop, given more rounds than characters, takes each of the texts between the commas, in
-- order: the rounds are enough.
pub option_loop-split :
    (n : ℕ) (s : Stream) (st : Bool × Options)
    → s.good ≡ true
    → length s.rest < n
    → option_loop n s st ≡ take_options (split 44 s.rest) st
unfolding option_loop getline take_options
option_loop-split zero s st g h = absurd (omega arith)
option_loop-split (suc n) s st g h =
    let (texts, shorter) = take_line-split 44 s.rest in
    let line = (take_line 44 s.rest).0 in
    let t = (take_line 44 s.rest).1 in
    elim (Bool-cases t.good) [
      | inl more ↦
          rw (g, texts, more)
            (option_loop-split n t (take_option line st) more (omega (arith, shorter more)))
      | inr ended ↦ rw (g, texts, ended) (option_loop_bad n t (take_option line st) ended)
    ]

abbrev pub insert_all : Options → List (Bytes × Bytes) → Options
insert_all opts [] = opts
insert_all opts ((k, v) ∷ kvs) = insert_all (insert_option opts k v) kvs

find_option-cong :
    (a b c : Options) (key : Bytes)
    → find_option a key ≡ find_option b key
    → find_option (a ++ c) key ≡ find_option (b ++ c) key
find_option-cong a b c key e =
    find_option-append a c key
    ∙ ap (λ o. or_else o (find_option c key)) e
    ∙ sym (find_option-append b c key)

pub find_option-insert_all :
    (kvs opts : List (Bytes × Bytes)) (key : Bytes)
    → find_option (insert_all opts kvs) key ≡ find_option (opts ++ kvs) key
find_option-insert_all [] opts key = ap (λ o. find_option o key) (sym (append-nil opts))
find_option-insert_all ((k, v) ∷ kvs) opts key =
    find_option-insert_all kvs (insert_option opts k v) key
    ∙ find_option-cong (insert_option opts k v) (opts ++ (k, v) ∷ []) kvs key
        (find_option-insert_option opts k v key)
    ∙ ap (λ o. find_option o key) (append_assoc opts ((k, v) ∷ []) kvs)

abbrev pub AllOptions : List (Bytes × Bytes) → Type 0
AllOptions [] = Unit {0}
AllOptions (o ∷ os) = IsOption o × AllOptions os

abbrev pub option_texts : List (Bytes × Bytes) → List Bytes
option_texts [] = []
option_texts (o ∷ os) = option_text o ∷ option_texts os

pub take_options-option_texts :
    (kvs : List (Bytes × Bytes)) (st : Bool × Options)
    → AllOptions kvs
    → take_options (option_texts kvs) st ≡ (st.0, insert_all st.1 kvs)
unfolding take_options
take_options-option_texts [] st k = refl
take_options-option_texts ((k, v) ∷ kvs) st (ok, oks) =
    ap (take_options (option_texts kvs)) (take_option_pair k v st ok)
    ∙ take_options-option_texts kvs (st.0, insert_option st.1 k v) oks

-- The texts with commas between them.
abbrev pub joined : Bytes → List Bytes → Bytes
joined t [] = t
joined t (u ∷ us) = t ++ 44 ∷ joined u us

abbrev pub AllLack : List Bytes → Type 0
AllLack [] = Unit {0}
AllLack (t ∷ ts) = Lacks 44 t × AllLack ts

pub split-joined :
    (t : Bytes) (ts : List Bytes) → Lacks 44 t → AllLack ts → split 44 (joined t ts) ≡ t ∷ ts
split-joined t [] k ks = split_self 44 t k
split-joined t (u ∷ us) k (l, ls) =
    split-append 44 t (joined u us) k ∙ ap (λ r. t ∷ r) (split-joined u us l ls)

pub option_texts-AllLack :
    (kvs : List (Bytes × Bytes)) → AllOptions kvs → AllLack (option_texts kvs)
option_texts-AllLack [] k = tt
option_texts-AllLack ((k, v) ∷ kvs) ((_, _, _, _, l), oks) = (l, option_texts-AllLack kvs oks)
