-- ===== src/Url/Print.antt =====
-- common/Url.h, operator<<: the text that an address is printed as, and what `parse` reads from it.
use conn.Common.{
  ℕ, ◌≡◌, refl, subst, ap, ◌∙◌, sym, Bool, true, false, List, [], ◌∷◌, ◌++◌, Option, none, some,
  Bytes, codes, less, equal, if◌then◌else◌,
}
use mathlib.Core.Bool.{false≢true}
use mathlib.Core.List.{append_assoc, append-nil}
use conn.Url.{
  ConnType, Options, Url, get_type_str, insert_option, find, type_of, is_empty, take_option,
  options_of, option_loop, parse_rest, no_url, parse_typed, parse,
}
use conn.Url.Lines.{Lacks, split, split_self, split-append}
use conn.Url.Options.{
  option_text, AllOptions, option_texts, take_option_port, take_options, take_options-option_texts,
  insert_all,
}
use conn.Url.RoundTrip.{options_of_good, split_plain, split_alone}

-- The place of an option in a std::map.
unfoldable pub place : Bytes × Bytes → Options → Options
place o [] = o ∷ []
place o (p ∷ opts) = let rest = place o opts in if less p.0 o.0 then p ∷ rest else o ∷ p ∷ opts

-- The order in which a std::map is gone through: that of the names.
unfoldable pub in_order : Options → Options
unfolding place
in_order [] = []
in_order (o ∷ opts) = place o (in_order opts)

-- `for (auto& opt : url.m_options) os << opt.first << "=" << opt.second << ",";`
unfoldable pub print_options : Options → Bytes
print_options [] = []
print_options ((k, v) ∷ opts) = k ++ (codes "=" ++ (v ++ (codes "," ++ print_options opts)))

-- operator<<
unfoldable pub print : Url → Bytes
unfolding in_order print_options
print u = get_type_str u ++ (codes "://" ++ (u.address ++ print_options (in_order u.options)))

print_options-cons :
    (t : Bytes) (o : Bytes × Bytes) (os : Options)
    → t ++ print_options (o ∷ os) ≡ (t ++ option_text o) ++ 44 ∷ print_options os
unfolding print_options
print_options-cons t (k, v) os = sym (
    append_assoc t (k ++ 61 ∷ v) (44 ∷ print_options os)
    ∙ ap (λ u. t ++ u) (append_assoc k (61 ∷ v) (44 ∷ print_options os)))

split-print_options :
    (os : Options) → AllOptions os → split 44 (print_options os) ≡ option_texts os ++ [] ∷ []
unfolding print_options
split-print_options [] k = split_self 44 [] tt
split-print_options (o ∷ os) (ok, oks) =
    ap (split 44) (print_options-cons [] o os)
    ∙ split-append 44 (option_text o) (print_options os) ok.4
    ∙ ap (λ ts. option_text o ∷ ts) (split-print_options os oks)

take_options-append :
    (a b : List Bytes) (st : Bool × Options)
    → take_options (a ++ b) st ≡ take_options b (take_options a st)
unfolding take_options
take_options-append [] b st = refl
take_options-append (t ∷ a) b st = take_options-append a b (take_option t st)

-- What is behind the last comma is an empty text, and is taken for the port.
abbrev pub with_port : Options → Options
with_port os = insert_option (insert_all [] os) (codes "port") []

options_of-print_options :
    (os : Options)
    → AllOptions os
    → options_of (record { rest = print_options os; good = true }) ≡ with_port os
unfolding take_options
options_of-print_options os oks =
    options_of_good (print_options os)
    ∙ ap (λ ts. (take_options ts (false, [])).1) (split-print_options os oks)
    ∙ ap (λ st. st.1) (take_options-append (option_texts os) ([] ∷ []) (false, []))
    ∙ ap (λ st. (take_option [] st).1) (take_options-option_texts os (false, []) oks)
    ∙ ap (λ st. st.1) (take_option_port [] (insert_all [] os) tt)

-- The address and the options that are read back.
abbrev pub reread_as : ConnType → Bytes → Options → Url
reread_as kind address [] = record { kind = kind; address = address; options = [] }
reread_as kind address (o ∷ os) = record {
  kind = kind;
  address = address ++ option_text o;
  options = with_port os;
}

abbrev pub reread : Option ConnType → Bytes → Options → Bool × Url
reread none address os = (false, no_url)
reread (some kind) address os = (true, reread_as kind address os)

Lacks-append : (c : ℕ) (a b : Bytes) → Lacks c a → Lacks c b → Lacks c (a ++ b)
Lacks-append c [] b k l = l
Lacks-append c (x ∷ a) b (k, ks) l = (k, Lacks-append c a b ks l)

is_empty-append : (a b : Bytes) → is_empty a ≡ false → is_empty (a ++ b) ≡ false
is_empty-append [] b h = absurd (false≢true (sym h))
is_empty-append (x ∷ a) b h = refl

parse_rest-print_options :
    (kind : ConnType) (address : Bytes) (os : Options)
    → is_empty address ≡ false
    → AllOptions os
    → Lacks 58 (address ++ print_options os)
    → Lacks 44 address
    → parse_rest kind (address ++ print_options os) ≡ (true, reread_as kind address os)
unfolding parse_rest print_options option_loop
parse_rest-print_options kind address [] named oks plain whole =
    let alone = subst (Lacks 58) (append-nil address) plain in
    rw (append-nil address, split_alone address alone whole, named) refl
parse_rest-print_options kind address (o ∷ os) named (ok, oks) plain whole =
    let text = print_options-cons address o os in
    let front = address ++ option_text o in
    rw
      (
        text,
        split_plain front (print_options os) (subst (Lacks 58) text plain)
            (Lacks-append 44 address (option_text o) whole ok.4),
        is_empty-append address (option_text o) named,
        options_of-print_options os oks,
      )
      refl

-- The type that a printed type is read as: a Unix socket is read as TCP, and UDP and the default type
-- are not read at all.
abbrev pub reread_type : ConnType → Option ConnType
reread_type ConnType.tcp = some ConnType.tcp
reread_type ConnType.mcp = some ConnType.mcp
reread_type ConnType.unix = some ConnType.tcp
reread_type ConnType.shm = some ConnType.shm
reread_type ConnType.udp = none
reread_type ConnType.chronicle = some ConnType.chronicle
reread_type ConnType.default = none

parse_kind :
    (kind : ConnType) (address r : Bytes) (os : Options)
    → let u : Url = record { kind = kind; address = address; options = os } in
      parse (get_type_str u ++ (codes "://" ++ r)) ≡ parse_typed r (reread_type kind)
unfolding parse find type_of equal
parse_kind ConnType.tcp address r os = refl
parse_kind ConnType.mcp address r os = refl
parse_kind ConnType.unix address r os = refl
parse_kind ConnType.shm address r os = refl
parse_kind ConnType.udp address r os = refl
parse_kind ConnType.chronicle address r os = refl
parse_kind ConnType.default address r os = refl

parse_typed-print_options :
    (kind : Option ConnType) (address : Bytes) (os : Options)
    → is_empty address ≡ false
    → AllOptions os
    → Lacks 58 (address ++ print_options os)
    → Lacks 44 address
    → parse_typed (address ++ print_options os) kind ≡ reread kind address os
parse_typed-print_options none address os named oks plain whole = refl
parse_typed-print_options (some kind) address os named oks plain whole =
    parse_rest-print_options kind address os named oks plain whole

-- A TCP, multicast, shared-memory or Chronicle address without options is read back as it was printed,
-- and a Unix one as the TCP address of the same text. Where there are options, the first of them is read
-- as the end of the address, and the text behind the last comma, which is empty, is inserted as the
-- port. UDP addresses and those of the default type are refused. The address is not empty, has no `,`,
-- and nothing that is printed behind the type has a `:`; the names and values of the options are not
-- empty, a name has no `=` and neither has a `,`.
pub parse-print :
    (u : Url)
    → is_empty u.address ≡ false
    → AllOptions (in_order u.options)
    → Lacks 58 (u.address ++ print_options (in_order u.options))
    → Lacks 44 u.address
    → parse (print u) ≡ reread (reread_type u.kind) u.address (in_order u.options)
unfolding print
parse-print u named oks plain whole =
    let opts = in_order u.options in
    parse_kind u.kind u.address (u.address ++ print_options opts) u.options
    ∙ parse_typed-print_options (reread_type u.kind) u.address opts named oks plain whole
