-- ===== src/Url/RoundTrip.antt =====
-- Addresses written in the documented form, and what `parse` reads from them.
use conn.Common.{
  suc, ◌≡◌, refl, ap, ◌∙◌, Bool, true, false, List, [], ◌∷◌, ◌++◌, Option, none, some, Bytes, codes,
  equal, length, arith,
}
use conn.Url.{
  ConnType, Url, find_option, insert_option, getline, find, type_of, is_empty, option_loop,
  options_of, split_address, parse_rest, parse,
}
use conn.Url.Lines.{
  Lacks, split, take_line_at, take_line_end, find_at, find_none, take_front, drop_front,
}
use conn.Url.Options.{
  option_text, AllOptions, option_texts, joined, split-joined, option_texts-AllLack,
  option_loop-split, take_option_port, take_options, take_options-option_texts, insert_all,
  find_option-insert_all,
}

pub data Scheme : Type 0 where
  tcp mcp unix shm chr : Scheme

abbrev pub scheme_text : Scheme → Bytes
scheme_text Scheme.tcp = codes "tcp"
scheme_text Scheme.mcp = codes "mcp"
scheme_text Scheme.unix = codes "unix"
scheme_text Scheme.shm = codes "shm"
scheme_text Scheme.chr = codes "chr"

-- The type that is read: a Unix socket is read as TCP.
abbrev pub read_as : Scheme → ConnType
read_as Scheme.tcp = ConnType.tcp
read_as Scheme.mcp = ConnType.mcp
read_as Scheme.unix = ConnType.tcp
read_as Scheme.shm = ConnType.shm
read_as Scheme.chr = ConnType.chronicle

pub record Parts : Type 0 where
  pub scheme : Scheme
  pub host : Bytes
  pub port : Option Bytes
  pub options : List (Bytes × Bytes)

abbrev remainder_at : Bytes → List (Bytes × Bytes) → Option Bytes → Bytes
remainder_at host kvs none = joined host (option_texts kvs)
remainder_at host kvs (some port) = host ++ 58 ∷ joined port (option_texts kvs)

-- What stands behind `://`.
abbrev pub remainder : Parts → Bytes
remainder p = remainder_at p.host p.options p.port

abbrev pub text : Parts → Bytes
text p = scheme_text p.scheme ++ (codes "://" ++ remainder p)

-- The pairs that the options are looked up in: the port is one of them.
abbrev pub pairs : List (Bytes × Bytes) → Option Bytes → List (Bytes × Bytes)
pairs kvs none = kvs
pairs kvs (some port) = (codes "port", port) ∷ kvs

-- Without a port there is no `:` at all behind `://`; with one, none in front of it.
abbrev IsSplit : Bytes → List (Bytes × Bytes) → Option Bytes → Type 0
IsSplit host kvs none = Lacks 58 (joined host (option_texts kvs)) × Lacks 44 host
IsSplit host kvs (some port) = Lacks 58 host × Lacks 44 port × Lacks 61 port

pub record IsWritten (p : Parts) : Type 0 where
  pub named : is_empty p.host ≡ false
  pub options_ok : AllOptions p.options
  pub parts_ok : IsSplit p.host p.options p.port

parse_scheme :
    (s : Scheme) (r : Bytes)
    → parse (scheme_text s ++ (codes "://" ++ r)) ≡ parse_rest (read_as s) r
unfolding parse find type_of equal
parse_scheme Scheme.tcp r = refl
parse_scheme Scheme.mcp r = refl
parse_scheme Scheme.unix r = refl
parse_scheme Scheme.shm r = refl
parse_scheme Scheme.chr r = refl

pub options_of_good :
    (s : Bytes)
    → options_of (record { rest = s; good = true }) ≡ (take_options (split 44 s) (false, [])).1
options_of_good s =
    ap (λ st. st.1)
      (option_loop-split (suc (length s)) (record { rest = s; good = true }) (false, []) refl
        (omega arith))

options_joined :
    (o : Bytes × Bytes) (os : List (Bytes × Bytes))
    → AllOptions (o ∷ os)
    → options_of (record { rest = joined (option_text o) (option_texts os); good = true })
      ≡ insert_all [] (o ∷ os)
options_joined o os (ok, oks) =
    options_of_good (joined (option_text o) (option_texts os))
    ∙ ap (λ l. (take_options l (false, [])).1)
        (split-joined (option_text o) (option_texts os) ok.4 (option_texts-AllLack os oks))
    ∙ ap (λ st. st.1) (take_options-option_texts (o ∷ os) (false, []) (ok, oks))

options_port :
    (port : Bytes) (os : List (Bytes × Bytes))
    → Lacks 44 port
    → Lacks 61 port
    → AllOptions os
    → options_of (record { rest = joined port (option_texts os); good = true })
      ≡ insert_all ((codes "port", port) ∷ []) os
unfolding take_options insert_option find_option
options_port port os l m oks =
    options_of_good (joined port (option_texts os))
    ∙ ap (λ t. (take_options t (false, [])).1)
        (split-joined port (option_texts os) l (option_texts-AllLack os oks))
    ∙ ap (λ st. (take_options (option_texts os) st).1) (take_option_port port [] m)
    ∙ ap (λ st. st.1) (take_options-option_texts os (true, (codes "port", port) ∷ []) oks)

-- The address and what is left of the text behind it.
pub split_plain :
    (host r : Bytes)
    → Lacks 58 (host ++ 44 ∷ r)
    → Lacks 44 host
    → split_address (host ++ 44 ∷ r) (find (codes ":") (host ++ 44 ∷ r))
      ≡ (host, record { rest = r; good = true })
unfolding getline
split_plain host r k l = rw (find_none 58 (host ++ 44 ∷ r) k) (take_line_at 44 host r l)

pub split_alone :
    (host : Bytes)
    → Lacks 58 host
    → Lacks 44 host
    → split_address host (find (codes ":") host) ≡ (host, record { rest = []; good = false })
unfolding getline
split_alone host k l = rw (find_none 58 host k) (take_line_end 44 host l)

split_port :
    (host r : Bytes)
    → Lacks 58 host
    → split_address (host ++ 58 ∷ r) (find (codes ":") (host ++ 58 ∷ r))
      ≡ (host, record { rest = r; good = true })
split_port host r k =
    rw (find_at 58 host r k) (rw (take_front host (58 ∷ r), drop_front 58 host r) refl)

abbrev pub Reads : ConnType → Bytes → List (Bytes × Bytes) → Option Bytes → Bool × Url → Type 0
Reads c host kvs port (done, u) =
    (done ≡ true)
    × (u.kind ≡ c)
    × (u.address ≡ host)
    × ((key : Bytes) → find_option u.options key ≡ find_option (pairs kvs port) key)

parse_rest-Reads :
    (c : ConnType) (host : Bytes) (kvs : List (Bytes × Bytes)) (port : Option Bytes)
    → is_empty host ≡ false
    → AllOptions kvs
    → IsSplit host kvs port
    → Reads c host kvs port (parse_rest c (remainder_at host kvs port))
unfolding parse_rest option_loop
parse_rest-Reads c host [] none named ok (k, l) =
    rw (split_alone host k l, named) (refl, refl, refl, λ key. refl)
parse_rest-Reads c host (o ∷ os) none named ok (k, l) =
    rw (split_plain host (joined (option_text o) (option_texts os)) k l, named)
      (
        refl,
        refl,
        refl,
        λ key.
            ap (λ os. find_option os key) (options_joined o os ok)
            ∙ find_option-insert_all (o ∷ os) [] key,
      )
parse_rest-Reads c host kvs (some port) named ok (k, l, m) =
    rw (split_port host (joined port (option_texts kvs)) k, named)
      (
        refl,
        refl,
        refl,
        λ key.
            ap (λ os. find_option os key) (options_port port kvs l m ok)
            ∙ find_option-insert_all kvs ((codes "port", port) ∷ []) key,
      )

-- An address in the documented form is read with success: the type (with a Unix socket read as TCP),
-- the address, and for every name the value that stands first for it among the port and the options.
-- The address is not empty and has no `:`; the port has no `,` and no `=`; names and values are not
-- empty, a name has no `=` and neither has a `,`; and where there is no port, nothing behind `://`
-- has a `:` and the address no `,`.
pub parse-text :
    (p : Parts) → IsWritten p → Reads (read_as p.scheme) p.host p.options p.port (parse (text p))
parse-text p w =
    rw (parse_scheme p.scheme (remainder p))
      (parse_rest-Reads (read_as p.scheme) p.host p.options p.port w.named w.options_ok w.parts_ok)
