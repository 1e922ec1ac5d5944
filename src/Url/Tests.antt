-- ===== src/Url/Tests.antt =====
-- The examples of Url.h.
use conn.Common.{◌≡◌, refl, true, some, [], ◌∷◌, codes, less, equal, arith}
use conn.Url.{
  ConnType, Url, parse, parse_rest, find, type_of, option_loop, take_option, getline, take_line,
  find_option, insert_option,
}
use conn.Url.Print.{place, in_order, print_options, print, reread, parse-print}
use conn.Url.RoundTrip.{Scheme, Parts, text, IsWritten, Reads, parse-text}

parse_tcp : parse (codes "tcp://192.168.0.10:25001,rmax=1000") ≡ (
  true,
  record {
    kind = ConnType.tcp;
    address = codes "192.168.0.10";
    options = (codes "port", codes "25001") ∷ (codes "rmax", codes "1000") ∷ [];
  },
)
unfolding parse parse_rest find type_of option_loop take_option getline take_line find_option
    insert_option equal
parse_tcp = refl

abbrev feed : Parts
feed = record {
  scheme = Scheme.mcp;
  host = codes "233.24.10.1";
  port = some (codes "19601");
  options = (codes "ttl", codes "2") ∷ [];
}

feed-IsWritten : IsWritten feed
feed-IsWritten = record { named = refl; options_ok = ground arith; parts_ok = ground arith }

parse-text_example : Reads ConnType.mcp feed.host feed.options feed.port (parse (text feed))
parse-text_example = parse-text feed feed-IsWritten

abbrev shared : Url
shared = record {
  kind = ConnType.shm;
  address = codes "book";
  options = (codes "size", codes "9") ∷ (codes "rmax", codes "7") ∷ [];
}

print_shared : print shared ≡ codes "shm://bookrmax=7,size=9,"
unfolding print in_order place print_options less
print_shared = refl

parse-print_example :
    parse (print shared)
    ≡ reread
        (some ConnType.shm)
        (codes "book")
        ((codes "rmax", codes "7") ∷ (codes "size", codes "9") ∷ [])
unfolding print_options in_order place less
parse-print_example = parse-print shared refl (ground arith) (ground arith) (ground arith)
