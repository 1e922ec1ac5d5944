-- ===== src/Operators/Streams.antt =====
-- `std::istream` as common/Operators.h uses it: formatted characters, and a look at the next one.
use conn.Common.{ℕ, Bool, true, false, [], ◌∷◌, ◌==◌, is_space, if◌then◌else◌, Bytes, ◌≡◌, refl}
use conn.Url.{Stream}

abbrev pub good : Bytes → Stream
good s = record { rest = s; good = true }

-- `is >> c` on a good stream: space is skipped; at the end the stream fails and `c` keeps its value.
unfoldable pub next_char : Bytes → ℕ → ℕ × Stream
next_char [] c = (c, record { rest = []; good = false })
next_char (x ∷ xs) c = let rest = next_char xs c in if is_space x then rest else (x, good xs)

unfoldable pub get_char : Stream → ℕ → ℕ × Stream
unfolding next_char
get_char s c = if s.good then next_char s.rest c else (c, s)

abbrev peek_rest : ℕ → Bytes → Bool × Stream
peek_rest c [] = (false, record { rest = []; good = false })
peek_rest c (x ∷ xs) = (x == c, good (x ∷ xs))

-- Whether `peek()` is the character `c`, not 0; at the end the stream is no longer good.
unfoldable pub peek_is : ℕ → Stream → Bool × Stream
peek_is c s = if s.good then peek_rest c s.rest else (false, s)

-- The whitespace of a text is skipped when it is read by characters.
unfoldable pub squeeze : Bytes → Bytes
squeeze [] = []
squeeze (x ∷ xs) = let rest = squeeze xs in if is_space x then rest else x ∷ rest

pub get_char_at :
    (x c : ℕ) (s : Bytes) → is_space x ≡ false → get_char (good (x ∷ s)) c ≡ (x, good s)
unfolding get_char
get_char_at x c s visible = rw visible refl
