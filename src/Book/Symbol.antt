-- ===== src/Book/Symbol.antt =====
-- engine/book/SymbolType.h: a symbol in 64 characters, which is ended by a 0 only if it is shorter.
use conn.Common.{
  ℕ, zero, suc, ◌-◌, ◌≡◌, refl, ap, Bool, true, false, ◌||◌, [], ◌∷◌, ◌++◌, Option, none, some,
  if◌then◌else◌, ltb, ◌==◌, Bytes, length, take, replicate, upto, upto-append, arith, lt→ltb,
  not_lt→ltb,
}
use native.Mathlib.Decide.{dec_lt}
use mathlib.Core.List.{append-nil}

-- `setSymbol`: the 64 characters are cleared, and as many as there are of the symbol put in front.
unfoldable pub set_symbol : Bytes → Bytes
set_symbol symbol =
    let len = if ltb (length symbol) 64 then length symbol else 64 in
    take len symbol ++ replicate (64 - len) 0

abbrev pub has_end : Bytes → Bool
has_end [] = false
has_end (c ∷ val) = c == 0 || has_end val

-- `to_string`: the characters up to the first 0; `none` where there is none and the read goes on behind
-- the array.
unfoldable pub to_string : Bytes → Option Bytes
to_string val = if has_end val then some (upto 0 val) else none

has_end-append : (a b : Bytes) → has_end b ≡ true → has_end (a ++ b) ≡ true
has_end-append [] b h = h
has_end-append (c ∷ a) b h = let rest = has_end-append a b h in ground (arith, rest)

take_whole : (s : Bytes) → take (length s) s ≡ s
take_whole [] = refl
take_whole (x ∷ s) = ap (λ t. x ∷ t) (take_whole s)

no_end-take : (n : ℕ) (s : Bytes) → upto 0 s ≡ s → has_end (take n s) ≡ false
unfolding upto
no_end-take zero s h = refl
no_end-take (suc n) [] h = refl
no_end-take (suc n) (x ∷ s) h = let rest = no_end-take n s in ground (arith, rest)

-- A symbol without a 0 is read back if it has fewer than 64 characters; a longer one has no end, and
-- reading it runs over the array.
pub to_string-set_symbol :
    (s : Bytes)
    → upto 0 s ≡ s
    → to_string (set_symbol s) ≡ (if ltb (length s) 64 then some s else none)
unfolding to_string set_symbol
to_string-set_symbol s h = elim (dec_lt (length s) 64) [
  | yes short ↦
      let tail : replicate {A = ℕ} (64 - length s) 0 ≡ 0 ∷ replicate (63 - length s) 0 =
        ap (λ n. replicate n 0) {y = suc (63 - length s)} (omega arith) in
      rw (lt→ltb (length s) 64 short, take_whole s, tail)
        (rw
          (
            has_end-append s (0 ∷ replicate (63 - length s) 0) refl,
            upto-append 0 s (replicate (63 - length s) 0) h,
          )
          refl)
  | no long ↦ rw (not_lt→ltb (length s) 64 long, append-nil (take 64 s), no_end-take 64 s h) refl
]
