-- ===== src/Common/Memory.antt =====
-- Plain memory: a byte for each address, `slice` to read a run of bytes and `copy` for memcpy.
use Prim.Native.Nat.{ℕ, zero, suc, ◌+◌, ◌≤◌, ◌<◌}
use mathlib.Core.List.{[], ◌∷◌, ◌++◌}
use mathlib.Core.Path.{◌≡◌, refl, ap, ap₂, ◌∙◌}
use native.Mathlib.Omega.{arith}
use conn.Common.Lists.{length}
use conn.Common.Texts.{Bytes}
use conn.Common.Window.{store}

abbrev pub slice : (ℕ → ℕ) → ℕ → ℕ → Bytes
slice mem i zero = []
slice mem i (suc n) = mem i ∷ slice mem (suc i) n

unfoldable pub copy : (ℕ → ℕ) → ℕ → Bytes → ℕ → ℕ
copy mem i [] = mem
copy mem i (b ∷ bs) = copy (store mem i b) (suc i) bs

pub length-slice : (mem : ℕ → ℕ) (i n : ℕ) → length (slice mem i n) ≡ n
length-slice mem i zero = refl
length-slice mem i (suc n) = ap suc (length-slice mem (suc i) n)

pub slice-append :
    (mem : ℕ → ℕ) (i n m : ℕ) → slice mem i (n + m) ≡ slice mem i n ++ slice mem (i + n) m
slice-append mem i zero m = ap₂ (slice mem) (omega arith) (omega arith)
slice-append mem i (suc n) m =
    let sum : suc n + m ≡ suc (n + m) = omega arith in
    let next : i + suc n ≡ suc i + n = omega arith in
    rw (sum, next) (ap (◌∷◌ (mem i)) (slice-append mem (suc i) n m))

copy_skip : (bs : Bytes) (mem : ℕ → ℕ) (i j : ℕ) → i < j → copy mem j bs i ≡ mem i
unfolding copy
copy_skip [] mem i j h = refl
copy_skip (b ∷ bs) mem i j h = copy_skip bs (store mem j b) i (suc j) (omega arith) ∙ ground arith

-- A copy does not touch what lies in front of it.
pub slice-copy_before :
    (bs : Bytes) (mem : ℕ → ℕ) (n i j : ℕ) → i + n ≤ j → slice (copy mem j bs) i n ≡ slice mem i n
slice-copy_before bs mem zero i j h = refl
slice-copy_before bs mem (suc n) i j h =
    ap₂ ◌∷◌ (copy_skip bs mem i j (omega arith))
      (slice-copy_before bs mem n (suc i) j (omega arith))

pub slice-copy : (bs : Bytes) (mem : ℕ → ℕ) (j : ℕ) → slice (copy mem j bs) j (length bs) ≡ bs
unfolding copy
slice-copy [] mem j = refl
slice-copy (b ∷ bs) mem j =
    ap₂ ◌∷◌ (copy_skip bs (store mem j b) j (suc j) (omega arith) ∙ ground arith)
      (slice-copy bs (store mem j b) (suc j))
