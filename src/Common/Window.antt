-- ===== src/Common/Window.antt =====
-- An array of `capacity` cells, reached by addresses that go round: `window` lists the values at
-- the addresses from one on.
use Prim.Native.Nat.{ℕ, zero, suc, ◌+◌, ◌-◌, ◌%◌, ◌≤◌, ◌<◌}
use mathlib.Core.List.{List, [], ◌∷◌, ◌++◌}
use mathlib.Core.Logic.{◌≢◌}
use mathlib.Core.Path.{◌≡◌, refl, sym, ap, ap₂, ◌∙◌}
use native.Mathlib.Nat.{add-mod_right}
use native.Mathlib.Omega.{arith}
use conn.Common.Lists.{length, drop}
use conn.Common.Tests.{◌==◌, if◌then◌else◌}
use conn.Common.Words.{mod-ne-mod}

module _ {ℓ} {A : Type ℓ} where
  -- The array with `v` in one cell.
  abbrev pub store : (ℕ → A) → ℕ → A → ℕ → A
  store cells cell v j = if j == cell then v else cells j

  pub store_self : (cells : ℕ → A) (cell : ℕ) (v : A) → store cells cell v cell ≡ v
  store_self cells cell v = ground arith

  pub store_ne : (cells : ℕ → A) (cell j : ℕ) (v : A) → j ≢ cell → store cells cell v j ≡ cells j
  store_ne cells cell j v h = ground arith

module _ {ℓ} {A : Type ℓ} (cells : ℕ → A) (capacity : ℕ) where
  -- The `n` values from address `i` on.
  abbrev pub window : ℕ → ℕ → List A
  window i zero = []
  window i (suc n) = cells (i % capacity) ∷ window (suc i) n

  pub length-window : (i n : ℕ) → length (window i n) ≡ n
  length-window i zero = refl
  length-window i (suc n) = ap suc (length-window (suc i) n)

  -- A round further on stand the same values.
  pub window_mirror : (i n : ℕ) → window (i + capacity) n ≡ window i n
  window_mirror i zero = refl
  window_mirror i (suc n) =
      ap₂ ◌∷◌ (ap cells (add-mod_right i capacity)) (shifted ∙ window_mirror (suc i) n)
    where
      shifted : window (suc (i + capacity)) n ≡ window (suc i + capacity) n
      shifted = ap (λ j. window j n) (omega arith)

  pub drop-window : (k i n : ℕ) → k ≤ n → drop k (window i n) ≡ window (i + k) (n - k)
  drop-window zero i n h = ap₂ window (omega arith) (omega arith)
  drop-window (suc k) i zero h = absurd (omega arith)
  drop-window (suc k) i (suc n) h =
      drop-window k (suc i) n (omega arith) ∙ ap₂ window (omega arith) (omega arith)

  pub window-append : (i n m : ℕ) → window i (n + m) ≡ window i n ++ window (i + n) m
  window-append i zero m = ap₂ window (omega arith) (omega arith)
  window-append i (suc n) m =
      let sum : suc n + m ≡ suc (n + m) = omega arith in
      let next : i + suc n ≡ suc i + n = omega arith in
      rw (sum, next) (ap (◌∷◌ (cells (i % capacity))) (window-append (suc i) n m))

module _ {ℓ} {A : Type ℓ} (cells : ℕ → A) (capacity : ℕ) (v : A) where
  -- A store behind a window, less than a round from its start, does not touch it.
  pub window-store_behind :
      (n i j : ℕ)
      → i + n ≤ j
      → j < i + capacity
      → window (store cells (j % capacity) v) capacity i n ≡ window cells capacity i n
  window-store_behind zero i j lo hi = refl
  window-store_behind (suc n) i j lo hi =
      ap₂ ◌∷◌
        (store_ne cells (j % capacity) (i % capacity) v (mod-ne-mod capacity i j (omega arith) hi))
        (window-store_behind n (suc i) j (omega arith) (omega arith))

  -- A store in front of a window, that ends within a round of it, does not touch it.
  pub window-store_before :
      (n i j : ℕ)
      → j < i
      → i + n ≤ j + capacity
      → window (store cells (j % capacity) v) capacity i n ≡ window cells capacity i n
  window-store_before zero i j lo hi = refl
  window-store_before (suc n) i j lo hi =
      ap₂ ◌∷◌
        (store_ne cells (j % capacity) (i % capacity) v
          (λ e. mod-ne-mod capacity j i lo (omega arith) (sym e)))
        (window-store_before n (suc i) j (omega arith) (omega arith))
