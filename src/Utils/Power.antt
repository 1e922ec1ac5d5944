-- ===== src/Utils/Power.antt =====
-- `next_power_2`: where it ends, and where it does not.
use conn.Common.{
  ℕ, zero, suc, ◌+◌, ◌*◌, ◌%◌, ◌^◌, ◌≤◌, ◌<◌, ◌≡◌, refl, sym, ap, ◌∙◌, true, false, none, some, leb,
  arith, ◌⊎◌, inl, inr,
}
use native.Mathlib.Decide.{dec_le}
use native.Mathlib.Nat.{pow-suc, mul_assoc, mul_comm}
use conn.Utils.{power_loop, next_power_2}

leb-true : (a b : ℕ) → a ≤ b → leb a b ≡ true
leb-true a b h = ground arith

leb-false : (a b : ℕ) → ¬ (a ≤ b) → leb a b ≡ false
leb-false a b h = ground arith

pow_suc : (k : ℕ) → 2 ^ suc k ≡ 2 ^ k * 2
pow_suc k = omega arith

swap_two : (k n : ℕ) → 2 ^ suc k * 2 ^ n ≡ 2 ^ k * 2 ^ suc n
swap_two k n =
    rw (pow-suc 2 k, pow-suc 2 n)
      (mul_assoc (2 ^ k) 2 (2 ^ n) ∙ ap (λ m. 2 ^ k * m) (mul_comm 2 (2 ^ n)))

power_loop-ends :
    (n k x : ℕ)
    → x < 2 ^ 31
    → 2 ^ k ≤ 2 * x + 1
    → x < 2 ^ k * 2 ^ n
    → (j : ℕ) × (power_loop n x (2 ^ k) ≡ some (2 ^ j)) × (x < 2 ^ j) × (2 ^ j ≤ 2 * x + 1)
unfolding power_loop
power_loop-ends zero k x h low enough =
    rw (leb-false (2 ^ k) x (omega arith)) (k, refl, omega arith, low)
power_loop-ends (suc n) k x h low enough = elim (dec_le (2 ^ k) x) [
  | no over ↦ rw (leb-false (2 ^ k) x over) (k, refl, omega arith, low)
  | yes under ↦
      let twice : 2 ^ k * 2 % 2 ^ 32 ≡ 2 ^ suc k = omega (arith, pow_suc k) in
      let same : 2 ^ suc k * 2 ^ n ≡ 2 ^ k * 2 ^ suc n = swap_two k n in
      let rest = power_loop-ends n (suc k) x h (omega (arith, pow_suc k)) (rw same enough) in
      rw (leb-true (2 ^ k) x under, twice) rest
]

-- `next_power_2` of a number below 2 ^ 31 ends within 32 rounds, with a power of 2 above the number and
-- at most twice the number, or 1 for the number 0.
pub next_power_2-ends :
    (x : ℕ)
    → x < 2 ^ 31
    → (j : ℕ) × (next_power_2 32 x ≡ some (2 ^ j)) × (x < 2 ^ j) × (2 ^ j ≤ 2 * x + 1)
unfolding next_power_2
next_power_2-ends x h = power_loop-ends 32 0 x h (omega arith) (omega arith)

-- The values that the loop goes through: the powers of 2 up to 2 ^ 31, and 0 from then on.
abbrev IsStep : ℕ → Type 0
IsStep v = (v ≡ 0) ⊎ ((k : ℕ) × (v * 2 ^ k ≡ 2 ^ 31))

pow_pos : (k : ℕ) → 0 < 2 ^ k
pow_pos zero = omega arith
pow_pos (suc k) = omega (arith, pow_pos k)

below_product : (v p : ℕ) → 0 < p → v ≤ v * p
below_product v zero h = absurd (omega arith)
below_product v (suc p) h = omega arith

IsStep-le : (v : ℕ) → IsStep v → v ≤ 2 ^ 31
IsStep-le v (inl z) = omega arith
IsStep-le v (inr (k, e)) = omega (arith, below_product v (2 ^ k) (pow_pos k))

IsStep-next : (v : ℕ) → IsStep v → IsStep (v * 2 % 2 ^ 32)
IsStep-next v (inl z) = inl (omega arith)
IsStep-next v (inr (zero, e)) = inl (omega arith)
IsStep-next v (inr (suc k, e)) =
    let twice : v * 2 * 2 ^ k ≡ 2 ^ 31 =
      mul_assoc v 2 (2 ^ k) ∙ ap (λ m. v * m) (mul_comm 2 (2 ^ k) ∙ sym (pow-suc 2 k)) ∙ e in
    let low : v * 2 % 2 ^ 32 ≡ v * 2 = omega (arith, below_product (v * 2) (2 ^ k) (pow_pos k)) in
    inr (k, rw low twice)

power_loop-endless : (n x v : ℕ) → 2 ^ 31 ≤ x → IsStep v → power_loop n x v ≡ none
unfolding power_loop
power_loop-endless zero x v h s = rw (leb-true v x (omega (arith, IsStep-le v s))) refl
power_loop-endless (suc n) x v h s =
    rw (leb-true v x (omega (arith, IsStep-le v s)))
      (power_loop-endless n x (v * 2 % 2 ^ 32) h (IsStep-next v s))

-- `next_power_2` of a number of 2 ^ 31 or more never ends: the value runs over to 0.
pub next_power_2-endless : (n x : ℕ) → 2 ^ 31 ≤ x → next_power_2 n x ≡ none
unfolding next_power_2
next_power_2-endless n x h = power_loop-endless n x 1 h (inr (31, refl))
