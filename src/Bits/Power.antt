-- ===== src/Bits/Power.antt =====
-- Powers of two, and products by them.
use native.Mathlib.Nat.{
  pow-suc, mul_assoc, add-suc, add-mul-mod_self_left, mod-eq_of_lt, mod-lt, mod-add-div,
  mul-lt-mul_of_pos_right,
}
use alpine_on_ios.Prelude.{
  ℕ, zero, suc, ◌+◌, ◌-◌, ◌*◌, ◌/◌, ◌%◌, ◌^◌, ◌≤◌, ◌<◌, ◌≡◌, arith, ap, ◌∙◌,
}

pub two_pow_add : (a b : ℕ) → 2 ^ (a + b) ≡ 2 ^ a * 2 ^ b
two_pow_add a zero = ground arith
two_pow_add a (suc b) = rw (add-suc, pow-suc, two_pow_add a b, pow-suc, mul_assoc)

-- The two factors of a word's modulus.
pub two_pow_parts : (k n : ℕ) → k ≤ n → 2 ^ k * 2 ^ (n - k) ≡ 2 ^ n
two_pow_parts k n h = omega (arith, two_pow_add k (n - k), ap (λ (t : ℕ). 2 ^ t) (back k n h))
  where
    back : (k n : ℕ) → k ≤ n → k + (n - k) ≡ n
    back k n h = omega arith

-- A left shift in a word keeps the low digits.
pub mul-mod : (v m p : ℕ) → 0 < m → 0 < p → v * p % (m * p) ≡ v % m * p
mul-mod v m p hm hp =
    ap (λ (t : ℕ). t % (m * p)) (parts v m p)
    ∙ add-mul-mod_self_left (v % m * p) (m * p) (v / m)
    ∙ mod-eq_of_lt (mul-lt-mul_of_pos_right (mod-lt v hm) hp)
  where
    parts : (v m p : ℕ) → v * p ≡ v % m * p + m * p * (v / m)
    parts v m p = omega (arith, ap (λ (t : ℕ). t * p) (mod-add-div v m))
