-- ===== src/DpReg/HighProduct.antt =====
-- UMULH: four partial products and their carries make the high word of the product.
use native.Mathlib.Nat.{mul-le-mul}
use alpine_on_ios.Bits.{and_mask}
use alpine_on_ios.DpReg.ThreeSource.{umulh}
use alpine_on_ios.Prelude.{ℕ, ◌-◌, ◌+◌, ◌*◌, ◌/◌, ◌%◌, ◌^◌, ◌≤◌, ◌<◌, ◌≡◌, arith, ap, sym, ◌∙◌}

-- The product of two halves leaves room for a carry below 2 ^ 32.
half_product : (a b : ℕ) → a < 2 ^ 32 → b < 2 ^ 32 → a * b ≤ (2 ^ 32 - 1) * (2 ^ 32 - 1)
half_product a b ha hb = mul-le-mul {n₂ = 2 ^ 32 - 1} {m₂ = 2 ^ 32 - 1} (omega arith) (omega arith)

product :
    (n m a b c d : ℕ)
    → n ≡ a * 2 ^ 32 + b
    → m ≡ c * 2 ^ 32 + d
    → n * m ≡ a * c * 2 ^ 64 + (a * d + b * c) * 2 ^ 32 + b * d
product n m a b c d e g =
    omega (arith, ap (λ (t : ℕ). t * m) e, ap (λ (t : ℕ). (a * 2 ^ 32 + b) * t) g)

-- The product of two words by their halves.
by_halves :
    (n m : ℕ)
    → n * m
      ≡ n / 2 ^ 32 * (m / 2 ^ 32) * 2 ^ 64
        + (n / 2 ^ 32 * (m % 2 ^ 32) + n % 2 ^ 32 * (m / 2 ^ 32)) * 2 ^ 32
        + n % 2 ^ 32 * (m % 2 ^ 32)
by_halves n m =
    product n m (n / 2 ^ 32) (n % 2 ^ 32) (m / 2 ^ 32) (m % 2 ^ 32) (omega arith) (omega arith)

-- The carries of the column sums: `a`, `b`, `c` and `d` are the four partial products.
carries :
    (a b c d : ℕ)
    → a ≤ (2 ^ 32 - 1) * (2 ^ 32 - 1)
    → b ≤ (2 ^ 32 - 1) * (2 ^ 32 - 1)
    → c ≤ (2 ^ 32 - 1) * (2 ^ 32 - 1)
    → d ≤ (2 ^ 32 - 1) * (2 ^ 32 - 1)
    → let t1 = (c % 2 ^ 64 + d % 2 ^ 64 / 2 ^ 32) % 2 ^ 64 in
      let t2 = (b % 2 ^ 64 + t1 % 2 ^ 32) % 2 ^ 64 in
      ((a % 2 ^ 64 + t1 / 2 ^ 32) % 2 ^ 64 + t2 / 2 ^ 32) % 2 ^ 64
      ≡ (a * 2 ^ 64 + (b + c) * 2 ^ 32 + d) / 2 ^ 64
carries a b c d ha hb hc hd = omega arith

-- UMULH, computed from four partial products and their carries, is the high word of the full
-- product of two words.
pub umulh_lem : (n m : ℕ) → n < 2 ^ 64 → m < 2 ^ 64 → umulh n m ≡ n * m / 2 ^ 64
unfolding umulh
umulh_lem n m hn hm =
    let a = n / 2 ^ 32 in
    let b = n % 2 ^ 32 in
    let c = m / 2 ^ 32 in
    let d = m % 2 ^ 32 in
    rw (and_mask 32 n, and_mask 32 m, and_mask 32)
      (carries (a * c) (a * d) (b * c) (b * d) (half_product a c (omega arith) (omega arith))
          (half_product a d (omega arith) (omega arith))
          (half_product b c (omega arith) (omega arith))
          (half_product b d (omega arith) (omega arith))
        ∙ ap (λ (t : ℕ). t / 2 ^ 64) (sym (by_halves n m)))
