-- ===== src/Bits/Digit.antt =====
-- A single binary digit of a result.
use Prim.Native.Nat.{min, max}
use native.Mathlib.Nat.{pow-suc}
use alpine_on_ios.Bits.Step.{and_step, or_step, xor_step}
use alpine_on_ios.Prelude.{
  ℕ, zero, suc, ◌+◌, ◌/◌, ◌%◌, ◌^◌, bit_and, bit_or, bit_xor, ◌-◌, ◌<◌, ◌≡◌, ◌≢◌, refl, arith, ap,
}
use native.Mathlib.Nat.{div-div-eq-div-mul, mul_comm, zero-div}

-- A binary digit: 1 if the bit is set.
abbrev pub digit : ℕ → ℕ → ℕ
digit n k = n / 2 ^ k % 2

-- Shifting by one more is halving first.
pub div_two_pow : (a k : ℕ) → a / 2 ^ suc k ≡ a / 2 / 2 ^ k
div_two_pow a k = rw (pow-suc, mul_comm, ← div-div-eq-div-mul)

pub and_digit : (k a b : ℕ) → bit_and a b / 2 ^ k % 2 ≡ min (a / 2 ^ k % 2) (b / 2 ^ k % 2)
and_digit zero a b = omega (arith, and_step a b)
and_digit (suc k) a b = omega (
  arith,
  and_step a b,
  div_two_pow a k,
  div_two_pow b k,
  div_two_pow (bit_and a b) k,
  ap (λ (t : ℕ). t / 2 ^ k) (half a b),
  and_digit k (a / 2) (b / 2),
)
  where
    half : (a b : ℕ) → bit_and a b / 2 ≡ bit_and (a / 2) (b / 2)
    half a b = omega (arith, and_step a b)

pub or_digit : (k a b : ℕ) → bit_or a b / 2 ^ k % 2 ≡ max (a / 2 ^ k % 2) (b / 2 ^ k % 2)
or_digit zero a b = omega (arith, or_step a b)
or_digit (suc k) a b = omega (
  arith,
  or_step a b,
  div_two_pow a k,
  div_two_pow b k,
  div_two_pow (bit_or a b) k,
  ap (λ (t : ℕ). t / 2 ^ k) (half a b),
  or_digit k (a / 2) (b / 2),
)
  where
    half : (a b : ℕ) → bit_or a b / 2 ≡ bit_or (a / 2) (b / 2)
    half a b = omega (arith, or_step a b)

pub xor_digit : (k a b : ℕ) → bit_xor a b / 2 ^ k % 2 ≡ (a / 2 ^ k + b / 2 ^ k) % 2
xor_digit zero a b = omega (arith, xor_step a b)
xor_digit (suc k) a b = omega (
  arith,
  xor_step a b,
  div_two_pow a k,
  div_two_pow b k,
  div_two_pow (bit_xor a b) k,
  ap (λ (t : ℕ). t / 2 ^ k) (half a b),
  xor_digit k (a / 2) (b / 2),
)
  where
    half : (a b : ℕ) → bit_xor a b / 2 ≡ bit_xor (a / 2) (b / 2)
    half a b = omega (arith, xor_step a b)

-- The complement of a word of `n` digits.
pub complement_digit :
    (k n b : ℕ) → k < n → b < 2 ^ n → (2 ^ n - 1 - b) / 2 ^ k % 2 ≡ 1 - b / 2 ^ k % 2
complement_digit k zero b h l = absurd (omega arith)
complement_digit zero (suc n) b h l = omega (arith, pow-suc 2 n)
complement_digit (suc k) (suc n) b h l =
    let whole : (2 ^ suc n - 1 - b) / 2 ≡ 2 ^ n - 1 - b / 2 = omega (arith, pow-suc 2 n, l) in
    omega (
      arith,
      div_two_pow (2 ^ suc n - 1 - b) k,
      div_two_pow b k,
      ap (λ (t : ℕ). t / 2 ^ k % 2) whole,
      complement_digit k n (b / 2) (omega arith) (omega (arith, pow-suc 2 n, l)),
    )

-- A power of two has one digit.
pub power_digit_self : (k : ℕ) → 2 ^ k / 2 ^ k % 2 ≡ 1
power_digit_self zero = refl
power_digit_self (suc k) =
    let whole : 2 ^ suc k / 2 ≡ 2 ^ k = omega (arith, pow-suc 2 k) in
    omega
      (arith, div_two_pow (2 ^ suc k) k, ap (λ (t : ℕ). t / 2 ^ k % 2) whole, power_digit_self k)

pub power_digit_other : (j k : ℕ) → j ≢ k → 2 ^ j / 2 ^ k % 2 ≡ 0
power_digit_other zero zero h = absurd (h refl)
power_digit_other (suc j) zero h = omega (arith, pow-suc 2 j)
power_digit_other zero (suc k) h = omega (arith, div_two_pow 1 k, zero-div (2 ^ k))
power_digit_other (suc j) (suc k) h =
    let whole : 2 ^ suc j / 2 ≡ 2 ^ j = omega (arith, pow-suc 2 j) in
    omega (
      arith,
      div_two_pow (2 ^ suc j) k,
      ap (λ (t : ℕ). t / 2 ^ k % 2) whole,
      power_digit_other j k (λ e. h (ap suc e)),
    )
