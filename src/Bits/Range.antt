-- ===== src/Bits/Range.antt =====
-- Ranges of the operations, the operations with 0, masks, single bits and disjoint fields.
use Prim.Native.Nat.{bit_and-bitwise}
use native.Mathlib.Nat.{pow-suc, one-le-pow}
use alpine_on_ios.Bits.Step.{and_step, or_step, xor_step}
use alpine_on_ios.Bits.Split.{and_split, or_split}
use alpine_on_ios.Prelude.{
  ℕ, zero, suc, ◌+◌, ◌-◌, ◌*◌, ◌/◌, ◌%◌, ◌^◌, ◌≤◌, ◌<◌, bit_and, bit_or, bit_xor, ◌≡◌, arith,
}

zero_and : (b : ℕ) → bit_and 0 b ≡ 0
zero_and b = bit_and-bitwise 0 b

pub and-lt : (k a b : ℕ) → a < 2 ^ k → bit_and a b < 2 ^ k
and-lt zero a b h = ground (arith, zero_and b)
and-lt (suc k) a b h = ground (arith, and_step a b, pow-suc 2 k, and-lt k (a / 2) (b / 2))

and_zero_fuel : (n a : ℕ) → a ≤ n → bit_and a 0 ≡ 0
and_zero_fuel zero zero h = omega (arith, and_step 0 0)
and_zero_fuel zero (suc a) h = absurd (omega arith)
and_zero_fuel (suc n) a h = ground (arith, and_step a 0, and_zero_fuel n (a / 2))

pub and_zero : (a : ℕ) → bit_and a 0 ≡ 0
and_zero a = and_zero_fuel a a (omega arith)

-- The same with the bound on the other side.
pub and-lt_right : (k a b : ℕ) → b < 2 ^ k → bit_and a b < 2 ^ k
and-lt_right zero a b h = ground (arith, and_zero a)
and-lt_right (suc k) a b h =
    ground (arith, and_step a b, pow-suc 2 k, and-lt_right k (a / 2) (b / 2))

pub or-lt : (k a b : ℕ) → a < 2 ^ k → b < 2 ^ k → bit_or a b < 2 ^ k
or-lt zero a b h g = ground arith
or-lt (suc k) a b h g = ground (arith, or_step a b, pow-suc 2 k, or-lt k (a / 2) (b / 2))

pub xor-lt : (k a b : ℕ) → a < 2 ^ k → b < 2 ^ k → bit_xor a b < 2 ^ k
xor-lt zero a b h g = ground arith
xor-lt (suc k) a b h g = ground (arith, xor_step a b, pow-suc 2 k, xor-lt k (a / 2) (b / 2))

pub or_zero : (k a : ℕ) → a < 2 ^ k → bit_or a 0 ≡ a
or_zero zero a h = ground arith
or_zero (suc k) a h = ground (arith, or_step a 0, pow-suc 2 k, or_zero k (a / 2))

pub zero_or : (k b : ℕ) → b < 2 ^ k → bit_or 0 b ≡ b
zero_or zero b h = ground arith
zero_or (suc k) b h = ground (arith, or_step 0 b, pow-suc 2 k, zero_or k (b / 2))

and_ones : (k a : ℕ) → a < 2 ^ k → bit_and a (2 ^ k - 1) ≡ a
and_ones zero a h = ground arith
and_ones (suc k) a h =
    ground (arith, and_step a (2 ^ suc k - 1), pow-suc 2 k, one-le-pow k 2, and_ones k (a / 2))

-- A mask of `k` ones keeps the low `k` digits.
pub and_mask : (k a : ℕ) → bit_and a (2 ^ k - 1) ≡ a % 2 ^ k
and_mask k a = ground (
  arith,
  one-le-pow k 2,
  and_split k (a / 2 ^ k) (a % 2 ^ k) 0 (2 ^ k - 1),
  and_zero (a / 2 ^ k),
  and_ones k (a % 2 ^ k),
)

pub and_one : (a : ℕ) → bit_and a 1 ≡ a % 2
and_one a = and_mask 1 a

-- A single one picks out a digit.
pub and_bit : (k a : ℕ) → bit_and a (2 ^ k) ≡ a / 2 ^ k % 2 * 2 ^ k
and_bit k a = ground (
  arith,
  one-le-pow k 2,
  and_split k (a / 2 ^ k) (a % 2 ^ k) 1 0,
  and_one (a / 2 ^ k),
  and_zero (a % 2 ^ k),
)

-- A mask of `j` ones above `k` zeros clears the low `k` digits.
pub and_high : (k j a : ℕ) → bit_and a ((2 ^ j - 1) * 2 ^ k) ≡ a / 2 ^ k % 2 ^ j * 2 ^ k
and_high k j a = ground (
  arith,
  one-le-pow k 2,
  and_split k (a / 2 ^ k) (a % 2 ^ k) (2 ^ j - 1) 0,
  and_mask j (a / 2 ^ k),
  and_zero (a % 2 ^ k),
)

-- `|` of a number above `k` digits and one below them is their sum.
pub or_fields : (k j q r : ℕ) → q < 2 ^ j → r < 2 ^ k → bit_or (q * 2 ^ k) r ≡ q * 2 ^ k + r
or_fields k j q r hq hr =
    ground (arith, one-le-pow k 2, or_split k q 0 0 r, or_zero j q, zero_or k r)

pub fields_or : (k j q r : ℕ) → q < 2 ^ j → r < 2 ^ k → bit_or r (q * 2 ^ k) ≡ q * 2 ^ k + r
fields_or k j q r hq hr =
    ground (arith, one-le-pow k 2, or_split k 0 r q 0, zero_or j q, or_zero k r)

and_trans_fuel : (n a b c : ℕ) → c ≤ n → bit_and a b ≡ b → bit_and b c ≡ c → bit_and a c ≡ c
and_trans_fuel zero a b c h p q = ground (arith, and_zero a)
and_trans_fuel (suc n) a b c h p q =
    ground
      (arith, and_step a b, and_step b c, and_step a c, and_trans_fuel n (a / 2) (b / 2) (c / 2))

-- Permissions within permissions.
pub and_trans : (a b c : ℕ) → bit_and a b ≡ b → bit_and b c ≡ c → bit_and a c ≡ c
and_trans a b c = and_trans_fuel c a b c (omega arith)
