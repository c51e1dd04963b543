-- ===== src/Bits/Split.antt =====
-- Each operation acts on the high part and on the low part of its operands apart.
use native.Mathlib.Nat.{pow-suc}
use alpine_on_ios.Bits.Step.{and_step, or_step, xor_step}
use alpine_on_ios.Prelude.{
  ℕ, zero, suc, ◌+◌, ◌*◌, ◌/◌, ◌^◌, ◌<◌, bit_and, bit_or, bit_xor, ◌≡◌, arith, ap,
}

pub mul_two_pow : (q k : ℕ) → q * 2 ^ suc k ≡ 2 * (q * 2 ^ k)
mul_two_pow q k = omega (arith, ap (λ (t : ℕ). q * t) (pow-suc 2 k))

pub and_split :
    (k q r p s : ℕ)
    → r < 2 ^ k
    → s < 2 ^ k
    → bit_and (q * 2 ^ k + r) (p * 2 ^ k + s) ≡ bit_and q p * 2 ^ k + bit_and r s
and_split zero q r p s hr hs = ground arith
and_split (suc k) q r p s hr hs = ground (
  arith,
  and_step (q * 2 ^ suc k + r) (p * 2 ^ suc k + s),
  and_step r s,
  mul_two_pow q k,
  mul_two_pow p k,
  mul_two_pow (bit_and q p) k,
  pow-suc 2 k,
  and_split k q (r / 2) p (s / 2),
)

pub or_split :
    (k q r p s : ℕ)
    → r < 2 ^ k
    → s < 2 ^ k
    → bit_or (q * 2 ^ k + r) (p * 2 ^ k + s) ≡ bit_or q p * 2 ^ k + bit_or r s
or_split zero q r p s hr hs = ground arith
or_split (suc k) q r p s hr hs = ground (
  arith,
  or_step (q * 2 ^ suc k + r) (p * 2 ^ suc k + s),
  or_step r s,
  mul_two_pow q k,
  mul_two_pow p k,
  mul_two_pow (bit_or q p) k,
  pow-suc 2 k,
  or_split k q (r / 2) p (s / 2),
)

pub xor_split :
    (k q r p s : ℕ)
    → r < 2 ^ k
    → s < 2 ^ k
    → bit_xor (q * 2 ^ k + r) (p * 2 ^ k + s) ≡ bit_xor q p * 2 ^ k + bit_xor r s
xor_split zero q r p s hr hs = ground arith
xor_split (suc k) q r p s hr hs = ground (
  arith,
  xor_step (q * 2 ^ suc k + r) (p * 2 ^ suc k + s),
  xor_step r s,
  mul_two_pow q k,
  mul_two_pow p k,
  mul_two_pow (bit_xor q p) k,
  pow-suc 2 k,
  xor_split k q (r / 2) p (s / 2),
)
