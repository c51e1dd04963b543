-- ===== src/Cpu/Fields.antt =====
-- `bits`, `bit` and `sign_extend` of emu/include/cpu.h.
use alpine_on_ios.Bits.{and_mask, and_one, two_pow_parts, mul-mod}
use native.Mathlib.Nat.{
  mod-lt, mul-div_cancel, one-le-pow, mul-lt-mul_of_pos_right, mul-le-mul_right,
}
use alpine_on_ios.Prelude.{
  ℕ, ◌+◌, ◌-◌, ◌*◌, ◌/◌, ◌%◌, ◌^◌, ◌≤◌, ◌<◌, bit_and, ◌≡◌, ◌∙◌, sym, ap, inl, inr, arith,
  Bool-cases, ltb, ltb→lt, lt→ltb, ltb→le, le→ltb, if◌then◌else◌, shr, shl64, asr64,
}

-- Every caller asks for a width below 32, so `1u << width` is `2 ^ width`.
unfoldable pub bits : ℕ → ℕ → ℕ → ℕ
bits val hi lo = bit_and (shr val lo) (2 ^ (hi - lo + 1) - 1)

unfoldable pub bit : ℕ → ℕ → ℕ
bit val pos = bit_and (shr val pos) 1

unfoldable pub sign_extend : ℕ → ℕ → ℕ
sign_extend val width = let shift = 64 - width in asr64 (shl64 val shift) shift

pub bits_lem : (val hi lo : ℕ) → bits val hi lo ≡ val / 2 ^ lo % 2 ^ (hi - lo + 1)
unfolding bits
bits_lem val hi lo = and_mask (hi - lo + 1) (val / 2 ^ lo)

pub bit_lem : (val pos : ℕ) → bit val pos ≡ val / 2 ^ pos % 2
unfolding bit
bit_lem val pos = and_one (val / 2 ^ pos)

-- The sign bit of the shifted value is the top bit of the narrow one.
shifted_sign : (n m p : ℕ) → m * p ≡ 2 ^ 64 → 0 < p → ltb (n * p) (2 ^ 63) ≡ ltb (2 * n) m
shifted_sign n m p e hp = elim (Bool-cases (ltb (2 * n) m)) [
  | inl t ↦
      let below : 2 * n * p < m * p = mul-lt-mul_of_pos_right (ltb→lt (2 * n) m t) hp in
      rw t (lt→ltb _ _ (omega arith))
  | inr f ↦
      let above : m * p ≤ 2 * n * p = mul-le-mul_right p (ltb→le (2 * n) m f) in
      rw f (le→ltb _ _ (omega arith))
]

-- `x << k` and back down, for the two factors `m * p` of the word's modulus.
extend_parts :
    (n m p : ℕ)
    → m * p ≡ 2 ^ 64
    → 0 < p
    → (if ltb (n * p) (2 ^ 63) then n * p / p else n * p / p + (2 ^ 64 - 2 ^ 64 / p))
      ≡ (if ltb (2 * n) m then n else n + (2 ^ 64 - m))
extend_parts n m p e hp =
    let whole : 2 ^ 64 / p ≡ m = ap (λ (t : ℕ). t / p) (sym e) ∙ mul-div_cancel m hp in
    rw (shifted_sign n m p e hp, mul-div_cancel n hp, whole)

-- sign_extend from 1 to 64 bits gives the low bits of the value, with ones above them if their top
-- bit is set and zeros otherwise.
pub sign_extend_lem :
    (v w : ℕ)
    → 1 ≤ w
    → w ≤ 64
    → sign_extend v w
      ≡ (if ltb (2 * (v % 2 ^ w)) (2 ^ w) then v % 2 ^ w else v % 2 ^ w + (2 ^ 64 - 2 ^ w))
unfolding sign_extend
sign_extend_lem v w lo hi =
    let e : 2 ^ w * 2 ^ (64 - w) ≡ 2 ^ 64 = two_pow_parts w 64 hi in
    let p_pos : 0 < 2 ^ (64 - w) = one-le-pow (64 - w) 2 (omega arith) in
    let low : v * 2 ^ (64 - w) % 2 ^ 64 ≡ v % 2 ^ w * 2 ^ (64 - w) =
      ap (λ (t : ℕ). v * 2 ^ (64 - w) % t) (sym e)
      ∙ mul-mod v (2 ^ w) (2 ^ (64 - w)) (one-le-pow w 2 (omega arith)) p_pos in
    rw low (extend_parts (v % 2 ^ w) (2 ^ w) (2 ^ (64 - w)) e p_pos)

pub bit-lt : (val pos : ℕ) → bit val pos < 2
bit-lt val pos = omega (arith, bit_lem val pos)

pub bits-lt : (val hi lo : ℕ) → bits val hi lo < 2 ^ (hi - lo + 1)
bits-lt val hi lo = rw bits_lem (mod-lt (val / 2 ^ lo) (one-le-pow (hi - lo + 1) 2 (omega arith)))
