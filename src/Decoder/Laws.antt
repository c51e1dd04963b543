-- ===== src/Decoder/Laws.antt =====
-- Ranges and meanings of the shifts.
use native.Mathlib.Nat.{
  mod-lt, mod-eq_of_lt, div-eq_of_lt, div-add-mod', mul-add-mod_self_right, mul-add-div_right,
  div-le_self, one-le-pow, mul-div_cancel_left, div-lt_iff_lt-mul,
}
use alpine_on_ios.Bits.{or-lt, fields_or, two_pow_parts, mul-mod}
use alpine_on_ios.Decoder.{apply_shift, apply_shift32, extend_reg}
use alpine_on_ios.Cpu.{Cpu, sign_extend}
use alpine_on_ios.Prelude.{
  ℕ, ◌+◌, ◌-◌, ◌*◌, ◌/◌, ◌%◌, ◌^◌, ◌≤◌, ◌<◌, ◌≡◌, ◌∙◌, sym, ap, arith, asr32, asr64,
}

pub shr-lt : (x k : ℕ) → x < 2 ^ 64 → x / 2 ^ k < 2 ^ 64
shr-lt x k h = omega (arith, div-le_self x (2 ^ k))

-- The sign digits that an arithmetic shift brings in, and the rest of the word.
div-lt_parts : (x p q : ℕ) → 0 < p → p * q ≡ 2 ^ 64 → x < 2 ^ 64 → x / p < 2 ^ 64 / p
div-lt_parts x p q pos e h =
    let whole : 2 ^ 64 / p ≡ q = ap (λ (t : ℕ). t / p) (sym e) ∙ mul-div_cancel_left q pos in
    rw whole ((div-lt_iff_lt-mul pos).1 (omega arith))

div-lt_parts32 : (x p q : ℕ) → 0 < p → p * q ≡ 2 ^ 32 → x < 2 ^ 32 → x / p < 2 ^ 32 / p
div-lt_parts32 x p q pos e h =
    let whole : 2 ^ 32 / p ≡ q = ap (λ (t : ℕ). t / p) (sym e) ∙ mul-div_cancel_left q pos in
    rw whole ((div-lt_iff_lt-mul pos).1 (omega arith))

pub asr64-lt : (x k : ℕ) → x < 2 ^ 64 → k ≤ 64 → asr64 x k < 2 ^ 64
asr64-lt x k h g =
    let pos : 0 < 2 ^ k = one-le-pow k 2 (omega arith) in
    ground (
      arith,
      div-lt_parts x (2 ^ k) (2 ^ (64 - k)) pos (two_pow_parts k 64 g) h,
      div-le_self (2 ^ 64) (2 ^ k),
      shr-lt x k,
    )

pub apply_shift-lt :
    (val shift_type amount : ℕ)
    → val < 2 ^ 64
    → amount < 64
    → apply_shift val shift_type amount < 2 ^ 64
unfolding apply_shift
apply_shift-lt val shift_type amount h g = ground (
  arith,
  shr-lt val amount,
  asr64-lt val amount,
  or-lt 64 (val / 2 ^ amount) (val * 2 ^ (64 - amount) % 2 ^ 64),
)

pub sign_extend-lt : (v w : ℕ) → sign_extend v w < 2 ^ 64
unfolding sign_extend
sign_extend-lt v w = asr64-lt (v * 2 ^ (64 - w) % 2 ^ 64) (64 - w) (omega arith) (omega arith)

shr32-lt : (x k : ℕ) → x < 2 ^ 32 → x / 2 ^ k < 2 ^ 32
shr32-lt x k h = omega (arith, div-le_self x (2 ^ k))

pub asr32-lt : (x k : ℕ) → x < 2 ^ 32 → k ≤ 32 → asr32 x k < 2 ^ 32
asr32-lt x k h g =
    let pos : 0 < 2 ^ k = one-le-pow k 2 (omega arith) in
    ground (
      arith,
      div-lt_parts32 x (2 ^ k) (2 ^ (32 - k)) pos (two_pow_parts k 32 g) h,
      div-le_self (2 ^ 32) (2 ^ k),
      shr32-lt x k,
    )

pub apply_shift32-lt :
    (val shift_type amount : ℕ)
    → val < 2 ^ 32
    → amount < 32
    → apply_shift32 val shift_type amount < 2 ^ 32
unfolding apply_shift32
apply_shift32-lt val shift_type amount h g = ground (
  arith,
  shr32-lt val amount,
  asr32-lt val amount,
  or-lt 32 (val / 2 ^ amount) (val * 2 ^ (32 - amount) % 2 ^ 32),
)

pub extend_reg-lt : (cpu : Cpu) (reg ext shift : ℕ) → extend_reg cpu reg ext shift < 2 ^ 64
unfolding extend_reg
extend_reg-lt cpu reg ext shift = omega arith

-- ROR puts the low digits above the others.
pub apply_shift-ror :
    (val k : ℕ)
    → val < 2 ^ 64
    → 0 < k
    → k < 64
    → apply_shift val 3 k ≡ val % 2 ^ k * 2 ^ (64 - k) + val / 2 ^ k
unfolding apply_shift
apply_shift-ror val k h lo hi =
    let pos : 0 < 2 ^ k = one-le-pow k 2 (omega arith) in
    let pos' : 0 < 2 ^ (64 - k) = one-le-pow (64 - k) 2 (omega arith) in
    let e : 2 ^ k * 2 ^ (64 - k) ≡ 2 ^ 64 = two_pow_parts k 64 (omega arith) in
    let cut : val * 2 ^ (64 - k) % 2 ^ 64 ≡ val % 2 ^ k * 2 ^ (64 - k) =
      ap (λ (t : ℕ). val * 2 ^ (64 - k) % t) (sym e)
      ∙ mul-mod val (2 ^ k) (2 ^ (64 - k)) pos pos' in
    let high : val / 2 ^ k < 2 ^ (64 - k) = (div-lt_iff_lt-mul pos).1 (omega arith) in
    let joined = fields_or (64 - k) k (val % 2 ^ k) (val / 2 ^ k) (mod-lt val pos) high in
    ground (arith, cut, joined)

-- The two rotations of a word over the two factors `p * q` of its modulus.
swap_parts :
    (val p q : ℕ)
    → 0 < p
    → 0 < q
    → val / p < q
    → let w = val % p * q + val / p in w % q * p + w / q ≡ val
swap_parts val p q hp hq high =
    let low : (val % p * q + val / p) % q ≡ val / p =
      mul-add-mod_self_right (val % p) q (val / p) ∙ mod-eq_of_lt high in
    let top : (val % p * q + val / p) / q ≡ val % p + val / p / q =
      mul-add-div_right hq (val % p) (val / p) in
    rw (low, top, div-eq_of_lt high) (omega (arith, div-add-mod' val p))

-- Rotating a word right by an amount from 1 to 63 and then by the rest of 64 gives the word back.
pub apply_shift-ror_inverse :
    (val k : ℕ) → val < 2 ^ 64 → 0 < k → k < 64 → apply_shift (apply_shift val 3 k) 3 (64 - k) ≡ val
apply_shift-ror_inverse val k h lo hi =
    let pos : 0 < 2 ^ k = one-le-pow k 2 (omega arith) in
    let pos' : 0 < 2 ^ (64 - k) = one-le-pow (64 - k) 2 (omega arith) in
    let e : 2 ^ k * 2 ^ (64 - k) ≡ 2 ^ 64 = two_pow_parts k 64 (omega arith) in
    let high : val / 2 ^ k < 2 ^ (64 - k) = (div-lt_iff_lt-mul pos).1 (omega arith) in
    let back : 64 - (64 - k) ≡ k = omega arith in
    let once = apply_shift-ror val k h lo hi in
    let twice =
      apply_shift-ror (apply_shift val 3 k) (64 - k) (apply_shift-lt val 3 k h hi) (omega arith)
        (omega arith) in
    rw (twice, once, back) (swap_parts val (2 ^ k) (2 ^ (64 - k)) pos pos' high)

-- Whatever the amount, the 32-bit shift of a 32-bit value is a word.
pub apply_shift32-word :
    (val shift_type amount : ℕ) → val < 2 ^ 32 → apply_shift32 val shift_type amount < 2 ^ 64
unfolding apply_shift32
apply_shift32-word val shift_type amount h = ground (
  arith,
  div-le_self val (2 ^ amount),
  or-lt 64 (val / 2 ^ amount) (val * 2 ^ (32 - amount) % 2 ^ 32),
)
