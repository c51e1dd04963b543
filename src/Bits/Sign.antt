-- ===== src/Bits/Sign.antt =====
-- The sign bit of a word of `k + 1` digits, and the overflow tests that C code makes by `^` and `&`.
use native.Mathlib.Nat.{one-le-pow, div-eq_of_lt, div-eq_of_lt-le}
use alpine_on_ios.Bits.Range.{and_bit}
use alpine_on_ios.Bits.Digit.{and_digit, xor_digit}
use alpine_on_ios.Prelude.{
  ℕ, ◌*◌, ◌/◌, ◌^◌, ◌<◌, bit_and, bit_xor, Bool, true, false, not, ◌&&◌, leb, leb→le, leb→lt,
  is_true, from_bool, ◌≡◌, inl, inr, arith, Bool-cases,
}

-- Equality of two truth values.
abbrev pub same : Bool → Bool → Bool
same true y = y
same false y = not y

-- The top digit of a word below `2 * h`.
pub top_digit : (h x : ℕ) → x < 2 * h → x / h ≡ from_bool (leb h x)
top_digit h x lt = elim (Bool-cases (leb h x)) [
  | inl t ↦ rw t (div-eq_of_lt-le {k = 1} h (let p = leb→le h x t in omega arith) (omega arith))
  | inr f ↦ rw f (div-eq_of_lt (leb→lt h x f))
]

pub sign_bit : (k a : ℕ) → a < 2 * 2 ^ k → is_true (bit_and a (2 ^ k)) ≡ leb (2 ^ k) a
sign_bit k a h = ground (arith, and_bit k a, top_digit (2 ^ k) a, one-le-pow k 2)

module _ (k a b c : ℕ) (ha : a < 2 * 2 ^ k) (hb : b < 2 * 2 ^ k) (hc : c < 2 * 2 ^ k) where
  pub overflow_bit :
      is_true (bit_and (bit_and (bit_xor a b) (bit_xor a c)) (2 ^ k))
      ≡ (not (same (leb (2 ^ k) a) (leb (2 ^ k) b)) && not (same (leb (2 ^ k) a) (leb (2 ^ k) c)))
  overflow_bit = ground (
    arith,
    and_bit k (bit_and (bit_xor a b) (bit_xor a c)),
    and_digit k (bit_xor a b) (bit_xor a c),
    xor_digit k a b,
    xor_digit k a c,
    top_digit (2 ^ k) a,
    top_digit (2 ^ k) b,
    top_digit (2 ^ k) c,
    one-le-pow k 2,
  )

  -- The same test as an addition makes it, on the result `c`.
  pub carry_overflow_bit :
      is_true (bit_and (bit_and (bit_xor a c) (bit_xor b c)) (2 ^ k))
      ≡ (not (same (leb (2 ^ k) a) (leb (2 ^ k) c)) && not (same (leb (2 ^ k) b) (leb (2 ^ k) c)))
  carry_overflow_bit = ground (
    arith,
    and_bit k (bit_and (bit_xor a c) (bit_xor b c)),
    and_digit k (bit_xor a c) (bit_xor b c),
    xor_digit k a c,
    xor_digit k b c,
    top_digit (2 ^ k) a,
    top_digit (2 ^ k) b,
    top_digit (2 ^ k) c,
    one-le-pow k 2,
  )
