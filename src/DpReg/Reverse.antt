-- ===== src/DpReg/Reverse.antt =====
-- REV of a 32-bit word: the order of the bytes.
use alpine_on_ios.Bits.{and_high, and_mask, fields_or}
use alpine_on_ios.DpReg.OneSource.{rev_word, one_source}
use alpine_on_ios.Prelude.{
  ℕ, ◌+◌, ◌*◌, ◌/◌, ◌%◌, ◌^◌, ◌<◌, ◌≡◌, ◌∙◌, ap, arith, bit_and, shr, shl32, false, some,
}

-- The four masked shifts, by bytes.
byte0 : (v : ℕ) → bit_and (shr v 24) 0xff ≡ v / 2 ^ 24 % 2 ^ 8
byte0 v = and_mask 8 (shr v 24)

byte1 : (v : ℕ) → bit_and (shr v 8) 0xff00 ≡ v / 2 ^ 16 % 2 ^ 8 * 2 ^ 8
byte1 v = omega (arith, and_high 8 8 (shr v 8))

byte2 : (v : ℕ) → bit_and (shl32 v 8) 0xff_0000 ≡ v / 2 ^ 8 % 2 ^ 8 * 2 ^ 16
byte2 v = omega (arith, and_high 16 8 (shl32 v 8))

byte3 : (v : ℕ) → bit_and (shl32 v 24) 0xff00_0000 ≡ v % 2 ^ 8 * 2 ^ 24
byte3 v = omega (arith, and_high 24 8 (shl32 v 24))

-- The bytes of the result, in the opposite order.
rev_word_lem :
    (v : ℕ)
    → rev_word v
      ≡ v % 2 ^ 8 * 2 ^ 24
        + v / 2 ^ 8 % 2 ^ 8 * 2 ^ 16
        + v / 2 ^ 16 % 2 ^ 8 * 2 ^ 8
        + v / 2 ^ 24 % 2 ^ 8
unfolding rev_word
rev_word_lem v =
    let b0 = v / 2 ^ 24 % 2 ^ 8 in
    let b1 = v / 2 ^ 16 % 2 ^ 8 in
    let b2 = v / 2 ^ 8 % 2 ^ 8 in
    let b3 = v % 2 ^ 8 in
    let one = fields_or 8 8 b1 b0 (omega arith) (omega arith) in
    let two = fields_or 16 8 b2 (b1 * 2 ^ 8 + b0) (omega arith) (omega arith) in
    let three = fields_or 24 8 b3 (b2 * 2 ^ 16 + (b1 * 2 ^ 8 + b0)) (omega arith) (omega arith) in
    rw (byte0 v, byte1 v, byte2 v, byte3 v) (rw one (rw two (three ∙ omega arith)))

the_word : (v : ℕ) → rev_word v % 2 ^ 32 ≡ rev_word v
the_word v = omega (arith, rev_word_lem v)

-- REV of a 32-bit value puts its four bytes in the opposite order, and REV of the result gives the
-- value back.
pub one_source-rev :
    (v : ℕ)
    → v < 2 ^ 32
    → (r : ℕ) × (one_source 2 false v ≡ some r)
      × (r
          ≡ v % 2 ^ 8 * 2 ^ 24
            + v / 2 ^ 8 % 2 ^ 8 * 2 ^ 16
            + v / 2 ^ 16 % 2 ^ 8 * 2 ^ 8
            + v / 2 ^ 24)
      × (one_source 2 false r ≡ some v)
unfolding one_source
one_source-rev v h =
    let first = rev_word_lem v in
    let second = rev_word_lem (rev_word v) in
    let cut : v % 2 ^ 32 ≡ v = omega arith in
    let back : rev_word (rev_word v % 2 ^ 32) ≡ v =
      ap rev_word (the_word v) ∙ second ∙ omega (arith, first) in
    (rev_word v, ap (λ (t : ℕ). some (rev_word t)) cut, omega (arith, first), ap some back)
