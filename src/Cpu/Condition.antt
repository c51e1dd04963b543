-- ===== src/Cpu/Condition.antt =====
-- `cpu_check_cond` after a comparison: each condition code is the relation that its name says.
use alpine_on_ios.Bits.{sign_bit, overflow_bit, carry_overflow_bit, same}
use alpine_on_ios.Cpu.State.{Cpu}
use alpine_on_ios.Cpu.Flags.{
  flags_of, check_cond, update_flags_add32, update_flags_add64, update_flags_sub32,
  update_flags_sub64,
}
use alpine_on_ios.Prelude.{
  ℕ, ◌+◌, ◌*◌, ◌%◌, ◌^◌, ◌<◌, Bool, true, not, ◌&&◌, ◌==◌, ltb, leb, sub32, add32, sub64, add64,
  ◌≡◌, ◌∙◌, arith,
}

-- The order of `int64_t`: flipping the sign bit makes it the order of the patterns.
abbrev pub signed_ltb64 : ℕ → ℕ → Bool
signed_ltb64 a b = ltb ((a + 2 ^ 63) % 2 ^ 64) ((b + 2 ^ 63) % 2 ^ 64)

abbrev pub signed_ltb32 : ℕ → ℕ → Bool
signed_ltb32 a b = ltb ((a + 2 ^ 31) % 2 ^ 32) ((b + 2 ^ 31) % 2 ^ 32)

-- What the sixteen codes test, given the four flags.
abbrev pub Tests : Cpu → Bool → Bool → Bool → Bool → Type 0
Tests cpu n z c v =
    (check_cond cpu 0 ≡ z)
    × (check_cond cpu 1 ≡ not z)
    × (check_cond cpu 2 ≡ c)
    × (check_cond cpu 3 ≡ not c)
    × (check_cond cpu 4 ≡ n)
    × (check_cond cpu 5 ≡ not n)
    × (check_cond cpu 6 ≡ v)
    × (check_cond cpu 7 ≡ not v)
    × (check_cond cpu 8 ≡ (c && not z))
    × (check_cond cpu 9 ≡ not (c && not z))
    × (check_cond cpu 10 ≡ same n v)
    × (check_cond cpu 11 ≡ not (same n v))
    × (check_cond cpu 12 ≡ (not z && same n v))
    × (check_cond cpu 13 ≡ not (not z && same n v))
    × (check_cond cpu 14 ≡ true)
    × (check_cond cpu 15 ≡ true)

check_cond-flags_of :
    (cpu : Cpu) (n z c v : Bool) → Tests (record cpu { nzcv = flags_of n z c v }) n z c v
unfolding check_cond flags_of
check_cond-flags_of cpu n z c v = (
  ground arith,
  ground arith,
  ground arith,
  ground arith,
  ground arith,
  ground arith,
  ground arith,
  ground arith,
  ground arith,
  ground arith,
  ground arith,
  ground arith,
  ground arith,
  ground arith,
  ground arith,
  ground arith,
)

-- What the codes mean after `a` was compared with `b`, for an unsigned and a signed order.
abbrev pub Compared : Cpu → ℕ → ℕ → (ℕ → ℕ → Bool) → Type 0
Compared cpu a b signed_ltb =
    (check_cond cpu 0 ≡ (a == b))
    × (check_cond cpu 1 ≡ not (a == b))
    × (check_cond cpu 2 ≡ leb b a)
    × (check_cond cpu 3 ≡ ltb a b)
    × (check_cond cpu 8 ≡ ltb b a)
    × (check_cond cpu 9 ≡ leb a b)
    × (check_cond cpu 10 ≡ not (signed_ltb a b))
    × (check_cond cpu 11 ≡ signed_ltb a b)
    × (check_cond cpu 12 ≡ signed_ltb b a)
    × (check_cond cpu 13 ≡ not (signed_ltb b a))

-- After the flags of a 64-bit subtraction of two words, the condition codes EQ, NE, CS, CC, HI,
-- LS, GE, LT, GT and LE are the equality, the unsigned order and the signed order of the two
-- words.
pub check_cond-update_flags_sub64 :
    (cpu : Cpu) (a b : ℕ)
    → a < 2 ^ 64
    → b < 2 ^ 64
    → Compared (update_flags_sub64 cpu a b (sub64 a b)) a b signed_ltb64
unfolding update_flags_sub64
check_cond-update_flags_sub64 cpu a b ha hb =
    let n = sign_bit 63 (sub64 a b) (omega arith) in
    let v = overflow_bit 63 a b (sub64 a b) ha hb (omega arith) in
    let t = check_cond-flags_of cpu _ _ _ _ in
    (
      t.0 ∙ ground arith,
      t.1 ∙ ground arith,
      t.2,
      t.3 ∙ ground arith,
      t.8 ∙ ground arith,
      t.9 ∙ ground arith,
      t.10 ∙ ground (arith, n, v),
      t.11 ∙ ground (arith, n, v),
      t.12 ∙ ground (arith, n, v),
      t.13 ∙ ground (arith, n, v),
    )

-- After the flags of a 32-bit subtraction of two 32-bit words, the ten comparing condition codes
-- are the equality, the unsigned order and the signed order of the two words.
pub check_cond-update_flags_sub32 :
    (cpu : Cpu) (a b : ℕ)
    → a < 2 ^ 32
    → b < 2 ^ 32
    → Compared (update_flags_sub32 cpu a b (sub32 a b)) a b signed_ltb32
unfolding update_flags_sub32
check_cond-update_flags_sub32 cpu a b ha hb =
    let n = sign_bit 31 (sub32 a b) (omega arith) in
    let v = overflow_bit 31 a b (sub32 a b) ha hb (omega arith) in
    let t = check_cond-flags_of cpu _ _ _ _ in
    (
      t.0 ∙ ground arith,
      t.1 ∙ ground arith,
      t.2,
      t.3 ∙ ground arith,
      t.8 ∙ ground arith,
      t.9 ∙ ground arith,
      t.10 ∙ ground (arith, n, v),
      t.11 ∙ ground (arith, n, v),
      t.12 ∙ ground (arith, n, v),
      t.13 ∙ ground (arith, n, v),
    )

-- What the codes mean after an addition with the result `r`: `half` is the sign bit, `total` the
-- unsigned sum, and `biased` the signed sum plus twice `half`.
abbrev pub Added : Cpu → ℕ → ℕ → ℕ → ℕ → Type 0
Added cpu r half total biased =
    (check_cond cpu 0 ≡ (r == 0))
    × (check_cond cpu 1 ≡ not (r == 0))
    × (check_cond cpu 2 ≡ leb (2 * half) total)
    × (check_cond cpu 3 ≡ ltb total (2 * half))
    × (check_cond cpu 4 ≡ leb half r)
    × (check_cond cpu 6 ≡ not (leb half biased && ltb biased (3 * half)))

-- After the flags of a 64-bit addition of two words, EQ and NE tell whether the result is 0, CS
-- and CC whether the unsigned sum leaves 64 bits, MI the sign of the result and VS whether the
-- signed sum leaves its range.
pub check_cond-update_flags_add64 :
    (cpu : Cpu) (a b : ℕ)
    → a < 2 ^ 64
    → b < 2 ^ 64
    → Added
        (update_flags_add64 cpu a b (add64 a b))
        (add64 a b)
        (2 ^ 63)
        (a + b)
        ((a + 2 ^ 63) % 2 ^ 64 + (b + 2 ^ 63) % 2 ^ 64)
unfolding update_flags_add64
check_cond-update_flags_add64 cpu a b ha hb =
    let n = sign_bit 63 (add64 a b) (omega arith) in
    let v = carry_overflow_bit 63 a b (add64 a b) ha hb (omega arith) in
    let t = check_cond-flags_of cpu _ _ _ _ in
    (t.0, t.1, t.2 ∙ ground arith, t.3 ∙ ground arith, t.4 ∙ n, t.6 ∙ ground (arith, v))

-- After the flags of a 32-bit addition of two 32-bit words, EQ and NE tell whether the result is
-- 0, CS and CC whether the unsigned sum leaves 32 bits, MI the sign of the result and VS whether
-- the signed sum leaves its range.
pub check_cond-update_flags_add32 :
    (cpu : Cpu) (a b : ℕ)
    → a < 2 ^ 32
    → b < 2 ^ 32
    → Added
        (update_flags_add32 cpu a b (add32 a b))
        (add32 a b)
        (2 ^ 31)
        (a + b)
        ((a + 2 ^ 31) % 2 ^ 32 + (b + 2 ^ 31) % 2 ^ 32)
unfolding update_flags_add32
check_cond-update_flags_add32 cpu a b ha hb =
    let n = sign_bit 31 (add32 a b) (omega arith) in
    let v = carry_overflow_bit 31 a b (add32 a b) ha hb (omega arith) in
    let t = check_cond-flags_of cpu _ _ _ _ in
    (t.0, t.1, t.2 ∙ ground arith, t.3 ∙ ground arith, t.4 ∙ n, t.6 ∙ ground (arith, v))
