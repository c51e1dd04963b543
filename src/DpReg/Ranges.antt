-- ===== src/DpReg/Ranges.antt =====
-- The results of the one-, two- and three-source instructions are words.
use native.Mathlib.Nat.{div-le_self, pow-le-pow_right}
use alpine_on_ios.Bits.{and-lt, or-lt, and_mask}
use alpine_on_ios.Decoder.Laws.{shr-lt, asr64-lt, asr32-lt}
use alpine_on_ios.DpReg.OneSource.{
  rbit_loop, rev16_loop, rev_word, rev_doubleword, clz_loop, cls_loop, one_source,
}
use alpine_on_ios.DpReg.TwoSource.{signed_div64, signed_div32, two_source}
use alpine_on_ios.DpReg.ThreeSource.{umulh, smulh, three_source}
use alpine_on_ios.Cpu.Valid.{IsWord}
use alpine_on_ios.Prelude.{
  ℕ, zero, suc, ◌+◌, ◌-◌, ◌/◌, ◌^◌, ◌≤◌, ◌<◌, bit_and, ◌≡◌, arith, Bool, true, false, some, shr,
  shl64, shl32, u32, if◌then◌else◌, is_true,
}

two_pow-IsWord : (k : ℕ) → k < 64 → IsWord (2 ^ k)
two_pow-IsWord k h =
    let top : 2 ^ k ≤ 2 ^ 63 =
      pow-le-pow_right {n = 2} (omega arith) {i = k} {j = 63} (omega arith) in
    omega arith

rbit_loop-IsWord :
    (val width left r : ℕ) → width ≤ 64 → IsWord r → IsWord (rbit_loop val width left r)
unfolding rbit_loop
rbit_loop-IsWord val width zero r hw hr = hr
rbit_loop-IsWord val width (suc left) r hw hr =
    let i = width - suc left in
    let place = 2 ^ (width - 1 - i) in
    let place_word : IsWord place = two_pow-IsWord (width - 1 - i) (omega arith) in
    rbit_loop-IsWord val width left _ hw
      (if-IsWord (is_true (bit_and val (2 ^ i))) _ _ (or-lt 64 r place hr place_word) hr)
  where
    if-IsWord : (b : Bool) (x y : ℕ) → IsWord x → IsWord y → IsWord (if b then x else y)
    if-IsWord true x y hx hy = hx
    if-IsWord false x y hx hy = hy

rev16_loop-IsWord : (val left i r : ℕ) → IsWord r → IsWord (rev16_loop val left i r)
unfolding rev16_loop
rev16_loop-IsWord val zero i r hr = hr
rev16_loop-IsWord val (suc left) i r hr =
    rev16_loop-IsWord val left (i + 2) _
      (or-lt 64 _ _ (or-lt 64 _ _ hr (omega arith)) (omega arith))

pub rev_word-lt : (v : ℕ) → v < 2 ^ 32 → rev_word v < 2 ^ 32
unfolding rev_word
rev_word-lt v h =
    or-lt 32 _ _
      (or-lt 32 _ _
        (or-lt 32 _ _ (and-lt 32 (v / 2 ^ 24) 0xff (omega arith))
          (and-lt 32 (v / 2 ^ 8) 0xff00 (omega arith)))
        (and-lt 32 (shl32 v 8) 0xff_0000 (omega arith)))
      (and-lt 32 (shl32 v 24) 0xff00_0000 (omega arith))

rev_doubleword-IsWord : (v : ℕ) → IsWord v → IsWord (rev_doubleword v)
unfolding rev_doubleword
rev_doubleword-IsWord v h =
    or-lt 64 _ _
      (or-lt 64 _ _
        (or-lt 64 _ _
          (or-lt 64 _ _
            (or-lt 64 _ _
              (or-lt 64 _ _
                (or-lt 64 _ _ (and-lt 64 (v / 2 ^ 56) 0xff (omega arith))
                  (and-lt 64 (v / 2 ^ 40) 0xff00 (omega arith)))
                (and-lt 64 (v / 2 ^ 24) 0xff_0000 (omega arith)))
              (and-lt 64 (v / 2 ^ 8) 0xff00_0000 (omega arith)))
            (and-lt 64 (shl64 v 8) 0xff_0000_0000 (omega arith)))
          (and-lt 64 (shl64 v 24) 0xff00_0000_0000 (omega arith)))
        (and-lt 64 (shl64 v 40) 0xff_0000_0000_0000 (omega arith)))
      (and-lt 64 (shl64 v 56) 0xff00_0000_0000_0000 (omega arith))

pub clz_loop-le :
    (val width fuel count mask : ℕ) → count ≤ width → clz_loop val width fuel count mask ≤ width
unfolding clz_loop
clz_loop-le val width zero count mask h = h
clz_loop-le val width (suc fuel) count mask h =
    ground (arith, clz_loop-le val width fuel (count + 1) (shr mask 1))

pub cls_loop-le : (val sign left count : ℕ) → cls_loop val sign left count ≤ count + left
unfolding cls_loop
cls_loop-le val sign zero count = omega arith
cls_loop-le val sign (suc i) count = ground (arith, cls_loop-le val sign i (count + 1))

pub one_source-IsWord :
    (opcode : ℕ) (sf : Bool) (val r : ℕ) → IsWord val → one_source opcode sf val ≡ some r → IsWord r
unfolding one_source
one_source-IsWord opcode sf val r h p =
    let width : ℕ = if sf then 64 else 32 in
    ground (
      arith,
      rbit_loop-IsWord val width width 0,
      rev16_loop-IsWord val (if sf then 4 else 2) 0 0,
      or-lt 64 (shl64 (rev_word (u32 (shr val 32))) 32) (rev_word (u32 val)),
      rev_word-lt (u32 val),
      rev_word-lt (u32 (shr val 32)),
      rev_doubleword-IsWord val,
      clz_loop-le val width width 0 (2 ^ (width - 1)),
      cls_loop-le val (bit_and (shr val (width - 1)) 1) (width - 1) 0,
    )

signed_div64-IsWord : (n m : ℕ) → IsWord n → IsWord (signed_div64 n m)
unfolding signed_div64
signed_div64-IsWord n m h = ground (
  arith,
  div-le_self (2 ^ 64 - n) (2 ^ 64 - m),
  div-le_self (2 ^ 64 - n) m,
  div-le_self n (2 ^ 64 - m),
  div-le_self n m,
)

signed_div32-IsWord : (n m : ℕ) → n < 2 ^ 32 → IsWord (signed_div32 n m)
unfolding signed_div32
signed_div32-IsWord n m h = ground (
  arith,
  div-le_self (2 ^ 32 - n) (2 ^ 32 - m),
  div-le_self (2 ^ 32 - n) m,
  div-le_self n (2 ^ 32 - m),
  div-le_self n m,
)

amount-lt : (m : ℕ) (sf : Bool) → bit_and m (if sf then 63 else 31) < (if sf then 64 else 32)
amount-lt m true = omega (arith, and_mask 6 m)
amount-lt m false = omega (arith, and_mask 5 m)

pub two_source-IsWord :
    (opcode : ℕ) (sf : Bool) (n m r : ℕ)
    → IsWord n
    → IsWord m
    → two_source opcode sf n m ≡ some r
    → IsWord r
unfolding two_source
two_source-IsWord opcode true n m r hn hm p =
    let amt = bit_and m 63 in
    ground (
      arith,
      amount-lt m true,
      div-le_self n m,
      signed_div64-IsWord n m hn,
      shr-lt n amt hn,
      asr64-lt n amt hn,
      or-lt 64 (shr n amt) (shl64 n (64 - amt)),
    )
two_source-IsWord opcode false n m r hn hm p =
    let amt = bit_and m 31 in
    let v = u32 n in
    ground (
      arith,
      amount-lt m false,
      div-le_self (u32 n) (u32 m),
      signed_div32-IsWord (u32 n) (u32 m),
      div-le_self v (2 ^ amt),
      asr32-lt v amt,
      or-lt 64 (shr v amt) (shl32 v (32 - amt)),
    )

umulh-IsWord : (n m : ℕ) → IsWord (umulh n m)
unfolding umulh
umulh-IsWord n m = omega arith

smulh-IsWord : (n m : ℕ) → IsWord (smulh n m)
unfolding smulh
smulh-IsWord n m = ground arith

pub three_source-IsWord :
    (op : ℕ) (sf : Bool) (a n m r : ℕ) → three_source op sf a n m ≡ some r → IsWord r
unfolding three_source
three_source-IsWord op sf a n m r p = ground (arith, umulh-IsWord n m, smulh-IsWord n m)
