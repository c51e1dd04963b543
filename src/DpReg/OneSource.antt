-- ===== src/DpReg/OneSource.antt =====
-- Bit and byte reversal and the counts: `exec_dp_1src` of emu/src/exec_dp_reg.c.
use alpine_on_ios.DpReg.TwoSource.{write_result}
use alpine_on_ios.Cpu.{Cpu, Outcome, returns, emu_err, xreg, wreg, bits, bit}
use alpine_on_ios.Prelude.{
  ℕ, zero, suc, ◌+◌, ◌-◌, ◌*◌, ◌^◌, bit_and, bit_or, Option, none, some, Bool, not, ◌&&◌, ◌==◌, ltb,
  if◌then◌else◌, shr, shl32, shl64, u32, is_true,
}

-- The loop of RBIT with the rounds left; it is at bit `width - rounds`.
unfoldable pub rbit_loop : ℕ → ℕ → ℕ → ℕ → ℕ
rbit_loop val width zero r = r
rbit_loop val width (suc left) r =
    let i = width - suc left in
    rbit_loop val width left
      (if is_true (bit_and val (2 ^ i)) then bit_or r (2 ^ (width - 1 - i)) else r)

-- The loop of REV16: two bytes in each round, from byte `i`.
unfoldable pub rev16_loop : ℕ → ℕ → ℕ → ℕ → ℕ
rev16_loop val zero i r = r
rev16_loop val (suc left) i r =
    let b0 = bit_and (shr val (i * 8)) 0xff in
    let b1 = bit_and (shr val ((i + 1) * 8)) 0xff in
    rev16_loop val left (i + 2) (bit_or (bit_or r (shl64 b1 (i * 8))) (shl64 b0 ((i + 1) * 8)))

-- The bytes of a 32-bit word, swapped end for end.
unfoldable pub rev_word : ℕ → ℕ
rev_word v =
    bit_or
      (bit_or (bit_or (bit_and (shr v 24) 0xff) (bit_and (shr v 8) 0xff00))
        (bit_and (shl32 v 8) 0xff_0000))
      (bit_and (shl32 v 24) 0xff00_0000)

unfoldable pub rev_doubleword : ℕ → ℕ
rev_doubleword v =
    bit_or
      (bit_or
        (bit_or
          (bit_or
            (bit_or
              (bit_or (bit_or (bit_and (shr v 56) 0xff) (bit_and (shr v 40) 0xff00))
                (bit_and (shr v 24) 0xff_0000))
              (bit_and (shr v 8) 0xff00_0000))
            (bit_and (shl64 v 8) 0xff_0000_0000))
          (bit_and (shl64 v 24) 0xff00_0000_0000))
        (bit_and (shl64 v 40) 0xff_0000_0000_0000))
      (bit_and (shl64 v 56) 0xff00_0000_0000_0000)

-- The loop of CLZ on fuel. `width` rounds are enough, since `count` grows in each.
unfoldable pub clz_loop : ℕ → ℕ → ℕ → ℕ → ℕ → ℕ
clz_loop val width zero count mask = count
clz_loop val width (suc fuel) count mask =
    let rest = clz_loop val width fuel (count + 1) (shr mask 1) in
    if ltb count width && not (is_true (bit_and val mask)) then rest else count

-- The loop of CLS; round `suc i` looks at bit `i` and goes down.
unfoldable pub cls_loop : ℕ → ℕ → ℕ → ℕ → ℕ
cls_loop val sign zero count = count
cls_loop val sign (suc i) count =
    let rest = cls_loop val sign i (count + 1) in
    if bit_and (shr val i) 1 == sign then rest else count

-- The switch on `opcode`, but for the 32-bit form of opcode 3; `none` is its default branch.
unfoldable pub one_source : ℕ → Bool → ℕ → Option ℕ
one_source opcode sf val =
    let width = if sf then 64 else 32 in
    if opcode == 0
    then some (rbit_loop val width width 0)
    else if opcode == 1
    then some (rev16_loop val (if sf then 4 else 2) 0 0)
    else if opcode == 2
    then some (
        if sf
        then bit_or (shl64 (rev_word (u32 (shr val 32))) 32) (rev_word (u32 val))
        else rev_word (u32 val))
    else if opcode == 3
    then some (rev_doubleword val)
    else if opcode == 4
    then some (clz_loop val width width 0 (2 ^ (width - 1)))
    else if opcode == 5
    then some (cls_loop val (bit_and (shr val (width - 1)) 1) (width - 1) 0)
    else none

unfoldable pub exec_dp_1src : Cpu → ℕ → Outcome
exec_dp_1src cpu insn =
    let sf = is_true (bit insn 31) in
    let opcode = bits insn 15 10 in
    let rn = bits insn 9 5 in
    let val = if sf then xreg cpu rn else wreg cpu rn in
    if opcode == 3 && not sf
    then returns emu_err cpu
    else write_result cpu insn (one_source opcode sf val)
