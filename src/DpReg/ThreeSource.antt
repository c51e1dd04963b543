-- ===== src/DpReg/ThreeSource.antt =====
-- The multiplications: `exec_dp_3src` of emu/src/exec_dp_reg.c.
use alpine_on_ios.Bits.{same}
use alpine_on_ios.DpReg.TwoSource.{write_result, magnitude64}
use alpine_on_ios.Cpu.{Cpu, Outcome, returns, emu_err, xreg, bits, bit, sign_extend}
use alpine_on_ios.Prelude.{
  ℕ, ◌*◌, ◌^◌, bit_and, bit_or, Option, none, some, Bool, not, ◌&&◌, ◌||◌, ◌==◌, leb, ltb,
  if◌then◌else◌, shr, shl64, add32, add64, sub32, sub64, not64, u32, u64, is_true,
}

abbrev mul64 : ℕ → ℕ → ℕ
mul64 a b = u64 (a * b)

-- UMULH: the high word of the product, from the four products of the halves.
unfoldable pub umulh : ℕ → ℕ → ℕ
umulh un um =
    let ul = bit_and un 0xffff_ffff in
    let uh = shr un 32 in
    let vl = bit_and um 0xffff_ffff in
    let vh = shr um 32 in
    let t1 = add64 (mul64 ul vh) (shr (mul64 ul vl) 32) in
    let t2 = add64 (mul64 uh vl) (bit_and t1 0xffff_ffff) in
    add64 (add64 (mul64 uh vh) (shr t1 32)) (shr t2 32)

-- SMULH: the same on the magnitudes, then negated if the signs differ.
unfoldable pub smulh : ℕ → ℕ → ℕ
smulh sn sm =
    let an = magnitude64 sn in
    let bn = magnitude64 sm in
    let al = bit_and an 0xffff_ffff in
    let ah = shr an 32 in
    let bl = bit_and bn 0xffff_ffff in
    let bh = shr bn 32 in
    let t1 = add64 (mul64 al bh) (shr (mul64 al bl) 32) in
    let t2 = add64 (mul64 ah bl) (bit_and t1 0xffff_ffff) in
    let hi = add64 (add64 (mul64 ah bh) (shr t1 32)) (shr t2 32) in
    let lo = bit_or (mul64 al bl) (shl64 (bit_and t2 0xffff_ffff) 32) in
    if same (leb (2 ^ 63) sn) (leb (2 ^ 63) sm)
    then hi
    else if lo == 0
    then add64 (not64 hi) 1
    else not64 hi

-- The switch on `op31:o0`; `none` is its default branch. `a`, `n` and `m` are the registers.
unfoldable pub three_source : ℕ → Bool → ℕ → ℕ → ℕ → Option ℕ
three_source op sf a n m =
    let signed = mul64 (sign_extend (u32 n) 32) (sign_extend (u32 m) 32) in
    let unsigned = mul64 (u32 n) (u32 m) in
    let narrow = u32 (u32 n * u32 m) in
    if op == 0
    then some (if sf then add64 a (mul64 n m) else add32 (u32 a) narrow)
    else if op == 1
    then some (if sf then sub64 a (mul64 n m) else sub32 (u32 a) narrow)
    else if op == 2
    then some (add64 a signed)
    else if op == 3
    then some (sub64 a signed)
    else if op == 4
    then some (smulh n m)
    else if op == 10
    then some (add64 a unsigned)
    else if op == 11
    then some (sub64 a unsigned)
    else if op == 12
    then some (umulh n m)
    else none

-- All but MADD and MSUB want `sf`; the check stands after the default branch of the switch.
unfoldable pub exec_dp_3src : Cpu → ℕ → Outcome
exec_dp_3src cpu insn =
    let sf = is_true (bit insn 31) in
    let op = bit_or (bits insn 23 21 * 2) (bit insn 15) in
    let a = xreg cpu (bits insn 14 10) in
    let n = xreg cpu (bits insn 9 5) in
    let m = xreg cpu (bits insn 20 16) in
    let wide_only = (ltb 1 op && ltb op 5) || (ltb 9 op && ltb op 13) in
    if wide_only && not sf
    then returns emu_err cpu
    else write_result cpu insn (three_source op sf a n m)
