-- ===== src/LoadStore/Prefetch.antt =====
-- The prefetch instruction in emu/src/exec_ldst.c, which is decoded as a load.
use alpine_on_ios.Cpu.{emu_segfault, bits, bit, bits_lem, bit_lem}
use alpine_on_ios.LoadStore.Access.{do_load, load_general}
use alpine_on_ios.LoadStore.Dispatch.{exec_ldst, exec_ldst_register}
use alpine_on_ios.LoadStore.Register.{exec_ldst_unsigned_offset, access, is_load}
use alpine_on_ios.Machine.{Machine, Result, stepped, or_segfault}
use alpine_on_ios.Prelude.{ℕ, ◌+◌, ◌*◌, ◌^◌, ◌<◌, ◌≡◌, refl, arith}

-- `PRFM prfop, [Xn, #8 * imm]`, a hint.
abbrev pub prfm : ℕ → ℕ → ℕ → ℕ
prfm prfop imm rn = 0xf980_0000 + imm * 2 ^ 10 + rn * 2 ^ 5 + prfop

-- PRFM with an unsigned offset returns EMU_SEGFAULT, whatever its base register and the regions,
-- and changes nothing.
pub exec_ldst-prfm :
    (exec_simd : Machine → ℕ → Result) (m : Machine) (prfop imm rn : ℕ)
    → prfop < 32
    → imm < 4096
    → rn < 32
    → exec_ldst exec_simd m (prfm prfop imm rn) ≡ stepped emu_segfault m
unfolding exec_ldst exec_ldst_register exec_ldst_unsigned_offset access is_load do_load load_general
    or_segfault
exec_ldst-prfm exec_simd m prfop imm rn hp hi hn =
    let insn = prfm prfop imm rn in
    let op1 : bits insn 29 27 ≡ 7 = omega (arith, bits_lem insn 29 27) in
    let unsigned : bit insn 24 ≡ 1 = omega (arith, bit_lem insn 24) in
    let size : bits insn 31 30 ≡ 3 = omega (arith, bits_lem insn 31 30) in
    let vec : bit insn 26 ≡ 0 = omega (arith, bit_lem insn 26) in
    let opc : bits insn 23 22 ≡ 2 = omega (arith, bits_lem insn 23 22) in
    rw (op1, unsigned, size, vec, opc) refl
