-- ===== src/LoadStore/Dispatch.antt =====
-- `exec_ldst` of emu/src/exec_ldst.c. The vector loads and stores of structures are part of
-- `exec_simd`, an argument.
use alpine_on_ios.Cpu.{emu_unimpl, bits, bit}
use alpine_on_ios.LoadStore.Exclusive.{exec_ldst_exclusive}
use alpine_on_ios.LoadStore.Pair.{exec_ldst_pair}
use alpine_on_ios.LoadStore.Register.{
  exec_ldst_unsigned_offset, exec_ldst_imm9, exec_ldst_reg_offset, exec_ldst_literal,
}
use alpine_on_ios.Machine.{Machine, Result, stepped}
use alpine_on_ios.Prelude.{ℕ, not, ◌&&◌, ◌==◌, if◌then◌else◌, is_true}

-- The switch on bits 11:10 has a case for every value.
unfoldable pub exec_ldst_register : Machine → ℕ → Result
exec_ldst_register m insn =
    if is_true (bit insn 24)
    then exec_ldst_unsigned_offset m insn
    else if bits insn 11 10 == 2 && is_true (bit insn 21)
    then exec_ldst_reg_offset m insn
    else exec_ldst_imm9 m insn

unfoldable pub exec_ldst : (Machine → ℕ → Result) → Machine → ℕ → Result
exec_ldst exec_simd m insn =
    let op1 = bits insn 29 27 in
    if op1 == 5
    then exec_ldst_pair m insn
    else if op1 == 3 && not (is_true (bit insn 24))
    then exec_ldst_literal m insn
    else if op1 == 2
    then exec_ldst_exclusive m insn
    else if op1 == 7
    then exec_ldst_register m insn
    else if op1 == 1
    then (if is_true (bit insn 31) then exec_ldst_exclusive m insn else exec_simd m insn)
    else stepped emu_unimpl m
