-- ===== src/DpReg/Dispatch.antt =====
-- The dispatcher `exec_dp_reg` of emu/src/exec_dp_reg.c.
use alpine_on_ios.DpReg.Arith.{exec_logical_shifted, exec_add_sub_shifted, exec_add_sub_extended}
use alpine_on_ios.DpReg.Select.{exec_cond_compare, exec_cond_select}
use alpine_on_ios.DpReg.OneSource.{exec_dp_1src}
use alpine_on_ios.DpReg.TwoSource.{exec_dp_2src}
use alpine_on_ios.DpReg.ThreeSource.{exec_dp_3src}
use alpine_on_ios.Cpu.{Cpu, Outcome, returns, emu_unimpl, bits, bit}
use alpine_on_ios.Prelude.{ℕ, bit_and, not, ◌&&◌, ◌==◌, if◌then◌else◌, is_true}

unfoldable pub exec_dp_reg : Cpu → ℕ → Outcome
exec_dp_reg cpu insn =
    let top5 = bits insn 28 24 in
    let group = bits insn 28 21 in
    if bit_and top5 0x1f == 0x0a
    then exec_logical_shifted cpu insn
    else if bit_and top5 0x1f == 0x0b
    then (if is_true (bit insn 21)
        then exec_add_sub_extended cpu insn
        else exec_add_sub_shifted cpu insn)
    else if bit_and group 0xfe == 0xd2
    then exec_cond_compare cpu insn
    else if group == 0xd4
    then exec_cond_select cpu insn
    else if group == 0xd6 && is_true (bit insn 30)
    then exec_dp_1src cpu insn
    else if group == 0xd6 && not (is_true (bit insn 30))
    then exec_dp_2src cpu insn
    else if is_true (bit insn 28) && is_true (bit_and (bits insn 24 21) 0x8)
    then exec_dp_3src cpu insn
    else returns emu_unimpl cpu
