-- ===== src/Branch/Exec.antt =====
-- `exec_branch` of emu/src/exec_branch.c. Offsets are 64-bit patterns, so that the signed additions
-- of the C code, which wrap, are additions of words; `<< 2` on a negative offset is taken as GCC and
-- Clang define it.
use alpine_on_ios.Branch.System.{Clock, exec_system}
use alpine_on_ios.Cpu.{
  Cpu, Outcome, returns, emu_ok, emu_syscall, emu_break, emu_unimpl, xreg, wreg, bits, bit,
  sign_extend,
}
use alpine_on_ios.Cpu.Flags.{check_cond}
use alpine_on_ios.Prelude.{
  ℕ, ◌*◌, ◌^◌, bit_and, bit_or, Bool, not, ◌&&◌, ◌||◌, ◌==◌, if◌then◌else◌, update, add64, shl64,
  is_true,
}

-- `pc + offset` if the branch is taken, else the next instruction.
abbrev pub jump_if : Bool → Cpu → ℕ → Outcome
jump_if taken cpu offset =
    if taken
    then returns emu_ok (record cpu { pc = add64 cpu.pc offset })
    else returns emu_ok (record cpu { pc = add64 cpu.pc 4 })

abbrev pub link : Cpu → Cpu
link cpu = record cpu { x = update cpu.x 30 (add64 cpu.pc 4) }

-- B and BL.
unfoldable pub branch_imm : Cpu → ℕ → Outcome
branch_imm cpu insn =
    let offset = shl64 (sign_extend (bits insn 25 0) 26) 2 in
    let linked = if is_true (bit insn 31) then link cpu else cpu in
    returns emu_ok (record linked { pc = add64 cpu.pc offset })

-- B.cond.
unfoldable pub branch_cond : Cpu → ℕ → Outcome
branch_cond cpu insn =
    jump_if (check_cond cpu (bits insn 3 0)) cpu (shl64 (sign_extend (bits insn 23 5) 19) 2)

-- CBZ and CBNZ.
unfoldable pub compare_branch : Cpu → ℕ → Outcome
compare_branch cpu insn =
    let op = bit insn 24 in
    let rt = bits insn 4 0 in
    let val = if is_true (bit insn 31) then xreg cpu rt else wreg cpu rt in
    jump_if (op == 0 && val == 0 || op == 1 && not (val == 0)) cpu
      (shl64 (sign_extend (bits insn 23 5) 19) 2)

-- TBZ and TBNZ.
unfoldable pub test_branch : Cpu → ℕ → Outcome
test_branch cpu insn =
    let op = bit insn 24 in
    let bitpos = bit_or (bit insn 31 * 2 ^ 5) (bits insn 23 19) in
    let set = is_true (bit_and (xreg cpu (bits insn 4 0)) (2 ^ bitpos)) in
    jump_if (op == 0 && not set || op == 1 && set) cpu (shl64 (sign_extend (bits insn 18 5) 14) 2)

-- SVC and BRK.
unfoldable pub exception : Cpu → ℕ → Outcome
exception cpu insn =
    let opc = bits insn 23 21 in
    let ll = bits insn 1 0 in
    if opc == 0 && ll == 1
    then returns emu_syscall (record cpu { pc = add64 cpu.pc 4 })
    else if opc == 1 && ll == 0
    then returns emu_break cpu
    else returns emu_unimpl cpu

-- BR, BLR and RET. The target is read before the link register is written.
unfoldable pub branch_reg : Cpu → ℕ → Outcome
branch_reg cpu insn =
    let opc = bits insn 24 21 in
    let target = xreg cpu (bits insn 9 5) in
    if opc == 0
    then returns emu_ok (record cpu { pc = target })
    else if opc == 1
    then returns emu_ok (record (link cpu) { pc = target })
    else if opc == 2
    then returns emu_ok (record cpu { pc = target })
    else returns emu_unimpl cpu

unfoldable pub exec_branch : Clock → Cpu → ℕ → Outcome
exec_branch clock cpu insn =
    if bit_and insn 0x7c000000 == 0x14000000
    then branch_imm cpu insn
    else if bit_and insn 0xff000010 == 0x54000000
    then branch_cond cpu insn
    else if bit_and insn 0x7e000000 == 0x34000000
    then compare_branch cpu insn
    else if bit_and insn 0x7e000000 == 0x36000000
    then test_branch cpu insn
    else if bit_and insn 0xff000000 == 0xd4000000
    then exception cpu insn
    else if bit_and insn 0xfe000000 == 0xd6000000
    then branch_reg cpu insn
    else if bit_and insn 0xffc00000 == 0xd5000000
    then exec_system clock cpu insn
    else returns emu_unimpl cpu
