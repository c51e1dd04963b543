-- ===== src/Branch/Valid.antt =====
-- Branches and system instructions keep the state well formed.
use alpine_on_ios.Branch.System.{
  Clock, read_counter, sysreg, key_of, exec_mrs, exec_msr, is_nop, exec_system,
}
use alpine_on_ios.Branch.Exec.{
  jump_if, link, branch_imm, branch_cond, compare_branch, test_branch, exception, branch_reg,
  exec_branch,
}
use alpine_on_ios.Cpu.{Cpu, emu_ok, emu_syscall, emu_break, emu_unimpl, xreg, bits, bit}
use alpine_on_ios.Cpu.Valid.{IsCpu, IsWord, Leaves, leaves, xreg-lt, set_xreg-IsCpu, with_pc-IsCpu}
use alpine_on_ios.Cpu.Kept.{Leaves-if}
use alpine_on_ios.Prelude.{
  ℕ, bit_and, arith, Bool, true, false, ◌&&◌, ◌==◌, is_true, if◌then◌else◌, add64, u32, none, some,
}

read_counter-IsWord : (clock : Clock) → IsWord (read_counter clock)
unfolding read_counter
read_counter-IsWord none = omega arith
read_counter-IsWord (some (sec, nsec)) = omega arith

module _ {cpu : Cpu} (h : IsCpu cpu) where
  jump-IsCpu : (b : Bool) (offset : ℕ) → Leaves IsCpu (jump_if b cpu offset)
  jump-IsCpu b offset =
      Leaves-if b (leaves {code = emu_ok} (with_pc-IsCpu h (add64 cpu.pc offset) (omega arith)))
        (leaves {code = emu_ok} (with_pc-IsCpu h (add64 cpu.pc 4) (omega arith)))

  link-IsCpu : IsCpu (link cpu)
  link-IsCpu = ground arith

  linked-IsCpu : (b : Bool) → IsCpu (if b then link cpu else cpu)
  linked-IsCpu true = link-IsCpu
  linked-IsCpu false = h

  branch_imm-IsCpu : (insn : ℕ) → Leaves IsCpu (branch_imm cpu insn)
  unfolding branch_imm
  branch_imm-IsCpu insn = leaves (
      with_pc-IsCpu {cpu = if is_true (bit insn 31) then link cpu else cpu}
        (linked-IsCpu (is_true (bit insn 31))) _ (omega arith))

  exception-IsCpu : (insn : ℕ) → Leaves IsCpu (exception cpu insn)
  unfolding exception
  exception-IsCpu insn =
      let opc = bits insn 23 21 in
      let ll = bits insn 1 0 in
      Leaves-if (opc == 0 && ll == 1)
        (leaves {code = emu_syscall} (with_pc-IsCpu h (add64 cpu.pc 4) (omega arith)))
        (Leaves-if (opc == 1 && ll == 0) (leaves {code = emu_break} h)
          (leaves {code = emu_unimpl} h))

  branch_reg-IsCpu : (insn : ℕ) → Leaves IsCpu (branch_reg cpu insn)
  unfolding branch_reg
  branch_reg-IsCpu insn =
      let opc = bits insn 24 21 in
      let target = xreg cpu (bits insn 9 5) in
      let word = xreg-lt h (bits insn 9 5) in
      Leaves-if (opc == 0) (leaves {code = emu_ok} (with_pc-IsCpu h target word)) (
        Leaves-if (opc == 1) (leaves {code = emu_ok} (with_pc-IsCpu link-IsCpu target word)) (
          Leaves-if (opc == 2) (leaves {code = emu_ok} (with_pc-IsCpu h target word))
            (leaves {code = emu_unimpl} h)))

  exec_mrs-IsCpu : (clock : Clock) (insn : ℕ) → Leaves IsCpu (exec_mrs clock cpu insn)
  unfolding exec_mrs
  exec_mrs-IsCpu clock insn =
      leaves (set_xreg-IsCpu h (bits insn 4 0) _ (ground (arith, read_counter-IsWord clock)))

  exec_msr-IsCpu : (insn : ℕ) → Leaves IsCpu (exec_msr cpu insn)
  unfolding exec_msr
  exec_msr-IsCpu insn =
      let rt = bits insn 4 0 in
      let val = xreg cpu rt in
      let key = key_of insn in
      let tpidr : IsCpu (record cpu { tpidr_el0 = val }) = ground (arith, xreg-lt h rt) in
      let fpcr : IsCpu (record cpu { fpcr = u32 val }) = ground arith in
      let fpsr : IsCpu (record cpu { fpsr = u32 val }) = ground arith in
      Leaves-if (key == sysreg 3 3 13 0 2) (leaves {code = emu_ok} tpidr) (
        Leaves-if (key == sysreg 3 3 4 4 0) (leaves {code = emu_ok} fpcr) (
          Leaves-if (key == sysreg 3 3 4 4 1) (leaves {code = emu_ok} fpsr)
            (leaves {code = emu_ok} h)))

  exec_system-IsCpu : (clock : Clock) (insn : ℕ) → Leaves IsCpu (exec_system clock cpu insn)
  unfolding exec_system
  exec_system-IsCpu clock insn = Leaves-if (is_nop insn) (leaves {code = emu_ok} h) (
      Leaves-if (is_true (bit insn 20))
        (Leaves-if (is_true (bit insn 21)) (exec_mrs-IsCpu clock insn) (exec_msr-IsCpu insn))
        (leaves {code = emu_unimpl} h))

  -- From a well-formed state, every branch, exception and system instruction leaves a well-formed
  -- state, whatever code it returns and whatever the clock answers.
  pub exec_branch-IsCpu : (clock : Clock) (insn : ℕ) → Leaves IsCpu (exec_branch clock cpu insn)
  unfolding exec_branch branch_cond compare_branch test_branch
  exec_branch-IsCpu clock insn =
      Leaves-if (bit_and insn 0x7c000000 == 0x14000000) (branch_imm-IsCpu insn) (
        Leaves-if (bit_and insn 0xff000010 == 0x54000000) (jump-IsCpu _ _) (
          Leaves-if (bit_and insn 0x7e000000 == 0x34000000) (jump-IsCpu _ _) (
            Leaves-if (bit_and insn 0x7e000000 == 0x36000000) (jump-IsCpu _ _) (
              Leaves-if (bit_and insn 0xff000000 == 0xd4000000) (exception-IsCpu insn) (
                Leaves-if (bit_and insn 0xfe000000 == 0xd6000000) (branch_reg-IsCpu insn) (
                  Leaves-if (bit_and insn 0xffc00000 == 0xd5000000) (exec_system-IsCpu clock insn)
                    (leaves {code = emu_unimpl} h)))))))
