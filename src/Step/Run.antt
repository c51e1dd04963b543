-- ===== src/Step/Run.antt =====
-- `cpu_exec_one`, `cpu_step` and `cpu_run` of emu/src/cpu.c: fetch, dispatch on bits 28:25, and the
-- default advance of the program counter. SIMD (emu/src/exec_simd.c) is the argument `exec_simd`.
use alpine_on_ios.Branch.System.{Clock}
use alpine_on_ios.Branch.Exec.{exec_branch}
use alpine_on_ios.Cpu.{Outcome, returns, undefined, emu_ok, emu_unimpl, emu_segfault}
use alpine_on_ios.DpImm.Bitfield.{exec_dp_imm}
use alpine_on_ios.DpReg.Dispatch.{exec_dp_reg}
use alpine_on_ios.LoadStore.Dispatch.{exec_ldst}
use alpine_on_ios.Machine.{Machine, Result, stepped, step_undefined}
use alpine_on_ios.Memory.Access.{AddressSpace, mem_read}
use alpine_on_ios.Prelude.{
  ℕ, zero, suc, bit_and, ◌||◌, ◌==◌, if◌then◌else◌, shr, add64, Option, none, some,
}

-- A handler that only works on the registers.
abbrev pub on_cpu : AddressSpace → Outcome → Result
on_cpu mem (returns code c) = stepped code (record { cpu = c; mem = mem })
on_cpu mem undefined = step_undefined

-- `if (rc != EMU_OK) return rc;` and what comes after it.
unfoldable pub if_ok : Result → (Machine → Result) → Result
if_ok (stepped emu_ok m) next = next m
if_ok (stepped code m) next = stepped code m
if_ok step_undefined next = step_undefined

-- `if (rc == EMU_OK && cpu->pc == old_pc) cpu->pc += 4;`
unfoldable pub advance : ℕ → Result → Result
advance old_pc (stepped emu_ok m) =
    if m.cpu.pc == old_pc
    then stepped emu_ok (record m { cpu = record (m.cpu) { pc = add64 m.cpu.pc 4 } })
    else stepped emu_ok m
advance old_pc (stepped code m) = stepped code m
advance old_pc step_undefined = step_undefined

module _ (exec_simd : Machine → ℕ → Result) (clock : Clock) where
  unfoldable pub dispatch : Machine → ℕ → Result
  dispatch m insn =
      let group = bit_and (shr insn 25) 0xf in
      if group == 8 || group == 9
      then on_cpu m.mem (exec_dp_imm m.cpu insn)
      else if group == 0xa || group == 0xb
      then on_cpu m.mem (exec_branch clock m.cpu insn)
      else if group == 4 || group == 6 || group == 0xc || group == 0xe
      then exec_ldst exec_simd m insn
      else if group == 5 || group == 0xd
      then on_cpu m.mem (exec_dp_reg m.cpu insn)
      else if group == 7 || group == 0xf
      then exec_simd m insn
      else stepped emu_unimpl m

  -- What follows the fetch, which fails with `none`.
  unfoldable pub execute : Machine → Option (ℕ × AddressSpace) → Result
  execute m none = stepped emu_segfault m
  execute m (some (insn, mem)) = advance m.cpu.pc (dispatch (record m { mem = mem }) insn)

  unfoldable pub cpu_exec_one : Machine → Result
  cpu_exec_one m = execute m (mem_read 4 m.mem m.cpu.pc)

  unfoldable pub cpu_step : Machine → Result
  cpu_step m = cpu_exec_one m

  -- Up to `count` instructions; the loop ends at the first code other than EMU_OK.
  unfoldable pub cpu_run : ℕ → Machine → Result
  cpu_run zero m = stepped emu_ok m
  cpu_run (suc count) m = if_ok (cpu_exec_one m) (cpu_run count)
