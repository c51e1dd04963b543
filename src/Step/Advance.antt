-- ===== src/Step/Advance.antt =====
-- How one step moves the program counter.
use alpine_on_ios.Bits.{and_mask}
use alpine_on_ios.Branch.System.{Clock}
use alpine_on_ios.Branch.Exec.{exec_branch}
use alpine_on_ios.Branch.Targets.{b_imm, offset, exec_b}
use alpine_on_ios.Cpu.{
  Cpu, Code, Outcome, returns, undefined, emu_ok, emu_err, emu_syscall, emu_break, emu_unimpl,
  emu_segfault, emu_exit,
}
use alpine_on_ios.Cpu.Valid.{IsCpu, Leaves, leaves, with_pc-IsCpu}
use alpine_on_ios.Cpu.Kept.{Kept}
use alpine_on_ios.DpImm.Bitfield.{exec_dp_imm}
use alpine_on_ios.DpImm.Valid.{exec_dp_imm-Kept}
use alpine_on_ios.DpReg.Dispatch.{exec_dp_reg}
use alpine_on_ios.DpReg.Valid.{exec_dp_reg-Kept}
use alpine_on_ios.Memory.Access.{AddressSpace, mem_read}
use alpine_on_ios.Machine.{Machine, Result, stepped, step_undefined}
use alpine_on_ios.Step.Run.{on_cpu, advance, dispatch, execute, cpu_exec_one}
use alpine_on_ios.Prelude.{
  ℕ, ◌/◌, ◌^◌, ◌<◌, ◌≡◌, ◌≢◌, ◌⊎◌, inl, inr, ap, sym, ◌∙◌, arith, bit_and, shr, true, ◌==◌, ◌||◌,
  if◌then◌else◌, some, subst, add64,
}

-- What a data processing instruction does to the machine: with EMU_OK it moves on by one
-- instruction, with another code it stays where it is; the state is well formed and the memory is
-- the one that the fetch left.
pub data IsAdvance (cpu : Cpu) (mem : AddressSpace) : Result → Type 0 where
  advanced :
      {c : Cpu}
      → IsCpu c
      → c.pc ≡ add64 cpu.pc 4
      → ((r : ℕ) → c.v r ≡ cpu.v r)
      → IsAdvance cpu mem (stepped emu_ok (record { cpu = c; mem = mem }))
  halted :
      {code : Code} {c : Cpu}
      → code ≢ emu_ok
      → IsCpu c
      → c.pc ≡ cpu.pc
      → IsAdvance cpu mem (stepped code (record { cpu = c; mem = mem }))
  aborted : IsAdvance cpu mem step_undefined

-- The two groups of data processing, by bits 28:25.
abbrev pub IsDataProcessing : ℕ → Type 0
IsDataProcessing insn =
    let group = bit_and (shr insn 25) 0xf in
    ((group == 8 || group == 9) ≡ true) ⊎ ((group == 5 || group == 0xd) ≡ true)

advance-moved :
    (pc : ℕ) (m : Machine) → m.cpu.pc ≢ pc → advance pc (stepped emu_ok m) ≡ stepped emu_ok m
unfolding advance
advance-moved pc m h = ground arith

advance-same :
    (pc : ℕ) (m : Machine)
    → m.cpu.pc ≡ pc
    → advance pc (stepped emu_ok m)
      ≡ stepped emu_ok (record m { cpu = record (m.cpu) { pc = add64 m.cpu.pc 4 } })
unfolding advance
advance-same pc m h = ground arith

module _ (cpu : Cpu) (mem : AddressSpace) where
  Kept-IsAdvance :
      (o : Outcome) → Leaves (Kept cpu) o → IsAdvance cpu mem (advance cpu.pc (on_cpu mem o))
  unfolding advance
  Kept-IsAdvance undefined h = aborted
  Kept-IsAdvance (returns emu_ok c) (leaves k) =
      subst (IsAdvance cpu mem)
        (sym (advance-same cpu.pc (record { cpu = c; mem = mem }) k.same_pc))
        (advanced (with_pc-IsCpu k.valid (add64 c.pc 4) (omega arith))
          (ap (λ (t : ℕ). add64 t 4) k.same_pc) k.same_v)
  Kept-IsAdvance (returns emu_err c) (leaves k) = halted (ground arith) k.valid k.same_pc
  Kept-IsAdvance (returns emu_syscall c) (leaves k) = halted (ground arith) k.valid k.same_pc
  Kept-IsAdvance (returns emu_break c) (leaves k) = halted (ground arith) k.valid k.same_pc
  Kept-IsAdvance (returns emu_unimpl c) (leaves k) = halted (ground arith) k.valid k.same_pc
  Kept-IsAdvance (returns emu_segfault c) (leaves k) = halted (ground arith) k.valid k.same_pc
  Kept-IsAdvance (returns emu_exit c) (leaves k) = halted (ground arith) k.valid k.same_pc

module _ (exec_simd : Machine → ℕ → Result) (clock : Clock) (m : Machine) (mem : AddressSpace) where
  dispatch_b :
      (imm : ℕ)
      → imm < 2 ^ 26
      → dispatch exec_simd clock (record m { mem = mem }) (b_imm imm)
        ≡ on_cpu mem (exec_branch clock m.cpu (b_imm imm))
  unfolding dispatch
  dispatch_b imm h = ground (arith, and_mask 4 (b_imm imm / 2 ^ 25))

  dispatch_imm :
      (insn : ℕ)
      → (bit_and (shr insn 25) 0xf == 8 || bit_and (shr insn 25) 0xf == 9) ≡ true
      → dispatch exec_simd clock (record m { mem = mem }) insn ≡ on_cpu mem (exec_dp_imm m.cpu insn)
  unfolding dispatch
  dispatch_imm insn h = ground arith

  dispatch_reg :
      (insn : ℕ)
      → (bit_and (shr insn 25) 0xf == 5 || bit_and (shr insn 25) 0xf == 0xd) ≡ true
      → dispatch exec_simd clock (record m { mem = mem }) insn ≡ on_cpu mem (exec_dp_reg m.cpu insn)
  unfolding dispatch
  dispatch_reg insn h = ground arith

  -- One step on a fetched B goes to its offset, except that a branch with offset 0 goes to the
  -- next instruction instead of staying.
  pub cpu_exec_one-b :
      (imm : ℕ)
      → imm < 2 ^ 26
      → m.cpu.pc < 2 ^ 64
      → mem_read 4 m.mem m.cpu.pc ≡ some (b_imm imm, mem)
      → cpu_exec_one exec_simd clock m
        ≡ stepped emu_ok (record {
          cpu = record (m.cpu) {
            pc = if imm == 0 then add64 m.cpu.pc 4 else add64 m.cpu.pc (offset (2 ^ 25) imm);
          };
          mem = mem;
        })
  unfolding cpu_exec_one execute advance
  cpu_exec_one-b imm h hp f =
      let run = ap (execute exec_simd clock m) f in
      let known = dispatch_b imm h ∙ ap (on_cpu mem) (exec_b clock m.cpu imm h) in
      run ∙ ap (advance m.cpu.pc) known ∙ ground arith

  -- From a well-formed processor, one step on a fetched data processing instruction either ends
  -- with EMU_OK at the next instruction, or with another code at the same one, or in undefined
  -- behaviour; the processor stays well formed, the memory is the one the fetch left, and after
  -- EMU_OK the SIMD registers are the same.
  pub cpu_exec_one-IsAdvance :
      (insn : ℕ)
      → IsCpu m.cpu
      → IsDataProcessing insn
      → mem_read 4 m.mem m.cpu.pc ≡ some (insn, mem)
      → IsAdvance m.cpu mem (cpu_exec_one exec_simd clock m)
  unfolding cpu_exec_one execute
  cpu_exec_one-IsAdvance insn h (inl imm) f =
      let run = ap (execute exec_simd clock m) f ∙ ap (advance m.cpu.pc) (dispatch_imm insn imm) in
      subst (IsAdvance m.cpu mem) (sym run) (Kept-IsAdvance m.cpu mem _ (exec_dp_imm-Kept h insn))
  cpu_exec_one-IsAdvance insn h (inr reg) f =
      let run = ap (execute exec_simd clock m) f ∙ ap (advance m.cpu.pc) (dispatch_reg insn reg) in
      subst (IsAdvance m.cpu mem) (sym run) (Kept-IsAdvance m.cpu mem _ (exec_dp_reg-Kept h insn))
