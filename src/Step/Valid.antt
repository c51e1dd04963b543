-- ===== src/Step/Valid.antt =====
-- The main loop keeps the machine well formed.
use alpine_on_ios.Branch.System.{Clock}
use alpine_on_ios.Branch.Valid.{exec_branch-IsCpu}
use alpine_on_ios.Cpu.{
  Cpu, Outcome, returns, undefined, emu_ok, emu_err, emu_syscall, emu_break, emu_unimpl,
  emu_segfault, emu_exit, bits, bit,
}
use alpine_on_ios.Cpu.Kept.{Kept}
use alpine_on_ios.Cpu.Valid.{IsCpu, Leaves, leaves, stops, with_pc-IsCpu}
use alpine_on_ios.DpImm.Valid.{exec_dp_imm-Kept}
use alpine_on_ios.DpReg.Valid.{exec_dp_reg-Kept}
use alpine_on_ios.LoadStore.Dispatch.{exec_ldst}
use alpine_on_ios.LoadStore.Valid.{exec_ldst-Ends}
use alpine_on_ios.Machine.{Machine, Result, stepped, step_undefined, read_case}
use alpine_on_ios.Machine.Valid.{IsMachine, Ends, ends, aborts, with_cpu-IsMachine, read_or-rule}
use alpine_on_ios.Memory.Access.{AddressSpace, mem_read}
use alpine_on_ios.Step.Run.{on_cpu, advance, if_ok, dispatch, execute, cpu_exec_one, cpu_run}
use alpine_on_ios.Prelude.{
  ℕ, zero, suc, ◌≡◌, refl, sym, ap, ◌∙◌, arith, bit_and, shr, Bool, false, not, ◌&&◌, ◌==◌, ◌||◌,
  is_true, if-rule, Option, none, some, subst, ◌<◌, true, Bool-cases, Option-cases, inl, inr,
}

module _ {m : Machine} (valid : IsMachine m) where
  on_cpu-Ends : (o : Outcome) → Leaves IsCpu o → Ends IsMachine (on_cpu m.mem o)
  on_cpu-Ends undefined h = aborts
  on_cpu-Ends (returns code c) (leaves h) = ends (with_cpu-IsMachine valid c h)

Kept-Leaves : {cpu : Cpu} (o : Outcome) → Leaves (Kept cpu) o → Leaves IsCpu o
Kept-Leaves undefined h = stops
Kept-Leaves (returns code c) (leaves k) = leaves (k.valid)

advance-Ends : (pc : ℕ) (r : Result) → Ends IsMachine r → Ends IsMachine (advance pc r)
unfolding advance
advance-Ends pc step_undefined h = aborts
advance-Ends pc (stepped emu_ok m) (ends h) =
    if-rule (Ends IsMachine) (m.cpu.pc == pc)
      (ends (with_cpu-IsMachine h _ (with_pc-IsCpu (h.cpu_valid) _ (omega arith)))) (ends h)
advance-Ends pc (stepped emu_err m) (ends h) = ends h
advance-Ends pc (stepped emu_syscall m) (ends h) = ends h
advance-Ends pc (stepped emu_break m) (ends h) = ends h
advance-Ends pc (stepped emu_unimpl m) (ends h) = ends h
advance-Ends pc (stepped emu_segfault m) (ends h) = ends h
advance-Ends pc (stepped emu_exit m) (ends h) = ends h

if_ok-Ends :
    (r : Result) (next : Machine → Result)
    → Ends IsMachine r
    → ((m : Machine) → IsMachine m → Ends IsMachine (next m))
    → Ends IsMachine (if_ok r next)
unfolding if_ok
if_ok-Ends step_undefined next h k = aborts
if_ok-Ends (stepped emu_ok m) next (ends h) k = k m h
if_ok-Ends (stepped emu_err m) next (ends h) k = ends h
if_ok-Ends (stepped emu_syscall m) next (ends h) k = ends h
if_ok-Ends (stepped emu_break m) next (ends h) k = ends h
if_ok-Ends (stepped emu_unimpl m) next (ends h) k = ends h
if_ok-Ends (stepped emu_segfault m) next (ends h) k = ends h
if_ok-Ends (stepped emu_exit m) next (ends h) k = ends h

-- What is asked of the SIMD handler.
abbrev pub KeepsMachine : (Machine → ℕ → Result) → Type 0
KeepsMachine handler = (m : Machine) (insn : ℕ) → IsMachine m → Ends IsMachine (handler m insn)

module _ (exec_simd : Machine → ℕ → Result) (clock : Clock)
    (simd_keeps : KeepsMachine exec_simd) where
  dispatch-Ends :
      (m : Machine) (insn : ℕ) → IsMachine m → Ends IsMachine (dispatch exec_simd clock m insn)
  unfolding dispatch
  dispatch-Ends m insn valid =
      let group = bit_and (shr insn 25) 0xf in
      let simd = simd_keeps m insn valid in
      if-rule (Ends IsMachine) (group == 8 || group == 9)
        (on_cpu-Ends valid _ (Kept-Leaves _ (exec_dp_imm-Kept (valid.cpu_valid) insn)))
        (if-rule (Ends IsMachine) (group == 0xa || group == 0xb)
          (on_cpu-Ends valid _ (exec_branch-IsCpu (valid.cpu_valid) clock insn))
          (if-rule (Ends IsMachine) (group == 4 || group == 6 || group == 0xc || group == 0xe)
            (exec_ldst-Ends valid insn exec_simd simd)
            (if-rule (Ends IsMachine) (group == 5 || group == 0xd)
              (on_cpu-Ends valid _ (Kept-Leaves _ (exec_dp_reg-Kept (valid.cpu_valid) insn)))
              (if-rule (Ends IsMachine) (group == 7 || group == 0xf) simd (ends valid)))))

  execute-read_case :
      (m : Machine) (o : Option (ℕ × AddressSpace))
      → read_case m
          (stepped emu_segfault m)
          (λ insn m'. advance m.cpu.pc (dispatch exec_simd clock m' insn))
          o
        ≡ execute exec_simd clock m o
  unfolding execute read_case
  execute-read_case m none = refl
  execute-read_case m (some (insn, mem)) = refl

  cpu_exec_one-Ends : (m : Machine) → IsMachine m → Ends IsMachine (cpu_exec_one exec_simd clock m)
  unfolding cpu_exec_one
  cpu_exec_one-Ends m valid =
      subst (Ends IsMachine) (execute-read_case m (mem_read 4 m.mem m.cpu.pc)) (
        read_or-rule valid (Ends IsMachine) 4 m.cpu.pc (valid.cpu_valid.pc_word) (omega arith)
          (omega arith) _ _ (ends valid)
          (λ insn mem v small. advance-Ends m.cpu.pc _ (dispatch-Ends _ insn v)))

-- The instructions that reach `exec_simd`: its own groups, and the structure loads and stores.
abbrev pub uses_simd : ℕ → Bool
uses_simd insn =
    let group = bit_and (shr insn 25) 0xf in
    group == 7
    || group == 0xf
    || ((group == 4 || group == 6 || group == 0xc || group == 0xe)
        && bits insn 29 27 == 1
        && not (is_true (bit insn 31)))

abbrev unimplemented : Machine → ℕ → Result
unimplemented m insn = stepped emu_unimpl m

module _ (exec_simd : Machine → ℕ → Result) (clock : Clock) where
  dispatch_scalar :
      (m : Machine) (insn : ℕ)
      → uses_simd insn ≡ false
      → dispatch exec_simd clock m insn ≡ dispatch unimplemented clock m insn
  unfolding dispatch exec_ldst
  dispatch_scalar m insn h = ground arith

  execute_scalar :
      (m : Machine) (insn : ℕ) (mem : AddressSpace)
      → uses_simd insn ≡ false
      → execute unimplemented clock m (some (insn, mem))
        ≡ execute exec_simd clock m (some (insn, mem))
  unfolding execute
  execute_scalar m insn mem h =
      ap (advance m.cpu.pc) (sym (dispatch_scalar (record m { mem = mem }) insn h))

  -- A step that fetches an instruction which does not belong to exec_simd leaves a well-formed
  -- machine well formed, whatever code it returns and whatever exec_simd does.
  pub cpu_exec_one-IsMachine :
      (m : Machine) (insn : ℕ) (mem : AddressSpace)
      → IsMachine m
      → mem_read 4 m.mem m.cpu.pc ≡ some (insn, mem)
      → uses_simd insn ≡ false
      → Ends IsMachine (cpu_exec_one exec_simd clock m)
  unfolding cpu_exec_one
  cpu_exec_one-IsMachine m insn mem valid fetched scalar =
      let here = λ (f : Machine → ℕ → Result). ap (execute f clock m) fetched in
      let same = here unimplemented ∙ execute_scalar m insn mem scalar ∙ sym (here exec_simd) in
      subst (Ends IsMachine) same
        (cpu_exec_one-Ends unimplemented clock (λ m' insn' v. ends v) m valid)

  -- A run of scalar instructions, which keeps the machine well formed, or one that does so up to an
  -- instruction for exec_simd.
  pub data IsSteady (count : ℕ) (m : Machine) : Type 0 where
    scalar_run : Ends IsMachine (cpu_run exec_simd clock count m) → IsSteady count m
    reaches_simd :
        (k : ℕ) (m' : Machine) (insn : ℕ) (mem : AddressSpace)
        → k < count
        → cpu_run exec_simd clock k m ≡ stepped emu_ok m'
        → IsMachine m'
        → mem_read 4 m'.mem m'.cpu.pc ≡ some (insn, mem)
        → uses_simd insn ≡ true
        → IsSteady count m

  -- The first step, with what the later ones do.
  first_step :
      (count : ℕ) (m : Machine) (r : Result)
      → cpu_exec_one exec_simd clock m ≡ r
      → Ends IsMachine r
      → ((m' : Machine) → IsMachine m' → IsSteady count m')
      → IsSteady (suc count) m
  unfolding cpu_run if_ok
  first_step count m step_undefined e h later = scalar_run (
      subst (λ (r : Result). Ends IsMachine (if_ok r (cpu_run exec_simd clock count))) (sym e)
        aborts)
  first_step count m (stepped emu_ok m') e (ends h) later = elim (later m' h) [
    | scalar_run run ↦ scalar_run (
        subst (λ (r : Result). Ends IsMachine (if_ok r (cpu_run exec_simd clock count))) (sym e)
          run)
    | reaches_simd k m'' insn mem l run valid fetched simd ↦
        reaches_simd (suc k) m'' insn mem (omega (arith, l))
          (ap (λ (r : Result). if_ok r (cpu_run exec_simd clock k)) e ∙ run) valid fetched simd
  ]
  first_step count m (stepped code m') e (ends h) later = scalar_run (
      subst (λ (r : Result). Ends IsMachine (if_ok r (cpu_run exec_simd clock count))) (sym e)
        (ends h))

  -- From a well-formed machine, a run of any number of steps either leaves a well-formed
  -- machine, whatever code it ends with, or reaches after fewer steps, all of which return
  -- EMU_OK, a well-formed machine whose next instruction is fetched and belongs to exec_simd.
  -- Well formed means that the registers, the flags and the vector registers fit their widths,
  -- the reserved flag bits are 0, the bytes of the host are bytes, the regions are laid out in
  -- pages and the TLB agrees with them. Nothing is assumed of exec_simd.
  pub cpu_run-IsSteady : (count : ℕ) (m : Machine) → IsMachine m → IsSteady count m
  unfolding cpu_run cpu_exec_one execute
  cpu_run-IsSteady zero m valid = scalar_run (ends valid)
  cpu_run-IsSteady (suc count) m valid = elim (Option-cases (mem_read 4 m.mem m.cpu.pc)) [
    | inl missed ↦
        first_step count m _ (ap (execute exec_simd clock m) missed) (ends valid)
          (cpu_run-IsSteady count)
    | inr ((insn, mem), fetched) ↦ elim (Bool-cases (uses_simd insn)) [
      | inl simd ↦ reaches_simd 0 m insn mem (omega arith) refl valid fetched simd
      | inr scalar ↦
          first_step count m _ refl (cpu_exec_one-IsMachine m insn mem valid fetched scalar)
            (cpu_run-IsSteady count)
    ]
  ]
