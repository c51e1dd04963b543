-- ===== src/Tests/LoadStore.antt =====
-- Concrete runs of the theorems on loads, stores and whole steps.
use alpine_on_ios.Cpu.{Cpu, emu_ok, xreg, wreg, xreg_sp, set_xreg, bits, bit}
use alpine_on_ios.Cpu.Valid.{IsCpu}
use alpine_on_ios.LoadStore.Dispatch.{exec_ldst}
use alpine_on_ios.LoadStore.Monitor.{ldxr, stxr, exec_ldxr-exec_stxr}
use alpine_on_ios.LoadStore.Stack.{push, pop, exec_push-exec_pop}
use alpine_on_ios.Machine.{Machine, Result, stepped}
use alpine_on_ios.Machine.Valid.{IsMachine, Ends}
use alpine_on_ios.Memory.Access.{mem_ptr, hit_or_walk, mem_read, load_bytes, store_bytes}
use alpine_on_ios.Memory.Coherent.{IsCoherent}
use alpine_on_ios.Memory.Space.{find_region, mem_translate, tlb_flush, tlb_lookup, tlb_insert}
use alpine_on_ios.Step.Run.{cpu_exec_one}
use alpine_on_ios.Step.Valid.{IsSteady, cpu_run-IsSteady, cpu_exec_one-IsMachine}
use alpine_on_ios.Tests.{
  test_cpu, test_clock, test_mem, test_mem-IsCoherent, test_simd, fetched_mem,
}
use alpine_on_ios.Prelude.{ℕ, ◌^◌, ◌≡◌, refl, arith, update}

-- The stack, and a word for the monitor, are in the page of test_mem.
abbrev stack_cpu : Cpu
stack_cpu = record test_cpu { x = update (update (λ r. 9) 0 5) 1 0x1_0100; sp = 0x1_0800 }

stack_cpu-IsCpu : IsCpu stack_cpu
stack_cpu-IsCpu = record {
  x_word = λ r. ground arith;
  sp_word = omega arith;
  pc_word = omega arith;
  nzcv_word = omega arith;
  nzcv_flags = refl;
  fpcr_word = omega arith;
  fpsr_word = omega arith;
  tpidr_word = omega arith;
  tpidrro_word = omega arith;
  d0_word = λ r. omega arith;
  d1_word = λ r. omega arith;
}

abbrev stack_machine : Machine
stack_machine = record { cpu = stack_cpu; mem = test_mem }

stack_machine-IsMachine : IsMachine stack_machine
stack_machine-IsMachine = record {
  cpu_valid = stack_cpu-IsCpu;
  coherent = test_mem-IsCoherent;
  byte = λ p. ground arith;
}

-- A function that loses both registers.
abbrev body : Cpu → Cpu
body c = set_xreg (set_xreg c 0 77) 1 88

exec_push-exec_pop_example :
    (pushed : Machine) × (exec_ldst test_simd stack_machine (push 2 0 1) ≡ stepped emu_ok pushed)
    × (pushed.cpu.sp ≡ 0x1_07f0)
    × (popped : Machine) × (exec_ldst test_simd
          (record pushed { cpu = body (pushed.cpu) })
          (pop 2 0 1)
        ≡ stepped emu_ok popped)
    × (xreg (popped.cpu) 0 ≡ xreg stack_cpu 0)
    × (xreg (popped.cpu) 1 ≡ xreg stack_cpu 1)
    × (popped.cpu.sp ≡ 0x1_0800)
    × IsCoherent popped.mem
unfolding set_xreg mem_translate find_region
exec_push-exec_pop_example =
    exec_push-exec_pop test_simd stack_machine body 2 0 1 0x5000_07f0 0x5000_07f0
      stack_machine-IsMachine (λ c. refl) (omega arith) (omega arith) (omega arith) (omega arith)
      (omega arith) (omega arith) refl refl (omega arith)

-- Another thread changes every byte between the two.
exec_ldxr-exec_stxr_example :
    (loaded : Machine) × (exec_ldst test_simd stack_machine (ldxr 2 1) ≡ stepped emu_ok loaded)
    × (xreg (loaded.cpu) 2 ≡ load_bytes test_mem.bytes 0x5000_0100 8)
    × (stored : Machine) × (exec_ldst test_simd
          (record loaded { mem = record (loaded.mem) { bytes = λ p. 1 } })
          (stxr 3 0 1)
        ≡ stepped emu_ok stored)
    × (wreg (stored.cpu) 3 ≡ 0)
    × (stored.mem.bytes ≡ store_bytes (λ p. 1) 0x5000_0100 8 (xreg (loaded.cpu) 0))
    × (refused : Machine) × (exec_ldst test_simd stored (stxr 3 0 1) ≡ stepped emu_ok refused)
    × (wreg (refused.cpu) 3 ≡ 1)
    × (refused.mem ≡ stored.mem)
unfolding mem_translate find_region xreg_sp
exec_ldxr-exec_stxr_example =
    exec_ldxr-exec_stxr test_simd stack_machine 2 3 0 1 0x5000_0100 0x5000_0100 (λ p. 1)
      stack_machine-IsMachine (omega arith) (omega arith) (omega arith) (omega arith) (omega arith)
      refl refl

cpu_run-IsSteady_example : IsSteady test_simd test_clock 3 stack_machine
cpu_run-IsSteady_example =
    cpu_run-IsSteady test_simd test_clock 3 stack_machine stack_machine-IsMachine

-- The argument for SIMD breaks the stack pointer, and is not called.
abbrev bad_simd : Machine → ℕ → Result
bad_simd m insn = stepped emu_ok (record m { cpu = record (m.cpu) { sp = 2 ^ 64 } })

cpu_exec_one-IsMachine_example : Ends IsMachine (cpu_exec_one bad_simd test_clock stack_machine)
unfolding mem_read mem_ptr hit_or_walk tlb_lookup mem_translate find_region tlb_flush load_bytes
    tlb_insert bits bit
cpu_exec_one-IsMachine_example =
    cpu_exec_one-IsMachine bad_simd test_clock stack_machine 0x1400_0000 (fetched_mem 0)
      stack_machine-IsMachine refl refl
