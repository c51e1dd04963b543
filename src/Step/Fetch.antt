-- ===== src/Step/Fetch.antt =====
-- A step whose fetch faults.
use alpine_on_ios.Branch.System.{Clock}
use alpine_on_ios.Cpu.{emu_segfault}
use alpine_on_ios.Memory.Space.{mem_translate, mem_prot_read}
use alpine_on_ios.Memory.Access.{AddressSpace, mem_read, load_bytes}
use alpine_on_ios.Memory.Coherent.{IsCoherent, IsAccess, fault, found, mem_ptr-IsAccess}
use alpine_on_ios.Machine.{Machine, Result, stepped}
use alpine_on_ios.Step.Run.{execute, cpu_exec_one}
use alpine_on_ios.Prelude.{ℕ, ◌^◌, ◌<◌, ◌≡◌, refl, ap, arith, Option, none, some, ◌>>=◌}

IsAccess-none :
    {mem : AddressSpace} {addr size prot : ℕ} {o : Option (ℕ × AddressSpace)}
    → mem_translate mem.regions addr size prot ≡ none
    → IsAccess mem addr size prot o
    → o ≡ none
IsAccess-none t (fault f) = refl
IsAccess-none t (found f coherent regions bytes) = absurd (ground (arith, t, f))

module _ (exec_simd : Machine → ℕ → Result) (clock : Clock) where
  -- On a coherent memory, a step at a program counter from which no region lets four bytes be read
  -- returns EMU_SEGFAULT and changes nothing.
  pub cpu_exec_one-fault :
      (m : Machine)
      → IsCoherent m.mem
      → m.cpu.pc < 2 ^ 64
      → mem_translate m.mem.regions m.cpu.pc 4 mem_prot_read ≡ none
      → cpu_exec_one exec_simd clock m ≡ stepped emu_segfault m
  unfolding cpu_exec_one execute mem_read
  cpu_exec_one-fault m coherent h t =
      let e =
        IsAccess-none t (
          mem_ptr-IsAccess m.mem m.cpu.pc 4 mem_prot_read coherent h (omega arith) (omega arith)) in
      ap
        (λ (o : Option (ℕ × AddressSpace)).
          execute exec_simd clock m (o >>= λ x. some (load_bytes (x.1).bytes (x.0) 4, x.1)))
        e
