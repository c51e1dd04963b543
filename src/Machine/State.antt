-- ===== src/Machine/State.antt =====
-- The machine state of a guest thread (`cpu_state_t` with its `mem` and `tlb`), the outcome of a
-- step, and what the callers of `cpu_mem_read*` and `cpu_mem_write*` do with the two answers.
use alpine_on_ios.Cpu.{Cpu, Code, emu_segfault}
use alpine_on_ios.Memory.Access.{AddressSpace, mem_read, mem_write}
use alpine_on_ios.Prelude.{ℕ, Bool, true, false, Option, none, some}

pub record Machine : Type 0 where
  pub cpu : Cpu
  pub mem : AddressSpace

pub data Result : Type 0 where
  stepped : Code → Machine → Result
  step_undefined : Result

-- A helper that returns 0 (`true`) or -1.
abbrev pub Attempt : Type 0
Attempt = Bool × Machine

unfoldable pub or_segfault : Attempt → (Machine → Result) → Result
or_segfault (true, m) next = next m
or_segfault (false, m) next = stepped emu_segfault m

module _ {A : Type 0} where
  unfoldable pub read_case : Machine → A → (ℕ → Machine → A) → Option (ℕ × AddressSpace) → A
  read_case m failed next none = failed
  read_case m failed next (some (val, mem)) = next val (record m { mem = mem })

  unfoldable pub write_case : Machine → A → (Machine → A) → Option AddressSpace → A
  write_case m failed next none = failed
  write_case m failed next (some mem) = next (record m { mem = mem })

  -- `if (cpu_mem_read8(cpu, addr, &val) != 0) ...` for any size in bytes, and what follows.
  abbrev pub read_or : ℕ → Machine → ℕ → A → (ℕ → Machine → A) → A
  read_or size m addr failed next = read_case m failed next (mem_read size m.mem addr)

  -- The same for `cpu_mem_write8` and its kin.
  abbrev pub write_or : ℕ → Machine → ℕ → ℕ → A → (Machine → A) → A
  write_or size m addr val failed next = write_case m failed next (mem_write size m.mem addr val)

-- A read or a write that fails returns EMU_SEGFAULT.
abbrev pub read_then : ℕ → Machine → ℕ → (ℕ → Machine → Result) → Result
read_then size m addr next = read_or size m addr (stepped emu_segfault m) next

abbrev pub write_then : ℕ → Machine → ℕ → ℕ → (Machine → Result) → Result
write_then size m addr val next = write_or size m addr val (stepped emu_segfault m) next
