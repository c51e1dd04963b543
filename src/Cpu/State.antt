-- ===== src/Cpu/State.antt =====
-- `cpu_state_t` of emu/include/cpu.h and its register accessors. The host save area and the flags
-- of the run loop (`running`, `exit_code`, `native_host_save`) belong to emu/src/emu.c and are left
-- out; the address space and the software TLB are in Memory and Tlb.
use alpine_on_ios.Prelude.{ℕ, ◌==◌, if◌then◌else◌, update, u32}

-- What an instruction handler returns: the EMU_* codes of emu/include/emu.h.
pub data Code : Type 0 where
  emu_ok emu_err emu_syscall emu_break emu_unimpl emu_segfault emu_exit : Code

-- A SIMD register as its two 64-bit halves `d[0]` and `d[1]`.
pub record Vreg : Type 0 where
  pub d0 : ℕ
  pub d1 : ℕ

pub record Cpu : Type 0 where
  pub x : ℕ → ℕ
  pub sp : ℕ
  pub pc : ℕ
  pub nzcv : ℕ
  pub v : ℕ → Vreg
  pub fpcr : ℕ
  pub fpsr : ℕ
  pub tpidr_el0 : ℕ
  pub tpidrro_el0 : ℕ
  pub excl_addr : ℕ
  pub excl_val : ℕ
  pub excl_active : ℕ

-- The outcome of a handler: it returns a code and the new state, or it shifts a C integer by its
-- width or more, which the language leaves undefined.
pub data Outcome : Type 0 where
  returns : Code → Cpu → Outcome
  undefined : Outcome

-- Register 31 reads as zero.
unfoldable pub xreg : Cpu → ℕ → ℕ
xreg c r = if r == 31 then 0 else c.x r

unfoldable pub wreg : Cpu → ℕ → ℕ
wreg c r = if r == 31 then 0 else u32 (c.x r)

-- Register 31 is the stack pointer.
unfoldable pub xreg_sp : Cpu → ℕ → ℕ
xreg_sp c r = if r == 31 then c.sp else c.x r

unfoldable pub set_xreg : Cpu → ℕ → ℕ → Cpu
set_xreg c r val = if r == 31 then c else record c { x = update c.x r val }

-- The argument is a `uint32_t`, so a caller's wider value is cut.
unfoldable pub set_wreg : Cpu → ℕ → ℕ → Cpu
set_wreg c r val = if r == 31 then c else record c { x = update c.x r (u32 val) }

unfoldable pub set_xreg_sp : Cpu → ℕ → ℕ → Cpu
set_xreg_sp c r val = if r == 31 then record c { sp = val } else record c { x = update c.x r val }
