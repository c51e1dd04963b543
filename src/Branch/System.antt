-- ===== src/Branch/System.antt =====
-- `exec_system` of emu/src/exec_system.c. The monotonic clock is not code of the repository: what
-- `clock_gettime` answers is the parameter `clock`, `none` for a failure, else the seconds and
-- nanoseconds.
use alpine_on_ios.Cpu.{Cpu, Outcome, returns, emu_ok, emu_unimpl, xreg, set_xreg, bits, bit}
use alpine_on_ios.Prelude.{
  ℕ, ◌*◌, ◌/◌, bit_and, bit_or, Option, none, some, Bool, ◌||◌, ◌==◌, if◌then◌else◌, u32, u64,
  add64, is_true,
}

abbrev pub Clock : Type 0
Clock = Option (ℕ × ℕ)

-- 24 MHz ticks.
unfoldable pub read_counter : Clock → ℕ
read_counter none = 0
read_counter (some (sec, nsec)) = add64 (u64 (sec * 24000000)) (u64 (nsec * 24) / 1000)

-- The `SYSREG` key of the five fields.
abbrev pub sysreg : ℕ → ℕ → ℕ → ℕ → ℕ → ℕ
sysreg op0 op1 crn crm op2 =
    bit_or (bit_or (bit_or (bit_or (op0 * 65536) (op1 * 4096)) (crn * 256)) (crm * 16)) op2

unfoldable pub key_of : ℕ → ℕ
key_of insn =
    sysreg (bits insn 20 19) (bits insn 18 16) (bits insn 15 12) (bits insn 11 8) (bits insn 7 5)

unfoldable pub exec_mrs : Clock → Cpu → ℕ → Outcome
exec_mrs clock cpu insn =
    let key = key_of insn in
    let val =
      if key == sysreg 3 3 13 0 2
      then cpu.tpidr_el0
      else if key == sysreg 3 3 13 0 3
      then cpu.tpidrro_el0
      else if key == sysreg 3 3 14 0 0
      then 24000000
      else if key == sysreg 3 3 14 0 1
      then read_counter clock
      else if key == sysreg 3 3 0 0 1
      then 0x84448004
      else if key == sysreg 3 3 0 0 7
      then 0x4
      else if key == sysreg 3 0 0 0 0
      then 0x410fd034
      else if key == sysreg 3 3 4 4 0
      then cpu.fpcr
      else if key == sysreg 3 3 4 4 1
      then cpu.fpsr
      else if key == sysreg 3 0 0 0 5
      then 0x80000000
      else 0 in
    returns emu_ok (set_xreg cpu (bits insn 4 0) val)

-- A write to any other register is dropped.
unfoldable pub exec_msr : Cpu → ℕ → Outcome
exec_msr cpu insn =
    let val = xreg cpu (bits insn 4 0) in
    let key = key_of insn in
    if key == sysreg 3 3 13 0 2
    then returns emu_ok (record cpu { tpidr_el0 = val })
    else if key == sysreg 3 3 4 4 0
    then returns emu_ok (record cpu { fpcr = u32 val })
    else if key == sysreg 3 3 4 4 1
    then returns emu_ok (record cpu { fpsr = u32 val })
    else returns emu_ok cpu

-- The hints, barriers and cache operations that do nothing.
unfoldable pub is_nop : ℕ → Bool
is_nop insn =
    insn == 0xd503201f
    || bit_and insn 0xfffff0ff == 0xd503201f
    || bit_and insn 0xfffff01f == 0xd503201f
    || bit_and insn 0xfffff000 == 0xd5033000
    || bit_and insn 0xfffff000 == 0xd5032000
    || bit_and insn 0xfffff0ff == 0xd50330bf
    || bit_and insn 0xfffff0ff == 0xd50330df
    || bit_and insn 0xfff80000 == 0xd5080000

unfoldable pub exec_system : Clock → Cpu → ℕ → Outcome
exec_system clock cpu insn =
    if is_nop insn
    then returns emu_ok cpu
    else if is_true (bit insn 20)
    then (if is_true (bit insn 21) then exec_mrs clock cpu insn else exec_msr cpu insn)
    else returns emu_unimpl cpu
