-- ===== src/Branch/ThreadPointer.antt =====
-- The system registers by their encodings: the thread pointer `TPIDR_EL0`, written by MSR and read
-- back by MRS, and the virtual counter `CNTVCT_EL0`.
use alpine_on_ios.Branch.Exec.{exec_branch}
use alpine_on_ios.Branch.System.{Clock, key_of, sysreg, is_nop, exec_mrs, exec_msr, exec_system}
use alpine_on_ios.Cpu.{Cpu, returns, emu_ok, xreg, set_xreg, bits, bit}
use alpine_on_ios.Prelude.{
  ℕ, ◌+◌, ◌<◌, ◌≡◌, refl, ◌∙◌, arith, Bool, true, ◌==◌, ◌&&◌, bit_and, each_below, each_below-at,
  not,
}

abbrev pub msr_tpidr : ℕ → ℕ
msr_tpidr rt = 0xd51b_d040 + rt

abbrev pub mrs_tpidr : ℕ → ℕ
mrs_tpidr rt = 0xd53b_d040 + rt

-- CNTVCT_EL0 is the register 3, 3, c14, c0, 2 of the architecture.
abbrev pub mrs_cntvct : ℕ → ℕ
mrs_cntvct rt = 0xd53b_e040 + rt

-- The tests of `exec_branch` and `exec_system` on an encoding, and the fields it names.
is_system : ℕ → ℕ → ℕ → ℕ → Bool
unfolding is_nop bit bits key_of
is_system direction key insn rt =
    not (bit_and insn 0x7c000000 == 0x14000000)
    && not (bit_and insn 0xff000010 == 0x54000000)
    && not (bit_and insn 0x7e000000 == 0x34000000)
    && not (bit_and insn 0x7e000000 == 0x36000000)
    && not (bit_and insn 0xff000000 == 0xd4000000)
    && not (bit_and insn 0xfe000000 == 0xd6000000)
    && bit_and insn 0xffc00000 == 0xd5000000
    && not (is_nop insn)
    && bit insn 20 == 1
    && bit insn 21 == direction
    && key_of insn == key
    && bits insn 4 0 == rt

all_msr : each_below (λ rt. is_system 0 (sysreg 3 3 13 0 2) (msr_tpidr rt) rt) 32 ≡ true
unfolding each_below is_system is_nop bit bits key_of
all_msr = refl

all_counter : each_below (λ rt. is_system 1 (sysreg 3 3 14 0 2) (mrs_cntvct rt) rt) 32 ≡ true
unfolding each_below is_system is_nop bit bits key_of
all_counter = refl

all_mrs : each_below (λ rt. is_system 1 (sysreg 3 3 13 0 2) (mrs_tpidr rt) rt) 32 ≡ true
unfolding each_below is_system is_nop bit bits key_of
all_mrs = refl

module _ (clock : Clock) (cpu : Cpu) (rt : ℕ) (h : rt < 32) where
  exec_msr_tpidr :
      exec_branch clock cpu (msr_tpidr rt) ≡ returns emu_ok (record cpu { tpidr_el0 = xreg cpu rt })
  unfolding exec_branch exec_system exec_msr is_system
  exec_msr_tpidr = ground (
    arith,
    each_below-at (λ rt. is_system 0 (sysreg 3 3 13 0 2) (msr_tpidr rt) rt) 32 all_msr rt h,
  )

  exec_mrs_tpidr :
      exec_branch clock cpu (mrs_tpidr rt) ≡ returns emu_ok (set_xreg cpu rt cpu.tpidr_el0)
  unfolding exec_branch exec_system exec_mrs is_system
  exec_mrs_tpidr = ground (
    arith,
    each_below-at (λ rt. is_system 1 (sysreg 3 3 13 0 2) (mrs_tpidr rt) rt) 32 all_mrs rt h,
  )

-- MSR of a register to TPIDR_EL0 succeeds and writes it, and MRS from the state that it leaves
-- puts that value in the register named there; nothing else changes, and register 31 reads as 0
-- and is not written.
pub exec_msr-exec_mrs :
    (clock : Clock) (cpu : Cpu) (rt rd : ℕ)
    → rt < 32
    → rd < 32
    → (c : Cpu) × (exec_branch clock cpu (msr_tpidr rt) ≡ returns emu_ok c)
      × (c.tpidr_el0 ≡ xreg cpu rt)
      × (exec_branch clock c (mrs_tpidr rd)
          ≡ returns emu_ok (record (set_xreg cpu rd (xreg cpu rt)) { tpidr_el0 = xreg cpu rt }))
unfolding set_xreg
exec_msr-exec_mrs clock cpu rt rd ht hd =
    let c = record cpu { tpidr_el0 = xreg cpu rt } in
    (c, exec_msr_tpidr clock cpu rt ht, refl, exec_mrs_tpidr clock c rd hd ∙ ground arith)

-- MRS of CNTVCT_EL0, encoded as the architecture has it, reads 0 whatever the clock answers.
pub exec_branch-cntvct :
    (clock : Clock) (cpu : Cpu) (rd : ℕ)
    → rd < 32
    → exec_branch clock cpu (mrs_cntvct rd) ≡ returns emu_ok (set_xreg cpu rd 0)
unfolding exec_branch exec_system exec_mrs is_system
exec_branch-cntvct clock cpu rd h = ground (
  arith,
  each_below-at (λ rt. is_system 1 (sysreg 3 3 14 0 2) (mrs_cntvct rt) rt) 32 all_counter rd h,
)
