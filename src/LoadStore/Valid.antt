-- ===== src/LoadStore/Valid.antt =====
-- Loads and stores keep the machine well formed, on each of their paths.
mod Access
mod Register
mod Pair
mod Exclusive
use alpine_on_ios.Cpu.{emu_unimpl, bits, bit}
use alpine_on_ios.LoadStore.Dispatch.{exec_ldst_register, exec_ldst}
use alpine_on_ios.LoadStore.Valid.Exclusive.{exec_ldst_exclusive-Ends}
use alpine_on_ios.LoadStore.Valid.Pair.{exec_ldst_pair-Ends}
use alpine_on_ios.LoadStore.Valid.Register.{
  exec_ldst_unsigned_offset-Ends, exec_ldst_imm9-Ends, exec_ldst_reg_offset-Ends,
  exec_ldst_literal-Ends,
}
use alpine_on_ios.Machine.{Machine, Result}
use alpine_on_ios.Machine.Valid.{IsMachine, Ends, ends}
use alpine_on_ios.Prelude.{ℕ, ◌==◌, ◌&&◌, not, is_true, if-rule}

module _ {m : Machine} (valid : IsMachine m) (insn : ℕ) where
  exec_ldst_register-Ends : Ends IsMachine (exec_ldst_register m insn)
  unfolding exec_ldst_register
  exec_ldst_register-Ends =
      if-rule (Ends IsMachine) (is_true (bit insn 24)) (exec_ldst_unsigned_offset-Ends valid insn) (
        if-rule (Ends IsMachine) (bits insn 11 10 == 2 && is_true (bit insn 21))
          (exec_ldst_reg_offset-Ends valid insn) (exec_ldst_imm9-Ends valid insn))

  -- The vector loads and stores of structures may do what `exec_simd` may.
  pub exec_ldst-Ends :
      (exec_simd : Machine → ℕ → Result)
      → Ends IsMachine (exec_simd m insn)
      → Ends IsMachine (exec_ldst exec_simd m insn)
  unfolding exec_ldst
  exec_ldst-Ends exec_simd keeps =
      let op1 = bits insn 29 27 in
      let exclusive = exec_ldst_exclusive-Ends valid insn in
      if-rule (Ends IsMachine) (op1 == 5) (exec_ldst_pair-Ends valid insn) (
        if-rule (Ends IsMachine) (op1 == 3 && not (is_true (bit insn 24)))
          (exec_ldst_literal-Ends valid insn)
          (if-rule (Ends IsMachine) (op1 == 2) exclusive (
            if-rule (Ends IsMachine) (op1 == 7) exec_ldst_register-Ends (
              if-rule (Ends IsMachine) (op1 == 1)
                (if-rule (Ends IsMachine) (is_true (bit insn 31)) exclusive keeps) (ends valid)))))
