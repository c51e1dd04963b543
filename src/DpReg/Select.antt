-- ===== src/DpReg/Select.antt =====
-- The conditional compare and select instructions of emu/src/exec_dp_reg.c.
use alpine_on_ios.DpImm.Handlers.{add_sub64, add_sub32}
use alpine_on_ios.Cpu.{Cpu, Outcome, returns, emu_ok, emu_err, xreg, set_xreg, set_wreg, bits, bit}
use alpine_on_ios.Cpu.Flags.{check_cond}
use alpine_on_ios.Prelude.{
  ℕ, ◌+◌, ◌*◌, not, ◌||◌, ◌==◌, if◌then◌else◌, shl32, add64, not64, u32, is_true,
}

-- CCMN and CCMP: the flags of the comparison if the condition holds, else the given flags.
unfoldable pub exec_cond_compare : Cpu → ℕ → Outcome
exec_cond_compare cpu insn =
    let sf = is_true (bit insn 31) in
    let op = bit insn 30 in
    let rn = bits insn 9 5 in
    let field = bits insn 20 16 in
    let operand2 = if is_true (bit insn 11) then field else xreg cpu field in
    let operand1 = xreg cpu rn in
    if not (bit insn 29 == 1) || not (bit insn 10 == 0) || not (bit insn 4 == 0)
    then returns emu_err cpu
    else if check_cond cpu (bits insn 15 12)
    then returns emu_ok (
        if sf
        then (add_sub64 cpu op 1 operand1 operand2).0
        else (add_sub32 cpu op 1 (u32 operand1) (u32 operand2)).0)
    else returns emu_ok (record cpu { nzcv = shl32 (bits insn 3 0) 28 })

-- CSEL, CSINC, CSINV and CSNEG.
unfoldable pub exec_cond_select : Cpu → ℕ → Outcome
exec_cond_select cpu insn =
    let sf = is_true (bit insn 31) in
    let op = bit insn 30 in
    let rm = bits insn 20 16 in
    let op2 = bit insn 10 in
    let rn = bits insn 9 5 in
    let rd = bits insn 4 0 in
    let other = xreg cpu rm in
    let kind = op * 2 + op2 in
    let modified =
      if kind == 1
      then add64 other 1
      else if kind == 2
      then not64 other
      else if kind == 3
      then add64 (not64 other) 1
      else other in
    let result = if check_cond cpu (bits insn 15 12) then xreg cpu rn else modified in
    returns emu_ok (if sf then set_xreg cpu rd result else set_wreg cpu rd (u32 result))
