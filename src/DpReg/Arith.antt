-- ===== src/DpReg/Arith.antt =====
-- The logical and additive instructions of emu/src/exec_dp_reg.c on a shifted or extended register.
use alpine_on_ios.Decoder.{apply_shift, apply_shift32, extend_reg}
use alpine_on_ios.DpImm.Handlers.{add_sub64, add_sub32}
use alpine_on_ios.Cpu.{
  Cpu, Outcome, returns, emu_ok, emu_err, xreg, wreg, xreg_sp, set_xreg, set_wreg, set_xreg_sp,
  bits, bit,
}
use alpine_on_ios.Cpu.Flags.{update_flags_nz32, update_flags_nz64}
use alpine_on_ios.Prelude.{
  ℕ, bit_and, bit_or, bit_xor, not, ◌&&◌, ◌==◌, ltb, if◌then◌else◌, not64, u32, is_true,
}

-- AND, ORR, EOR, ANDS and, with the second operand inverted, BIC, ORN, EON and BICS.
unfoldable pub exec_logical_shifted : Cpu → ℕ → Outcome
exec_logical_shifted cpu insn =
    let sf = is_true (bit insn 31) in
    let opc = bits insn 30 29 in
    let shift_type = bits insn 23 22 in
    let n = bit insn 21 in
    let rm = bits insn 20 16 in
    let imm6 = bits insn 15 10 in
    let rn = bits insn 9 5 in
    let rd = bits insn 4 0 in
    let operand1 = if sf then xreg cpu rn else wreg cpu rn in
    let shifted =
      if sf
      then apply_shift (xreg cpu rm) shift_type imm6
      else apply_shift32 (wreg cpu rm) shift_type imm6 in
    let operand2 = if is_true n then not64 shifted else shifted in
    let result =
      if opc == 1
      then bit_or operand1 operand2
      else if opc == 2
      then bit_xor operand1 operand2
      else bit_and operand1 operand2 in
    let low = bit_and result 0xffff_ffff in
    let wide = if opc == 3 then update_flags_nz64 cpu result else cpu in
    let narrow = if opc == 3 then update_flags_nz32 cpu (u32 low) else cpu in
    if not sf && is_true (bit_and imm6 0x20)
    then returns emu_err cpu
    else returns emu_ok (if sf then set_xreg wide rd result else set_wreg narrow rd (u32 low))

-- ADD, ADDS, SUB and SUBS of a shifted register; register 31 is zero throughout.
unfoldable pub exec_add_sub_shifted : Cpu → ℕ → Outcome
exec_add_sub_shifted cpu insn =
    let sf = is_true (bit insn 31) in
    let op = bit insn 30 in
    let s = bit insn 29 in
    let shift_type = bits insn 23 22 in
    let rm = bits insn 20 16 in
    let imm6 = bits insn 15 10 in
    let rn = bits insn 9 5 in
    let rd = bits insn 4 0 in
    let wide = add_sub64 cpu op s (xreg cpu rn) (apply_shift (xreg cpu rm) shift_type imm6) in
    let narrow = add_sub32 cpu op s (wreg cpu rn) (apply_shift32 (wreg cpu rm) shift_type imm6) in
    if shift_type == 3
    then returns emu_err cpu
    else if not sf && is_true (bit_and imm6 0x20)
    then returns emu_err cpu
    else returns emu_ok (if sf then set_xreg wide.0 rd wide.1 else set_wreg narrow.0 rd narrow.1)

-- The same of an extended register; the first operand may be SP, and so may the result if the
-- flags are not asked for.
unfoldable pub exec_add_sub_extended : Cpu → ℕ → Outcome
exec_add_sub_extended cpu insn =
    let sf = is_true (bit insn 31) in
    let op = bit insn 30 in
    let s = bit insn 29 in
    let rm = bits insn 20 16 in
    let option = bits insn 15 13 in
    let imm3 = bits insn 12 10 in
    let rn = bits insn 9 5 in
    let rd = bits insn 4 0 in
    let operand1 = xreg_sp cpu rn in
    let operand2 = extend_reg cpu rm option imm3 in
    let wide = add_sub64 cpu op s operand1 operand2 in
    let narrow = add_sub32 cpu op s (u32 operand1) (u32 operand2) in
    if ltb 4 imm3
    then returns emu_err cpu
    else returns emu_ok (
        if sf
        then (if is_true s then set_xreg wide.0 rd wide.1 else set_xreg_sp wide.0 rd wide.1)
        else (if is_true s
            then set_wreg narrow.0 rd narrow.1
            else set_xreg_sp narrow.0 rd narrow.1))
