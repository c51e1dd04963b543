-- ===== src/DpImm/Handlers.antt =====
-- The handlers of emu/src/exec_dp_imm.c.
use alpine_on_ios.DpImm.Bitmask.{decode_bitmask_imm}
use alpine_on_ios.Cpu.{
  Cpu, Outcome, returns, emu_ok, emu_err, emu_unimpl, xreg, xreg_sp, set_xreg, set_wreg,
  set_xreg_sp, bits, bit, sign_extend,
}
use alpine_on_ios.Cpu.Flags.{
  update_flags_add32, update_flags_add64, update_flags_sub32, update_flags_sub64, update_flags_nz32,
  update_flags_nz64,
}
use alpine_on_ios.Prelude.{
  ℕ, ◌-◌, ◌*◌, ◌^◌, bit_and, bit_or, bit_xor, Option, none, some, not, ◌&&◌, ◌==◌, if◌then◌else◌,
  shl64, add32, add64, sub32, sub64, not64, u32, is_true,
}

-- ADR and ADRP.
unfoldable pub exec_pc_rel : Cpu → ℕ → Outcome
exec_pc_rel cpu insn =
    let rd = bits insn 4 0 in
    let op = bit insn 31 in
    let imm = sign_extend (bit_or (bits insn 23 5 * 2 ^ 2) (bits insn 30 29)) 21 in
    if op == 0
    then returns emu_ok (set_xreg cpu rd (add64 cpu.pc imm))
    else returns emu_ok (set_xreg cpu rd (add64 (bit_and cpu.pc (2 ^ 64 - 2 ^ 12)) (shl64 imm 12)))

-- The result and the flags of an addition or subtraction; `S` asks for the flags.
unfoldable pub add_sub64 : Cpu → ℕ → ℕ → ℕ → ℕ → Cpu × ℕ
add_sub64 cpu op s a b =
    if op == 0
    then (let r = add64 a b in (if is_true s then update_flags_add64 cpu a b r else cpu, r))
    else (let r = sub64 a b in (if is_true s then update_flags_sub64 cpu a b r else cpu, r))

unfoldable pub add_sub32 : Cpu → ℕ → ℕ → ℕ → ℕ → Cpu × ℕ
add_sub32 cpu op s a b =
    if op == 0
    then (let r = add32 a b in (if is_true s then update_flags_add32 cpu a b r else cpu, r))
    else (let r = sub32 a b in (if is_true s then update_flags_sub32 cpu a b r else cpu, r))

-- ADD, ADDS, SUB and SUBS with a 12-bit immediate. With `S` register 31 is zero, else it is SP.
unfoldable pub exec_add_sub_imm : Cpu → ℕ → Outcome
exec_add_sub_imm cpu insn =
    let sf = bit insn 31 in
    let op = bit insn 30 in
    let s = bit insn 29 in
    let sh = bit insn 22 in
    let imm12 = bits insn 21 10 in
    let rn = bits insn 9 5 in
    let rd = bits insn 4 0 in
    let imm = if is_true sh then shl64 imm12 12 else imm12 in
    let operand1 = xreg_sp cpu rn in
    let wide = add_sub64 cpu op s operand1 imm in
    let narrow = add_sub32 cpu op s (u32 operand1) (u32 imm) in
    returns emu_ok (
      if is_true sf
      then (if is_true s then set_xreg wide.0 rd wide.1 else set_xreg_sp wide.0 rd wide.1)
      else (if is_true s then set_wreg narrow.0 rd narrow.1 else set_xreg_sp narrow.0 rd narrow.1))

-- AND, ORR, EOR and ANDS with a bitmask immediate, once it is decoded.
unfoldable pub with_mask : Cpu → ℕ → Option ℕ → Outcome
with_mask cpu insn none = returns emu_err cpu
with_mask cpu insn (some imm_val) =
    let sf = is_true (bit insn 31) in
    let opc = bits insn 30 29 in
    let rd = bits insn 4 0 in
    let operand = xreg cpu (bits insn 9 5) in
    let operand1 = if sf then operand else bit_and operand 0xffff_ffff in
    let full =
      if opc == 1
      then bit_or operand1 imm_val
      else if opc == 2
      then bit_xor operand1 imm_val
      else bit_and operand1 imm_val in
    let result = if sf then full else bit_and full 0xffff_ffff in
    let flagged = if sf then update_flags_nz64 cpu result else update_flags_nz32 cpu (u32 result) in
    returns emu_ok (
      if opc == 3
      then set_xreg flagged rd result
      else set_xreg_sp cpu rd (if sf then result else bit_and result 0xffff_ffff))

unfoldable pub exec_logical_imm : Cpu → ℕ → Outcome
exec_logical_imm cpu insn =
    with_mask cpu insn
      (decode_bitmask_imm (bit insn 31) (bit insn 22) (bits insn 21 16) (bits insn 15 10))

-- MOVN, MOVZ and MOVK.
unfoldable pub exec_move_wide : Cpu → ℕ → Outcome
exec_move_wide cpu insn =
    let sf = bit insn 31 in
    let opc = bits insn 30 29 in
    let hw = bits insn 22 21 in
    let imm16 = bits insn 20 5 in
    let rd = bits insn 4 0 in
    let shift = hw * 16 in
    let cut = λ (val : ℕ). if is_true sf then val else bit_and val 0xffff_ffff in
    let put = λ (val : ℕ).
      returns emu_ok (if is_true sf then set_xreg cpu rd val else set_wreg cpu rd (u32 val)) in
    if not (is_true sf) && is_true (bit_and hw 2)
    then returns emu_err cpu
    else if opc == 0
    then put (cut (not64 (shl64 imm16 shift)))
    else if opc == 2
    then put (shl64 imm16 shift)
    else if opc == 3
    then put (cut (bit_or (bit_and (xreg cpu rd) (not64 (shl64 0xffff shift))) (shl64 imm16 shift)))
    else returns emu_unimpl cpu
