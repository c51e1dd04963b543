-- ===== src/DpImm/Bitfield.antt =====
-- SBFM, BFM, UBFM and EXTR of emu/src/exec_dp_imm.c, and the dispatcher `exec_dp_imm`.
use alpine_on_ios.DpImm.Handlers.{exec_pc_rel, exec_add_sub_imm, exec_logical_imm, exec_move_wide}
use alpine_on_ios.Cpu.{
  Cpu, Outcome, returns, undefined, emu_ok, emu_unimpl, xreg, set_xreg, bits, bit, sign_extend,
}
use alpine_on_ios.Prelude.{
  ℕ, ◌+◌, ◌-◌, ◌^◌, bit_and, bit_or, Option, none, some, ◌==◌, ltb, leb, if◌then◌else◌, shr, shl64,
  not64, is_true,
}

-- `(1ULL << len) - 1` and `x << pos`, undefined from a count of 64 on.
unfoldable pub ones : ℕ → Option ℕ
ones len = if ltb len 64 then some (2 ^ len - 1) else none

-- The branch `imms >= immr`: the field `imms..immr` of the source comes down to bit 0.
unfoldable pub extract_field : ℕ → ℕ → ℕ → ℕ → ℕ → Option ℕ
unfolding ones
extract_field opc src dst immr imms =
    let len = imms - immr + 1 in
    elim (ones len) [
      | none ↦ none
      | some mask ↦
          let field = bit_and (shr src immr) mask in
          some (
            if opc == 0
            then sign_extend field len
            else if opc == 1
            then bit_or (bit_and dst (not64 mask)) field
            else field)
    ]

-- The branch `imms < immr`: the low `imms + 1` digits go up to bit `regwidth - immr`, a negative
-- shift count if `immr` exceeds the width.
unfoldable pub insert_field : ℕ → ℕ → ℕ → ℕ → ℕ → ℕ → Option ℕ
insert_field opc regwidth src dst immr imms =
    let len = imms + 1 in
    let pos = regwidth - immr in
    let mask = 2 ^ len - 1 in
    let field = shl64 (bit_and src mask) pos in
    if ltb regwidth immr
    then none
    else some (
        if opc == 0
        then sign_extend field (len + pos)
        else if opc == 1
        then bit_or (bit_and dst (not64 (shl64 mask pos))) field
        else field)

-- The write-back that ends the three instructions.
unfoldable pub put_field : Cpu → ℕ → Option ℕ → Outcome
put_field cpu insn none = undefined
put_field cpu insn (some val) =
    returns emu_ok (
      set_xreg cpu (bits insn 4 0) (if is_true (bit insn 31) then val else bit_and val 0xffff_ffff))

-- `opc` is 0 for SBFM, 1 for BFM and 2 for UBFM; 3 is not implemented.
unfoldable pub exec_bitfield : Cpu → ℕ → Outcome
exec_bitfield cpu insn =
    let sf = bit insn 31 in
    let opc = bits insn 30 29 in
    let immr = bits insn 21 16 in
    let imms = bits insn 15 10 in
    let rn = bits insn 9 5 in
    let rd = bits insn 4 0 in
    let narrow = λ (val : ℕ). if is_true sf then val else bit_and val 0xffff_ffff in
    let src = narrow (xreg cpu rn) in
    let dst = narrow (xreg cpu rd) in
    let regwidth = if is_true sf then 64 else 32 in
    let result =
      if leb immr imms
      then extract_field opc src dst immr imms
      else insert_field opc regwidth src dst immr imms in
    if opc == 3 then returns emu_unimpl cpu else put_field cpu insn result

-- EXTR. On 32 bits the count `regwidth - imms` wraps as an unsigned number from `imms` = 33 on.
unfoldable pub exec_extract : Cpu → ℕ → Outcome
exec_extract cpu insn =
    let sf = bit insn 31 in
    let rm = bits insn 20 16 in
    let imms = bits insn 15 10 in
    let rn = bits insn 9 5 in
    let rd = bits insn 4 0 in
    let narrow = λ (val : ℕ). if is_true sf then val else bit_and val 0xffff_ffff in
    let regwidth = if is_true sf then 64 else 32 in
    let hi = narrow (xreg cpu rn) in
    let lo = narrow (xreg cpu rm) in
    let result = if imms == 0 then hi else bit_or (shr lo imms) (shl64 hi (regwidth - imms)) in
    if ltb regwidth imms then undefined else returns emu_ok (set_xreg cpu rd (narrow result))

-- The default branch of the switch cannot be reached from a field of three bits.
unfoldable pub exec_dp_imm : Cpu → ℕ → Outcome
exec_dp_imm cpu insn =
    let op0 = bits insn 25 23 in
    if leb op0 1
    then exec_pc_rel cpu insn
    else if leb op0 3
    then exec_add_sub_imm cpu insn
    else if op0 == 4
    then exec_logical_imm cpu insn
    else if op0 == 5
    then exec_move_wide cpu insn
    else if op0 == 6
    then exec_bitfield cpu insn
    else if op0 == 7
    then exec_extract cpu insn
    else returns emu_unimpl cpu
