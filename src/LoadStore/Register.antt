-- ===== src/LoadStore/Register.antt =====
-- The loads and stores of one register in emu/src/exec_ldst.c, by their ways to form an address, and
-- the loads of a literal. The signed additions of the C code wrap, and are additions of words.
use alpine_on_ios.Cpu.{
  emu_ok, emu_err, emu_unimpl, xreg_sp, set_xreg, set_wreg, set_xreg_sp, bits, bit, sign_extend,
}
use alpine_on_ios.Decoder.{extend_reg}
use alpine_on_ios.LoadStore.Access.{do_load, do_store, set_v, clear_v}
use alpine_on_ios.Machine.{Machine, Result, stepped, or_segfault, read_then}
use alpine_on_ios.Prelude.{ℕ, bit_and, Bool, ◌&&◌, ◌||◌, ◌==◌, if◌then◌else◌, is_true, add64, shl64}

-- Whether the opcode field of a register access says load.
unfoldable pub is_load : ℕ → ℕ → Bool
is_load opc is_vec =
    if is_true is_vec then opc == 1 || opc == 3 else is_true (bit_and opc 1) || opc == 2

-- The access that ends the three handlers, and what comes after it.
unfoldable pub access : Machine → ℕ → ℕ → (Machine → Result) → Result
access m insn addr next =
    let size = bits insn 31 30 in
    let is_vec = bit insn 26 in
    let opc = bits insn 23 22 in
    let rt = bits insn 4 0 in
    or_segfault
      (if is_load opc is_vec
        then do_load m addr size opc rt is_vec
        else do_store m addr size opc rt is_vec)
      next

-- LDR and STR with an unsigned offset, scaled by the size of the access.
unfoldable pub exec_ldst_unsigned_offset : Machine → ℕ → Result
exec_ldst_unsigned_offset m insn =
    let size = bits insn 31 30 in
    let opc = bits insn 23 22 in
    let quad = is_true (bit insn 26) && size == 0 && (opc == 2 || opc == 3) in
    let offset = shl64 (bits insn 21 10) (if quad then 4 else size) in
    let addr = add64 (xreg_sp (m.cpu) (bits insn 9 5)) offset in
    access m insn addr (λ m'. stepped emu_ok m')

-- LDUR and STUR, and the forms that write the base back after or before the access.
unfoldable pub exec_ldst_imm9 : Machine → ℕ → Result
exec_ldst_imm9 m insn =
    let imm9 = sign_extend (bits insn 20 12) 9 in
    let idx_type = bits insn 11 10 in
    let rn = bits insn 9 5 in
    let base = xreg_sp (m.cpu) rn in
    let addr = if idx_type == 1 then base else add64 base imm9 in
    let write_back = λ (m' : Machine).
      if idx_type == 1
      then stepped emu_ok
          (record m' { cpu = set_xreg_sp (m'.cpu) rn (add64 (xreg_sp (m'.cpu) rn) imm9) })
      else if idx_type == 3
      then stepped emu_ok (record m' { cpu = set_xreg_sp (m'.cpu) rn addr })
      else stepped emu_ok m' in
    if idx_type == 2 then stepped emu_err m else access m insn addr write_back

-- LDR and STR with a register as the offset, extended and shifted.
unfoldable pub exec_ldst_reg_offset : Machine → ℕ → Result
exec_ldst_reg_offset m insn =
    let size = bits insn 31 30 in
    let quad = is_true (bit insn 26) && size == 0 && is_true (bit_and (bits insn 23 22) 2) in
    let shift = if is_true (bits insn 12 12) then (if quad then 4 else size) else 0 in
    let offset = extend_reg (m.cpu) (bits insn 20 16) (bits insn 15 13) shift in
    let addr = add64 (xreg_sp (m.cpu) (bits insn 9 5)) offset in
    access m insn addr (λ m'. stepped emu_ok m')

-- LDR of a literal near the instruction. Here `opc` is the size.
unfoldable pub literal_vector : Machine → ℕ → ℕ → ℕ → Result
literal_vector m addr opc rt =
    let cleared = clear_v m rt in
    if opc == 0
    then read_then 4 cleared addr (λ val m'. stepped emu_ok (set_v m' rt val 0))
    else if opc == 1
    then read_then 8 cleared addr (λ val m'. stepped emu_ok (set_v m' rt val 0))
    else if opc == 2
    then read_then 8 cleared addr (λ low m1.
      let half = set_v m1 rt low 0 in
      read_then 8 half (add64 addr 8) (λ high m2. stepped emu_ok (set_v m2 rt low high)))
    else stepped emu_unimpl cleared

unfoldable pub literal_general : Machine → ℕ → ℕ → ℕ → Result
literal_general m addr opc rt =
    if opc == 0
    then read_then 4 m addr
        (λ val m'. stepped emu_ok (record m' { cpu = set_wreg (m'.cpu) rt val }))
    else if opc == 1
    then read_then 8 m addr
        (λ val m'. stepped emu_ok (record m' { cpu = set_xreg (m'.cpu) rt val }))
    else if opc == 2
    then read_then 4 m addr
        (λ val m'. stepped emu_ok (record m' { cpu = set_xreg (m'.cpu) rt (sign_extend val 32) }))
    else stepped emu_unimpl m

unfoldable pub exec_ldst_literal : Machine → ℕ → Result
exec_ldst_literal m insn =
    let opc = bits insn 31 30 in
    let rt = bits insn 4 0 in
    let offset = shl64 (sign_extend (bits insn 23 5) 19) 2 in
    let addr = add64 (m.cpu.pc) offset in
    if is_true (bit insn 26) then literal_vector m addr opc rt else literal_general m addr opc rt
