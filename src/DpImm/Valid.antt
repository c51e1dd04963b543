-- ===== src/DpImm/Valid.antt =====
-- Every instruction of emu/src/exec_dp_imm.c, on any of its paths, writes words of 64 bits into
-- general registers, SP and the flags, and touches nothing else.
use alpine_on_ios.Bits.{and-lt, or-lt, xor-lt}
use alpine_on_ios.DpImm.Masks.{decode_bitmask_imm-lt}
use alpine_on_ios.DpImm.Handlers.{
  exec_pc_rel, add_sub64, add_sub32, exec_add_sub_imm, with_mask, exec_logical_imm, exec_move_wide,
}
use alpine_on_ios.DpImm.Bitfield.{
  extract_field, insert_field, put_field, exec_bitfield, exec_extract, exec_dp_imm,
}
use alpine_on_ios.Decoder.Laws.{shr-lt, sign_extend-lt}
use alpine_on_ios.Cpu.{Cpu, returns, emu_ok, emu_unimpl, xreg, set_xreg, set_wreg, bits, bit}
use alpine_on_ios.Cpu.Fields.{bit-lt, bits-lt}
use alpine_on_ios.Cpu.Valid.{IsCpu, IsWord, Leaves, leaves, stops, xreg-lt}
use alpine_on_ios.Cpu.Kept.{
  Kept, Kept-refl, Kept-if, Leaves-if, set_xreg-Kept, set_wreg-Kept, set_xreg_sp-Kept,
  update_flags_add32-Kept, update_flags_add64-Kept, update_flags_sub32-Kept,
  update_flags_sub64-Kept, update_flags_nz32-Kept, update_flags_nz64-Kept,
}
use alpine_on_ios.Prelude.{
  ℕ, ◌+◌, ◌-◌, ◌*◌, ◌^◌, ◌<◌, bit_and, bit_or, ◌≡◌, refl, arith, Bool, true, false, not, leb, shr,
  ◌&&◌, bit_xor, ◌==◌, is_true, if◌then◌else◌, u32, shl64, not64, none, some, Option, inl, inr,
  Bool-cases, ltb,
}

-- Cutting a word to 32 bits, or not, leaves a word.
pub narrow-lt :
    (b : Bool) (val : ℕ) → IsWord val → IsWord (if b then val else bit_and val 0xffff_ffff)
narrow-lt b val h = ground (arith, and-lt 64 val 0xffff_ffff)

extract_field-lt :
    (opc src dst immr imms val : ℕ)
    → IsWord dst
    → IsWord src
    → extract_field opc src dst immr imms ≡ some val
    → IsWord val
unfolding extract_field
extract_field-lt opc src dst immr imms val hd hs p =
    let len = imms - immr + 1 in
    let mask = 2 ^ len - 1 in
    let field = bit_and (shr src immr) mask in
    ground (
      arith,
      shr-lt src immr,
      and-lt 64 (shr src immr) mask,
      and-lt 64 dst (not64 mask),
      or-lt 64 (bit_and dst (not64 mask)) field,
      sign_extend-lt field len,
    )

insert_field-lt :
    (opc regwidth src dst immr imms val : ℕ)
    → IsWord dst
    → insert_field opc regwidth src dst immr imms ≡ some val
    → IsWord val
unfolding insert_field
insert_field-lt opc regwidth src dst immr imms val hd p =
    let len = imms + 1 in
    let pos = regwidth - immr in
    let mask = 2 ^ len - 1 in
    let field = shl64 (bit_and src mask) pos in
    ground (
      arith,
      and-lt 64 dst (not64 (shl64 mask pos)),
      or-lt 64 (bit_and dst (not64 (shl64 mask pos))) field,
      sign_extend-lt field (len + pos),
    )

field-lt :
    (b : Bool) (opc regwidth src dst immr imms val : ℕ)
    → IsWord dst
    → IsWord src
    → (if b
        then extract_field opc src dst immr imms
        else insert_field opc regwidth src dst immr imms)
      ≡ some val
    → IsWord val
field-lt true opc regwidth src dst immr imms val hd hs p =
    extract_field-lt opc src dst immr imms val hd hs p
field-lt false opc regwidth src dst immr imms val hd hs p =
    insert_field-lt opc regwidth src dst immr imms val hd p

module _ {cpu : Cpu} (h : IsCpu cpu) where
  pub exec_pc_rel-Kept : (insn : ℕ) → Leaves (Kept cpu) (exec_pc_rel cpu insn)
  unfolding exec_pc_rel
  exec_pc_rel-Kept insn =
      Leaves-if (bit insn 31 == 0)
        (leaves (set_xreg-Kept (Kept-refl h) (bits insn 4 0) _ (omega arith)))
        (leaves (set_xreg-Kept (Kept-refl h) (bits insn 4 0) _ (omega arith)))

  pub add_sub64-Kept : (op s a b : ℕ) → Kept cpu (add_sub64 cpu op s a b).0
  unfolding add_sub64
  add_sub64-Kept op s a b = elim (Bool-cases (op == 0)) [
    | inl e ↦ rw e (Kept-if (is_true s) (update_flags_add64-Kept (Kept-refl h) a b _) (Kept-refl h))
    | inr e ↦ rw e (Kept-if (is_true s) (update_flags_sub64-Kept (Kept-refl h) a b _) (Kept-refl h))
  ]

  pub add_sub64-lt : (op s a b : ℕ) → (add_sub64 cpu op s a b).1 < 2 ^ 64
  unfolding add_sub64
  add_sub64-lt op s a b = ground arith

  pub add_sub32-Kept : (op s a b : ℕ) → Kept cpu (add_sub32 cpu op s a b).0
  unfolding add_sub32
  add_sub32-Kept op s a b = elim (Bool-cases (op == 0)) [
    | inl e ↦ rw e (Kept-if (is_true s) (update_flags_add32-Kept (Kept-refl h) a b _) (Kept-refl h))
    | inr e ↦ rw e (Kept-if (is_true s) (update_flags_sub32-Kept (Kept-refl h) a b _) (Kept-refl h))
  ]

  pub add_sub32-lt : (op s a b : ℕ) → (add_sub32 cpu op s a b).1 < 2 ^ 64
  unfolding add_sub32
  add_sub32-lt op s a b = ground arith

  pub exec_add_sub_imm-Kept : (insn : ℕ) → Leaves (Kept cpu) (exec_add_sub_imm cpu insn)
  unfolding exec_add_sub_imm
  exec_add_sub_imm-Kept insn =
      let op = bit insn 30 in
      let s = bit insn 29 in
      let rd = bits insn 4 0 in
      let wide : (a b : ℕ) → Kept cpu (add_sub64 cpu op s a b).0 = add_sub64-Kept op s in
      let narrow : (a b : ℕ) → Kept cpu (add_sub32 cpu op s a b).0 = add_sub32-Kept op s in
      leaves (
        Kept-if (is_true (bit insn 31))
          (Kept-if (is_true s) (set_xreg-Kept (wide _ _) rd _ (add_sub64-lt op s _ _))
            (set_xreg_sp-Kept (wide _ _) rd _ (add_sub64-lt op s _ _)))
          (Kept-if (is_true s) (set_wreg-Kept (narrow _ _) rd _)
            (set_xreg_sp-Kept (narrow _ _) rd _ (add_sub32-lt op s _ _))))

  put-Kept :
      (b : Bool) (rd val : ℕ)
      → IsWord val
      → Leaves
          (Kept cpu)
          (returns emu_ok (if b then set_xreg cpu rd val else set_wreg cpu rd (u32 val)))
  put-Kept b rd val w =
      leaves (Kept-if b (set_xreg-Kept (Kept-refl h) rd val w) (set_wreg-Kept (Kept-refl h) rd _))

  pub exec_move_wide-Kept : (insn : ℕ) → Leaves (Kept cpu) (exec_move_wide cpu insn)
  unfolding exec_move_wide
  exec_move_wide-Kept insn =
      let sf = is_true (bit insn 31) in
      let opc = bits insn 30 29 in
      let hw = bits insn 22 21 in
      let rd = bits insn 4 0 in
      let movz = shl64 (bits insn 20 5) (hw * 16) in
      let clear = not64 (shl64 0xffff (hw * 16)) in
      let movk = bit_or (bit_and (xreg cpu rd) clear) movz in
      let movk_word : IsWord movk =
        or-lt 64 (bit_and (xreg cpu rd) clear) movz (and-lt 64 (xreg cpu rd) clear (xreg-lt h rd))
          (omega arith) in
      Leaves-if (not sf && is_true (bit_and hw 2)) (leaves (Kept-refl h)) (
        Leaves-if (opc == 0) (put-Kept sf rd _ (narrow-lt sf (not64 movz) (omega arith))) (
          Leaves-if (opc == 2) (put-Kept sf rd movz (omega arith)) (
            Leaves-if (opc == 3) (put-Kept sf rd _ (narrow-lt sf movk movk_word))
              (leaves {code = emu_unimpl} (Kept-refl h)))))

  with_mask-Kept :
      (insn : ℕ) (o : Option ℕ)
      → ((mask : ℕ) → o ≡ some mask → IsWord mask)
      → Leaves (Kept cpu) (with_mask cpu insn o)
  unfolding with_mask
  with_mask-Kept insn none word = leaves (Kept-refl h)
  with_mask-Kept insn (some mask) word =
      let sf = is_true (bit insn 31) in
      let opc = bits insn 30 29 in
      let rd = bits insn 4 0 in
      let operand = xreg cpu (bits insn 9 5) in
      let operand1 = if sf then operand else bit_and operand 0xffff_ffff in
      let full =
        if opc == 1
        then bit_or operand1 mask
        else if opc == 2
        then bit_xor operand1 mask
        else bit_and operand1 mask in
      let result = if sf then full else bit_and full 0xffff_ffff in
      let operand1_word : IsWord operand1 = narrow-lt sf operand (xreg-lt h (bits insn 9 5)) in
      let full_word : IsWord full = ground (
        arith,
        word mask refl,
        or-lt 64 operand1 mask,
        xor-lt 64 operand1 mask,
        and-lt 64 operand1 mask,
      ) in
      let result_word : IsWord result = narrow-lt sf full full_word in
      let flagged =
        Kept-if sf (update_flags_nz64-Kept (Kept-refl h) result)
          (update_flags_nz32-Kept (Kept-refl h) (u32 result)) in
      leaves (
        Kept-if (opc == 3) (set_xreg-Kept flagged rd result result_word)
          (set_xreg_sp-Kept (Kept-refl h) rd _ (narrow-lt sf result result_word)))

  pub exec_logical_imm-Kept : (insn : ℕ) → Leaves (Kept cpu) (exec_logical_imm cpu insn)
  unfolding exec_logical_imm
  exec_logical_imm-Kept insn = with_mask-Kept insn _ λ mask p.
      decode_bitmask_imm-lt (bit insn 31) (bit insn 22) (bits insn 21 16) (bits insn 15 10) mask
        (bit-lt insn 31) (bit-lt insn 22) (bits-lt insn 21 16) (bits-lt insn 15 10) p

  put_field-Kept :
      (insn : ℕ) (o : Option ℕ)
      → ((val : ℕ) → o ≡ some val → IsWord val)
      → Leaves (Kept cpu) (put_field cpu insn o)
  unfolding put_field
  put_field-Kept insn none word = stops
  put_field-Kept insn (some val) word = leaves (
      set_xreg-Kept (Kept-refl h) (bits insn 4 0) _
        (narrow-lt (is_true (bit insn 31)) val (word val refl)))

  pub exec_bitfield-Kept : (insn : ℕ) → Leaves (Kept cpu) (exec_bitfield cpu insn)
  unfolding exec_bitfield
  exec_bitfield-Kept insn =
      let sf = is_true (bit insn 31) in
      let opc = bits insn 30 29 in
      let immr = bits insn 21 16 in
      let imms = bits insn 15 10 in
      let src_word = narrow-lt sf _ (xreg-lt h (bits insn 9 5)) in
      let dst_word = narrow-lt sf _ (xreg-lt h (bits insn 4 0)) in
      Leaves-if (opc == 3) (leaves {code = emu_unimpl} (Kept-refl h)) (
        put_field-Kept insn _ λ val p.
          field-lt (leb immr imms) opc (if sf then 64 else 32) _ _ immr imms val dst_word src_word
            p)

  pub exec_extract-Kept : (insn : ℕ) → Leaves (Kept cpu) (exec_extract cpu insn)
  unfolding exec_extract
  exec_extract-Kept insn =
      let sf = is_true (bit insn 31) in
      let imms = bits insn 15 10 in
      let regwidth = if sf then 64 else 32 in
      let hi =
        if sf then xreg cpu (bits insn 9 5) else bit_and (xreg cpu (bits insn 9 5)) 0xffff_ffff in
      let lo =
        if sf
        then xreg cpu (bits insn 20 16)
        else bit_and (xreg cpu (bits insn 20 16)) 0xffff_ffff in
      let result = if imms == 0 then hi else bit_or (shr lo imms) (shl64 hi (regwidth - imms)) in
      let hi_word : IsWord hi = narrow-lt sf _ (xreg-lt h (bits insn 9 5)) in
      let lo_word : IsWord lo = narrow-lt sf _ (xreg-lt h (bits insn 20 16)) in
      let result_word : IsWord result =
        ground
          (arith, shr-lt lo imms lo_word, or-lt 64 (shr lo imms) (shl64 hi (regwidth - imms))) in
      Leaves-if (ltb regwidth imms) stops
        (leaves (set_xreg-Kept (Kept-refl h) (bits insn 4 0) _ (narrow-lt sf result result_word)))

  -- From a well-formed state, every immediate data processing instruction leaves, whatever code it
  -- returns, a well-formed state with the same program counter, SIMD registers, system registers
  -- and exclusive monitor, or has undefined behaviour.
  pub exec_dp_imm-Kept : (insn : ℕ) → Leaves (Kept cpu) (exec_dp_imm cpu insn)
  unfolding exec_dp_imm
  exec_dp_imm-Kept insn =
      let op0 = bits insn 25 23 in
      Leaves-if (leb op0 1) (exec_pc_rel-Kept insn) (
        Leaves-if (leb op0 3) (exec_add_sub_imm-Kept insn) (
          Leaves-if (op0 == 4) (exec_logical_imm-Kept insn) (
            Leaves-if (op0 == 5) (exec_move_wide-Kept insn) (
              Leaves-if (op0 == 6) (exec_bitfield-Kept insn) (
                Leaves-if (op0 == 7) (exec_extract-Kept insn)
                  (leaves {code = emu_unimpl} (Kept-refl h)))))))
