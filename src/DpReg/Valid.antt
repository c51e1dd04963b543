-- ===== src/DpReg/Valid.antt =====
-- Every instruction of emu/src/exec_dp_reg.c writes words of 64 bits into general registers, SP
-- and the flags, and touches nothing else.
use alpine_on_ios.Bits.{and-lt, or-lt, xor-lt}
use alpine_on_ios.Decoder.{apply_shift, apply_shift32}
use alpine_on_ios.Decoder.Laws.{apply_shift-lt, apply_shift32-word}
use alpine_on_ios.DpImm.Valid.{add_sub64-Kept, add_sub64-lt, add_sub32-Kept, add_sub32-lt}
use alpine_on_ios.DpReg.Arith.{exec_logical_shifted, exec_add_sub_shifted, exec_add_sub_extended}
use alpine_on_ios.DpReg.Select.{exec_cond_compare, exec_cond_select}
use alpine_on_ios.DpReg.OneSource.{exec_dp_1src}
use alpine_on_ios.DpReg.TwoSource.{write_result, exec_dp_2src}
use alpine_on_ios.DpReg.ThreeSource.{exec_dp_3src}
use alpine_on_ios.DpReg.Dispatch.{exec_dp_reg}
use alpine_on_ios.DpReg.Ranges.{one_source-IsWord, two_source-IsWord, three_source-IsWord}
use alpine_on_ios.Cpu.{Cpu, emu_ok, emu_err, emu_unimpl, xreg, wreg, bits, bit}
use alpine_on_ios.Cpu.Fields.{bits-lt}
use alpine_on_ios.Cpu.Flags.{check_cond}
use alpine_on_ios.Cpu.Valid.{IsCpu, IsWord, Leaves, leaves, xreg-lt, wreg-lt}
use alpine_on_ios.Cpu.Kept.{
  Kept, Kept-refl, Kept-if, Leaves-if, set_xreg-Kept, set_wreg-Kept, set_xreg_sp-Kept,
  update_flags_nz32-Kept, update_flags_nz64-Kept, with_nzcv-Kept,
}
use alpine_on_ios.Prelude.{
  ℕ, ◌*◌, bit_and, bit_or, bit_xor, ◌≡◌, refl, arith, Bool, not, ◌&&◌, ◌||◌, ◌==◌, ltb, is_true,
  if◌then◌else◌, not64, shl32, u32, Option, none, some,
}

module _ {cpu : Cpu} (h : IsCpu cpu) where
  write_result-Kept :
      (insn : ℕ) (o : Option ℕ)
      → ((val : ℕ) → o ≡ some val → IsWord val)
      → Leaves (Kept cpu) (write_result cpu insn o)
  unfolding write_result
  write_result-Kept insn none word = leaves (Kept-refl h)
  write_result-Kept insn (some val) word =
      let rd = bits insn 4 0 in
      leaves (
        Kept-if (is_true (bit insn 31)) (set_xreg-Kept (Kept-refl h) rd val (word val refl))
          (set_wreg-Kept (Kept-refl h) rd _))

  operand-lt : (b : Bool) (r : ℕ) → IsWord (if b then xreg cpu r else wreg cpu r)
  operand-lt b r = ground (arith, xreg-lt h r, wreg-lt h r)

  pub exec_dp_1src-Kept : (insn : ℕ) → Leaves (Kept cpu) (exec_dp_1src cpu insn)
  unfolding exec_dp_1src
  exec_dp_1src-Kept insn =
      let sf = is_true (bit insn 31) in
      let opcode = bits insn 15 10 in
      Leaves-if (opcode == 3 && not sf) (leaves {code = emu_err} (Kept-refl h)) (
        write_result-Kept insn _
          λ r p. one_source-IsWord opcode sf _ r (operand-lt sf (bits insn 9 5)) p)

  pub exec_dp_2src-Kept : (insn : ℕ) → Leaves (Kept cpu) (exec_dp_2src cpu insn)
  unfolding exec_dp_2src
  exec_dp_2src-Kept insn =
      let sf = is_true (bit insn 31) in
      write_result-Kept insn _ λ r p.
        two_source-IsWord (bits insn 15 10) sf _ _ r (operand-lt sf (bits insn 9 5))
          (operand-lt sf (bits insn 20 16)) p

  pub exec_dp_3src-Kept : (insn : ℕ) → Leaves (Kept cpu) (exec_dp_3src cpu insn)
  unfolding exec_dp_3src
  exec_dp_3src-Kept insn =
      let sf = is_true (bit insn 31) in
      let op = bit_or (bits insn 23 21 * 2) (bit insn 15) in
      Leaves-if (((ltb 1 op && ltb op 5) || (ltb 9 op && ltb op 13)) && not sf)
        (leaves {code = emu_err} (Kept-refl h))
        (write_result-Kept insn _ λ r p. three_source-IsWord op sf _ _ _ r p)

  pub exec_cond_select-Kept : (insn : ℕ) → Leaves (Kept cpu) (exec_cond_select cpu insn)
  unfolding exec_cond_select
  exec_cond_select-Kept insn =
      let rn = bits insn 9 5 in
      let rm = bits insn 20 16 in
      let rd = bits insn 4 0 in
      leaves (
        Kept-if (is_true (bit insn 31))
          (set_xreg-Kept (Kept-refl h) rd _ (ground (arith, xreg-lt h rn, xreg-lt h rm)))
          (set_wreg-Kept (Kept-refl h) rd _))

  pub exec_cond_compare-Kept : (insn : ℕ) → Leaves (Kept cpu) (exec_cond_compare cpu insn)
  unfolding exec_cond_compare
  exec_cond_compare-Kept insn =
      let op = bit insn 30 in
      let given : Kept cpu (record cpu { nzcv = shl32 (bits insn 3 0) 28 }) =
        with_nzcv-Kept (Kept-refl h) (shl32 (bits insn 3 0) 28) (omega arith)
          (omega (arith, bits-lt insn 3 0)) in
      Leaves-if (not (bit insn 29 == 1) || not (bit insn 10 == 0) || not (bit insn 4 == 0))
        (leaves {code = emu_err} (Kept-refl h))
        (Leaves-if (check_cond cpu (bits insn 15 12))
          (leaves {code = emu_ok} (
            Kept-if (is_true (bit insn 31)) (add_sub64-Kept h op 1 _ _)
              (add_sub32-Kept h op 1 _ _)))
          (leaves given))

  pub exec_logical_shifted-Kept : (insn : ℕ) → Leaves (Kept cpu) (exec_logical_shifted cpu insn)
  unfolding exec_logical_shifted
  exec_logical_shifted-Kept insn =
      let sf = is_true (bit insn 31) in
      let opc = bits insn 30 29 in
      let t = bits insn 23 22 in
      let imm6 = bits insn 15 10 in
      let rn = bits insn 9 5 in
      let rm = bits insn 20 16 in
      let rd = bits insn 4 0 in
      let a = if sf then xreg cpu rn else wreg cpu rn in
      let shifted =
        if sf then apply_shift (xreg cpu rm) t imm6 else apply_shift32 (wreg cpu rm) t imm6 in
      let b = if is_true (bit insn 21) then not64 shifted else shifted in
      let result = if opc == 1 then bit_or a b else if opc == 2 then bit_xor a b else bit_and a b in
      let low = bit_and result 0xffff_ffff in
      let b_word : IsWord b = ground (
        arith,
        apply_shift-lt (xreg cpu rm) t imm6 (xreg-lt h rm) (bits-lt insn 15 10),
        apply_shift32-word (wreg cpu rm) t imm6 (wreg-lt h rm),
      ) in
      let result_word : IsWord result =
        ground (arith, operand-lt sf rn, b_word, or-lt 64 a b, xor-lt 64 a b, and-lt 64 a b) in
      Leaves-if (not sf && is_true (bit_and imm6 0x20)) (leaves {code = emu_err} (Kept-refl h)) (
        leaves {code = emu_ok} (
          Kept-if sf
            (set_xreg-Kept
              (Kept-if (opc == 3) (update_flags_nz64-Kept (Kept-refl h) result) (Kept-refl h)) rd
              result result_word)
            (set_wreg-Kept
              (Kept-if (opc == 3) (update_flags_nz32-Kept (Kept-refl h) (u32 low)) (Kept-refl h)) rd
              (u32 low))))

  pub exec_add_sub_shifted-Kept : (insn : ℕ) → Leaves (Kept cpu) (exec_add_sub_shifted cpu insn)
  unfolding exec_add_sub_shifted
  exec_add_sub_shifted-Kept insn =
      let sf = is_true (bit insn 31) in
      let op = bit insn 30 in
      let s = bit insn 29 in
      let rd = bits insn 4 0 in
      Leaves-if (bits insn 23 22 == 3) (leaves {code = emu_err} (Kept-refl h)) (
        Leaves-if (not sf && is_true (bit_and (bits insn 15 10) 0x20))
          (leaves {code = emu_err} (Kept-refl h))
          (leaves {code = emu_ok} (
            Kept-if sf (set_xreg-Kept (add_sub64-Kept h op s _ _) rd _ (add_sub64-lt h op s _ _))
              (set_wreg-Kept (add_sub32-Kept h op s _ _) rd _))))

  pub exec_add_sub_extended-Kept : (insn : ℕ) → Leaves (Kept cpu) (exec_add_sub_extended cpu insn)
  unfolding exec_add_sub_extended
  exec_add_sub_extended-Kept insn =
      let op = bit insn 30 in
      let s = bit insn 29 in
      let rd = bits insn 4 0 in
      Leaves-if (ltb 4 (bits insn 12 10)) (leaves {code = emu_err} (Kept-refl h)) (
        leaves {code = emu_ok} (
          Kept-if (is_true (bit insn 31))
            (Kept-if (is_true s)
              (set_xreg-Kept (add_sub64-Kept h op s _ _) rd _ (add_sub64-lt h op s _ _))
              (set_xreg_sp-Kept (add_sub64-Kept h op s _ _) rd _ (add_sub64-lt h op s _ _)))
            (Kept-if (is_true s) (set_wreg-Kept (add_sub32-Kept h op s _ _) rd _)
              (set_xreg_sp-Kept (add_sub32-Kept h op s _ _) rd _ (add_sub32-lt h op s _ _)))))

  -- From a well-formed state, every register data processing instruction leaves, whatever code it
  -- returns, a well-formed state with the same program counter, SIMD registers, system registers
  -- and exclusive monitor.
  pub exec_dp_reg-Kept : (insn : ℕ) → Leaves (Kept cpu) (exec_dp_reg cpu insn)
  unfolding exec_dp_reg
  exec_dp_reg-Kept insn =
      let top5 = bits insn 28 24 in
      let group = bits insn 28 21 in
      Leaves-if (bit_and top5 0x1f == 0x0a) (exec_logical_shifted-Kept insn) (
        Leaves-if (bit_and top5 0x1f == 0x0b)
          (Leaves-if (is_true (bit insn 21)) (exec_add_sub_extended-Kept insn)
            (exec_add_sub_shifted-Kept insn))
          (Leaves-if (bit_and group 0xfe == 0xd2) (exec_cond_compare-Kept insn) (
            Leaves-if (group == 0xd4) (exec_cond_select-Kept insn) (
              Leaves-if (group == 0xd6 && is_true (bit insn 30)) (exec_dp_1src-Kept insn) (
                Leaves-if (group == 0xd6 && not (is_true (bit insn 30))) (exec_dp_2src-Kept insn) (
                  Leaves-if (is_true (bit insn 28) && is_true (bit_and (bits insn 24 21) 0x8))
                    (exec_dp_3src-Kept insn) (leaves {code = emu_unimpl} (Kept-refl h))))))))
