-- ===== src/Branch/Targets.antt =====
-- Where branches go: offsets, calls and returns, and a compare followed by a conditional branch.
use alpine_on_ios.Bits.{and_high, and_split, and_bit}
use alpine_on_ios.Branch.System.{Clock}
use alpine_on_ios.Branch.Exec.{link, jump_if, branch_imm, branch_cond, branch_reg, exec_branch}
use alpine_on_ios.Cpu.{
  Cpu, returns, emu_ok, xreg, xreg_sp, bits, bits_lem, bit_lem, sign_extend, sign_extend_lem,
  set_xreg,
}
use alpine_on_ios.Cpu.Flags.{check_cond, update_flags_sub64}
use alpine_on_ios.DpImm.Handlers.{add_sub64, exec_add_sub_imm}
use alpine_on_ios.DpImm.Bitfield.{exec_dp_imm}
use alpine_on_ios.Prelude.{
  ℕ, ◌+◌, ◌-◌, ◌*◌, ◌^◌, ◌<◌, bit_and, ◌≡◌, ◌∙◌, refl, arith, ltb, if◌then◌else◌, add64, sub64,
  shl64, ap,
}

-- The encodings of `B`, `BL`, `RET` and `B.cond`, with the offset in instructions as a pattern.
abbrev pub b_imm : ℕ → ℕ
b_imm imm26 = 0x1400_0000 + imm26

abbrev pub bl_imm : ℕ → ℕ
bl_imm imm26 = 0x9400_0000 + imm26

abbrev pub ret : ℕ
ret = 0xd65f_03c0

abbrev pub b_cond : ℕ → ℕ → ℕ
b_cond cond imm19 = 0x5400_0000 + imm19 * 2 ^ 5 + cond

-- `CMP Xn, #imm`, which is `SUBS XZR, Xn, #imm`.
abbrev pub cmp_imm : ℕ → ℕ → ℕ
cmp_imm rn imm12 = 0xf100_001f + imm12 * 2 ^ 10 + rn * 2 ^ 5

-- The byte offset of a pattern of `2 * half` values: forwards below `half`, else backwards.
abbrev pub offset : ℕ → ℕ → ℕ
offset half imm = if ltb imm half then 4 * imm else 2 ^ 64 - 4 * (2 * half - imm)

offset26 : (imm : ℕ) → imm < 2 ^ 26 → shl64 (sign_extend imm 26) 2 ≡ offset (2 ^ 25) imm
offset26 imm h = ground (arith, sign_extend_lem imm 26 (omega arith) (omega arith))

offset19 : (imm : ℕ) → imm < 2 ^ 19 → shl64 (sign_extend imm 19) 2 ≡ offset (2 ^ 18) imm
offset19 imm h = ground (arith, sign_extend_lem imm 19 (omega arith) (omega arith))

module _ (clock : Clock) (cpu : Cpu) where
  pub exec_b :
      (imm : ℕ)
      → imm < 2 ^ 26
      → exec_branch clock cpu (b_imm imm)
        ≡ returns emu_ok (record cpu { pc = add64 cpu.pc (offset (2 ^ 25) imm) })
  unfolding exec_branch branch_imm
  exec_b imm h =
      let insn = b_imm imm in
      ground (arith, and_high 26 5 insn, bit_lem insn 31, bits_lem insn 25 0, offset26 imm h)

  pub exec_bl :
      (imm : ℕ)
      → imm < 2 ^ 26
      → exec_branch clock cpu (bl_imm imm)
        ≡ returns emu_ok (record (link cpu) { pc = add64 cpu.pc (offset (2 ^ 25) imm) })
  unfolding exec_branch branch_imm
  exec_bl imm h =
      let insn = bl_imm imm in
      ground (arith, and_high 26 5 insn, bit_lem insn 31, bits_lem insn 25 0, offset26 imm h)

  pub exec_ret : exec_branch clock cpu ret ≡ returns emu_ok (record cpu { pc = cpu.x 30 })
  unfolding exec_branch branch_reg bits xreg
  exec_ret = refl

  -- The test for B.cond looks at the top byte and at bit 4.
  cond_mask :
      (cond imm : ℕ)
      → cond < 16
      → imm < 2 ^ 19
      → bit_and (b_cond cond imm) 0xff00_0010 ≡ 0x5400_0000
  cond_mask cond imm hc hi =
      let low = imm * 2 ^ 5 + cond in
      let parts = and_split 24 0x54 low 0xff 0x10 (omega arith) (omega arith) in
      let whole : b_cond cond imm ≡ 0x54 * 2 ^ 24 + low = omega arith in
      ap (λ (t : ℕ). bit_and t 0xff00_0010) whole ∙ parts ∙ omega (arith, and_bit 4 low)

  -- B.cond goes to its offset exactly if the condition holds.
  pub exec_b_cond :
      (cond imm : ℕ)
      → cond < 16
      → imm < 2 ^ 19
      → exec_branch clock cpu (b_cond cond imm)
        ≡ jump_if (check_cond cpu cond) cpu (offset (2 ^ 18) imm)
  unfolding exec_branch branch_cond
  exec_b_cond cond imm hc hi =
      let insn = b_cond cond imm in
      ground (
        arith,
        and_high 26 5 insn,
        cond_mask cond imm hc hi,
        bits_lem insn 3 0,
        bits_lem insn 23 5,
        offset19 imm hi,
      )

-- BL goes to its signed offset from the instruction, and RET from the state that it leaves comes
-- back to the instruction after it, with nothing but the program counter and the link register
-- changed.
pub exec_bl-exec_ret :
    (clock : Clock) (cpu : Cpu) (imm : ℕ)
    → imm < 2 ^ 26
    → (callee : Cpu) × (exec_branch clock cpu (bl_imm imm) ≡ returns emu_ok callee)
      × (callee.pc ≡ add64 cpu.pc (offset (2 ^ 25) imm))
      × (exec_branch clock callee ret ≡ returns emu_ok (record (link cpu) { pc = add64 cpu.pc 4 }))
exec_bl-exec_ret clock cpu imm h =
    let callee = record (link cpu) { pc = add64 cpu.pc (offset (2 ^ 25) imm) } in
    (callee, exec_bl clock cpu imm h, refl, exec_ret clock callee)

-- `CMP Xn, #imm` sets the flags by the difference.
pub exec_cmp :
    (cpu : Cpu) (rn imm : ℕ)
    → rn < 32
    → imm < 2 ^ 12
    → exec_dp_imm cpu (cmp_imm rn imm)
      ≡ returns emu_ok (update_flags_sub64 cpu (xreg_sp cpu rn) imm (sub64 (xreg_sp cpu rn) imm))
unfolding exec_dp_imm exec_add_sub_imm add_sub64 set_xreg
exec_cmp cpu rn imm hr hi =
    let insn = cmp_imm rn imm in
    ground (
      arith,
      bits_lem insn 25 23,
      bit_lem insn 31,
      bit_lem insn 30,
      bit_lem insn 29,
      bit_lem insn 22,
      bits_lem insn 21 10,
      bits_lem insn 9 5,
      bits_lem insn 4 0,
    )
