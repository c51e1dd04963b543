-- ===== src/DpImm/Shifts.antt =====
-- The immediate shifts, which are aliases of UBFM and SBFM, and the encodings of the bitfield group
-- at which the C code shifts by 64 or by a negative count.
use native.Mathlib.Nat.{div-lt_iff_lt-mul, one-le-pow, mod-eq_of_lt, pow-suc, mul-div_cancel_left}
use alpine_on_ios.Bits.{and_mask, two_pow_add, mul-mod}
use alpine_on_ios.DpImm.Bitfield.{
  exec_bitfield, extract_field, insert_field, put_field, exec_dp_imm,
}
use alpine_on_ios.Cpu.{
  Cpu, Outcome, returns, undefined, emu_ok, xreg, set_xreg, bits, bit, bits_lem, bit_lem,
  sign_extend, sign_extend_lem,
}
use alpine_on_ios.Cpu.Valid.{IsCpu, xreg-lt}
use alpine_on_ios.Prelude.{
  ℕ, ◌+◌, ◌-◌, ◌*◌, ◌/◌, ◌%◌, ◌^◌, ◌≤◌, ◌<◌, ◌≡◌, ◌↔◌, ◌∙◌, ap, sym, suc, bit_and, ltb, refl, arith,
  asr64, shl64, shr, Option, none, some, leb, if◌then◌else◌,
}

-- The encodings of `LSR Xd, Xn, #s`, `LSL Xd, Xn, #s` and `ASR Xd, Xn, #s`.
abbrev pub lsr_imm : ℕ → ℕ → ℕ → ℕ
lsr_imm rd rn s = 0xd340_0000 + s * 2 ^ 16 + 63 * 2 ^ 10 + rn * 2 ^ 5 + rd

abbrev pub lsl_imm : ℕ → ℕ → ℕ → ℕ
lsl_imm rd rn s = 0xd340_0000 + (64 - s) * 2 ^ 16 + (63 - s) * 2 ^ 10 + rn * 2 ^ 5 + rd

abbrev pub asr_imm : ℕ → ℕ → ℕ → ℕ
asr_imm rd rn s = 0x9340_0000 + s * 2 ^ 16 + 63 * 2 ^ 10 + rn * 2 ^ 5 + rd

-- The fields of an instruction of the group.
record Fields (insn sf opc immr imms rn rd : ℕ) : Type 0 where
  at_sf : bit insn 31 ≡ sf
  at_opc : bits insn 30 29 ≡ opc
  at_op0 : bits insn 25 23 ≡ 6
  at_immr : bits insn 21 16 ≡ immr
  at_imms : bits insn 15 10 ≡ imms
  at_rn : bits insn 9 5 ≡ rn
  at_rd : bits insn 4 0 ≡ rd

bitfield-Fields :
    (top immr imms rn rd : ℕ)
    → immr < 64
    → imms < 64
    → rn < 32
    → rd < 32
    → (insn : ℕ) → insn ≡ top * 2 ^ 22 + immr * 2 ^ 16 + imms * 2 ^ 10 + rn * 2 ^ 5 + rd
    → top / 2 % 8 ≡ 6
    → Fields insn (top / 2 ^ 9 % 2) (top / 2 ^ 7 % 4) immr imms rn rd
bitfield-Fields top immr imms rn rd h1 h2 h3 h4 insn e g = record {
  at_sf = omega (arith, bit_lem insn 31);
  at_opc = omega (arith, bits_lem insn 30 29);
  at_op0 = omega (arith, bits_lem insn 25 23);
  at_immr = omega (arith, bits_lem insn 21 16);
  at_imms = omega (arith, bits_lem insn 15 10);
  at_rn = omega (arith, bits_lem insn 9 5);
  at_rd = omega (arith, bits_lem insn 4 0);
}

-- On 64 bits the handler reads both registers and picks the branch by the two numbers.
run : Cpu → ℕ → Option ℕ → Outcome
run cpu rd none = undefined
run cpu rd (some val) = returns emu_ok (set_xreg cpu rd val)

put_field-run :
    (cpu : Cpu) (insn rd : ℕ) (o : Option ℕ)
    → bit insn 31 ≡ 1
    → bits insn 4 0 ≡ rd
    → put_field cpu insn o ≡ run cpu rd o
unfolding put_field run
put_field-run cpu insn rd none e g = refl
put_field-run cpu insn rd (some val) e g = rw (e, g)

exec-Fields :
    (cpu : Cpu) (insn opc immr imms rn rd : ℕ)
    → Fields insn 1 opc immr imms rn rd
    → opc < 3
    → exec_dp_imm cpu insn
      ≡ run cpu rd (
          if leb immr imms
          then extract_field opc (xreg cpu rn) (xreg cpu rd) immr imms
          else insert_field opc 64 (xreg cpu rn) (xreg cpu rd) immr imms)
unfolding exec_dp_imm exec_bitfield
exec-Fields cpu insn opc immr imms rn rd f h = enters ∙ put_field-run cpu insn rd _ f.at_sf f.at_rd
  where
    enters :
        exec_dp_imm cpu insn
        ≡ put_field cpu insn (
            if leb immr imms
            then extract_field opc (xreg cpu rn) (xreg cpu rd) immr imms
            else insert_field opc 64 (xreg cpu rn) (xreg cpu rd) immr imms)
    enters = ground arith

-- The two factors of the word that a shift by `s` separates.
high_part : (src s k : ℕ) → s + k ≡ 64 → src < 2 ^ 64 → src / 2 ^ s < 2 ^ k
high_part src s k e h =
    (div-lt_iff_lt-mul (one-le-pow s 2 (omega arith))).1
      (omega (arith, two_pow_add s k, ap (λ (t : ℕ). 2 ^ t) e))

field_at :
    (src s k : ℕ) → s + k ≡ 64 → src < 2 ^ 64 → bit_and (src / 2 ^ s) (2 ^ k - 1) ≡ src / 2 ^ s
field_at src s k e h = and_mask k (src / 2 ^ s) ∙ mod-eq_of_lt (high_part src s k e h)

extract_lsr :
    (src dst s : ℕ)
    → s < 64
    → 1 ≤ s
    → src < 2 ^ 64
    → extract_field 2 src dst s 63 ≡ some (src / 2 ^ s)
unfolding extract_field
extract_lsr src dst s hi lo h = ground (arith, field_at src s (63 - s + 1) (omega arith) h)

-- The sign of the word is the sign of its high part.
same_sign : (src s k : ℕ) → s + suc k ≡ 64 → ltb (2 * (src / 2 ^ s)) (2 ^ suc k) ≡ ltb src (2 ^ 63)
same_sign src s k e =
    let exponent : k + s ≡ 63 = omega arith in
    let both : (src / 2 ^ s < 2 ^ k) ↔ (src < 2 ^ k * 2 ^ s) =
      div-lt_iff_lt-mul (one-le-pow s 2 (omega arith)) in
    let whole : 2 ^ k * 2 ^ s ≡ 2 ^ 63 = sym (two_pow_add k s) ∙ ap (λ (t : ℕ). 2 ^ t) exponent in
    ground (arith, pow-suc 2 k, both, whole)

-- Sign extension of the high part is an arithmetic shift.
sign_extend_high :
    (src s k : ℕ)
    → s + suc k ≡ 64
    → 1 ≤ s
    → src < 2 ^ 64
    → sign_extend (src / 2 ^ s) (suc k) ≡ asr64 src s
sign_extend_high src s k e lo h =
    let pos : 0 < 2 ^ s = one-le-pow s 2 (omega arith) in
    let small : src / 2 ^ s % 2 ^ suc k ≡ src / 2 ^ s =
      mod-eq_of_lt (high_part src s (suc k) e h) in
    let whole : 2 ^ s * 2 ^ suc k ≡ 2 ^ 64 =
      sym (two_pow_add s (suc k)) ∙ ap (λ (t : ℕ). 2 ^ t) e in
    let quotient : 2 ^ 64 / 2 ^ s ≡ 2 ^ suc k =
      ap (λ (t : ℕ). t / 2 ^ s) (sym whole) ∙ mul-div_cancel_left (2 ^ suc k) pos in
    rw
      (
        sign_extend_lem (src / 2 ^ s) (suc k) (omega arith) (omega arith),
        small,
        same_sign src s k e,
        quotient,
      )
      refl

extract_asr :
    (src dst s : ℕ)
    → s < 64
    → 1 ≤ s
    → src < 2 ^ 64
    → extract_field 0 src dst s 63 ≡ some (asr64 src s)
unfolding extract_field
extract_asr src dst s hi lo h =
    let len : 63 - s + 1 ≡ suc (63 - s) = omega arith in
    let signed : sign_extend (src / 2 ^ s) (63 - s + 1) ≡ asr64 src s =
      rw len (sign_extend_high src s (63 - s) (omega arith) lo h) in
    ground (arith, field_at src s (63 - s + 1) (omega arith) h, signed)

insert_lsl :
    (src dst s : ℕ)
    → s < 64
    → 1 ≤ s
    → insert_field 2 64 src dst (64 - s) (63 - s) ≡ some (shl64 src s)
unfolding insert_field
insert_lsl src dst s hi lo =
    let k = 63 - s + 1 in
    let back : 64 - (64 - s) ≡ s = omega arith in
    let exponent : k + s ≡ 64 = omega arith in
    let whole : 2 ^ k * 2 ^ s ≡ 2 ^ 64 = sym (two_pow_add k s) ∙ ap (λ (t : ℕ). 2 ^ t) exponent in
    let cut : src * 2 ^ s % 2 ^ 64 ≡ src % 2 ^ k * 2 ^ s =
      ap (λ (t : ℕ). src * 2 ^ s % t) (sym whole)
      ∙ mul-mod src (2 ^ k) (2 ^ s) (one-le-pow k 2 (omega arith)) (one-le-pow s 2 (omega arith)) in
    ground (arith, and_mask k src, cut, ap (λ (t : ℕ). 2 ^ t) back)

module _ {cpu : Cpu} (h : IsCpu cpu) (rd rn s : ℕ) (hd : rd < 32) (hn : rn < 32) (lo : 1 ≤ s)
    (hi : s < 64) where
  -- On a well-formed state, LSR, LSL and ASR by an immediate from 1 to 63, encoded as UBFM and
  -- SBFM, shift the register as their names say.
  pub exec_dp_imm-shifts :
      (exec_dp_imm cpu (lsr_imm rd rn s) ≡ returns emu_ok (set_xreg cpu rd (shr (xreg cpu rn) s)))
      × (exec_dp_imm cpu (lsl_imm rd rn s)
          ≡ returns emu_ok (set_xreg cpu rd (shl64 (xreg cpu rn) s)))
      × (exec_dp_imm cpu (asr_imm rd rn s)
          ≡ returns emu_ok (set_xreg cpu rd (asr64 (xreg cpu rn) s)))
  unfolding run
  exec_dp_imm-shifts =
      let src = xreg cpu rn in
      let dst = xreg cpu rd in
      let word = xreg-lt h rn in
      (
        exec-Fields cpu (lsr_imm rd rn s) 2 s 63 rn rd
              (bitfield-Fields 0x34d s 63 rn rd hi (omega arith) hn hd _ refl refl) (omega arith)
            ∙ ground (arith, extract_lsr src dst s hi lo word),
        exec-Fields cpu (lsl_imm rd rn s) 2 (64 - s) (63 - s) rn rd
              (bitfield-Fields 0x34d (64 - s) (63 - s) rn rd (omega arith) (omega arith) hn hd _
                refl refl)
              (omega arith)
            ∙ ground (arith, insert_lsl src dst s hi lo),
        exec-Fields cpu (asr_imm rd rn s) 0 s 63 rn rd
              (bitfield-Fields 0x24d s 63 rn rd hi (omega arith) hn hd _ refl refl) (omega arith)
            ∙ ground (arith, extract_asr src dst s hi lo word),
      )
