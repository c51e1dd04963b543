-- ===== src/DpImm/Constants.antt =====
-- MOVZ and MOVK: a sequence of four loads any 64-bit constant.
use native.Mathlib.Nat.{one-le-pow, mod-lt, mod-eq_of_lt, div-add-mod', div-lt_iff_lt-mul}
use alpine_on_ios.Bits.{and_split, or_split, and_mask, or_zero, fields_or}
use alpine_on_ios.DpImm.Handlers.{exec_move_wide}
use alpine_on_ios.DpImm.Bitfield.{exec_dp_imm}
use alpine_on_ios.Cpu.{
  Cpu, Outcome, returns, undefined, Code, emu_ok, xreg, set_xreg, bits, bit, bits_lem, bit_lem,
}
use alpine_on_ios.Prelude.{
  ℕ, ◌+◌, ◌-◌, ◌*◌, ◌/◌, ◌%◌, ◌^◌, ◌<◌, bit_and, bit_or, ◌≡◌, ◌≢◌, ◌∙◌, ap, sym, refl, arith,
  if◌then◌else◌, ◌==◌,
}

-- The encodings of `MOVZ Xd, #imm, LSL #(16 * hw)` and of MOVK.
abbrev pub movz : ℕ → ℕ → ℕ → ℕ
movz rd hw imm = 0xd280_0000 + hw * 2 ^ 21 + imm * 2 ^ 5 + rd

abbrev pub movk : ℕ → ℕ → ℕ → ℕ
movk rd hw imm = 0xf280_0000 + hw * 2 ^ 21 + imm * 2 ^ 5 + rd

record Fields (insn opc hw imm rd : ℕ) : Type 0 where
  at_sf : bit insn 31 ≡ 1
  at_opc : bits insn 30 29 ≡ opc
  at_op0 : bits insn 25 23 ≡ 5
  at_hw : bits insn 22 21 ≡ hw
  at_imm : bits insn 20 5 ≡ imm
  at_rd : bits insn 4 0 ≡ rd

move-Fields :
    (opc hw imm rd : ℕ)
    → opc < 4
    → hw < 4
    → imm < 2 ^ 16
    → rd < 32
    → (insn : ℕ) → insn ≡ 0x9280_0000 + opc * 2 ^ 29 + hw * 2 ^ 21 + imm * 2 ^ 5 + rd
    → Fields insn opc hw imm rd
move-Fields opc hw imm rd h1 h2 h3 h4 insn e = record {
  at_sf = omega (arith, bit_lem insn 31);
  at_opc = omega (arith, bits_lem insn 30 29);
  at_op0 = omega (arith, bits_lem insn 25 23);
  at_hw = omega (arith, bits_lem insn 22 21);
  at_imm = omega (arith, bits_lem insn 20 5);
  at_rd = omega (arith, bits_lem insn 4 0);
}

-- What MOVK leaves: the field at `sh` replaced, the digits above and below it kept.
replaced :
    (sh k q low imm : ℕ)
    → q < 2 ^ k
    → low < 2 ^ (sh + 16)
    → imm < 2 ^ 16
    → 2 ^ sh - 1 < 2 ^ (sh + 16)
    → imm * 2 ^ sh < 2 ^ (sh + 16)
    → bit_or
        (bit_and (q * 2 ^ (sh + 16) + low) ((2 ^ k - 1) * 2 ^ (sh + 16) + (2 ^ sh - 1)))
        (imm * 2 ^ sh)
      ≡ q * 2 ^ (sh + 16) + (imm * 2 ^ sh + low % 2 ^ sh)
replaced sh k q low imm hq hlow himm ones fits =
    let pos : 0 < 2 ^ sh = one-le-pow sh 2 (omega arith) in
    let rest : low % 2 ^ sh < 2 ^ sh = mod-lt low pos in
    let kept = and_split (sh + 16) q low (2 ^ k - 1) (2 ^ sh - 1) hlow ones in
    let joined = or_split (sh + 16) q (low % 2 ^ sh) 0 (imm * 2 ^ sh) (omega arith) fits in
    let zero_above : imm * 2 ^ sh ≡ 0 * 2 ^ (sh + 16) + imm * 2 ^ sh = omega arith in
    rw (kept, and_mask k q, mod-eq_of_lt hq, and_mask sh low)
      (ap (bit_or (q * 2 ^ (sh + 16) + low % 2 ^ sh)) zero_above
        ∙ joined
        ∙ rw (or_zero k q hq, fields_or sh 16 imm (low % 2 ^ sh) himm rest))

-- The same on a word, with the mask as a number.
pub replaced_word :
    (sh k old imm mask : ℕ)
    → mask ≡ (2 ^ k - 1) * 2 ^ (sh + 16) + (2 ^ sh - 1)
    → old < 2 ^ k * 2 ^ (sh + 16)
    → imm < 2 ^ 16
    → 2 ^ sh - 1 < 2 ^ (sh + 16)
    → imm * 2 ^ sh < 2 ^ (sh + 16)
    → bit_or (bit_and old mask) (imm * 2 ^ sh)
      ≡ old / 2 ^ (sh + 16) * 2 ^ (sh + 16) + (imm * 2 ^ sh + old % 2 ^ (sh + 16) % 2 ^ sh)
replaced_word sh k old imm mask e h himm ones fits =
    let pos : 0 < 2 ^ (sh + 16) = one-le-pow (sh + 16) 2 (omega arith) in
    rw e (
      ap (λ (t : ℕ). bit_or (bit_and t ((2 ^ k - 1) * 2 ^ (sh + 16) + (2 ^ sh - 1))) (imm * 2 ^ sh))
        (sym (div-add-mod' old (2 ^ (sh + 16))))
      ∙ replaced sh k (old / 2 ^ (sh + 16)) (old % 2 ^ (sh + 16)) imm ((div-lt_iff_lt-mul pos).1 h)
          (mod-lt old pos) himm ones fits)

module _ (cpu : Cpu) (rd : ℕ) (hd : rd < 32) where
  exec_movz :
      (hw imm : ℕ)
      → hw < 4
      → imm < 2 ^ 16
      → exec_dp_imm cpu (movz rd hw imm)
        ≡ returns emu_ok (set_xreg cpu rd (imm * 2 ^ (hw * 16) % 2 ^ 64))
  unfolding exec_dp_imm exec_move_wide
  exec_movz hw imm h g =
      let f = move-Fields 2 hw imm rd (omega arith) h g hd (movz rd hw imm) (omega arith) in
      ground (arith, f.at_sf, f.at_opc, f.at_op0, f.at_hw, f.at_imm, f.at_rd)

  exec_movk :
      (hw imm : ℕ)
      → hw < 4
      → imm < 2 ^ 16
      → exec_dp_imm cpu (movk rd hw imm)
        ≡ returns emu_ok (
            set_xreg cpu rd (
              bit_or
                (bit_and (xreg cpu rd) (2 ^ 64 - 1 - 0xffff * 2 ^ (hw * 16) % 2 ^ 64))
                (imm * 2 ^ (hw * 16) % 2 ^ 64)))
  unfolding exec_dp_imm exec_move_wide
  exec_movk hw imm h g =
      let f = move-Fields 3 hw imm rd (omega arith) h g hd (movk rd hw imm) (omega arith) in
      ground (arith, f.at_sf, f.at_opc, f.at_op0, f.at_hw, f.at_imm, f.at_rd)

-- Runs the rest only after an instruction that returned EMU_OK.
pub then_run : Outcome → (Cpu → Outcome) → Outcome
then_run (returns Code.emu_ok c) next = next c
then_run (returns code c) next = returns code c
then_run undefined next = undefined

xreg-set_xreg : (cpu : Cpu) (rd val : ℕ) → rd < 31 → xreg (set_xreg cpu rd val) rd ≡ val
unfolding xreg set_xreg
xreg-set_xreg cpu rd val h = ground arith

-- The value after each MOVK: the lower fields stay, the new one comes above them.
second :
    (a b : ℕ)
    → a < 2 ^ 16
    → b < 2 ^ 16
    → bit_or (bit_and a (2 ^ 64 - 1 - 0xffff * 2 ^ 16)) (b * 2 ^ 16) ≡ a + b * 2 ^ 16
second a b ha hb =
    omega (arith, replaced_word 16 32 a b _ refl (omega arith) hb (omega arith) (omega arith))

third :
    (a b : ℕ)
    → a < 2 ^ 32
    → b < 2 ^ 16
    → bit_or (bit_and a (2 ^ 64 - 1 - 0xffff * 2 ^ 32)) (b * 2 ^ 32) ≡ a + b * 2 ^ 32
third a b ha hb =
    omega (arith, replaced_word 32 16 a b _ refl (omega arith) hb (omega arith) (omega arith))

fourth :
    (a b : ℕ)
    → a < 2 ^ 48
    → b < 2 ^ 16
    → bit_or (bit_and a (2 ^ 64 - 1 - 0xffff * 2 ^ 48)) (b * 2 ^ 48) ≡ a + b * 2 ^ 48
fourth a b ha hb =
    omega (arith, replaced_word 48 0 a b _ refl (omega arith) hb (omega arith) (omega arith))

xreg-set_xreg_ne : (cpu : Cpu) (rd val r : ℕ) → r ≢ rd → xreg (set_xreg cpu rd val) r ≡ xreg cpu r
unfolding xreg set_xreg
xreg-set_xreg_ne cpu rd val r h = ground arith

-- A MOVK over a register that holds `old`, where the shifted numbers are known.
movk_step :
    (cpu : Cpu) (rd hw imm old v m f : ℕ)
    → rd < 32
    → hw < 4
    → imm < 2 ^ 16
    → xreg cpu rd ≡ old
    → 2 ^ 64 - 1 - 0xffff * 2 ^ (hw * 16) % 2 ^ 64 ≡ m
    → imm * 2 ^ (hw * 16) % 2 ^ 64 ≡ f
    → bit_or (bit_and old m) f ≡ v
    → exec_dp_imm cpu (movk rd hw imm) ≡ returns emu_ok (set_xreg cpu rd v)
movk_step cpu rd hw imm old v m f hd hh hi e1 e2 e3 e4 =
    exec_movk cpu rd hd hw imm hh hi ∙ rw (e1, e2, e3, e4)

-- The four instructions that load a constant, given by its 16-bit parts.
abbrev pub load_constant : Cpu → ℕ → ℕ → ℕ → ℕ → ℕ → Outcome
load_constant cpu rd a b c d =
    then_run
      (then_run (then_run (exec_dp_imm cpu (movz rd 0 a)) (λ s. exec_dp_imm s (movk rd 1 b)))
        (λ s. exec_dp_imm s (movk rd 2 c)))
      (λ s. exec_dp_imm s (movk rd 3 d))

-- MOVZ and three MOVKs with 16-bit parts leave the word of the four parts in the register, which
-- is not 31, and every other register as it was.
pub load_constant-word :
    (cpu : Cpu) (rd a b c d : ℕ)
    → rd < 31
    → a < 2 ^ 16
    → b < 2 ^ 16
    → c < 2 ^ 16
    → d < 2 ^ 16
    → (s : Cpu) × (load_constant cpu rd a b c d ≡ returns emu_ok s)
      × ((r : ℕ)
          → xreg s r ≡ (if r == rd then a + b * 2 ^ 16 + c * 2 ^ 32 + d * 2 ^ 48 else xreg cpu r))
unfolding then_run
load_constant-word cpu rd a b c d hd ha hb hc hh =
    let v2 = a + b * 2 ^ 16 in
    let v3 = v2 + c * 2 ^ 32 in
    let v4 = v3 + d * 2 ^ 48 in
    let s1 = set_xreg cpu rd a in
    let s2 = set_xreg s1 rd v2 in
    let s3 = set_xreg s2 rd v3 in
    let rd_fits : rd < 32 = omega arith in
    let whole : a * 2 ^ (0 * 16) % 2 ^ 64 ≡ a = omega arith in
    let e1 : exec_dp_imm cpu (movz rd 0 a) ≡ returns emu_ok s1 =
      exec_movz cpu rd rd_fits 0 a (omega arith) ha
      ∙ ap (λ (t : ℕ). returns emu_ok (set_xreg cpu rd t)) whole in
    let e2 =
      movk_step s1 rd 1 b a v2 _ _ rd_fits (omega arith) hb (xreg-set_xreg cpu rd a hd) refl
        (mod-eq_of_lt (omega arith)) (second a b ha hb) in
    let e3 =
      movk_step s2 rd 2 c v2 v3 _ _ rd_fits (omega arith) hc (xreg-set_xreg s1 rd v2 hd) refl
        (mod-eq_of_lt (omega arith)) (third v2 c (omega arith) hc) in
    let e4 =
      movk_step s3 rd 3 d v3 v4 _ _ rd_fits (omega arith) hh (xreg-set_xreg s2 rd v3 hd) refl
        (mod-eq_of_lt (omega arith)) (fourth v3 d (omega arith) hh) in
    (
      set_xreg s3 rd v4,
      rw (e1, e2, e3, e4) refl,
      λ r. ground (
        arith,
        xreg-set_xreg s3 rd v4 hd,
        xreg-set_xreg_ne s3 rd v4 r,
        xreg-set_xreg_ne s2 rd v3 r,
        xreg-set_xreg_ne s1 rd v2 r,
        xreg-set_xreg_ne cpu rd a r,
      ),
    )
