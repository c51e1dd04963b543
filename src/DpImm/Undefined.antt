-- ===== src/DpImm/Undefined.antt =====
-- The encodings of emu/src/exec_dp_imm.c at which the C code shifts by a count that the language
-- leaves undefined.
use alpine_on_ios.DpImm.Bitfield.{
  exec_bitfield, extract_field, insert_field, put_field, exec_extract,
}
use alpine_on_ios.Cpu.{Cpu, undefined, xreg, bits, bit}
use alpine_on_ios.Cpu.Fields.{bits-lt}
use alpine_on_ios.Prelude.{
  ℕ, ◌+◌, ◌-◌, ◌≤◌, ◌<◌, ◌≡◌, ◌≢◌, ◌↔◌, ◌⊎◌, Option, none, some, arith, bit_and, if◌then◌else◌,
  is_true,
}

put_field-undefined :
    (cpu : Cpu) (insn : ℕ) (o : Option ℕ) → (put_field cpu insn o ≡ undefined) ↔ (o ≡ none)
unfolding put_field
put_field-undefined cpu insn none = ground arith
put_field-undefined cpu insn (some v) = ground arith

extract_field-none :
    (opc src dst immr imms : ℕ)
    → (extract_field opc src dst immr imms ≡ none) ↔ (64 ≤ imms - immr + 1)
unfolding extract_field
extract_field-none opc src dst immr imms = ground arith

insert_field-none :
    (opc w src dst immr imms : ℕ) → (insert_field opc w src dst immr imms ≡ none) ↔ (w < immr)
unfolding insert_field
insert_field-none opc w src dst immr imms = ground arith

-- SBFM, BFM and UBFM have undefined behaviour exactly for immr 0 with imms 63, and for a 32-bit
-- form with imms below immr and immr above 32.
pub exec_bitfield-undefined :
    (cpu : Cpu) (insn : ℕ)
    → (exec_bitfield cpu insn ≡ undefined) ↔ (
        (bits insn 30 29 ≢ 3)
        × (((bits insn 21 16 ≡ 0) × (bits insn 15 10 ≡ 63))
            ⊎ ((bit insn 31 ≡ 0) × (bits insn 15 10 < bits insn 21 16) × (32 < bits insn 21 16))))
unfolding exec_bitfield
exec_bitfield-undefined cpu insn =
    let sf = is_true (bit insn 31) in
    let opc = bits insn 30 29 in
    let immr = bits insn 21 16 in
    let imms = bits insn 15 10 in
    let w = if sf then 64 else 32 in
    let rn = xreg cpu (bits insn 9 5) in
    let rd = xreg cpu (bits insn 4 0) in
    let src = if sf then rn else bit_and rn 0xffff_ffff in
    let dst = if sf then rd else bit_and rd 0xffff_ffff in
    let extract = extract_field opc src dst immr imms in
    let insert = insert_field opc w src dst immr imms in
    ground (
      arith,
      bits-lt insn 15 10,
      bits-lt insn 21 16,
      put_field-undefined cpu insn extract,
      put_field-undefined cpu insn insert,
      extract_field-none opc src dst immr imms,
      insert_field-none opc w src dst immr imms,
    )

-- EXTR has undefined behaviour exactly for its 32-bit form with imms above 32.
pub exec_extract-undefined :
    (cpu : Cpu) (insn : ℕ)
    → (exec_extract cpu insn ≡ undefined) ↔ ((bit insn 31 ≡ 0) × (32 < bits insn 15 10))
unfolding exec_extract
exec_extract-undefined cpu insn = ground (arith, bits-lt insn 15 10)
