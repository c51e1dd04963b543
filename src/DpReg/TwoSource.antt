-- ===== src/DpReg/TwoSource.antt =====
-- Division and the shifts by a register: `exec_dp_2src` of emu/src/exec_dp_reg.c.
use alpine_on_ios.Cpu.{
  Cpu, Outcome, returns, emu_ok, emu_unimpl, xreg, wreg, set_xreg, set_wreg, bits, bit,
}
use alpine_on_ios.Prelude.{
  ℕ, ◌-◌, ◌/◌, ◌^◌, bit_and, bit_or, Option, none, some, Bool, ◌&&◌, ◌==◌, leb, if◌then◌else◌, shr,
  shl32, shl64, asr32, asr64, sub32, sub64, u32, is_true,
}
use alpine_on_ios.Bits.{same}

-- The absolute value of a word read as a signed number; that of the least number is itself.
abbrev pub magnitude64 : ℕ → ℕ
magnitude64 x = if leb (2 ^ 63) x then 2 ^ 64 - x else x

abbrev pub magnitude32 : ℕ → ℕ
magnitude32 x = if leb (2 ^ 31) x then 2 ^ 32 - x else x

-- `sn / sm` of C truncates: the quotient of the magnitudes, negated if the signs differ.
unfoldable pub signed_div64 : ℕ → ℕ → ℕ
signed_div64 n m =
    let q = magnitude64 n / magnitude64 m in
    if n == 2 ^ 63 && m == 2 ^ 64 - 1
    then 2 ^ 63
    else if same (leb (2 ^ 63) n) (leb (2 ^ 63) m)
    then q
    else sub64 0 q

unfoldable pub signed_div32 : ℕ → ℕ → ℕ
signed_div32 n m =
    let q = magnitude32 n / magnitude32 m in
    if n == 2 ^ 31 && m == 2 ^ 32 - 1
    then 2 ^ 31
    else if same (leb (2 ^ 31) n) (leb (2 ^ 31) m)
    then q
    else sub32 0 q

-- The switch on `opcode`; `none` is its default branch.
unfoldable pub two_source : ℕ → Bool → ℕ → ℕ → Option ℕ
two_source opcode sf n m =
    let amt = bit_and m (if sf then 63 else 31) in
    let v = u32 n in
    if opcode == 2
    then some (if m == 0 then 0 else if sf then n / m else u32 n / u32 m)
    else if opcode == 3
    then some (if m == 0 then 0 else if sf then signed_div64 n m else signed_div32 (u32 n) (u32 m))
    else if opcode == 8
    then some (if sf then shl64 n amt else shl32 v amt)
    else if opcode == 9
    then some (if sf then shr n amt else shr v amt)
    else if opcode == 10
    then some (if sf then asr64 n amt else asr32 v amt)
    else if opcode == 11
    then some (
        if sf
        then (if amt == 0 then n else bit_or (shr n amt) (shl64 n (64 - amt)))
        else (if amt == 0 then v else bit_or (shr v amt) (shl32 v (32 - amt))))
    else none

-- The write-back that ends the handlers of one, two and three sources.
unfoldable pub write_result : Cpu → ℕ → Option ℕ → Outcome
write_result cpu insn none = returns emu_unimpl cpu
write_result cpu insn (some result) =
    let rd = bits insn 4 0 in
    returns emu_ok
      (if is_true (bit insn 31) then set_xreg cpu rd result else set_wreg cpu rd (u32 result))

unfoldable pub exec_dp_2src : Cpu → ℕ → Outcome
exec_dp_2src cpu insn =
    let sf = is_true (bit insn 31) in
    let rm = bits insn 20 16 in
    let rn = bits insn 9 5 in
    let n_val = if sf then xreg cpu rn else wreg cpu rn in
    let m_val = if sf then xreg cpu rm else wreg cpu rm in
    write_result cpu insn (two_source (bits insn 15 10) sf n_val m_val)
