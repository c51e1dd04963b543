-- ===== src/Decoder.antt =====
-- The shift and extension helpers of emu/src/decoder.c.
pub mod Laws
use alpine_on_ios.Cpu.{Cpu, xreg, sign_extend}
use alpine_on_ios.Prelude.{
  ℕ, ◌-◌, bit_and, bit_or, ◌==◌, if◌then◌else◌, shr, shl32, shl64, asr32, asr64,
}

-- `shift_type` is 0 for LSL, 1 for LSR, 2 for ASR and 3 for ROR; `amount` is below 64.
unfoldable pub apply_shift : ℕ → ℕ → ℕ → ℕ
apply_shift val shift_type amount =
    if amount == 0
    then val
    else if shift_type == 0
    then shl64 val amount
    else if shift_type == 1
    then shr val amount
    else if shift_type == 2
    then asr64 val amount
    else if shift_type == 3
    then bit_or (shr val amount) (shl64 val (64 - amount))
    else val

-- The same on 32 bits; `amount` is below 32.
unfoldable pub apply_shift32 : ℕ → ℕ → ℕ → ℕ
apply_shift32 val shift_type amount =
    if amount == 0
    then val
    else if shift_type == 0
    then shl32 val amount
    else if shift_type == 1
    then shr val amount
    else if shift_type == 2
    then asr32 val amount
    else if shift_type == 3
    then bit_or (shr val amount) (shl32 val (32 - amount))
    else val

unfoldable pub extend_reg : Cpu → ℕ → ℕ → ℕ → ℕ
extend_reg cpu reg ext_type shift =
    let val = xreg cpu reg in
    let extended =
      if ext_type == 0
      then bit_and val 0xff
      else if ext_type == 1
      then bit_and val 0xffff
      else if ext_type == 2
      then bit_and val 0xffff_ffff
      else if ext_type == 4
      then sign_extend val 8
      else if ext_type == 5
      then sign_extend val 16
      else if ext_type == 6
      then sign_extend val 32
      else val in
    shl64 extended shift
