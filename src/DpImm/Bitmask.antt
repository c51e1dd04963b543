-- ===== src/DpImm/Bitmask.antt =====
-- `decode_bitmask_imm` of emu/src/cpu.c.
use alpine_on_ios.Prelude.{
  ℕ, zero, suc, ◌+◌, ◌-◌, ◌*◌, ◌^◌, bit_and, bit_or, Option, none, some, not, ◌&&◌, ◌==◌, ltb,
  if◌then◌else◌, shr, shl64, is_true,
}

-- The loop for the highest set bit, with the rounds left: round `suc i` looks at bit `i`.
find_len : ℕ → ℕ → ℕ
find_len combined zero = 0
find_len combined (suc i) =
    let rest = find_len combined i in if is_true (bit_and combined (2 ^ i)) then i else rest

-- `for (i = esize; i < 64; i <<= 1) mask |= mask << i;` on fuel; six rounds are enough from 2.
replicate_mask : ℕ → ℕ → ℕ → ℕ
replicate_mask zero i mask = mask
replicate_mask (suc fuel) i mask =
    let rest = replicate_mask fuel (i * 2) (bit_or mask (shl64 mask i)) in
    if ltb i 64 then rest else mask

-- `none` is the -1 of a reserved encoding. The fields are `int`s between 0 and 63.
unfoldable pub decode_bitmask_imm : ℕ → ℕ → ℕ → ℕ → Option ℕ
unfolding find_len replicate_mask
decode_bitmask_imm sf n immr imms =
    let combined = bit_or (n * 2 ^ 6) (bit_and (2 ^ 32 - 1 - imms) 0x3f) in
    let len = find_len combined 7 in
    let esize = 2 ^ len in
    let levels = esize - 1 in
    let s = bit_and imms levels in
    let r = bit_and immr levels in
    let ones = 2 ^ (s + 1) - 1 in
    let emask = if esize == 64 then 2 ^ 64 - 1 else 2 ^ esize - 1 in
    let welem =
      if is_true r then bit_and (bit_or (shr ones r) (shl64 ones (esize - r))) emask else ones in
    let mask = replicate_mask 6 esize welem in
    if combined == 0
    then none
    else if ltb len 1
    then none
    else if bit_and imms levels == levels
    then none
    else if not (is_true sf) && is_true n
    then none
    else some (if is_true sf then mask else bit_and mask 0xffff_ffff)
