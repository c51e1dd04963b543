-- ===== src/Cpu/Flags.antt =====
-- The condition flags of emu/src/cpu.c: `cpu_update_flags_*` and `cpu_check_cond`. The 32- and
-- 64-bit versions of each function differ only in the number of the sign bit.
use alpine_on_ios.Cpu.State.{Cpu}
use alpine_on_ios.Prelude.{
  ℕ, ◌^◌, bit_and, bit_or, bit_xor, Bool, false, not, ◌&&◌, ◌==◌, ltb, leb, shr, is_true,
  if◌then◌else◌,
}

abbrev pub pstate_n : ℕ
pstate_n = 2 ^ 31

abbrev pub pstate_z : ℕ
pstate_z = 2 ^ 30

abbrev pub pstate_c : ℕ
pstate_c = 2 ^ 29

abbrev pub pstate_v : ℕ
pstate_v = 2 ^ 28

-- `if (test) flags |= flag;`
abbrev pub raise_if : Bool → ℕ → ℕ → ℕ
raise_if test flag flags = if test then bit_or flags flag else flags

-- The word that four tests leave in `nzcv`.
unfoldable pub flags_of : Bool → Bool → Bool → Bool → ℕ
flags_of n z c v =
    raise_if v pstate_v (raise_if c pstate_c (raise_if z pstate_z (raise_if n pstate_n 0)))

abbrev update_flags_add : ℕ → Cpu → ℕ → ℕ → ℕ → Cpu
update_flags_add sign cpu a b result = record cpu {
  nzcv =
      flags_of (is_true (bit_and result (2 ^ sign))) (result == 0) (ltb result a)
        (is_true (bit_and (bit_and (bit_xor a result) (bit_xor b result)) (2 ^ sign)));
}

unfoldable pub update_flags_add32 : Cpu → ℕ → ℕ → ℕ → Cpu
update_flags_add32 = update_flags_add 31

unfoldable pub update_flags_add64 : Cpu → ℕ → ℕ → ℕ → Cpu
update_flags_add64 = update_flags_add 63

abbrev update_flags_sub : ℕ → Cpu → ℕ → ℕ → ℕ → Cpu
update_flags_sub sign cpu a b result = record cpu {
  nzcv =
      flags_of (is_true (bit_and result (2 ^ sign))) (result == 0) (leb b a)
        (is_true (bit_and (bit_and (bit_xor a b) (bit_xor a result)) (2 ^ sign)));
}

unfoldable pub update_flags_sub32 : Cpu → ℕ → ℕ → ℕ → Cpu
update_flags_sub32 = update_flags_sub 31

unfoldable pub update_flags_sub64 : Cpu → ℕ → ℕ → ℕ → Cpu
update_flags_sub64 = update_flags_sub 63

unfoldable pub update_flags_nz32 : Cpu → ℕ → Cpu
update_flags_nz32 cpu result = record cpu {
  nzcv = flags_of (is_true (bit_and result (2 ^ 31))) (result == 0) false false;
}

unfoldable pub update_flags_nz64 : Cpu → ℕ → Cpu
update_flags_nz64 cpu result = record cpu {
  nzcv = flags_of (is_true (bit_and result (2 ^ 63))) (result == 0) false false;
}

-- `cpu_check_cond`. The C locals are the numbers 0 and 1.
unfoldable pub check_cond : Cpu → ℕ → Bool
check_cond cpu cond =
    let n = bit_and (shr cpu.nzcv 31) 1 in
    let z = bit_and (shr cpu.nzcv 30) 1 in
    let c = bit_and (shr cpu.nzcv 29) 1 in
    let v = bit_and (shr cpu.nzcv 28) 1 in
    let pair = shr cond 1 in
    let result : Bool =
      if pair == 0
      then is_true z
      else if pair == 1
      then is_true c
      else if pair == 2
      then is_true n
      else if pair == 3
      then is_true v
      else if pair == 4
      then is_true c && not (is_true z)
      else if pair == 5
      then n == v
      else if pair == 6
      then not (is_true z) && n == v
      else pair == 7 in
    if is_true (bit_and cond 1) && not (cond == 14) && not (cond == 15) then not result else result
