-- ===== src/LoadStore/Pair.antt =====
-- LDP and STP: `exec_ldst_pair` of emu/src/exec_ldst.c.
use alpine_on_ios.Cpu.{
  emu_ok, emu_unimpl, xreg, wreg, xreg_sp, set_xreg, set_wreg, set_xreg_sp, bits, bit, sign_extend,
}
use alpine_on_ios.LoadStore.Access.{set_v, clear_v}
use alpine_on_ios.Machine.{Machine, Result, stepped, read_then, write_then}
use alpine_on_ios.Prelude.{
  ℕ, ◌+◌, ◌*◌, ◌^◌, shr, ◌==◌, ◌||◌, if◌then◌else◌, is_true, add64, shl64, u32,
}

-- The load of the second vector register keeps what the first load wrote, also where both are one.
abbrev pub set_low : Machine → ℕ → ℕ → Machine
set_low m rt d0 = set_v m rt d0 (m.cpu.v rt).d1

abbrev pub set_high : Machine → ℕ → ℕ → Machine
set_high m rt d1 = set_v m rt (m.cpu.v rt).d0 d1

-- The word `s[0]`, below the other word of `d[0]`.
abbrev pub set_s : Machine → ℕ → ℕ → Machine
set_s m rt s0 = set_low m rt (shr ((m.cpu.v rt).d0) 32 * 2 ^ 32 + s0)

unfoldable pub load_pair_vector : Machine → ℕ → ℕ → ℕ → ℕ → (Machine → Result) → Result
load_pair_vector m addr opc rt rt2 next =
    let cleared = clear_v (clear_v m rt) rt2 in
    if opc == 0
    then read_then 4 cleared addr
        (λ v1 m1. read_then 4 (set_s m1 rt v1) (add64 addr 4) (λ v2 m2. next (set_s m2 rt2 v2)))
    else if opc == 1
    then read_then 8 cleared addr
        (λ v1 m1. read_then 8 (set_low m1 rt v1) (add64 addr 8) (λ v2 m2. next (set_low m2 rt2 v2)))
    else if opc == 2
    then read_then 8 cleared addr (λ v1 m1. read_then 8 (set_low m1 rt v1) (add64 addr 8) (λ v2 m2.
      read_then 8 (set_high m2 rt v2) (add64 addr 16) (λ v3 m3.
        read_then 8 (set_low m3 rt2 v3) (add64 addr 24) (λ v4 m4. next (set_high m4 rt2 v4)))))
    else stepped emu_unimpl cleared

unfoldable pub store_pair_vector : Machine → ℕ → ℕ → ℕ → ℕ → (Machine → Result) → Result
store_pair_vector m addr opc rt rt2 next =
    let first = m.cpu.v rt in
    let second = m.cpu.v rt2 in
    if opc == 0
    then write_then 4 m addr (u32 (first.d0))
        (λ m1. write_then 4 m1 (add64 addr 4) (u32 (second.d0)) next)
    else if opc == 1
    then write_then 8 m addr (first.d0) (λ m1. write_then 8 m1 (add64 addr 8) (second.d0) next)
    else if opc == 2
    then write_then 8 m addr (first.d0) (λ m1. write_then 8 m1 (add64 addr 8) (first.d1) (λ m2.
      write_then 8 m2 (add64 addr 16) (second.d0)
        (λ m3. write_then 8 m3 (add64 addr 24) (second.d1) next)))
    else stepped emu_unimpl m

-- Both registers are written after both reads.
unfoldable pub load_pair_general : Machine → ℕ → ℕ → ℕ → ℕ → (Machine → Result) → Result
load_pair_general m addr opc rt rt2 next =
    if opc == 0
    then read_then 4 m addr (λ v1 m1.
      read_then 4 m1 (add64 addr 4)
        (λ v2 m2. next (record m2 { cpu = set_wreg (set_wreg (m2.cpu) rt v1) rt2 v2 })))
    else if opc == 1
    then read_then 4 m addr (λ v1 m1. read_then 4 m1 (add64 addr 4) (λ v2 m2. next (record m2 {
      cpu = set_xreg (set_xreg (m2.cpu) rt (sign_extend v1 32)) rt2 (sign_extend v2 32);
    })))
    else if opc == 2
    then read_then 8 m addr (λ v1 m1.
      read_then 8 m1 (add64 addr 8)
        (λ v2 m2. next (record m2 { cpu = set_xreg (set_xreg (m2.cpu) rt v1) rt2 v2 })))
    else stepped emu_unimpl m

unfoldable pub store_pair_general : Machine → ℕ → ℕ → ℕ → ℕ → (Machine → Result) → Result
store_pair_general m addr opc rt rt2 next =
    if opc == 0
    then write_then 4 m addr (wreg (m.cpu) rt)
        (λ m1. write_then 4 m1 (add64 addr 4) (wreg (m1.cpu) rt2) next)
    else if opc == 2
    then write_then 8 m addr (xreg (m.cpu) rt)
        (λ m1. write_then 8 m1 (add64 addr 8) (xreg (m1.cpu) rt2) next)
    else stepped emu_unimpl m

-- `mode` is 1 to write the base back after the access, 3 to do so before it, and 2 for neither.
unfoldable pub exec_ldst_pair : Machine → ℕ → Result
exec_ldst_pair m insn =
    let opc = bits insn 31 30 in
    let is_vec = is_true (bit insn 26) in
    let mode = bits insn 24 23 in
    let rt2 = bits insn 14 10 in
    let rn = bits insn 9 5 in
    let rt = bits insn 4 0 in
    let scale = if is_vec then 2 + opc else if opc == 2 then 3 else 2 in
    let offset = shl64 (sign_extend (bits insn 21 15) 7) scale in
    let base = xreg_sp (m.cpu) rn in
    let addr = if mode == 2 || mode == 3 then add64 base offset else base in
    let write_back = λ (m' : Machine).
      if mode == 1
      then stepped emu_ok
          (record m' { cpu = set_xreg_sp (m'.cpu) rn (add64 (xreg_sp (m'.cpu) rn) offset) })
      else if mode == 3
      then stepped emu_ok (record m' { cpu = set_xreg_sp (m'.cpu) rn addr })
      else stepped emu_ok m' in
    if mode == 0
    then stepped emu_unimpl m
    else if is_vec
    then (if is_true (bit insn 22)
        then load_pair_vector m addr opc rt rt2 write_back
        else store_pair_vector m addr opc rt rt2 write_back)
    else (if is_true (bit insn 22)
        then load_pair_general m addr opc rt rt2 write_back
        else store_pair_general m addr opc rt rt2 write_back)
