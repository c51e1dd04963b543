-- ===== src/LoadStore/Access.antt =====
-- `do_load` and `do_store` of emu/src/exec_ldst.c: one access by its size and opcode fields. A vector
-- register is cleared before it is loaded, and stays so if the access fails.
use alpine_on_ios.Cpu.{Cpu, xreg, wreg, set_xreg, set_wreg, sign_extend}
use alpine_on_ios.Machine.{Machine, Attempt, read_or, write_or}
use alpine_on_ios.Prelude.{
  ℕ, ◌*◌, ◌%◌, ◌^◌, bit_or, true, false, ◌&&◌, ◌==◌, if◌then◌else◌, is_true, update, add64, u32,
}

abbrev pub set_v : Machine → ℕ → ℕ → ℕ → Machine
set_v m rt d0 d1 = record m {
  cpu = record (m.cpu) { v = update (m.cpu.v) rt (record { d0 = d0; d1 = d1 }) };
}

-- `memset(&cpu->v[rt], 0, sizeof(vreg_t))`.
abbrev pub clear_v : Machine → ℕ → Machine
clear_v m rt = set_v m rt 0 0

-- The low bytes of a cleared vector register.
abbrev load_v : Machine → ℕ → ℕ → ℕ → Attempt
load_v m addr size rt = read_or size m addr (false, m) λ val m'. (true, set_v m' rt val 0)

unfoldable pub load_vector : Machine → ℕ → ℕ → ℕ → ℕ → Attempt
load_vector m addr size opc rt =
    let cleared = clear_v m rt in
    if size == 0 && opc == 1
    then load_v cleared addr 1 rt
    else if size == 1 && opc == 1
    then load_v cleared addr 2 rt
    else if size == 2 && opc == 1
    then load_v cleared addr 4 rt
    else if size == 3 && opc == 1
    then load_v cleared addr 8 rt
    else if size == 0 && opc == 3
    then read_or 8 cleared addr (false, cleared)
        (λ low m1.
          let half = set_v m1 rt low 0 in
          read_or 8 half (add64 addr 8) (false, half) (λ high m2. (true, set_v m2 rt low high)))
    else (false, cleared)

-- A general register gets what a function of the value read makes of the processor.
abbrev load_x : Machine → ℕ → ℕ → (Cpu → ℕ → Cpu) → Attempt
load_x m addr size put =
    read_or size m addr (false, m) λ val m'. (true, record m' { cpu = put (m'.cpu) val })

unfoldable pub load_general : Machine → ℕ → ℕ → ℕ → ℕ → Attempt
load_general m addr size opc rt =
    let kind = bit_or (size * 4) opc in
    if kind == 0x01
    then load_x m addr 1 (λ c val. set_xreg c rt val)
    else if kind == 0x02
    then load_x m addr 1 (λ c val. set_xreg c rt (sign_extend val 8))
    else if kind == 0x03
    then load_x m addr 1 (λ c val. set_wreg c rt (u32 (sign_extend val 8)))
    else if kind == 0x05
    then load_x m addr 2 (λ c val. set_xreg c rt val)
    else if kind == 0x06
    then load_x m addr 2 (λ c val. set_xreg c rt (sign_extend val 16))
    else if kind == 0x07
    then load_x m addr 2 (λ c val. set_wreg c rt (u32 (sign_extend val 16)))
    else if kind == 0x09
    then load_x m addr 4 (λ c val. set_wreg c rt val)
    else if kind == 0x0a
    then load_x m addr 4 (λ c val. set_xreg c rt (sign_extend val 32))
    else if kind == 0x0d
    then load_x m addr 8 (λ c val. set_xreg c rt val)
    else (false, m)

unfoldable pub do_load : Machine → ℕ → ℕ → ℕ → ℕ → ℕ → Attempt
do_load m addr size opc rt is_vec =
    if is_true is_vec then load_vector m addr size opc rt else load_general m addr size opc rt

abbrev pub store : Machine → ℕ → ℕ → ℕ → Attempt
store m addr size val = write_or size m addr val (false, m) λ m'. (true, m')

unfoldable pub store_vector : Machine → ℕ → ℕ → ℕ → ℕ → Attempt
store_vector m addr size opc rt =
    let low = (m.cpu.v rt).d0 in
    if size == 0 && opc == 0
    then store m addr 1 (low % 2 ^ 8)
    else if size == 1 && opc == 0
    then store m addr 2 (low % 2 ^ 16)
    else if size == 2 && opc == 0
    then store m addr 4 (u32 low)
    else if size == 3 && opc == 0
    then store m addr 8 low
    else if size == 0 && opc == 2
    then write_or 8 m addr low (false, m) (λ m'. store m' (add64 addr 8) 8 (m'.cpu.v rt).d1)
    else (false, m)

-- The opcode field of a store is not looked at.
unfoldable pub store_general : Machine → ℕ → ℕ → ℕ → Attempt
store_general m addr size rt =
    if size == 0
    then store m addr 1 (xreg (m.cpu) rt % 2 ^ 8)
    else if size == 1
    then store m addr 2 (xreg (m.cpu) rt % 2 ^ 16)
    else if size == 2
    then store m addr 4 (wreg (m.cpu) rt)
    else if size == 3
    then store m addr 8 (xreg (m.cpu) rt)
    else (false, m)

unfoldable pub do_store : Machine → ℕ → ℕ → ℕ → ℕ → ℕ → Attempt
do_store m addr size opc rt is_vec =
    if is_true is_vec then store_vector m addr size opc rt else store_general m addr size rt
