-- ===== src/LoadStore/Exclusive.antt =====
-- The exclusive and ordered loads and stores: `exec_ldst_exclusive` of emu/src/exec_ldst.c. The pair
-- forms and the compare-and-swap, which the code takes for the single forms, are not told apart.
use alpine_on_ios.Cpu.{emu_ok, emu_unimpl, xreg, wreg, xreg_sp, set_xreg, set_wreg, bits, bit}
use alpine_on_ios.Machine.{Machine, Result, stepped, read_then, write_then}
use alpine_on_ios.Prelude.{ℕ, ◌%◌, ◌^◌, not, ◌&&◌, ◌||◌, ◌==◌, if◌then◌else◌, is_true}

-- The size is two bits, so the last case is 3.
unfoldable pub store_sized : Machine → ℕ → ℕ → ℕ → (Machine → Result) → Result
store_sized m addr size rt next =
    if size == 0
    then write_then 1 m addr (xreg (m.cpu) rt % 2 ^ 8) next
    else if size == 1
    then write_then 2 m addr (xreg (m.cpu) rt % 2 ^ 16) next
    else if size == 2
    then write_then 4 m addr (wreg (m.cpu) rt) next
    else write_then 8 m addr (xreg (m.cpu) rt) next

-- The value read goes to the register and to what follows.
unfoldable pub load_sized : Machine → ℕ → ℕ → ℕ → (ℕ → Machine → Result) → Result
load_sized m addr size rt next =
    let put = λ (val : ℕ) (m' : Machine). next val (record m' { cpu = set_xreg (m'.cpu) rt val }) in
    if size == 0
    then read_then 1 m addr put
    else if size == 1
    then read_then 2 m addr put
    else if size == 2
    then read_then 4 m addr (λ val m'. next val (record m' { cpu = set_wreg (m'.cpu) rt val }))
    else read_then 8 m addr put

-- The monitor is released, and the register tells whether the store was made.
abbrev pub release : Machine → ℕ → ℕ → Machine
release m rs failed = record m { cpu = record (set_wreg (m.cpu) rs failed) { excl_active = 0 } }

-- STXR and STLXR.
unfoldable pub store_exclusive : Machine → ℕ → ℕ → ℕ → ℕ → Result
store_exclusive m addr size rs rt =
    if not (is_true (m.cpu.excl_active)) || not (m.cpu.excl_addr == addr)
    then stepped emu_ok (release m rs 1)
    else store_sized m addr size rt (λ m'. stepped emu_ok (release m' rs 0))

abbrev pub monitor : Machine → ℕ → Machine
monitor m addr = record m { cpu = record (m.cpu) { excl_addr = addr; excl_active = 1 } }

-- LDXR and LDAXR.
unfoldable pub load_exclusive : Machine → ℕ → ℕ → ℕ → Result
load_exclusive m addr size rt =
    load_sized (monitor m addr) addr size rt
      (λ val m'. stepped emu_ok (record m' { cpu = record (m'.cpu) { excl_val = val } }))

unfoldable pub exec_ldst_exclusive : Machine → ℕ → Result
exec_ldst_exclusive m insn =
    let size = bits insn 31 30 in
    let o2 = bit insn 23 in
    let loads = is_true (bit insn 22) in
    let rs = bits insn 20 16 in
    let o0 = bit insn 15 in
    let rt = bits insn 4 0 in
    let addr = xreg_sp (m.cpu) (bits insn 9 5) in
    let exclusive =
      if loads then load_exclusive m addr size rt else store_exclusive m addr size rs rt in
    if o2 == 0 && o0 == 0
    then exclusive
    else if o2 == 1 && (o0 == 0 || o0 == 1)
    then (if loads
        then load_sized m addr size rt (λ val m'. stepped emu_ok m')
        else store_sized m addr size rt (λ m'. stepped emu_ok m'))
    else if o2 == 0 && o0 == 1
    then exclusive
    else stepped emu_unimpl m
