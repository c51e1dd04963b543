-- ===== src/LoadStore/Valid/Exclusive.antt =====
-- The exclusive and ordered accesses keep the machine well formed.
use alpine_on_ios.Cpu.{Cpu, emu_segfault, xreg_sp, set_xreg, bits, bit}
use alpine_on_ios.Cpu.Valid.{IsCpu, set_xreg-IsCpu, set_wreg-IsCpu, xreg_sp-lt}
use alpine_on_ios.LoadStore.Exclusive.{
  store_sized, load_sized, release, store_exclusive, monitor, load_exclusive, exec_ldst_exclusive,
}
use alpine_on_ios.LoadStore.Valid.Register.{Continues, done-Continues}
use alpine_on_ios.Machine.{Machine, Result, stepped}
use alpine_on_ios.Machine.Valid.{
  IsMachine, Ends, ends, with_cpu-IsMachine, read_or-rule, write_or-rule,
}
use alpine_on_ios.Prelude.{ℕ, ◌^◌, ◌<◌, ◌≤◌, ◌==◌, ◌&&◌, ◌||◌, not, arith, if-rule, is_true}

-- What may follow a load.
abbrev TakesValue : (ℕ → Machine → Result) → Type 0
TakesValue next = (val : ℕ) (m : Machine) → IsMachine m → Ends IsMachine (next val m)

monitored-IsCpu :
    {c : Cpu} (addr val active : ℕ)
    → IsCpu c
    → IsCpu (record c { excl_addr = addr; excl_val = val; excl_active = active })
monitored-IsCpu addr val active h = ground arith

module _ {m : Machine} (valid : IsMachine m) (addr size rt : ℕ) (ha : addr < 2 ^ 64) where
  store_sized-Ends :
      (next : Machine → Result) → Continues next → Ends IsMachine (store_sized m addr size rt next)
  unfolding store_sized
  store_sized-Ends next continues =
      let one = λ (n val : ℕ) (lo : 0 < n) (hi : n ≤ 8).
        write_or-rule valid (Ends IsMachine) n addr ha lo (omega arith) val (stepped emu_segfault m)
          next (ends valid) (λ mem v. continues _ v) in
      if-rule (Ends IsMachine) (size == 0) (one 1 _ (omega arith) (omega arith)) (
        if-rule (Ends IsMachine) (size == 1) (one 2 _ (omega arith) (omega arith)) (
          if-rule (Ends IsMachine) (size == 2) (one 4 _ (omega arith) (omega arith))
            (one 8 _ (omega arith) (omega arith))))

  load_sized-Ends :
      (next : ℕ → Machine → Result)
      → TakesValue next
      → Ends IsMachine (load_sized m addr size rt next)
  unfolding load_sized
  load_sized-Ends next takes =
      let put = λ (n : ℕ) (lo : 0 < n) (hi : n ≤ 8) (fits : 256 ^ n ≤ 2 ^ 64).
        read_or-rule valid (Ends IsMachine) n addr ha lo (omega arith) (stepped emu_segfault m)
          (λ val m'. next val (record m' { cpu = set_xreg (m'.cpu) rt val })) (ends valid)
          (λ val mem v small.
            takes val _
              (with_cpu-IsMachine v _ (set_xreg-IsCpu (v.cpu_valid) rt val (omega arith)))) in
      if-rule (Ends IsMachine) (size == 0) (put 1 (omega arith) (omega arith) (omega arith)) (
        if-rule (Ends IsMachine) (size == 1) (put 2 (omega arith) (omega arith) (omega arith)) (
          if-rule (Ends IsMachine) (size == 2)
            (read_or-rule valid (Ends IsMachine) 4 addr ha (omega arith) (omega arith) _ _
              (ends valid)
              (λ val mem v small.
                takes val _ (with_cpu-IsMachine v _ (set_wreg-IsCpu (v.cpu_valid) rt val))))
            (put 8 (omega arith) (omega arith) (omega arith))))

release-IsMachine : {m : Machine} → IsMachine m → (rs failed : ℕ) → IsMachine (release m rs failed)
release-IsMachine valid rs failed =
    with_cpu-IsMachine valid _ (monitored-IsCpu _ _ 0 (set_wreg-IsCpu (valid.cpu_valid) rs failed))

module _ {m : Machine} (valid : IsMachine m) (addr size rs rt : ℕ) (ha : addr < 2 ^ 64) where
  store_exclusive-Ends : Ends IsMachine (store_exclusive m addr size rs rt)
  unfolding store_exclusive
  store_exclusive-Ends =
      if-rule (Ends IsMachine) (not (is_true (m.cpu.excl_active)) || not (m.cpu.excl_addr == addr))
        (ends (release-IsMachine valid rs 1))
        (store_sized-Ends valid addr size rt ha _ (λ m' v. ends (release-IsMachine v rs 0)))

  load_exclusive-Ends : Ends IsMachine (load_exclusive m addr size rt)
  unfolding load_exclusive
  load_exclusive-Ends =
      let watched : IsMachine (monitor m addr) =
        with_cpu-IsMachine valid _ (monitored-IsCpu addr _ 1 (valid.cpu_valid)) in
      load_sized-Ends watched addr size rt ha _
        (λ val m' v. ends (with_cpu-IsMachine v _ (monitored-IsCpu _ val _ (v.cpu_valid))))

pub exec_ldst_exclusive-Ends :
    {m : Machine} → IsMachine m → (insn : ℕ) → Ends IsMachine (exec_ldst_exclusive m insn)
unfolding exec_ldst_exclusive
exec_ldst_exclusive-Ends {m} valid insn =
    let addr = xreg_sp (m.cpu) (bits insn 9 5) in
    let word = xreg_sp-lt (valid.cpu_valid) (bits insn 9 5) in
    let size = bits insn 31 30 in
    let rt = bits insn 4 0 in
    let o2 = bit insn 23 in
    let o0 = bit insn 15 in
    let loads = is_true (bit insn 22) in
    let exclusive =
      if-rule (Ends IsMachine) loads (load_exclusive-Ends valid addr size (bits insn 20 16) rt word)
        (store_exclusive-Ends valid addr size (bits insn 20 16) rt word) in
    if-rule (Ends IsMachine) (o2 == 0 && o0 == 0) exclusive (
      if-rule (Ends IsMachine) (o2 == 1 && (o0 == 0 || o0 == 1))
        (if-rule (Ends IsMachine) loads
          (load_sized-Ends valid addr size rt word _ (λ val m' v. ends v))
          (store_sized-Ends valid addr size rt word _ done-Continues))
        (if-rule (Ends IsMachine) (o2 == 0 && o0 == 1) exclusive (ends valid)))
