-- ===== src/LoadStore/Valid/Pair.antt =====
-- LDP and STP keep the machine well formed.
use alpine_on_ios.Cpu.{emu_segfault, bits, bit}
use alpine_on_ios.Cpu.Valid.{IsWord, set_xreg-IsCpu, set_wreg-IsCpu, xreg_sp-lt}
use alpine_on_ios.Decoder.Laws.{sign_extend-lt}
use alpine_on_ios.LoadStore.Pair.{
  set_low, set_high, set_s, load_pair_vector, store_pair_vector, load_pair_general,
  store_pair_general, exec_ldst_pair,
}
use alpine_on_ios.LoadStore.Valid.Access.{set_v-IsMachine, clear_v-IsMachine}
use alpine_on_ios.LoadStore.Valid.Register.{Continues, write_back-Continues}
use alpine_on_ios.Machine.{Machine, Result, stepped, read_then, write_then}
use alpine_on_ios.Machine.Valid.{
  IsMachine, Ends, ends, with_cpu-IsMachine, read_or-rule, write_or-rule,
}
use alpine_on_ios.Prelude.{ℕ, ◌^◌, ◌<◌, ◌≤◌, ◌==◌, ◌||◌, arith, add64, if-rule, is_true}

-- One access of a pair, at a word.
module _ {m : Machine} (valid : IsMachine m) (addr size : ℕ) (ha : addr < 2 ^ 64) (lo : 0 < size)
    (hi : size ≤ 8) where
  read-Ends :
      (next : ℕ → Machine → Result)
      → ((val : ℕ) (m' : Machine) → IsMachine m' → val < 256 ^ size → Ends IsMachine (next val m'))
      → Ends IsMachine (read_then size m addr next)
  read-Ends next continues =
      read_or-rule valid (Ends IsMachine) size addr ha lo (omega arith) (stepped emu_segfault m)
        next (ends valid) (λ val mem v small. continues val _ v small)

  write-Ends :
      (val : ℕ) (next : Machine → Result)
      → Continues next
      → Ends IsMachine (write_then size m addr val next)
  write-Ends val next continues =
      write_or-rule valid (Ends IsMachine) size addr ha lo (omega arith) val
        (stepped emu_segfault m) next (ends valid) (λ mem v. continues _ v)

module _ {m : Machine} (valid : IsMachine m) (rt d : ℕ) where
  set_low-IsMachine : IsWord d → IsMachine (set_low m rt d)
  set_low-IsMachine h = set_v-IsMachine valid rt d _ h (valid.cpu_valid.d1_word rt)

  set_high-IsMachine : IsWord d → IsMachine (set_high m rt d)
  set_high-IsMachine h = set_v-IsMachine valid rt _ d (valid.cpu_valid.d0_word rt) h

  set_s-IsMachine : d < 2 ^ 32 → IsMachine (set_s m rt d)
  set_s-IsMachine h =
      set_v-IsMachine valid rt _ _ (omega (arith, valid.cpu_valid.d0_word rt))
        (valid.cpu_valid.d1_word rt)

module _ {m : Machine} (valid : IsMachine m) (addr opc rt rt2 : ℕ) (next : Machine → Result)
    (ha : addr < 2 ^ 64) (continues : Continues next) where
  load_pair_vector-Ends : Ends IsMachine (load_pair_vector m addr opc rt rt2 next)
  unfolding load_pair_vector
  load_pair_vector-Ends =
      let cleared = clear_v-IsMachine (clear_v-IsMachine valid rt) rt2 in
      if-rule (Ends IsMachine) (opc == 0)
        (read-Ends cleared addr 4 ha (omega arith) (omega arith) _ λ v1 m1 h1 s1.
          read-Ends (set_s-IsMachine h1 rt v1 (omega arith)) (add64 addr 4) 4 (omega arith)
            (omega arith) (omega arith) _
            λ v2 m2 h2 s2. continues _ (set_s-IsMachine h2 rt2 v2 (omega arith)))
        (if-rule (Ends IsMachine) (opc == 1)
          (read-Ends cleared addr 8 ha (omega arith) (omega arith) _ λ v1 m1 h1 s1.
            read-Ends (set_low-IsMachine h1 rt v1 (omega arith)) (add64 addr 8) 8 (omega arith)
              (omega arith) (omega arith) _
              λ v2 m2 h2 s2. continues _ (set_low-IsMachine h2 rt2 v2 (omega arith)))
          (if-rule (Ends IsMachine) (opc == 2)
            (read-Ends cleared addr 8 ha (omega arith) (omega arith) _ λ v1 m1 h1 s1.
              read-Ends (set_low-IsMachine h1 rt v1 (omega arith)) (add64 addr 8) 8 (omega arith)
                (omega arith) (omega arith) _
                λ v2 m2 h2 s2.
                  read-Ends (set_high-IsMachine h2 rt v2 (omega arith)) (add64 addr 16) 8
                    (omega arith) (omega arith) (omega arith) _
                    λ v3 m3 h3 s3.
                      read-Ends (set_low-IsMachine h3 rt2 v3 (omega arith)) (add64 addr 24) 8
                        (omega arith) (omega arith) (omega arith) _
                        λ v4 m4 h4 s4. continues _ (set_high-IsMachine h4 rt2 v4 (omega arith)))
            (ends cleared)))

  store_pair_vector-Ends : Ends IsMachine (store_pair_vector m addr opc rt rt2 next)
  unfolding store_pair_vector
  store_pair_vector-Ends =
      if-rule (Ends IsMachine) (opc == 0)
        (write-Ends valid addr 4 ha (omega arith) (omega arith) _ _ λ m1 h1.
          write-Ends h1 (add64 addr 4) 4 (omega arith) (omega arith) (omega arith) _ _ continues)
        (if-rule (Ends IsMachine) (opc == 1)
          (write-Ends valid addr 8 ha (omega arith) (omega arith) _ _ λ m1 h1.
            write-Ends h1 (add64 addr 8) 8 (omega arith) (omega arith) (omega arith) _ _ continues)
          (if-rule (Ends IsMachine) (opc == 2)
            (write-Ends valid addr 8 ha (omega arith) (omega arith) _ _ λ m1 h1.
              write-Ends h1 (add64 addr 8) 8 (omega arith) (omega arith) (omega arith) _ _ λ m2 h2.
                write-Ends h2 (add64 addr 16) 8 (omega arith) (omega arith) (omega arith) _ _
                  λ m3 h3.
                    write-Ends h3 (add64 addr 24) 8 (omega arith) (omega arith) (omega arith) _ _
                      continues)
            (ends valid)))

  load_pair_general-Ends : Ends IsMachine (load_pair_general m addr opc rt rt2 next)
  unfolding load_pair_general
  load_pair_general-Ends =
      if-rule (Ends IsMachine) (opc == 0)
        (read-Ends valid addr 4 ha (omega arith) (omega arith) _ λ v1 m1 h1 s1.
          read-Ends h1 (add64 addr 4) 4 (omega arith) (omega arith) (omega arith) _ λ v2 m2 h2 s2.
            continues _ (
              with_cpu-IsMachine h2 _
                (set_wreg-IsCpu (set_wreg-IsCpu (h2.cpu_valid) rt v1) rt2 v2)))
        (if-rule (Ends IsMachine) (opc == 1)
          (read-Ends valid addr 4 ha (omega arith) (omega arith) _ λ v1 m1 h1 s1.
            read-Ends h1 (add64 addr 4) 4 (omega arith) (omega arith) (omega arith) _ λ v2 m2 h2 s2.
              continues _ (
                with_cpu-IsMachine h2 _ (
                  set_xreg-IsCpu (set_xreg-IsCpu (h2.cpu_valid) rt _ (sign_extend-lt v1 32)) rt2 _
                    (sign_extend-lt v2 32))))
          (if-rule (Ends IsMachine) (opc == 2)
            (read-Ends valid addr 8 ha (omega arith) (omega arith) _ λ v1 m1 h1 s1.
              read-Ends h1 (add64 addr 8) 8 (omega arith) (omega arith) (omega arith) _
                λ v2 m2 h2 s2. continues _ (
                  with_cpu-IsMachine h2 _ (
                    set_xreg-IsCpu (set_xreg-IsCpu (h2.cpu_valid) rt v1 (omega arith)) rt2 v2
                      (omega arith))))
            (ends valid)))

  store_pair_general-Ends : Ends IsMachine (store_pair_general m addr opc rt rt2 next)
  unfolding store_pair_general
  store_pair_general-Ends =
      if-rule (Ends IsMachine) (opc == 0)
        (write-Ends valid addr 4 ha (omega arith) (omega arith) _ _ λ m1 h1.
          write-Ends h1 (add64 addr 4) 4 (omega arith) (omega arith) (omega arith) _ _ continues)
        (if-rule (Ends IsMachine) (opc == 2)
          (write-Ends valid addr 8 ha (omega arith) (omega arith) _ _ λ m1 h1.
            write-Ends h1 (add64 addr 8) 8 (omega arith) (omega arith) (omega arith) _ _ continues)
          (ends valid))

pub exec_ldst_pair-Ends :
    {m : Machine} → IsMachine m → (insn : ℕ) → Ends IsMachine (exec_ldst_pair m insn)
unfolding exec_ldst_pair
exec_ldst_pair-Ends {m} valid insn =
    let mode = bits insn 24 23 in
    let word =
      if-rule IsWord (mode == 2 || mode == 3) (omega arith)
        (xreg_sp-lt (valid.cpu_valid) (bits insn 9 5)) in
    let continues = write_back-Continues (mode == 1) (mode == 3) (bits insn 9 5) _ _ word in
    if-rule (Ends IsMachine) (mode == 0) (ends valid) (
      if-rule (Ends IsMachine) (is_true (bit insn 26))
        (if-rule (Ends IsMachine) (is_true (bit insn 22))
          (load_pair_vector-Ends valid _ _ _ _ _ word continues)
          (store_pair_vector-Ends valid _ _ _ _ _ word continues))
        (if-rule (Ends IsMachine) (is_true (bit insn 22))
          (load_pair_general-Ends valid _ _ _ _ _ word continues)
          (store_pair_general-Ends valid _ _ _ _ _ word continues)))
