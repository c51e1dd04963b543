-- ===== src/LoadStore/Valid/Access.antt =====
-- `do_load` and `do_store` keep the machine well formed, whether they succeed or fail.
use alpine_on_ios.Cpu.{Cpu, set_xreg, set_wreg, sign_extend}
use alpine_on_ios.Cpu.Valid.{IsCpu, IsWord, set_xreg-IsCpu, set_wreg-IsCpu}
use alpine_on_ios.Decoder.Laws.{sign_extend-lt}
use alpine_on_ios.LoadStore.Access.{
  set_v, clear_v, load_vector, load_general, do_load, store, store_vector, store_general, do_store,
}
use alpine_on_ios.Machine.{Machine, Result, Attempt, or_segfault, read_or}
use alpine_on_ios.Machine.Valid.{
  IsMachine, Ends, ends, with_cpu-IsMachine, read_or-rule, write_or-rule,
}
use alpine_on_ios.Prelude.{
  ℕ, ◌^◌, ◌<◌, ◌≤◌, ◌==◌, ◌&&◌, bit_or, ◌*◌, arith, true, false, add64, if-rule, is_true, u32,
}

pub set_v-IsMachine :
    {m : Machine}
    → IsMachine m
    → (rt d0 d1 : ℕ) → IsWord d0
    → IsWord d1
    → IsMachine (set_v m rt d0 d1)
set_v-IsMachine valid rt d0 d1 h0 h1 = with_cpu-IsMachine valid _ (
    let c = valid.cpu_valid in
    record {
      x_word = c.x_word;
      sp_word = c.sp_word;
      pc_word = c.pc_word;
      nzcv_word = c.nzcv_word;
      nzcv_flags = c.nzcv_flags;
      fpcr_word = c.fpcr_word;
      fpsr_word = c.fpsr_word;
      tpidr_word = c.tpidr_word;
      tpidrro_word = c.tpidrro_word;
      d0_word = λ r. ground (arith, c.d0_word r);
      d1_word = λ r. ground (arith, c.d1_word r);
    })

pub clear_v-IsMachine : {m : Machine} → IsMachine m → (rt : ℕ) → IsMachine (clear_v m rt)
clear_v-IsMachine valid rt = set_v-IsMachine valid rt 0 0 (omega arith) (omega arith)

-- An attempt that leaves a well-formed machine.
abbrev pub Tries : Attempt → Type 0
Tries a = IsMachine (a.1)

pub or_segfault-Ends :
    (a : Attempt) (next : Machine → Result)
    → Tries a
    → ((m : Machine) → IsMachine m → Ends IsMachine (next m))
    → Ends IsMachine (or_segfault a next)
unfolding or_segfault
or_segfault-Ends (true, m) next h pn = pn m h
or_segfault-Ends (false, m) next h pn = ends h

module _ {m : Machine} (valid : IsMachine m) (addr : ℕ) (ha : addr < 2 ^ 64) where
  load_v-Tries :
      (size rt : ℕ)
      → 0 < size
      → size ≤ 8
      → 256 ^ size ≤ 2 ^ 64
      → Tries (read_or size m addr (false, m) (λ val m'. (true, set_v m' rt val 0)))
  load_v-Tries size rt hs hl fits =
      read_or-rule valid Tries size addr ha hs (omega arith) _ _ valid
        (λ val mem v small. set_v-IsMachine v rt val 0 (omega arith) (omega arith))

  load_x-Tries :
      (size : ℕ) (put : Cpu → ℕ → Cpu)
      → 0 < size
      → size ≤ 8
      → ((c : Cpu) (val : ℕ) → IsCpu c → val < 256 ^ size → IsCpu (put c val))
      → Tries
          (read_or size m addr (false, m) (λ val m'. (true, record m' { cpu = put (m'.cpu) val })))
  load_x-Tries size put hs hl keeps =
      read_or-rule valid Tries size addr ha hs (omega arith) _ _ valid
        (λ val mem v small. with_cpu-IsMachine v _ (keeps _ val v.cpu_valid small))

  store-Tries : (size val : ℕ) → 0 < size → size ≤ 8 → Tries (store m addr size val)
  store-Tries size val hs hl =
      write_or-rule valid Tries size addr ha hs (omega arith) val _ _ valid (λ mem v. v)

load_pair-Tries :
    {m : Machine}
    → IsMachine m
    → (addr rt : ℕ) → addr < 2 ^ 64
    → Tries (
        read_or 8 m addr
          (false, m)
          (λ low m1.
            read_or 8
              (set_v m1 rt low 0)
              (add64 addr 8)
              (false, set_v m1 rt low 0)
              (λ high m2. (true, set_v m2 rt low high))))
load_pair-Tries valid addr rt ha =
    read_or-rule valid Tries 8 addr ha (omega arith) (omega arith) _ _ valid λ low mem v small.
      let half = set_v-IsMachine v rt low 0 (omega arith) (omega arith) in
      read_or-rule half Tries 8 (add64 addr 8) (omega arith) (omega arith) (omega arith) _ _ half
        λ high mem' v' small'. set_v-IsMachine v' rt low high (omega arith) (omega arith)

module _ {m : Machine} (valid : IsMachine m) (addr size opc rt : ℕ) (ha : addr < 2 ^ 64) where
  load_vector-Tries : Tries (load_vector m addr size opc rt)
  unfolding load_vector
  load_vector-Tries =
      let cleared = clear_v-IsMachine valid rt in
      if-rule Tries (size == 0 && opc == 1)
        (load_v-Tries cleared addr ha 1 rt (omega arith) (omega arith) (omega arith))
        (if-rule Tries (size == 1 && opc == 1)
          (load_v-Tries cleared addr ha 2 rt (omega arith) (omega arith) (omega arith))
          (if-rule Tries (size == 2 && opc == 1)
            (load_v-Tries cleared addr ha 4 rt (omega arith) (omega arith) (omega arith))
            (if-rule Tries (size == 3 && opc == 1)
              (load_v-Tries cleared addr ha 8 rt (omega arith) (omega arith) (omega arith))
              (if-rule Tries (size == 0 && opc == 3) (load_pair-Tries cleared addr rt ha)
                cleared))))

  load_general-Tries : Tries (load_general m addr size opc rt)
  unfolding load_general
  load_general-Tries =
      let kind = bit_or (size * 4) opc in
      let plain = λ (n : ℕ) (lo : 0 < n) (hi : n ≤ 8) (fits : 256 ^ n ≤ 2 ^ 64).
        load_x-Tries valid addr ha n (λ c val. set_xreg c rt val) lo hi
          (λ c val h small. set_xreg-IsCpu h rt val (omega arith)) in
      let signed = λ (n w : ℕ) (lo : 0 < n) (hi : n ≤ 8).
        load_x-Tries valid addr ha n (λ c val. set_xreg c rt (sign_extend val w)) lo hi
          (λ c val h small. set_xreg-IsCpu h rt _ (sign_extend-lt val w)) in
      let narrow = λ (n : ℕ) (f : ℕ → ℕ) (lo : 0 < n) (hi : n ≤ 8).
        load_x-Tries valid addr ha n (λ c val. set_wreg c rt (f val)) lo hi
          (λ c val h small. set_wreg-IsCpu h rt (f val)) in
      if-rule Tries (kind == 0x01) (plain 1 (omega arith) (omega arith) (omega arith)) (
        if-rule Tries (kind == 0x02) (signed 1 8 (omega arith) (omega arith)) (
          if-rule Tries (kind == 0x03)
            (narrow 1 (λ val. u32 (sign_extend val 8)) (omega arith) (omega arith))
            (if-rule Tries (kind == 0x05) (plain 2 (omega arith) (omega arith) (omega arith)) (
              if-rule Tries (kind == 0x06) (signed 2 16 (omega arith) (omega arith)) (
                if-rule Tries (kind == 0x07)
                  (narrow 2 (λ val. u32 (sign_extend val 16)) (omega arith) (omega arith))
                  (if-rule Tries (kind == 0x09) (narrow 4 (λ val. val) (omega arith) (omega arith))
                    (if-rule Tries (kind == 0x0a) (signed 4 32 (omega arith) (omega arith)) (
                      if-rule Tries (kind == 0x0d)
                        (plain 8 (omega arith) (omega arith) (omega arith)) valid))))))))

  store_vector-Tries : Tries (store_vector m addr size opc rt)
  unfolding store_vector
  store_vector-Tries =
      let one = λ (n val : ℕ) (lo : 0 < n) (hi : n ≤ 8). store-Tries valid addr ha n val lo hi in
      if-rule Tries (size == 0 && opc == 0) (one 1 _ (omega arith) (omega arith)) (
        if-rule Tries (size == 1 && opc == 0) (one 2 _ (omega arith) (omega arith)) (
          if-rule Tries (size == 2 && opc == 0) (one 4 _ (omega arith) (omega arith)) (
            if-rule Tries (size == 3 && opc == 0) (one 8 _ (omega arith) (omega arith)) (
              if-rule Tries (size == 0 && opc == 2)
                (write_or-rule valid Tries 8 addr ha (omega arith) (omega arith) _ _ _ valid
                  (λ mem v.
                    store-Tries v (add64 addr 8) (omega arith) 8 _ (omega arith) (omega arith)))
                valid))))

  store_general-Tries : Tries (store_general m addr size rt)
  unfolding store_general
  store_general-Tries =
      let one = λ (n val : ℕ) (lo : 0 < n) (hi : n ≤ 8). store-Tries valid addr ha n val lo hi in
      if-rule Tries (size == 0) (one 1 _ (omega arith) (omega arith)) (
        if-rule Tries (size == 1) (one 2 _ (omega arith) (omega arith)) (
          if-rule Tries (size == 2) (one 4 _ (omega arith) (omega arith))
            (if-rule Tries (size == 3) (one 8 _ (omega arith) (omega arith)) valid)))

  pub do_load-Tries : (is_vec : ℕ) → Tries (do_load m addr size opc rt is_vec)
  unfolding do_load
  do_load-Tries is_vec = if-rule Tries (is_true is_vec) load_vector-Tries load_general-Tries

  pub do_store-Tries : (is_vec : ℕ) → Tries (do_store m addr size opc rt is_vec)
  unfolding do_store
  do_store-Tries is_vec = if-rule Tries (is_true is_vec) store_vector-Tries store_general-Tries
