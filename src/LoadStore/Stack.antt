-- ===== src/LoadStore/Stack.antt =====
-- A push and a pop of two registers, as a function does at its start and its end.
use alpine_on_ios.Cpu.{
  Cpu, emu_ok, xreg, xreg_sp, set_xreg, set_xreg_sp, bits, bit, bits_lem, bit_lem, sign_extend,
  sign_extend_lem,
}
use alpine_on_ios.Cpu.Valid.{xreg-lt}
use alpine_on_ios.LoadStore.Dispatch.{exec_ldst}
use alpine_on_ios.LoadStore.Words.{write_two, read_two, stored_two}
use alpine_on_ios.LoadStore.Pair.{exec_ldst_pair, load_pair_general, store_pair_general}
use alpine_on_ios.LoadStore.Found.{Holds}
use alpine_on_ios.Machine.Valid.{IsMachine}
use alpine_on_ios.Memory.Coherent.{IsCoherent}
use alpine_on_ios.Memory.Layout.{mem_translate-lt}
use alpine_on_ios.Memory.RoundTrip.{mem_translate-same}
use alpine_on_ios.Memory.Space.{mem_translate, mem_prot_read, mem_prot_write}
use alpine_on_ios.Machine.{Machine, Result, stepped, read_then, write_then}
use alpine_on_ios.Prelude.{
  ℕ, ◌+◌, ◌-◌, ◌*◌, ◌^◌, ◌≤◌, ◌<◌, ◌≡◌, refl, sym, ap, ◌∙◌, ◌≢◌, some, arith, add64, sub64, shl64,
}

-- `STP Xt, Xt2, [SP, #-8 * k]!` and `LDP Xt, Xt2, [SP], #8 * k`.
abbrev pub push : ℕ → ℕ → ℕ → ℕ
push k rt rt2 = 0xa980_03e0 + (128 - k) * 2 ^ 15 + rt2 * 2 ^ 10 + rt

abbrev pub pop : ℕ → ℕ → ℕ → ℕ
pop k rt rt2 = 0xa8c0_03e0 + k * 2 ^ 15 + rt2 * 2 ^ 10 + rt

base_sp : (c : Cpu) → xreg_sp c 31 ≡ c.sp
unfolding xreg_sp
base_sp c = refl

-- The offsets, as words.
push_offset :
    (k sp : ℕ)
    → 1 ≤ k
    → k < 64
    → sp < 2 ^ 64
    → add64 sp (shl64 (sign_extend (128 - k) 7) 3) ≡ sub64 sp (8 * k)
push_offset k sp lo hi h = ground (arith, sign_extend_lem (128 - k) 7 (omega arith) (omega arith))

pop_offset : (k : ℕ) → k < 64 → shl64 (sign_extend k 7) 3 ≡ 8 * k
pop_offset k hi = ground (arith, sign_extend_lem k 7 (omega arith) (omega arith))

module _ (exec_simd : Machine → ℕ → Result) (m : Machine) (k rt rt2 : ℕ) (lo : 1 ≤ k) (hi : k < 64)
    (ht : rt < 31) (ht2 : rt2 < 31) where
  exec_push :
      m.cpu.sp < 2 ^ 64
      → let a = sub64 m.cpu.sp (8 * k) in
        exec_ldst exec_simd m (push k rt rt2)
        ≡ write_then 8 m a (xreg (m.cpu) rt) (λ m1.
          write_then 8 m1
            (add64 a 8)
            (xreg (m1.cpu) rt2)
            (λ m2. stepped emu_ok (record m2 { cpu = set_xreg_sp (m2.cpu) 31 a })))
  unfolding exec_ldst exec_ldst_pair store_pair_general
  exec_push hsp =
      let insn = push k rt rt2 in
      let op1 : bits insn 29 27 ≡ 5 = omega (arith, bits_lem insn 29 27) in
      let opc : bits insn 31 30 ≡ 2 = omega (arith, bits_lem insn 31 30) in
      let vec : bit insn 26 ≡ 0 = omega (arith, bit_lem insn 26) in
      let mode : bits insn 24 23 ≡ 3 = omega (arith, bits_lem insn 24 23) in
      let loads : bit insn 22 ≡ 0 = omega (arith, bit_lem insn 22) in
      let imm : bits insn 21 15 ≡ 128 - k = omega (arith, bits_lem insn 21 15) in
      let second : bits insn 14 10 ≡ rt2 = omega (arith, bits_lem insn 14 10) in
      let base : bits insn 9 5 ≡ 31 = omega (arith, bits_lem insn 9 5) in
      let first : bits insn 4 0 ≡ rt = omega (arith, bits_lem insn 4 0) in
      let at : add64 (xreg_sp (m.cpu) 31) (shl64 (sign_extend (128 - k) 7) 3)
          ≡ sub64 m.cpu.sp (8 * k) =
        ap (λ (t : ℕ). add64 t (shl64 (sign_extend (128 - k) 7) 3)) (base_sp (m.cpu))
        ∙ push_offset k m.cpu.sp lo hi hsp in
      rw (op1, opc, vec, mode, loads, imm, second, base, first, at) refl

  exec_pop :
      exec_ldst exec_simd m (pop k rt rt2)
      ≡ read_then 8 m m.cpu.sp (λ v1 m1. read_then 8 m1 (add64 m.cpu.sp 8) (λ v2 m2.
        let c = set_xreg (set_xreg (m2.cpu) rt v1) rt2 v2 in
        stepped emu_ok (record m2 { cpu = set_xreg_sp c 31 (add64 (xreg_sp c 31) (8 * k)) })))
  unfolding exec_ldst exec_ldst_pair load_pair_general
  exec_pop =
      let insn = pop k rt rt2 in
      let op1 : bits insn 29 27 ≡ 5 = omega (arith, bits_lem insn 29 27) in
      let opc : bits insn 31 30 ≡ 2 = omega (arith, bits_lem insn 31 30) in
      let vec : bit insn 26 ≡ 0 = omega (arith, bit_lem insn 26) in
      let mode : bits insn 24 23 ≡ 1 = omega (arith, bits_lem insn 24 23) in
      let loads : bit insn 22 ≡ 1 = omega (arith, bit_lem insn 22) in
      let imm : bits insn 21 15 ≡ k = omega (arith, bits_lem insn 21 15) in
      let second : bits insn 14 10 ≡ rt2 = omega (arith, bits_lem insn 14 10) in
      let base : bits insn 9 5 ≡ 31 = omega (arith, bits_lem insn 9 5) in
      let first : bits insn 4 0 ≡ rt = omega (arith, bits_lem insn 4 0) in
      rw (op1, opc, vec, mode, loads, imm, second, base, first, pop_offset k hi, base_sp (m.cpu))
        refl

-- The registers and the stack pointer after the pop.
popped_cpu :
    (c : Cpu) (rt rt2 v1 v2 k : ℕ)
    → rt < 31
    → rt2 < 31
    → rt ≢ rt2
    → let c' = set_xreg (set_xreg c rt v1) rt2 v2 in
      let after = set_xreg_sp c' 31 (add64 (xreg_sp c' 31) (8 * k)) in
      (xreg after rt ≡ v1) × (xreg after rt2 ≡ v2) × (after.sp ≡ add64 c.sp (8 * k))
unfolding xreg_sp set_xreg_sp xreg set_xreg
popped_cpu c rt rt2 v1 v2 k ht ht2 ne = (ground arith, ground arith, ground arith)

-- On a well-formed machine whose regions let the sixteen bytes below the stack pointer, at a
-- multiple of 8 from 8 to 504, be written and read, STP with pre-index of two registers pushes
-- them and moves the stack pointer down, and after any change to the registers that keeps the
-- stack pointer LDP with post-index brings both registers and the stack pointer back; the TLB
-- still agrees with the regions.
pub exec_push-exec_pop :
    (exec_simd : Machine → ℕ → Result) (m : Machine) (body : Cpu → Cpu) (k rt rt2 p q : ℕ)
    → IsMachine m
    → ((c : Cpu) → (body c).sp ≡ c.sp)
    → 1 ≤ k
    → k < 64
    → rt < 31
    → rt2 < 31
    → rt ≢ rt2
    → 8 * k ≤ m.cpu.sp
    → mem_translate m.mem.regions (m.cpu.sp - 8 * k) 16 mem_prot_write ≡ some p
    → mem_translate m.mem.regions (m.cpu.sp - 8 * k) 16 mem_prot_read ≡ some q
    → p + 16 < 2 ^ 64
    → (pushed : Machine) × (exec_ldst exec_simd m (push k rt rt2) ≡ stepped emu_ok pushed)
      × (pushed.cpu.sp ≡ m.cpu.sp - 8 * k)
      × (popped : Machine) × (exec_ldst exec_simd
            (record pushed { cpu = body (pushed.cpu) })
            (pop k rt rt2)
          ≡ stepped emu_ok popped)
      × (xreg (popped.cpu) rt ≡ xreg (m.cpu) rt)
      × (xreg (popped.cpu) rt2 ≡ xreg (m.cpu) rt2)
      × (popped.cpu.sp ≡ m.cpu.sp)
      × IsCoherent popped.mem
unfolding set_xreg_sp
exec_push-exec_pop exec_simd m body k rt rt2 p q valid keeps lo hi ht ht2 ne room tw tr fits =
    let regions = m.mem.regions in
    let v1 = xreg (m.cpu) rt in
    let v2 = xreg (m.cpu) rt2 in
    let lay = valid.coherent.laid_out in
    let top = mem_translate-lt (m.cpu.sp - 8 * k) 16 mem_prot_write p lay tw in
    let wide = valid.cpu_valid.sp_word in
    let at : sub64 m.cpu.sp (8 * k) ≡ m.cpu.sp - 8 * k = omega arith in
    let back : add64 (m.cpu.sp - 8 * k) (8 * k) ≡ m.cpu.sp = omega arith in
    let same =
      mem_translate-same regions (m.cpu.sp - 8 * k) 16 mem_prot_write mem_prot_read p q tw tr in
    let start : Holds regions m.mem.bytes m.mem = record {
      coherent = valid.coherent;
      same_regions = refl;
      same_bytes = refl;
    } in
    let w =
      write_two m start (m.cpu.sp - 8 * k) p fits v1 (λ c. xreg c rt2)
        (λ m2. stepped emu_ok (record m2 { cpu = set_xreg_sp (m2.cpu) 31 (m.cpu.sp - 8 * k) }))
        tw in
    let pushed : Machine = record { cpu = set_xreg_sp (m.cpu) 31 (m.cpu.sp - 8 * k); mem = w.0 } in
    let called : Machine = record pushed { cpu = body (pushed.cpu) } in
    let sps : called.cpu.sp ≡ m.cpu.sp - 8 * k = keeps (pushed.cpu) ∙ ground arith in
    let there : mem_translate regions called.cpu.sp 16 mem_prot_read ≡ some p =
      ap (λ (s : ℕ). mem_translate regions s 16 mem_prot_read) sps ∙ tr ∙ ap some (sym same) in
    let r =
      read_two called (w.1) called.cpu.sp p fits
        (λ u1 u2 m2.
          let c = set_xreg (set_xreg (m2.cpu) rt u1) rt2 u2 in
          stepped emu_ok (record m2 { cpu = set_xreg_sp c 31 (add64 (xreg_sp c 31) (8 * k)) }))
        there in
    let values =
      stored_two m.mem.bytes p v1 v2 (xreg-lt valid.cpu_valid rt) (xreg-lt valid.cpu_valid rt2) in
    let popped : Machine =
      let c = set_xreg (set_xreg (called.cpu) rt v1) rt2 v2 in
      record { cpu = set_xreg_sp c 31 (add64 (xreg_sp c 31) (8 * k)); mem = r.0 } in
    let registers = popped_cpu (called.cpu) rt rt2 v1 v2 k ht ht2 ne in
    let ends = exec_pop exec_simd called k rt rt2 lo hi ht ht2 ∙ r.2 in
    (
      pushed,
      exec_push exec_simd m k rt rt2 lo hi ht ht2 wide
          ∙ ap
              (λ (s : ℕ). write_then 8 m s v1 (λ m1.
                write_then 8 m1 (add64 s 8) (xreg (m1.cpu) rt2)
                  (λ m2. stepped emu_ok (record m2 { cpu = set_xreg_sp (m2.cpu) 31 s }))))
              at
          ∙ w.2,
      refl,
      popped,
      ends ∙ rw (values.0, values.1) refl,
      registers.0,
      registers.1,
      registers.2 ∙ ap (λ (s : ℕ). add64 s (8 * k)) sps ∙ back,
      (r.1).coherent,
    )
