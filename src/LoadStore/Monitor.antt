-- ===== src/LoadStore/Monitor.antt =====
-- The exclusive monitor of emu/src/exec_ldst.c: what LDXR and STXR do one after the other.
use alpine_on_ios.Cpu.{
  Cpu, emu_ok, xreg, wreg, xreg_sp, set_xreg, set_wreg, bits, bit, bits_lem, bit_lem,
}
use alpine_on_ios.LoadStore.Dispatch.{exec_ldst}
use alpine_on_ios.LoadStore.Exclusive.{
  exec_ldst_exclusive, store_exclusive, load_exclusive, store_sized, load_sized, monitor, release,
}
use alpine_on_ios.LoadStore.Found.{Holds, read_then-found, write_then-found}
use alpine_on_ios.Machine.{Machine, Result, stepped}
use alpine_on_ios.Machine.Valid.{IsMachine}
use alpine_on_ios.Memory.Access.{AddressSpace, load_bytes, store_bytes}
use alpine_on_ios.Memory.Space.{Region, mem_translate, mem_prot_read, mem_prot_write}
use alpine_on_ios.Cpu.Valid.{xreg_sp-lt}
use alpine_on_ios.Prelude.{
  not, ◌||◌, ◌==◌, is_true, false, true, ℕ, ◌+◌, ◌*◌, ◌^◌, ◌<◌, ◌≡◌, ◌≢◌, refl, ap, ◌∙◌, some, List,
  arith,
}

-- `LDXR Xt, [Xn]` and `STXR Ws, Xt, [Xn]`.
abbrev pub ldxr : ℕ → ℕ → ℕ
ldxr rt rn = 0xc85f_7c00 + rn * 2 ^ 5 + rt

abbrev pub stxr : ℕ → ℕ → ℕ → ℕ
stxr rs rt rn = 0xc800_7c00 + rs * 2 ^ 16 + rn * 2 ^ 5 + rt

module _ (exec_simd : Machine → ℕ → Result) (m : Machine) (rt rn : ℕ) (ht : rt < 32)
    (hn : rn < 32) where
  exec_ldxr : exec_ldst exec_simd m (ldxr rt rn) ≡ load_exclusive m (xreg_sp (m.cpu) rn) 3 rt
  unfolding exec_ldst exec_ldst_exclusive
  exec_ldxr =
      let insn = ldxr rt rn in
      let op1 : bits insn 29 27 ≡ 1 = omega (arith, bits_lem insn 29 27) in
      let top : bit insn 31 ≡ 1 = omega (arith, bit_lem insn 31) in
      let size : bits insn 31 30 ≡ 3 = omega (arith, bits_lem insn 31 30) in
      let o2 : bit insn 23 ≡ 0 = omega (arith, bit_lem insn 23) in
      let loads : bit insn 22 ≡ 1 = omega (arith, bit_lem insn 22) in
      let o0 : bit insn 15 ≡ 0 = omega (arith, bit_lem insn 15) in
      let base : bits insn 9 5 ≡ rn = omega (arith, bits_lem insn 9 5) in
      let first : bits insn 4 0 ≡ rt = omega (arith, bits_lem insn 4 0) in
      rw (op1, top, size, o2, loads, o0, base, first) refl

  exec_stxr :
      (rs : ℕ)
      → rs < 32
      → exec_ldst exec_simd m (stxr rs rt rn) ≡ store_exclusive m (xreg_sp (m.cpu) rn) 3 rs rt
  unfolding exec_ldst exec_ldst_exclusive
  exec_stxr rs hs =
      let insn = stxr rs rt rn in
      let op1 : bits insn 29 27 ≡ 1 = omega (arith, bits_lem insn 29 27) in
      let top : bit insn 31 ≡ 1 = omega (arith, bit_lem insn 31) in
      let size : bits insn 31 30 ≡ 3 = omega (arith, bits_lem insn 31 30) in
      let o2 : bit insn 23 ≡ 0 = omega (arith, bit_lem insn 23) in
      let loads : bit insn 22 ≡ 0 = omega (arith, bit_lem insn 22) in
      let o0 : bit insn 15 ≡ 0 = omega (arith, bit_lem insn 15) in
      let base : bits insn 9 5 ≡ rn = omega (arith, bits_lem insn 9 5) in
      let first : bits insn 4 0 ≡ rt = omega (arith, bits_lem insn 4 0) in
      let status : bits insn 20 16 ≡ rs = omega (arith, bits_lem insn 20 16) in
      rw (op1, top, size, o2, loads, o0, base, first, status) refl

-- The processor after LDXR of a value: the base register keeps its own, unless it is loaded.
abbrev ldxr_cpu : Cpu → ℕ → ℕ → ℕ → Cpu
ldxr_cpu c addr rt val = record (set_xreg (record c { excl_addr = addr; excl_active = 1 }) rt val) {
  excl_val = val;
}

ldxr_cpu_lem :
    (c : Cpu) (addr rt val rn : ℕ)
    → rt < 31
    → rn ≢ rt
    → let after = ldxr_cpu c addr rt val in
      (xreg_sp after rn ≡ xreg_sp c rn)
      × (after.excl_active ≡ 1)
      × (after.excl_addr ≡ addr)
      × (xreg after rt ≡ val)
unfolding xreg_sp set_xreg xreg
ldxr_cpu_lem c addr rt val rn ht ne = (ground arith, ground arith, ground arith, ground arith)

release-wreg :
    (m : Machine) (rs failed : ℕ)
    → rs < 31
    → failed < 2
    → wreg ((release m rs failed).cpu) rs ≡ failed
unfolding wreg set_wreg
release-wreg m rs failed h hf = ground arith

-- The two instructions on a word that the regions hold.
module _ {regions : List Region} {bytes : ℕ → ℕ} (m : Machine) (holds : Holds regions bytes m.mem)
    (addr p : ℕ) (ha : addr < 2 ^ 64) where
  load_exclusive-found :
      (rt : ℕ)
      → mem_translate regions addr 8 mem_prot_read ≡ some p
      → (after : AddressSpace) × Holds regions bytes after
        × (load_exclusive m addr 3 rt
            ≡ stepped emu_ok
                (record { cpu = ldxr_cpu (m.cpu) addr rt (load_bytes bytes p 8); mem = after }))
  unfolding load_exclusive load_sized
  load_exclusive-found rt t =
      read_then-found (monitor m addr) holds 8 addr p ha (omega arith) (omega arith)
        (λ val m'.
          stepped emu_ok (record m' { cpu = record (set_xreg (m'.cpu) rt val) { excl_val = val } }))
        t

  store_exclusive-found :
      (rs rt : ℕ)
      → m.cpu.excl_active ≡ 1
      → m.cpu.excl_addr ≡ addr
      → mem_translate regions addr 8 mem_prot_write ≡ some p
      → (after : AddressSpace) × Holds regions (store_bytes bytes p 8 (xreg (m.cpu) rt)) after
        × (store_exclusive m addr 3 rs rt
            ≡ stepped emu_ok (release (record m { mem = after }) rs 0))
  unfolding store_exclusive store_sized
  store_exclusive-found rs rt active same t =
      let w =
        write_then-found m holds 8 addr p ha (omega arith) (omega arith) (xreg (m.cpu) rt)
          (λ m'. stepped emu_ok (release m' rs 0)) t in
      let guard : (not (is_true (m.cpu.excl_active)) || not (m.cpu.excl_addr == addr)) ≡ false =
        ground (arith, active, same) in
      (w.0, w.1, rw (guard) (w.2))

store_exclusive-refused :
    (m : Machine) (addr rs rt : ℕ)
    → m.cpu.excl_active ≡ 0
    → store_exclusive m addr 3 rs rt ≡ stepped emu_ok (release m rs 1)
unfolding store_exclusive
store_exclusive-refused m addr rs rt idle =
    let guard : (not (is_true (m.cpu.excl_active)) || not (m.cpu.excl_addr == addr)) ≡ true =
      ground (arith, idle) in
    rw (guard) refl

-- On a well-formed machine whose regions let the doubleword at the base register be read and
-- written, LDXR puts it in its register; STXR with that base then stores its register and reports
-- 0, whatever the bytes of the host have become in between; and a second STXR reports 1 and leaves
-- the memory as it is.
pub exec_ldxr-exec_stxr :
    (exec_simd : Machine → ℕ → Result) (m : Machine) (rt rs rt2 rn p q : ℕ) (other : ℕ → ℕ)
    → IsMachine m
    → rt < 31
    → rs < 31
    → rt2 < 32
    → rn < 32
    → rn ≢ rt
    → mem_translate m.mem.regions (xreg_sp (m.cpu) rn) 8 mem_prot_read ≡ some p
    → mem_translate m.mem.regions (xreg_sp (m.cpu) rn) 8 mem_prot_write ≡ some q
    → (loaded : Machine) × (exec_ldst exec_simd m (ldxr rt rn) ≡ stepped emu_ok loaded)
      × (xreg (loaded.cpu) rt ≡ load_bytes m.mem.bytes p 8)
      × (stored : Machine) × (exec_ldst exec_simd
            (record loaded { mem = record (loaded.mem) { bytes = other } })
            (stxr rs rt2 rn)
          ≡ stepped emu_ok stored)
      × (wreg (stored.cpu) rs ≡ 0)
      × (stored.mem.bytes ≡ store_bytes other q 8 (xreg (loaded.cpu) rt2))
      × (refused : Machine) × (exec_ldst exec_simd stored (stxr rs rt2 rn) ≡ stepped emu_ok refused)
      × (wreg (refused.cpu) rs ≡ 1)
      × (refused.mem ≡ stored.mem)
exec_ldxr-exec_stxr exec_simd m rt rs rt2 rn p q other valid ht hs ht2 hn ne tr tw =
    let regions = m.mem.regions in
    let addr = xreg_sp (m.cpu) rn in
    let wide = xreg_sp-lt valid.cpu_valid rn in
    let val = load_bytes m.mem.bytes p 8 in
    let start : Holds regions m.mem.bytes m.mem = record {
      coherent = valid.coherent;
      same_regions = refl;
      same_bytes = refl;
    } in
    let l = load_exclusive-found m start addr p wide rt tr in
    let loaded : Machine = record { cpu = ldxr_cpu (m.cpu) addr rt val; mem = l.0 } in
    let raced : Machine = record loaded { mem = record (loaded.mem) { bytes = other } } in
    let holds : Holds regions other raced.mem = record {
      coherent = record { laid_out = (l.1).coherent.laid_out; entries = (l.1).coherent.entries };
      same_regions = (l.1).same_regions;
      same_bytes = refl;
    } in
    let facts = ldxr_cpu_lem (m.cpu) addr rt val rn ht ne in
    let s = store_exclusive-found raced holds addr q wide rs rt2 (facts.1) (facts.2) tw in
    let stored : Machine = release (record raced { mem = s.0 }) rs 0 in
    (
      loaded,
      exec_ldxr exec_simd m rt rn (omega arith) hn ∙ l.2,
      facts.3,
      stored,
      exec_stxr exec_simd raced rt2 rn ht2 hn rs (omega arith)
          ∙ ap (λ (a : ℕ). store_exclusive raced a 3 rs rt2) (facts.0)
          ∙ s.2,
      release-wreg (record raced { mem = s.0 }) rs 0 hs (omega arith),
      (s.1).same_bytes,
      release stored rs 1,
      exec_stxr exec_simd stored rt2 rn ht2 hn rs (omega arith)
          ∙ store_exclusive-refused stored (xreg_sp (stored.cpu) rn) rs rt2 refl,
      release-wreg stored rs 1 hs (omega arith),
      refl,
    )
