-- ===== src/Tests.antt =====
-- Concrete runs of the theorems: a processor with a negative and a small number in its first two
-- registers, and a memory of one readable and writable page with two instructions in it.
pub mod LoadStore
pub mod Memory
pub mod Signal
pub mod Process
pub mod Vfs
pub mod Fds
pub mod Syscall
use alpine_on_ios.Branch.Compare.{lt_code, exec_cmp-exec_b_cond}
use alpine_on_ios.Branch.Exec.{exec_branch, jump_if, link}
use alpine_on_ios.Branch.System.{Clock}
use alpine_on_ios.Branch.Targets.{bl_imm, ret, b_cond, cmp_imm, offset, exec_bl-exec_ret}
use alpine_on_ios.Cpu.{emu_unimpl, Cpu, returns, emu_ok, xreg, xreg_sp}
use alpine_on_ios.Cpu.Condition.{Compared, signed_ltb64, check_cond-update_flags_sub64}
use alpine_on_ios.Cpu.Flags.{update_flags_sub64}
use alpine_on_ios.Cpu.Valid.{IsCpu, with_pc-IsCpu}
use alpine_on_ios.DpImm.Bitfield.{exec_dp_imm}
use alpine_on_ios.DpImm.Bitmask.{decode_bitmask_imm}
use alpine_on_ios.DpImm.Constants.{load_constant, load_constant-word}
use alpine_on_ios.DpImm.Masks.{IsAnswer, decode_bitmask_imm-IsAnswer}
use alpine_on_ios.DpReg.HighProduct.{umulh_lem}
use alpine_on_ios.DpReg.ThreeSource.{umulh}
use alpine_on_ios.Memory.Access.{
  AddressSpace, mem_ptr, hit_or_walk, mem_read, mem_write, load_bytes,
}
use alpine_on_ios.Memory.Coherent.{IsCoherent, IsAccess, tlb_flush-IsEntry, mem_ptr-IsAccess}
use alpine_on_ios.Memory.Gap.{find_gap, range, below, no_region, find_gap-IsApart}
use alpine_on_ios.Memory.Insert.{IsApart}
use alpine_on_ios.Memory.Layout.{empty, region}
use alpine_on_ios.Memory.RoundTrip.{mem_write-mem_read}
use alpine_on_ios.Memory.Space.{
  Region, find_region, mem_translate, tlb_flush, tlb_lookup, tlb_insert, mem_prot_read,
}
use alpine_on_ios.Step.Advance.{IsAdvance, cpu_exec_one-IsAdvance}
use alpine_on_ios.Machine.{Machine, stepped, Result}
use alpine_on_ios.Step.Run.{cpu_exec_one}
use alpine_on_ios.Prelude.{
  ℕ, ◌+◌, ◌-◌, ◌*◌, ◌/◌, ◌%◌, ◌^◌, ◌<◌, ◌≡◌, ◌≢◌, ◌↔◌, ◌⊎◌, inl, refl, arith, true, ◌==◌,
  if◌then◌else◌, update, add64, add32, sub64, sub32, shr, shl64, asr64, List, [], ◌∷◌, some, false,
  inr, ◌≤◌,
}

abbrev pub test_cpu : Cpu
test_cpu = record {
  x = update (update (λ r. 0) 0 (2 ^ 63 + 5)) 1 7;
  sp = 0x8000;
  pc = 0x1_0000;
  nzcv = 0;
  v = λ r. record { d0 = 0; d1 = 0 };
  fpcr = 0;
  fpsr = 0;
  tpidr_el0 = 0;
  tpidrro_el0 = 0;
  excl_addr = 0;
  excl_val = 0;
  excl_active = 0;
}

test_cpu-IsCpu : IsCpu test_cpu
test_cpu-IsCpu = record {
  x_word = λ r. ground arith;
  sp_word = omega arith;
  pc_word = omega arith;
  nzcv_word = omega arith;
  nzcv_flags = refl;
  fpcr_word = omega arith;
  fpsr_word = omega arith;
  tpidr_word = omega arith;
  tpidrro_word = omega arith;
  d0_word = λ r. omega arith;
  d1_word = λ r. omega arith;
}

abbrev test_clock : Clock
test_clock = some (12, 500)

abbrev test_regions : List Region
test_regions =
    record { base = 0x1_0000; size = 0x1000; prot = 3; flags = 0x22; host = 0x5000_0000 } ∷ []

-- `B .` at 0x10000 and `ADD X0, X0, #1` at 0x10004.
abbrev test_mem : AddressSpace
test_mem = record {
  tlb = tlb_flush λ i. record { tag = 0; host = 0; prot = 0 };
  regions = test_regions;
  bytes = update (update (update (λ p. 0) 0x5000_0003 0x14) 0x5000_0005 0x04) 0x5000_0007 0x91;
}

test_mem-IsCoherent : IsCoherent test_mem
test_mem-IsCoherent = record {
  laid_out = region 16 1 refl refl (omega arith) (omega arith) empty;
  entries = tlb_flush-IsEntry test_regions λ i. record { tag = 0; host = 0; prot = 0 };
}

-- The memory after the fetch, whose page is in the TLB.
abbrev fetched_mem : ℕ → AddressSpace
fetched_mem o = record test_mem {
  tlb = tlb_insert (test_mem.tlb) (0x1_0000 + o) (0x5000_0000 + o) mem_prot_read;
}

abbrev test_machine : ℕ → Machine
test_machine pc = record { cpu = record test_cpu { pc = pc }; mem = test_mem }

-- SIMD stands in as an instruction that is not implemented.
abbrev test_simd : Machine → ℕ → Result
test_simd m insn = stepped emu_unimpl m

-- `AND` with the mask 0x00ff00ff00ff00ff rotated right by 4.
decode_bitmask_imm-IsAnswer_example : IsAnswer 64 16 7 4 (decode_bitmask_imm 1 0 4 0b100111)
decode_bitmask_imm-IsAnswer_example =
    decode_bitmask_imm-IsAnswer 1 0 4 0b100111 (omega arith) (omega arith) (omega arith)
      (omega arith)

check_cond-update_flags_sub64_example :
    Compared
      (update_flags_sub64 test_cpu (2 ^ 63 + 5) 7 (sub64 (2 ^ 63 + 5) 7))
      (2 ^ 63 + 5)
      7
      signed_ltb64
check_cond-update_flags_sub64_example =
    check_cond-update_flags_sub64 test_cpu (2 ^ 63 + 5) 7 (omega arith) (omega arith)

-- `CMP X0, #7` and `B.LT` backwards by 8 bytes.
exec_cmp-exec_b_cond_example :
    (c : Cpu) × (exec_dp_imm test_cpu (cmp_imm 0 7) ≡ returns emu_ok c)
    × (c.pc ≡ 0x1_0000)
    × (exec_branch test_clock c (b_cond 11 (2 ^ 19 - 2))
        ≡ jump_if (signed_ltb64 (xreg_sp test_cpu 0) 7) c (offset (2 ^ 18) (2 ^ 19 - 2)))
exec_cmp-exec_b_cond_example =
    exec_cmp-exec_b_cond test_clock test_cpu 0 7 (2 ^ 19 - 2) 11 _ test_cpu-IsCpu (omega arith)
      (omega arith) (omega arith) lt_code

mem_ptr-IsAccess_example :
    IsAccess test_mem 0x1_0004 4 mem_prot_read (mem_ptr test_mem 0x1_0004 4 mem_prot_read)
mem_ptr-IsAccess_example =
    mem_ptr-IsAccess test_mem 0x1_0004 4 mem_prot_read test_mem-IsCoherent (omega arith)
      (omega arith) (omega arith)

mem_write-mem_read_example :
    (written : AddressSpace) × (after : AddressSpace) × (mem_write 2 test_mem 0x1_0ffe 0x1_2345
      ≡ some written)
    × (mem_read 2 written 0x1_0ffe ≡ some (0x2345, after))
    × IsCoherent after
unfolding mem_translate find_region
mem_write-mem_read_example =
    mem_write-mem_read test_mem 2 0x1_0ffe 0x1_2345 0x5000_0ffe 0x5000_0ffe test_mem-IsCoherent
      (omega arith) (omega arith) (omega arith) refl refl

umulh_lem_example : umulh (2 ^ 64 - 1) (2 ^ 63 + 1) ≡ (2 ^ 64 - 1) * (2 ^ 63 + 1) / 2 ^ 64
umulh_lem_example = umulh_lem (2 ^ 64 - 1) (2 ^ 63 + 1) (omega arith) (omega arith)

cpu_exec_one-IsAdvance_example :
    IsAdvance
      (record test_cpu { pc = 0x1_0004 })
      (fetched_mem 4)
      (cpu_exec_one test_simd test_clock (test_machine 0x1_0004))
unfolding mem_read mem_ptr hit_or_walk tlb_lookup mem_translate find_region tlb_flush load_bytes
    tlb_insert
cpu_exec_one-IsAdvance_example =
    cpu_exec_one-IsAdvance test_simd test_clock (test_machine 0x1_0004) (fetched_mem 4) 0x9100_0400
      (with_pc-IsCpu test_cpu-IsCpu 0x1_0004 (omega arith)) (inl refl) refl

exec_bl-exec_ret_example :
    (callee : Cpu) × (exec_branch test_clock test_cpu (bl_imm 16) ≡ returns emu_ok callee)
    × (callee.pc ≡ 0x1_0040)
    × (exec_branch test_clock callee ret
        ≡ returns emu_ok (record (link test_cpu) { pc = 0x1_0004 }))
exec_bl-exec_ret_example = exec_bl-exec_ret test_clock test_cpu 16 (omega arith)

-- A second region, right below the first.
abbrev test_region : Region
test_region = record { base = 0xe000; size = 0x2000; prot = 1; flags = 0x22; host = 0x6000_0000 }

-- A search that starts inside the region of the page.
find_gap-IsApart_example :
    (gap : ℕ) × (find_gap 2 test_regions 0x1_0000 0x2000 ≡ some gap)
    × (0x1_0000 ≤ gap)
    × (gap ≤ 0x2_0000)
    × IsApart (range gap 0x2000) test_regions
find_gap-IsApart_example =
    find_gap-IsApart test_regions 0x1_0000 0x2000 0x2_0000 (test_mem-IsCoherent.laid_out)
      (below (omega arith) no_region) (omega arith) (omega arith)

load_constant-word_example :
    (s : Cpu) × (load_constant test_cpu 3 0xcdef 0x89ab 0x4567 0x0123 ≡ returns emu_ok s)
    × ((r : ℕ) → xreg s r ≡ (if r == 3 then 0x0123_4567_89ab_cdef else xreg test_cpu r))
load_constant-word_example =
    load_constant-word test_cpu 3 0xcdef 0x89ab 0x4567 0x0123 (omega arith) (omega arith)
      (omega arith) (omega arith) (omega arith)
