-- ===== src/Tests/Memory.antt =====
-- Concrete runs of the theorems on the address space, on a heap of three pages.
use alpine_on_ios.Memory.Access.{AddressSpace, mem_ptr, hit_or_walk, mem_read, load_bytes}
use alpine_on_ios.Memory.Brk.{mem_brk, find_heap}
use alpine_on_ios.Memory.Fresh.{loads, flushed, mem_munmap-loads, mem_brk-loads}
use alpine_on_ios.Memory.Gap.{page_align_up, below, no_region, range}
use alpine_on_ios.Memory.Host.{Host, Each, done, each, Each-map, EndsBelow, HasMemory, Serves}
use alpine_on_ios.Memory.Insert.{IsApart}
use alpine_on_ios.Memory.Layout.{empty, region}
use alpine_on_ios.Memory.Map.{mem_mmap}
use alpine_on_ios.Memory.Map.View.{content, mem_mmap-sees}
use alpine_on_ios.Memory.Space.{
  Region, Entry, find_region, mem_translate, mem_prot_read, tlb_flush, tlb_insert, tlb_lookup,
}
use alpine_on_ios.Memory.Stale.{mem_munmap-mem_read}
use alpine_on_ios.Memory.Unmap.{MemSpace, mem_munmap, unmap_range}
use alpine_on_ios.Memory.Unmap.Hole.{unmap_range-hole}
use alpine_on_ios.Memory.Unmap.View.{IsSpace, sees}
use alpine_on_ios.Prelude.{
  ℕ, ◌+◌, ◌-◌, ◌^◌, ◌≤◌, ◌≡◌, refl, arith, true, false, inl, inr, ltb, leb, ◌&&◌, if◌then◌else◌, [],
  ◌∷◌, none, some,
}

-- A host that puts every new block at one address, above all blocks in use. A read of a file gives
-- at most four bytes.
abbrev pub test_limit : ℕ
test_limit = 2 ^ 62

abbrev pub test_host : Host
test_host = record {
  calloc = λ live n. some (2 ^ 62);
  realloc = λ live r n. some (2 ^ 62);
  mmap_anywhere = λ live n. some (2 ^ 62);
  mmap_fixed = λ addr n. true;
  pread = λ fd n offset. (if ltb n 4 then n else 4, λ j. j + 1);
}

pub test_host-Serves : Serves test_host test_limit
unfolding HasMemory
test_host-Serves = record {
  small = omega arith;
  finds = λ live n low h. (2 ^ 62, refl, omega arith, Each-map (λ r l. inr l) low);
  resizes = λ live r n low h. (2 ^ 62, refl, omega arith, Each-map (λ q l. inr (inr l)) low);
  at_most = λ fd n offset. ground arith;
}

abbrev pub test_heap : Region
test_heap = record { base = 0x1_0000; size = 0x3000; prot = 3; flags = 0x22; host = 0x5000_0000 }

abbrev pub test_space : MemSpace
test_space = record {
  regions = test_heap ∷ [];
  brk_base = 0x1_0000;
  brk_current = 0x1_2ff0;
  mmap_next = 0x7f00_0000_0000;
  aot_mode = false;
  bytes = λ p. 5;
}

pub test_space-IsSpace : IsSpace test_space
test_space-IsSpace = record {
  laid_out = region 16 3 refl refl (omega arith) (omega arith) empty;
  blocks = each (omega arith) done;
}

pub test_low : Each (EndsBelow test_limit) (test_heap ∷ [])
test_low = each (omega arith) done

abbrev pub test_tlb : ℕ → Entry
test_tlb = tlb_flush λ i. record { tag = 0; host = 0; prot = 0 }

-- The page in the middle goes; the page above it stays, in a new block.
mem_munmap-loads_example :
    IsSpace (mem_munmap test_host test_space 0x1_1010 0x800)
    × (sees (mem_munmap test_host test_space 0x1_1010 0x800) 1 0x1_2004
        ≡ sees test_space 1 0x1_2004)
    × (loads (flushed test_tlb (mem_munmap test_host test_space 0x1_1010 0x800)) 0x1_2004
        ≡ loads (flushed test_tlb test_space) 0x1_2004)
mem_munmap-loads_example =
    mem_munmap-loads test_host test_limit test_space 0x1_1010 0x800 1 0x1_2004 test_tlb
      test_host-Serves test_low test_space-IsSpace refl (omega arith) (omega arith)

abbrev native_heap : Region
native_heap = record test_heap { host = 0x1_0000 }

unmap_range-hole_example :
    sees
      (unmap_range test_host
        (record test_space { regions = native_heap ∷ []; aot_mode = true })
        0x1_1000
        0x1000)
      1
      0x1_2004
    ≡ some 0
unmap_range-hole_example =
    unmap_range-hole test_host (record test_space { regions = native_heap ∷ []; aot_mode = true })
      native_heap 0x1_1000 0x1000 1 0x1_2004 refl refl refl (omega arith) refl (omega arith)
      (omega arith) (omega arith) (omega arith) refl

abbrev read_mem : AddressSpace
read_mem = record {
  tlb = tlb_insert test_tlb 0x1_1008 0x5000_1008 mem_prot_read;
  regions = test_space.regions;
  bytes = test_space.bytes;
}

mem_munmap-mem_read_example :
    let unmapped = mem_munmap test_host test_space 0x1_1008 4 in
    let later = record read_mem { regions = unmapped.regions; bytes = unmapped.bytes } in
    (mem_translate unmapped.regions 0x1_1008 4 mem_prot_read ≡ none)
    × (w : ℕ) × (mem_read 4 later 0x1_1008 ≡ some (w, later))
unfolding mem_read mem_ptr hit_or_walk mem_translate find_region tlb_lookup tlb_insert tlb_flush
    load_bytes
mem_munmap-mem_read_example =
    mem_munmap-mem_read test_host test_limit test_space test_tlb 4 0x1_1008 0x0505_0505 read_mem
      test_host-Serves test_low test_space-IsSpace refl (omega arith) (omega arith) (omega arith)
      refl

-- Five thousand bytes of a file, of which four can be read.
mem_mmap-sees_example :
    (base : ℕ) × (mapped : MemSpace) × (mem_mmap test_host test_space 0x1_0000 5000 1 2 (some 3) 0
      ≡ some (base, mapped))
    × (0x1_0000 ≤ base)
    × IsApart (range base 0x2000) (test_space.regions)
    × IsSpace mapped
    × (sees mapped 1 0x1_3002 ≡ (
        if leb base 0x1_3002 && ltb 0x1_3002 (base + 0x2000)
        then some (content test_host 0x2000 5000 2 (some 3) 0 (0x1_3002 - base))
        else sees test_space 1 0x1_3002))
unfolding page_align_up
mem_mmap-sees_example =
    mem_mmap-sees test_host test_limit test_space 0x1_0000 5000 1 2 0 0x1_3000 1 0x1_3002 (some 3)
      test_host-Serves test_low test_space-IsSpace refl refl (omega arith)
      (below (omega arith) no_region) (omega arith) (omega arith) (omega arith)

mem_brk-loads_example :
    (grown : MemSpace) × (mem_brk test_host test_space 0x1_4010 ≡ (0x1_4010, grown))
    × IsSpace grown
    × (grown.brk_current ≡ 0x1_4010)
    × (sees grown 1 0x1_4400 ≡ some 0)
    × (loads (flushed test_tlb grown) 0x1_4400 ≡ some 0)
unfolding page_align_up find_heap
mem_brk-loads_example =
    mem_brk-loads test_host test_limit test_space 0x1_4010 19 2 1 0x1_4400 test_heap test_tlb
      test_host-Serves test_low (omega arith) test_space-IsSpace refl (omega arith) (omega arith)
      (omega arith) refl refl (omega arith) (omega arith) refl (each (inl (omega arith)) done)
      (omega arith)
