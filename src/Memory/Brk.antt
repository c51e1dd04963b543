-- ===== src/Memory/Brk.antt =====
-- `mem_brk` of emu/src/memory.c. The break is kept as the guest asks for it, and the heap ends at the
-- page boundary above it.
pub mod Heap
pub mod Grow
use alpine_on_ios.Memory.Gap.{page_align_up}
use alpine_on_ios.Memory.Host.{Host, zero_bytes, grow_bytes}
use alpine_on_ios.Memory.Insert.{region_insert}
use alpine_on_ios.Memory.Space.{Region, mem_prot_read, mem_prot_write}
use alpine_on_ios.Memory.Unmap.{MemSpace, unmap_range}
use alpine_on_ios.Prelude.{
  ℕ, Bool, bit_or, ◌&&◌, ◌||◌, ◌==◌, ltb, leb, if◌then◌else◌, add64, sub64, List, [], ◌∷◌, Option,
  none, some,
}

-- Whether a region is the part of the heap that ends at `top`.
abbrev pub is_heap : ℕ → ℕ → Region → Bool
is_heap brk_base top r = add64 r.base r.size == top && leb brk_base r.base

-- The search for the heap, up to the region found.
unfoldable pub find_heap : List Region → ℕ → ℕ → Option Region
find_heap [] brk_base top = none
find_heap (r ∷ rest) brk_base top =
    let later = find_heap rest brk_base top in if is_heap brk_base top r then some r else later

-- The region found, in its place, with a new block and a new size.
unfoldable pub grow_heap : List Region → ℕ → ℕ → ℕ → ℕ → List Region
grow_heap [] brk_base top p grow = []
grow_heap (r ∷ rest) brk_base top p grow =
    let later = grow_heap rest brk_base top p grow in
    if is_heap brk_base top r
    then record r { size = add64 r.size grow; host = p } ∷ rest
    else r ∷ later

-- The break moves.
abbrev pub move_brk : MemSpace → ℕ → ℕ × MemSpace
move_brk ms addr = (addr, record ms { brk_current = addr })

-- The break stays.
abbrev pub keep_brk : MemSpace → ℕ × MemSpace
keep_brk ms = (ms.brk_current, ms)

unfoldable pub brk_realloc : MemSpace → ℕ → ℕ → ℕ → Region → Option ℕ → ℕ × MemSpace
brk_realloc ms addr top grow r none = keep_brk ms
brk_realloc ms addr top grow r (some p) =
    move_brk
      (record ms {
        regions = grow_heap ms.regions ms.brk_base top p grow;
        bytes = grow_bytes ms.bytes p r.host r.size grow;
      })
      addr

unfoldable pub brk_calloc : MemSpace → ℕ → ℕ → Option ℕ → ℕ × MemSpace
brk_calloc ms addr size none = keep_brk ms
brk_calloc ms addr size (some p) =
    move_brk
      (record ms {
        regions = region_insert ms.regions (record {
          base = ms.brk_base;
          size = size;
          prot = bit_or mem_prot_read mem_prot_write;
          flags = 0x22;
          host = p;
        });
        bytes = zero_bytes ms.bytes p size;
      })
      addr

-- The pages from the end of the heap to `new_brk`.
unfoldable pub brk_expand : Host → MemSpace → ℕ → ℕ → ℕ → Option Region → ℕ × MemSpace
brk_expand host ms addr new_brk top (some r) =
    let grow = sub64 new_brk top in
    if ms.aot_mode
    then (if ltb (add64 r.base r.size) new_brk then keep_brk ms else move_brk ms addr)
    else brk_realloc ms addr top grow r (host.realloc ms.regions r (add64 r.size grow))
brk_expand host ms addr new_brk top none =
    let size = sub64 new_brk ms.brk_base in
    if ms.aot_mode then keep_brk ms else brk_calloc ms addr size (host.calloc ms.regions size)

unfoldable pub mem_brk : Host → MemSpace → ℕ → ℕ × MemSpace
mem_brk host ms addr =
    let new_brk = page_align_up addr in
    let top = page_align_up ms.brk_current in
    if addr == 0 || ltb addr ms.brk_base
    then keep_brk ms
    else if ltb ms.brk_current new_brk
    then (if ltb 0 (sub64 new_brk top)
        then brk_expand host ms addr new_brk top (find_heap ms.regions ms.brk_base top)
        else move_brk ms addr)
    else if ltb new_brk top
    then move_brk (unmap_range host ms new_brk (sub64 top new_brk)) addr
    else move_brk ms addr
