-- ===== src/Memory/Unmap.antt =====
-- `unmap_range` and `mem_munmap` of emu/src/memory.c. The small block that describes a region is
-- always found; NULL for the memory of a region keeps the region as it is.
pub mod Round
pub mod Walk
pub mod Pages
pub mod View
pub mod Hole
use alpine_on_ios.Memory.Gap.{page_align_up}
use alpine_on_ios.Memory.Host.{Host, copy_bytes, zero_bytes}
use alpine_on_ios.Memory.Space.{Region}
use alpine_on_ios.Prelude.{
  ℕ, ◌-◌, bit_and, Bool, true, false, ◌&&◌, ◌||◌, ltb, leb, if◌then◌else◌, is_true, add64, sub64,
  List, [], ◌∷◌, ◌++◌, Option, none, some,
}

abbrev pub mem_map_external : ℕ
mem_map_external = 0x40

unfoldable pub page_align_down : ℕ → ℕ
page_align_down addr = bit_and addr 0xffff_ffff_ffff_f000

-- The memory of a process (`mem_space_t`) and the bytes of the host. The lock and the reference
-- count are left out.
pub record MemSpace : Type 0 where
  pub regions : List Region
  pub brk_base : ℕ
  pub brk_current : ℕ
  pub mmap_next : ℕ
  pub aot_mode : Bool
  pub bytes : ℕ → ℕ

-- A region, and the bytes, after a step of the walk.
abbrev pub Pieces : Type 0
Pieces = List Region × (ℕ → ℕ)

-- The region spans both sides of the range: the part above gets a block of its own.
unfoldable pub split_calloc : (ℕ → ℕ) → Region → Region → Region → ℕ → Option ℕ → Pieces
split_calloc bytes r before tail offset none = (r ∷ [], bytes)
split_calloc bytes r before tail offset (some p) = (
  before ∷ record tail { host = p } ∷ [],
  copy_bytes (zero_bytes bytes p tail.size) p (add64 r.host offset) tail.size,
)

-- With `mmap(end, tail_size, ..., MAP_FIXED)`, the new block has the address of the tail.
unfoldable pub split_mmap : (ℕ → ℕ) → Region → Region → Region → ℕ → Bool → Pieces
split_mmap bytes r before tail offset false = (r ∷ [], bytes)
split_mmap bytes r before tail offset true = (
  before ∷ record tail { host = tail.base } ∷ [],
  copy_bytes (zero_bytes bytes tail.base tail.size) tail.base (add64 r.host offset) tail.size,
)

unfoldable pub trim_calloc : (ℕ → ℕ) → Region → Region → ℕ → Option ℕ → Pieces
trim_calloc bytes r after trim none = (r ∷ [], bytes)
trim_calloc bytes r after trim (some p) = (
  record after { host = p } ∷ [],
  copy_bytes (zero_bytes bytes p after.size) p (add64 r.host trim) after.size,
)

-- One round of the loop in unmap_range: what becomes of a region. `live` are all regions. The list
-- is sorted, so region_insert puts the tail of a split next to its region, where the walk has been.
unfoldable pub unmap_region : Host → Bool → List Region → Region → ℕ → ℕ → (ℕ → ℕ) → Pieces
unmap_region host native live r addr end bytes =
    let rend = add64 r.base r.size in
    let before : Region = record r { size = sub64 addr r.base } in
    let tail : Region = record {
      base = end;
      size = sub64 rend end;
      prot = r.prot;
      flags = bit_and r.flags 0xffff_ffbf;
      host = 0;
    } in
    let trim = sub64 end r.base in
    let after : Region = record r { base = end; size = sub64 r.size trim } in
    let moved : Region = record after { host = add64 r.host trim } in
    if leb rend addr || leb end r.base
    then (r ∷ [], bytes)
    else if leb addr r.base && leb rend end
    then ([], bytes)
    else if ltb r.base addr && ltb end rend
    then (if native
        then split_mmap bytes r before tail trim (host.mmap_fixed end tail.size)
        else split_calloc bytes r before tail trim (host.calloc live tail.size))
    else if ltb r.base addr
    then (before ∷ [], bytes)
    else if is_true (bit_and r.flags mem_map_external)
    then (moved ∷ [], bytes)
    else if native
    then (moved ∷ [], bytes)
    else trim_calloc bytes r after trim (host.calloc live after.size)

-- The loop, with the regions it has passed.
unfoldable pub unmap_walk : Host → Bool → List Region → List Region → ℕ → ℕ → (ℕ → ℕ) → Pieces
unmap_walk host native passed [] addr end bytes = ([], bytes)
unmap_walk host native passed (r ∷ rest) addr end bytes =
    let here = unmap_region host native (passed ++ r ∷ rest) r addr end bytes in
    let later = unmap_walk host native (passed ++ here.0) rest addr end (here.1) in
    (here.0 ++ later.0, later.1)

unfoldable pub unmap_range : Host → MemSpace → ℕ → ℕ → MemSpace
unmap_range host ms addr size =
    let walked = unmap_walk host ms.aot_mode [] ms.regions addr (add64 addr size) ms.bytes in
    record ms { regions = walked.0; bytes = walked.1 }

-- It returns 0 in every case.
unfoldable pub mem_munmap : Host → MemSpace → ℕ → ℕ → MemSpace
mem_munmap host ms addr size = unmap_range host ms (page_align_down addr) (page_align_up size)
