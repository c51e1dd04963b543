-- ===== src/Memory/Map.antt =====
-- `mem_mmap` of emu/src/memory.c. A file descriptor below 0 is `none`. The search for a gap has fuel
-- for a round for each region and one more, and `none` stands for a search that has used it up.
pub mod Gaps
pub mod View
use alpine_on_ios.Memory.Gap.{page_align_up, find_gap, length}
use alpine_on_ios.Memory.Host.{Host, zero_bytes, put_bytes}
use alpine_on_ios.Memory.Insert.{region_insert}
use alpine_on_ios.Memory.Space.{Region}
use alpine_on_ios.Memory.Unmap.{MemSpace, unmap_range, page_align_down}
use alpine_on_ios.Prelude.{
  ℕ, ◌-◌, ◌^◌, suc, bit_and, Bool, not, ◌&&◌, ◌==◌, ltb, if◌then◌else◌, is_true, add64, Option,
  none, some, ◌>>=◌,
}

abbrev pub mem_map_fixed : ℕ
mem_map_fixed = 0x10

abbrev pub mem_map_anonymous : ℕ
mem_map_anonymous = 0x20

-- `(uint64_t)-1`, for a failure.
abbrev pub map_failed : ℕ
map_failed = 2 ^ 64 - 1

-- The guest address and the block of a new region.
unfoldable pub map_block : Host → MemSpace → ℕ → ℕ → Bool → Option (ℕ × ℕ)
map_block host ms addr size fixed =
    if ms.aot_mode && not fixed
    then (host.mmap_anywhere ms.regions size >>= λ p. some (p, p))
    else if ms.aot_mode
    then (if host.mmap_fixed addr size then some (addr, addr) else none)
    else (host.calloc ms.regions size >>= λ p. some (addr, p))

-- The bytes of a new block: zeros, and over them what is read from the file.
unfoldable pub map_bytes : Host → (ℕ → ℕ) → ℕ → ℕ → ℕ → ℕ → Option ℕ → ℕ → ℕ → ℕ
map_bytes host bytes p aligned size flags none offset = zero_bytes bytes p aligned
map_bytes host bytes p aligned size flags (some fd) offset =
    if is_true (bit_and flags mem_map_anonymous)
    then zero_bytes bytes p aligned
    else put_bytes (zero_bytes bytes p aligned) p
        (host.pread fd (if ltb aligned size then aligned else size) offset)

-- The new region takes its place, unless there is no memory for it.
unfoldable pub map_region :
    Host → MemSpace → ℕ → ℕ → ℕ → ℕ → Option ℕ → ℕ → Option (ℕ × ℕ) → ℕ × MemSpace
map_region host ms aligned size prot flags fd offset none = (map_failed, ms)
map_region host ms aligned size prot flags fd offset (some (addr, p)) = (
  addr,
  record ms {
    regions =
        region_insert ms.regions
          (record { base = addr; size = aligned; prot = prot; flags = flags; host = p });
    bytes = map_bytes host ms.bytes p aligned size flags fd offset;
    mmap_next =
        if ms.aot_mode && not (is_true (bit_and flags mem_map_fixed))
        then add64 addr aligned
        else ms.mmap_next;
  },
)

unfoldable pub mem_mmap : Host → MemSpace → ℕ → ℕ → ℕ → ℕ → Option ℕ → ℕ → Option (ℕ × MemSpace)
mem_mmap host ms addr size prot flags fd offset =
    let aligned = page_align_up size in
    let fixed = is_true (bit_and flags mem_map_fixed) in
    if size == 0
    then some (map_failed, ms)
    else if fixed
    then (let down = page_align_down addr in
        let cleared = unmap_range host ms down aligned in
        some (
          map_region host cleared aligned size prot flags fd offset
            (map_block host cleared down aligned fixed)))
    else (find_gap (suc (length ms.regions)) ms.regions
          (page_align_up (if addr == 0 then ms.mmap_next else addr)) aligned
        >>= λ gap.
            let next = if ltb gap (add64 gap aligned) then add64 gap aligned else ms.mmap_next in
            let searched = record ms { mmap_next = next } in
            some (
              map_region host searched aligned size prot flags fd offset
                (map_block host searched gap aligned fixed)))
