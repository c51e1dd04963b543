-- ===== src/Memory/Map/View.antt =====
-- What the regions hold after a `mem_mmap` without MAP_FIXED in interpreter mode.
use alpine_on_ios.Memory.Gap.{page_align_up, find_gap, find_gap-IsApart, IsBelow, length, range}
use alpine_on_ios.Memory.Host.{
  Host, Each, done, each, Each-map, HasBlock, EndsBelow, HasMemory, Serves,
}
use alpine_on_ios.Memory.Insert.{
  region_insert, region_insert-find_region, IsApart, alone, apart, IsPages,
}
use alpine_on_ios.Memory.Layout.{IsLaidOut}
use alpine_on_ios.Memory.Map.{
  mem_mmap, map_block, map_region, map_bytes, mem_map_fixed, mem_map_anonymous,
}
use alpine_on_ios.Memory.Map.Gaps.{IsPage, page_align_up-IsPage, find_gap-IsPage}
use alpine_on_ios.Memory.Space.{Region}
use alpine_on_ios.Memory.Unmap.{MemSpace}
use alpine_on_ios.Memory.Unmap.Round.{SameBlock}
use alpine_on_ios.Memory.Unmap.View.{IsSpace, sees, page_align_up_lem}
use alpine_on_ios.Memory.Unmap.Walk.{byte_at-SameBlock}
use alpine_on_ios.Memory.View.{byte_at, region_byte}
use alpine_on_ios.Prelude.{
  ℕ, ◌+◌, ◌-◌, ◌*◌, ◌/◌, ◌^◌, suc, ◌≤◌, ◌<◌, bit_and, ◌≡◌, ◌⊎◌, refl, ap, ◌∙◌, arith, false, ◌&&◌,
  ◌==◌, leb, ltb, if◌then◌else◌, is_true, add64, List, Option, none, some, if-rule,
}

-- The byte at an offset in a new mapping: that of the file as far as it was read, and zero.
pub content : Host → ℕ → ℕ → ℕ → Option ℕ → ℕ → ℕ → ℕ
content host aligned size flags none offset j = 0
content host aligned size flags (some fd) offset j =
    let read = host.pread fd (if ltb aligned size then aligned else size) offset in
    if is_true (bit_and flags mem_map_anonymous) then 0 else if ltb j (read.0) then read.1 j else 0

-- The bytes of the block, and the bytes elsewhere.
map_bytes-content :
    (host : Host) (bytes : ℕ → ℕ) (p aligned size flags : ℕ) (fd : Option ℕ) (offset j : ℕ)
    → j < aligned
    → map_bytes host bytes p aligned size flags fd offset (p + j)
      ≡ content host aligned size flags fd offset j
unfolding map_bytes content
map_bytes-content host bytes p aligned size flags none offset j h = ground arith
map_bytes-content host bytes p aligned size flags (some fd) offset j h = ground arith

map_bytes-outside :
    (host : Host)
    → ((fd n offset : ℕ) → (host.pread fd n offset).0 ≤ n)
    → (bytes : ℕ → ℕ) (p aligned size flags : ℕ) (fd : Option ℕ) (offset i : ℕ)
    → (i < p) ⊎ (p + aligned ≤ i)
    → map_bytes host bytes p aligned size flags fd offset i ≡ bytes i
unfolding map_bytes
map_bytes-outside host at_most bytes p aligned size flags none offset i h = ground (arith, h)
map_bytes-outside host at_most bytes p aligned size flags (some fd) offset i h =
    ground (arith, h, at_most fd (if ltb aligned size then aligned else size) offset)

insert-HasBlock :
    {regions : List Region} (r : Region)
    → HasBlock r
    → Each HasBlock regions
    → Each HasBlock (region_insert regions r)
unfolding region_insert
insert-HasBlock r h done = each h done
insert-HasBlock r h (each {r = q} {rest = rest} g gs) =
    if-rule (Each HasBlock) (ltb r.base q.base) (each h (each g gs))
      (each g (insert-HasBlock r h gs))

-- Only the range counts.
range-IsApart :
    (r : Region) {regions : List Region} → IsApart (range r.base r.size) regions → IsApart r regions
range-IsApart r alone = alone
range-IsApart r (apart sides others) = apart sides (range-IsApart r others)

-- A new region and its block, beside the regions that are there.
byte_at-region_insert :
    {regions : List Region} (r : Region) (bytes bytes' : ℕ → ℕ) (prot i : ℕ)
    → IsLaidOut 0 regions
    → IsPages r
    → IsApart r regions
    → HasBlock r
    → Each HasBlock regions
    → Each (SameBlock bytes bytes') regions
    → byte_at (region_insert regions r) bytes' prot i ≡ (
        if leb r.base i && ltb i (r.base + r.size)
        then region_byte r bytes' prot i
        else byte_at regions bytes prot i)
unfolding byte_at region_byte
byte_at-region_insert {regions = regions} r bytes bytes' prot i lay pages free h hs same =
    let found = (region_insert-find_region regions r i 1 prot lay pages free (omega arith)).1 in
    let old = byte_at-SameBlock bytes bytes' prot i hs same in ground (arith, found, old)

-- A region placed in a gap.
module _ (host : Host) (limit : ℕ) (serves : Serves host limit) (ms : MemSpace) (space : IsSpace ms)
    (low : Each (EndsBelow limit) ms.regions) (base n size prot flags offset : ℕ) (fd : Option ℕ)
    (page : IsPage base) (some_page : 0 < n) (fits : base + 4096 * n < 2 ^ 64)
    (room : 4096 * n ≤ limit) (free : IsApart (range base (4096 * n)) ms.regions) where
  map_region-sees :
      ms.aot_mode ≡ false
      → (mapped : MemSpace) × (map_region host ms
            (4096 * n)
            size
            prot
            flags
            fd
            offset
            (map_block host ms base (4096 * n) false)
          ≡ (base, mapped))
        × IsSpace mapped
        × ((prot' i : ℕ)
            → sees mapped prot' i ≡ (
                if leb base i && ltb i (base + 4096 * n)
                then (if bit_and prot prot' == prot'
                    then some (content host (4096 * n) size flags fd offset (i - base))
                    else none)
                else sees ms prot' i))
  unfolding map_region map_block region_byte HasMemory
  map_region-sees interpreter =
      let found = serves.finds ms.regions (4096 * n) low room in
      let r : Region = record {
        base = base;
        size = 4096 * n;
        prot = prot;
        flags = flags;
        host = found.0;
      } in
      let pages : IsPages r = record {
        first = page.0;
        pages = n;
        at_page = page.1;
        whole = refl;
        not_empty = some_page;
        in_space = fits;
      } in
      let bytes = map_bytes host ms.bytes (found.0) (4096 * n) size flags fd offset in
      let mapped : MemSpace = record ms { regions = region_insert ms.regions r; bytes = bytes } in
      let others : Each (SameBlock ms.bytes bytes) ms.regions =
        Each-map
          (λ q far j h.
            map_bytes-outside host serves.at_most ms.bytes (found.0) (4096 * n) size flags fd offset
              (q.host + j) (ground (arith, far)))
          (found.3) in
      let own = range-IsApart r free in
      let put =
        region_insert-find_region ms.regions r 0 1 prot space.laid_out pages own (omega arith) in
      (
        mapped,
        rw (interpreter, found.1) refl,
        record { laid_out = put.0; blocks = insert-HasBlock r (found.2) space.blocks },
        λ prot' i. ground (
          arith,
          byte_at-region_insert r ms.bytes bytes prot' i space.laid_out pages own (found.2)
              space.blocks others,
          map_bytes-content host ms.bytes (found.0) (4096 * n) size flags fd offset (i - base),
        ),
      )

-- The search and then the region.
mem_mmap-gap :
    (host : Host) (ms : MemSpace) (addr size prot flags offset aligned gap : ℕ) (fd : Option ℕ)
    → (size == 0) ≡ false
    → bit_and flags mem_map_fixed ≡ 0
    → page_align_up size ≡ aligned
    → find_gap
        (suc (length ms.regions))
        ms.regions
        (page_align_up (if addr == 0 then ms.mmap_next else addr))
        aligned
      ≡ some gap
    → let next = if ltb gap (add64 gap aligned) then add64 gap aligned else ms.mmap_next in
      let searched = record ms { mmap_next = next } in
      mem_mmap host ms addr size prot flags fd offset
      ≡ some (
          map_region host searched aligned size prot flags fd offset
            (map_block host searched gap aligned false))
unfolding mem_mmap
mem_mmap-gap host ms addr size prot flags offset aligned gap fd real loose up found =
    rw (real, loose, up, found) refl

-- In interpreter mode and without MAP_FIXED, on regions laid out in pages that end at or below a
-- bound from which the size fits, and on a host that has memory for the mapping, mem_mmap ends and
-- returns an address at or above the one asked for (the hint if that is 0), where the range
-- overlapped no region; afterwards the regions are laid out, the guest finds there, as far as the
-- permission goes, the bytes that were read from the file and zeros, and what it found before at
-- any other address.
pub mem_mmap-sees :
    (host : Host) (limit : ℕ) (ms : MemSpace) (addr size prot flags offset top prot' i : ℕ)
    (fd : Option ℕ)
    → Serves host limit
    → Each (EndsBelow limit) ms.regions
    → IsSpace ms
    → ms.aot_mode ≡ false
    → bit_and flags mem_map_fixed ≡ 0
    → 0 < size
    → IsBelow top ms.regions
    → let aligned = 4096 * ((size + 4095) / 4096) in
      let start = page_align_up (if addr == 0 then ms.mmap_next else addr) in
      start ≤ top
      → aligned ≤ limit
      → top + aligned < 2 ^ 64
      → (base : ℕ) × (mapped : MemSpace) × (mem_mmap host ms addr size prot flags fd offset
          ≡ some (base, mapped))
        × (start ≤ base)
        × IsApart (range base aligned) ms.regions
        × IsSpace mapped
        × (sees mapped prot' i ≡ (
            if leb base i && ltb i (base + aligned)
            then (if bit_and prot prot' == prot'
                then some (content host aligned size flags fd offset (i - base))
                else none)
            else sees ms prot' i))
mem_mmap-sees host limit ms addr size prot flags offset top prot' i fd serves blocks space
      interpreter loose hs ends low room fits =
    let n = (size + 4095) / 4096 in
    let start = page_align_up (if addr == 0 then ms.mmap_next else addr) in
    let gap = find_gap-IsApart ms.regions start (4096 * n) top space.laid_out ends low fits in
    let page =
      find_gap-IsPage (suc (length ms.regions)) ms.regions start (4096 * n) (gap.0)
        (page_align_up-IsPage _) (gap.1) in
    let next =
      if ltb (gap.0) (add64 (gap.0) (4096 * n)) then add64 (gap.0) (4096 * n) else ms.mmap_next in
    let searched : MemSpace = record ms { mmap_next = next } in
    let there : IsSpace searched = record { laid_out = space.laid_out; blocks = space.blocks } in
    let put =
      map_region-sees host limit serves searched there blocks (gap.0) n size prot flags offset fd
        page (omega arith) (omega (arith, gap.3)) room (gap.4) interpreter in
    let up = page_align_up_lem size (omega arith) in
    let real : (size == 0) ≡ false = ground arith in
    (
      gap.0,
      put.0,
      mem_mmap-gap host ms addr size prot flags offset (4096 * n) (gap.0) fd real loose up (gap.1)
          ∙ ap some (put.1),
      gap.2,
      gap.4,
      put.2,
      put.3 prot' i,
    )
