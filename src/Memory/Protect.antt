-- ===== src/Memory/Protect.antt =====
-- `mem_mprotect` of emu/src/memory.c: a region that the range covers in part is split. In native mode
-- the pieces share the block, else each gets one of its own. The calls of the host's `mprotect` come
-- as a list, in order.
pub mod Round
pub mod View
pub mod Calls
use alpine_on_ios.Memory.Gap.{page_align_up}
use alpine_on_ios.Memory.Host.{Host, copy_bytes, zero_bytes}
use alpine_on_ios.Memory.Space.{Region}
use alpine_on_ios.Memory.Unmap.{MemSpace, page_align_down}
use alpine_on_ios.Prelude.{
  ℕ, bit_and, bit_or, is_true, not, Bool, true, false, ◌&&◌, ◌||◌, ◌==◌, ltb, leb, if◌then◌else◌,
  add64, sub64, List, [], ◌∷◌, ◌++◌, Option, none, some,
}

-- MEM_MAP_EXTERNAL | MEM_MAP_SKIP_MPROTECT
abbrev pub mem_map_unprotected : ℕ
mem_map_unprotected = 0x240

-- A call `mprotect(start, size, prot)` of the host.
pub record HostProtect : Type 0 where
  pub start : ℕ
  pub size : ℕ
  pub prot : ℕ

-- PROT_READ, PROT_WRITE and PROT_EXEC of the host are 1, 2 and 4.
unfoldable pub host_prot : ℕ → ℕ
host_prot prot =
    bit_or
      (bit_or (if is_true (bit_and prot 1) then 1 else 0)
        (if is_true (bit_and prot 2) then 2 else 0))
      (if is_true (bit_and prot 4) then 4 else 0)

unfoldable pub host_mprotect_region : Bool → Region → List HostProtect
host_mprotect_region native r =
    if not native
    then []
    else if is_true (bit_and r.flags mem_map_unprotected)
    then []
    else record { start = r.host; size = r.size; prot = host_prot r.prot } ∷ []

-- The pieces of a region, the bytes, whether the loop goes on, and the calls of the host.
abbrev pub Protected : Type 0
Protected = List Region × (ℕ → ℕ) × Bool × List HostProtect

-- The block of a piece, and the bytes with that of the piece filled.
abbrev pub piece_block : Host → Bool → List Region → Region → ℕ → ℕ → Option ℕ
piece_block host native live r offset size =
    if native then some (add64 r.host offset) else host.calloc live size

abbrev pub piece_bytes : Bool → (ℕ → ℕ) → ℕ → Region → ℕ → ℕ → ℕ → ℕ
piece_bytes native bytes p r offset size =
    if native then bytes else copy_bytes (zero_bytes bytes p size) p (add64 r.host offset) size

-- The original gets a smaller block, if there is memory for it.
unfoldable pub shrink_calloc : Region → ℕ → (ℕ → ℕ) → Option ℕ → Region × (ℕ → ℕ)
shrink_calloc r size bytes none = (r, bytes)
shrink_calloc r size bytes (some p) =
    (record r { host = p }, copy_bytes (zero_bytes bytes p size) p r.host size)

abbrev pub shrink : Host → Bool → List Region → Region → ℕ → (ℕ → ℕ) → Region × (ℕ → ℕ)
shrink host native live r size bytes =
    if native then (r, bytes) else shrink_calloc r size bytes (host.calloc live size)

-- The original keeps the part below `start`; the middle follows it, and then the tail if there is one.
abbrev pub keep_lower :
    Host → Bool → List Region → Region → ℕ → Region → List Region → (ℕ → ℕ) → Protected
keep_lower host native live r start middle tail bytes =
    let pieces = middle ∷ tail in
    let size = sub64 start r.base in
    let kept = shrink host native (pieces ++ live) r size bytes in
    (record (kept.0) { size = size } ∷ pieces, kept.1, true, host_mprotect_region native middle)

-- The part above `stop` keeps its protection.
abbrev pub upper_piece : Region → ℕ → ℕ → Region
upper_piece r stop p = record {
  base = stop;
  size = sub64 (add64 r.base r.size) stop;
  prot = r.prot;
  flags = r.flags;
  host = p;
}

unfoldable pub protect_tail :
    Host → Bool → List Region → Region → ℕ → ℕ → Region → (ℕ → ℕ) → Option ℕ → Protected
protect_tail host native live r start stop middle bytes none = (r ∷ [], bytes, false, [])
protect_tail host native live r start stop middle bytes (some p) =
    let tail = upper_piece r stop p in
    keep_lower host native live r start middle (tail ∷ [])
      (piece_bytes native bytes p r (sub64 stop r.base) tail.size)

-- The range starts inside the region.
unfoldable pub protect_middle :
    Host → Bool → List Region → Region → ℕ → ℕ → ℕ → (ℕ → ℕ) → Option ℕ → Protected
protect_middle host native live r start stop prot bytes none = (r ∷ [], bytes, false, [])
protect_middle host native live r start stop prot bytes (some p) =
    let size = sub64 stop start in
    let middle : Region = record {
      base = start;
      size = size;
      prot = prot;
      flags = r.flags;
      host = p;
    } in
    let filled = piece_bytes native bytes p r (sub64 start r.base) size in
    if ltb stop (add64 r.base r.size)
    then protect_tail host native live r start stop middle filled (
        piece_block host native (middle ∷ live) r (sub64 stop r.base)
          (sub64 (add64 r.base r.size) stop))
    else keep_lower host native live r start middle [] filled

-- The range starts with the region and ends inside it.
unfoldable pub protect_lower :
    Host → Bool → List Region → Region → ℕ → ℕ → (ℕ → ℕ) → Option ℕ → Protected
protect_lower host native live r stop prot bytes none = (r ∷ [], bytes, false, [])
protect_lower host native live r stop prot bytes (some p) =
    let tail = upper_piece r stop p in
    let size = sub64 stop r.base in
    let kept =
      shrink host native (tail ∷ live) r size
        (piece_bytes native bytes p r (sub64 stop r.base) tail.size) in
    let first : Region = record (kept.0) { size = size; prot = prot } in
    (first ∷ tail ∷ [], kept.1, true, host_mprotect_region native first)

unfoldable pub protect_region : Host → Bool → List Region → Region → ℕ → ℕ → ℕ → (ℕ → ℕ) → Protected
protect_region host native live r addr end prot bytes =
    let rend = add64 r.base r.size in
    let start = if ltb r.base addr then addr else r.base in
    let stop = if ltb end rend then end else rend in
    if leb rend addr || leb end r.base
    then (r ∷ [], bytes, true, [])
    else if start == r.base && stop == rend
    then (
      record r { prot = prot } ∷ [],
      bytes,
      true,
      host_mprotect_region native (record r { prot = prot }),
    )
    else if ltb r.base start
    then protect_middle host native live r start stop prot bytes
        (piece_block host native live r (sub64 start r.base) (sub64 stop start))
    else protect_lower host native live r stop prot bytes
        (piece_block host native live r (sub64 stop r.base) (sub64 rend stop))

-- A piece that finds no memory ends the loop.
unfoldable pub protect_walk :
    Host
    → Bool
    → List Region
    → List Region
    → ℕ
    → ℕ
    → ℕ
    → (ℕ → ℕ)
    → List Region × (ℕ → ℕ) × List HostProtect
protect_walk host native passed [] addr end prot bytes = ([], bytes, [])
protect_walk host native passed (r ∷ rest) addr end prot bytes =
    let here = protect_region host native (passed ++ r ∷ rest) r addr end prot bytes in
    let later = protect_walk host native (passed ++ here.0) rest addr end prot (here.1) in
    if here.2
    then (here.0 ++ later.0, later.1, here.3 ++ later.2)
    else (here.0 ++ rest, here.1, here.3)

-- It returns 0 in every case.
unfoldable pub mem_mprotect : Host → MemSpace → ℕ → ℕ → ℕ → MemSpace × List HostProtect
mem_mprotect host ms addr size prot =
    let first = page_align_down addr in
    let walked =
      protect_walk host ms.aot_mode [] ms.regions first (add64 first (page_align_up size)) prot
        ms.bytes in
    (record ms { regions = walked.0; bytes = walked.1 }, walked.2)
