-- ===== src/Memory/Unmap/Hole.antt =====
-- A hole in a region in native mode, where a guest address is the address of its host byte.
use alpine_on_ios.Memory.Host.{Host, copy_bytes, zero_bytes}
use alpine_on_ios.Memory.Space.{Region, find_region}
use alpine_on_ios.Memory.Unmap.{MemSpace, unmap_region, unmap_walk, unmap_range, split_mmap}
use alpine_on_ios.Memory.Unmap.View.{sees}
use alpine_on_ios.Memory.View.{byte_at}
use alpine_on_ios.Prelude.{
  ℕ, ◌+◌, ◌^◌, ◌≤◌, ◌<◌, bit_and, ◌≡◌, refl, arith, true, false, ◌&&◌, ◌||◌, leb, ltb, List, add64,
  sub64, [], ◌∷◌, some,
}

-- The part above the hole, and the bytes after its block was mapped and filled.
abbrev above_hole : Region → ℕ → Region
above_hole r end = record {
  base = end;
  size = sub64 (add64 r.base r.size) end;
  prot = r.prot;
  flags = bit_and r.flags 0xffff_ffbf;
  host = end;
}

abbrev hole_bytes : (ℕ → ℕ) → Region → ℕ → ℕ → ℕ
hole_bytes bytes r end =
    let size = sub64 (add64 r.base r.size) end in
    copy_bytes (zero_bytes bytes end size) end (add64 r.host (sub64 end r.base)) size

module _ (host : Host) (r : Region) (addr end : ℕ) (top : r.base + r.size < 2 ^ 64)
    (mapped : host.mmap_fixed end (sub64 (add64 r.base r.size) end) ≡ true) (lo : r.base < addr)
    (mid : addr ≤ end) (hi : end < r.base + r.size) where
  hole_pieces :
      (live : List Region) (bytes : ℕ → ℕ)
      → unmap_region host true live r addr end bytes
        ≡ (record r { size = sub64 addr r.base } ∷ above_hole r end ∷ [], hole_bytes bytes r end)
  unfolding unmap_region split_mmap
  hole_pieces live bytes =
      let near : (leb (add64 r.base r.size) addr || leb end r.base) ≡ false = ground arith in
      let part : (leb addr r.base && leb (add64 r.base r.size) end) ≡ false = ground arith in
      let both : (ltb r.base addr && ltb end (add64 r.base r.size)) ≡ true = ground arith in
      rw (near, part, both, mapped) refl

  hole_byte :
      (bytes : ℕ → ℕ) (prot i : ℕ)
      → r.host ≡ r.base
      → end ≤ i
      → i < r.base + r.size
      → bit_and r.prot prot ≡ prot
      → byte_at
          (record r { size = sub64 addr r.base } ∷ above_hole r end ∷ [])
          (hole_bytes bytes r end)
          prot
          i
        ≡ some 0
  unfolding byte_at find_region
  hole_byte bytes prot i same above below allowed = ground (arith, same)

-- In native mode, where the address of a region is that of its block, a hole that unmap_range
-- makes in the only region leaves 0 at every readable address above the hole, if the host maps the
-- part above it.
pub unmap_range-hole :
    (host : Host) (ms : MemSpace) (r : Region) (addr size prot i : ℕ)
    → ms.aot_mode ≡ true
    → ms.regions ≡ r ∷ []
    → r.host ≡ r.base
    → r.base + r.size < 2 ^ 64
    → host.mmap_fixed (addr + size) (sub64 (add64 r.base r.size) (addr + size)) ≡ true
    → r.base < addr
    → addr + size < r.base + r.size
    → addr + size ≤ i
    → i < r.base + r.size
    → bit_and r.prot prot ≡ prot
    → sees (unmap_range host ms addr size) prot i ≡ some 0
unfolding unmap_range unmap_walk
unmap_range-hole host ms r addr size prot i native one same top mapped lo hi above below allowed =
    let stop : add64 addr size ≡ addr + size = omega arith in
    let pieces =
      hole_pieces host r addr (addr + size) top mapped lo (omega arith) hi (r ∷ []) ms.bytes in
    rw (native, one, stop, pieces)
      (hole_byte host r addr (addr + size) top mapped lo (omega arith) hi ms.bytes prot i same above
        below allowed)
