-- ===== src/Memory/Clone.antt =====
-- `mem_space_clone` and `mem_mmap_host` of emu/src/memory.c. The small blocks that describe a space
-- and its regions are always found.
use alpine_on_ios.Memory.Gap.{page_align_up, find_gap}
use alpine_on_ios.Memory.Guest.{write_guest}
use alpine_on_ios.Memory.Host.{Each, done, each, HasBlock}
use alpine_on_ios.Memory.Insert.{region_insert}
use alpine_on_ios.Memory.Layout.{IsLaidOut, empty, region}
use alpine_on_ios.Memory.Map.{map_failed}
use alpine_on_ios.Memory.Space.{Region, find_region, mem_translate, mem_prot_write}
use alpine_on_ios.Memory.Unmap.{MemSpace, mem_map_external}
use alpine_on_ios.Memory.Unmap.View.{IsSpace, sees}
use alpine_on_ios.Memory.View.{byte_at}
use alpine_on_ios.Memory.Access.{store_bytes}
use alpine_on_ios.Prelude.{
  ℕ, suc, bit_or, ◌≡◌, refl, ltb, ◌==◌, ◌||◌, if◌then◌else◌, add64, List, [], ◌∷◌, length, Option,
  some, ◌>>=◌,
}

-- The regions of a clone: the same blocks, which it does not own.
unfoldable pub clone_regions : List Region → List Region
clone_regions [] = []
clone_regions (r ∷ rest) = record r { flags = bit_or r.flags mem_map_external } ∷ clone_regions rest

unfoldable pub mem_space_clone : MemSpace → MemSpace
mem_space_clone src = record src { regions = clone_regions src.regions }

-- MAP_PRIVATE
abbrev pub mem_map_private : ℕ
mem_map_private = 0x02

-- The search is that of mem_mmap; a `host_buf` of 0 is NULL.
unfoldable pub mem_mmap_host : MemSpace → ℕ → ℕ → ℕ → ℕ → ℕ → Option (ℕ × MemSpace)
mem_mmap_host ms addr size prot host_buf map_flags =
    let aligned = page_align_up size in
    if size == 0 || host_buf == 0
    then some (map_failed, ms)
    else (find_gap (suc (length ms.regions)) ms.regions
          (page_align_up (if addr == 0 then ms.mmap_next else addr)) aligned
        >>= λ gap. some (
          gap,
          record ms {
            mmap_next = if ltb gap (add64 gap aligned) then add64 gap aligned else ms.mmap_next;
            regions = region_insert ms.regions (record {
              base = gap;
              size = aligned;
              prot = prot;
              flags = bit_or mem_map_private map_flags;
              host = host_buf;
            });
          },
        ))

find_region-clone :
    (regions : List Region) (addr size prot : ℕ)
    → find_region (clone_regions regions) addr size prot ≡ find_region regions addr size prot
unfolding find_region clone_regions
find_region-clone [] addr size prot = refl
find_region-clone (r ∷ rest) addr size prot = rw (find_region-clone rest addr size prot) refl

clone_regions-IsLaidOut :
    {low : ℕ} {regions : List Region}
    → IsLaidOut low regions
    → IsLaidOut low (clone_regions regions)
unfolding clone_regions
clone_regions-IsLaidOut empty = empty
clone_regions-IsLaidOut (region first pages b s l e rest) =
    region first pages b s l e (clone_regions-IsLaidOut rest)

clone_regions-HasBlock :
    {regions : List Region} → Each HasBlock regions → Each HasBlock (clone_regions regions)
unfolding clone_regions
clone_regions-HasBlock done = done
clone_regions-HasBlock (each h rest) = each h (clone_regions-HasBlock rest)

mem_translate-clone :
    (ms : MemSpace) (addr size prot : ℕ)
    → mem_translate ((mem_space_clone ms).regions) addr size prot
      ≡ mem_translate ms.regions addr size prot
unfolding mem_translate mem_space_clone
mem_translate-clone ms addr size prot = rw (find_region-clone ms.regions addr size prot) refl

sees-clone :
    (ms : MemSpace) (b : ℕ → ℕ) (prot i : ℕ)
    → sees (record (mem_space_clone ms) { bytes = b }) prot i
      ≡ sees (record ms { bytes = b }) prot i
unfolding byte_at mem_space_clone
sees-clone ms b prot i = rw (find_region-clone ms.regions i 1 prot) refl

-- On regions that are laid out in pages and have blocks, and for an address that may be
-- written, mem_space_clone gives such regions, the guest sees the same through them, and a
-- write of a child that has the clone succeeds exactly like one of its parent: it changes the
-- bytes of the host as the parent's would, and after it the parent sees at every address what
-- the child sees.
pub mem_space_clone-sees :
    (ms : MemSpace) (size addr val p prot i : ℕ)
    → IsSpace ms
    → mem_translate ms.regions addr size mem_prot_write ≡ some p
    → IsSpace (mem_space_clone ms)
      × (sees (mem_space_clone ms) prot i ≡ sees ms prot i)
      × (after : MemSpace) × (write_guest size (mem_space_clone ms) addr val ≡ some after)
      × (write_guest size ms addr val ≡ some (record ms { bytes = after.bytes }))
      × (sees after prot i ≡ sees (record ms { bytes = after.bytes }) prot i)
unfolding write_guest mem_space_clone clone_regions
mem_space_clone-sees ms size addr val p prot i space t =
    let b = store_bytes ms.bytes p size val in
    (
      record {
        laid_out = clone_regions-IsLaidOut space.laid_out;
        blocks = clone_regions-HasBlock space.blocks;
      },
      sees-clone ms ms.bytes prot i,
      record (mem_space_clone ms) { bytes = b },
      rw (mem_translate-clone ms addr size mem_prot_write, t) refl,
      rw t refl,
      sees-clone ms b prot i,
    )
