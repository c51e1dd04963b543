-- ===== src/Memory/Unmap/View.antt =====
-- `mem_munmap` on a memory that is laid out in pages.
use alpine_on_ios.Bits.{and_high}
use alpine_on_ios.Memory.Gap.{page_align_up}
use alpine_on_ios.Memory.Host.{Host, Each, HasBlock, EndsBelow, Serves}
use alpine_on_ios.Memory.Layout.{IsLaidOut}
use alpine_on_ios.Memory.Unmap.{MemSpace, unmap_range, mem_munmap, page_align_down}
use alpine_on_ios.Memory.Unmap.Pages.{unmap_walk-IsLaidOut}
use alpine_on_ios.Memory.Unmap.Walk.{unmap_walk-IsWalked}
use alpine_on_ios.Memory.View.{byte_at}
use alpine_on_ios.Prelude.{
  ℕ, ◌+◌, ◌-◌, ◌*◌, ◌/◌, ◌^◌, ◌<◌, ◌≡◌, arith, false, ◌&&◌, leb, ltb, if◌then◌else◌, inl, inr, [],
  Option, none, Bool-cases, add64,
}

pub page_align_down_lem : (addr : ℕ) → addr < 2 ^ 64 → page_align_down addr ≡ 4096 * (addr / 4096)
unfolding page_align_down
page_align_down_lem addr h = ground (arith, and_high 12 52 addr)

pub page_align_up_lem :
    (size : ℕ) → size + 4095 < 2 ^ 64 → page_align_up size ≡ 4096 * ((size + 4095) / 4096)
unfolding page_align_up
page_align_up_lem size h = ground (arith, and_high 12 52 (size + 4096 - 1))

-- Every region has a block, and the regions are laid out in pages.
pub record IsSpace (ms : MemSpace) : Type 0 where
  pub laid_out : IsLaidOut 0 ms.regions
  pub blocks : Each HasBlock ms.regions

-- The byte that mem_translate finds at an address, or none: what the system calls find, and an access
-- of the guest that misses the TLB (Memory.Fresh).
abbrev pub sees : MemSpace → ℕ → ℕ → Option ℕ
sees ms prot i = byte_at ms.regions ms.bytes prot i

pub unmap_range-sees :
    (host : Host) (limit : ℕ) (ms : MemSpace) (a n prot i : ℕ)
    → Serves host limit
    → Each (EndsBelow limit) ms.regions
    → IsSpace ms
    → ms.aot_mode ≡ false
    → 4096 * a + 4096 * n < 2 ^ 64
    → IsSpace (unmap_range host ms (4096 * a) (4096 * n))
      × (sees (unmap_range host ms (4096 * a) (4096 * n)) prot i
          ≡ (if leb (4096 * a) i && ltb i (4096 * a + 4096 * n) then none else sees ms prot i))
unfolding unmap_range
unmap_range-sees host limit ms a n prot i serves low space interpreter fits =
    let addr = 4096 * a in
    let end = 4096 * a + 4096 * n in
    let stop : add64 addr (4096 * n) ≡ end = omega arith in
    let walked =
      unmap_walk-IsWalked host limit serves addr end (omega arith) fits [] ms.bytes space.laid_out
        space.blocks (inl low) in
    rw (stop, interpreter)
      (
        record {
          laid_out = unmap_walk-IsLaidOut host false a n fits [] ms.bytes space.laid_out;
          blocks = walked.blocks;
        },
        elim (Bool-cases (leb addr i && ltb i end)) [
          | inl in_range ↦
              rw (in_range)
                (walked.inside prot i (ground (arith, in_range)) (ground (arith, in_range)))
          | inr out_of_range ↦
              rw (out_of_range) (walked.outside prot i (ground (arith, out_of_range)))
        ],
      )

-- In interpreter mode, mem_translate finds nothing in the pages of the range after mem_munmap, and what
-- it found before elsewhere.
pub mem_munmap-sees :
    (host : Host) (limit : ℕ) (ms : MemSpace) (addr size prot i : ℕ)
    → Serves host limit
    → Each (EndsBelow limit) ms.regions
    → IsSpace ms
    → ms.aot_mode ≡ false
    → addr + size + 4095 < 2 ^ 64
    → let first = 4096 * (addr / 4096) in
      let last = first + 4096 * ((size + 4095) / 4096) in
      IsSpace (mem_munmap host ms addr size)
      × (sees (mem_munmap host ms addr size) prot i
          ≡ (if leb first i && ltb i last then none else sees ms prot i))
unfolding mem_munmap
mem_munmap-sees host limit ms addr size prot i serves low space interpreter fits =
    let down = page_align_down_lem addr (omega arith) in
    let up = page_align_up_lem size (omega arith) in
    rw (down, up)
      (unmap_range-sees host limit ms (addr / 4096) ((size + 4095) / 4096) prot i serves low space
        interpreter (omega arith))
