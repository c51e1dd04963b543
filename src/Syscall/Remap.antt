-- ===== src/Syscall/Remap.antt =====
-- `do_mremap` of emu/src/sys_memory.c that makes a mapping smaller.
use alpine_on_ios.Memory.Host.{Host, Each, EndsBelow, Serves}
use alpine_on_ios.Memory.Fresh.{loads, flushed, mem_munmap-loads}
use alpine_on_ios.Memory.Space.{Entry}
use alpine_on_ios.Memory.Unmap.{MemSpace, mem_munmap}
use alpine_on_ios.Memory.Unmap.View.{IsSpace, sees}
use alpine_on_ios.Syscall.Memory.{do_mremap}
use alpine_on_ios.Prelude.{
  ℕ, ◌+◌, ◌-◌, ◌*◌, ◌/◌, ◌^◌, ◌<◌, ◌≡◌, refl, arith, false, none, some, ◌==◌, ltb, leb, true, ◌&&◌,
  add64, sub64, if◌then◌else◌,
}

-- In interpreter mode, on regions that are laid out in pages, have blocks below a limit, and on
-- a host that has memory above it, do_mremap of a range that ends a page below 2^64 to a
-- smaller size that is not 0 returns the old address and keeps the regions laid out with
-- blocks. From the start of the page of the new end, which may hold bytes below that end, for
-- as many whole pages as the sizes differ by, rounded up, the walk of the regions finds no byte
-- with any permission, and at any other address what it found before; the same holds of a load
-- of one byte by a thread whose TLB is empty, at an address below the last.
pub do_mremap-shrink :
    (host : Host) (limit : ℕ) (ms : MemSpace) (old_addr old_size new_size flags prot i : ℕ)
    (tlb : ℕ → Entry)
    → Serves host limit
    → Each (EndsBelow limit) ms.regions
    → IsSpace ms
    → ms.aot_mode ≡ false
    → 0 < new_size
    → new_size < old_size
    → old_addr + old_size + 4095 < 2 ^ 64
    → i + 1 < 2 ^ 64
    → let first = 4096 * ((old_addr + new_size) / 4096) in
      let last = first + 4096 * ((old_size - new_size + 4095) / 4096) in
      (after : MemSpace) × (do_mremap host ms old_addr old_size new_size flags
        ≡ some (old_addr, after))
      × IsSpace after
      × (sees after prot i ≡ (if leb first i && ltb i last then none else sees ms prot i))
      × (loads (flushed tlb after) i
          ≡ (if leb first i && ltb i last then none else loads (flushed tlb ms) i))
unfolding do_mremap
do_mremap-shrink host limit ms old_addr old_size new_size flags prot i tlb serves low space
      interpreter real smaller fits small =
    let given : (new_size == 0) ≡ false = ground arith in
    let shrinks : ltb new_size old_size ≡ true = ground arith in
    let at_most : leb new_size old_size ≡ true = ground arith in
    let addr : add64 old_addr new_size ≡ old_addr + new_size = ground arith in
    let size : sub64 old_size new_size ≡ old_size - new_size = ground arith in
    let cut =
      mem_munmap-loads host limit ms (old_addr + new_size) (old_size - new_size) prot i tlb serves
        low space interpreter (omega arith) small in
    (
      mem_munmap host ms (old_addr + new_size) (old_size - new_size),
      rw (given, shrinks, at_most, addr, size) refl,
      cut.0,
      cut.1,
      cut.2,
    )
