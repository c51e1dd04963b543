-- ===== src/Memory/Brk/Grow.antt =====
-- The heap grows: `mem_brk` for a break above the pages of the heap.
use alpine_on_ios.Memory.Brk.Heap.{
  find_heap-top, grow_heap-IsLaidOut, grow_heap-HasBlock, grow_heap-byte_at,
}
use alpine_on_ios.Memory.Brk.{
  mem_brk, brk_expand, brk_realloc, find_heap, grow_heap, keep_brk, move_brk,
}
use alpine_on_ios.Memory.Gap.{page_align_up}
use alpine_on_ios.Memory.Host.{Host, grow_bytes, Each, EndsBelow, Serves}
use alpine_on_ios.Memory.Space.{Region}
use alpine_on_ios.Memory.Unmap.{MemSpace}
use alpine_on_ios.Memory.Unmap.View.{IsSpace, sees}
use alpine_on_ios.Prelude.{
  ℕ, ◌+◌, ◌*◌, ◌^◌, ◌≤◌, ◌<◌, bit_and, ◌≡◌, ◌⊎◌, refl, ap, ◌∙◌, arith, false, true, ◌&&◌, ◌||◌,
  ◌==◌, leb, ltb, if◌then◌else◌, add64, sub64, Option, none, some, Bool,
}

-- In interpreter mode the heap is reallocated.
brk_expand-brk_realloc :
    (host : Host) (ms : MemSpace) (addr new_brk top : ℕ) (r : Region)
    → ms.aot_mode ≡ false
    → let grow = sub64 new_brk top in
      brk_expand host ms addr new_brk top (some r)
      ≡ brk_realloc ms addr top grow r (host.realloc ms.regions r (add64 r.size grow))
unfolding brk_expand
brk_expand-brk_realloc host ms addr new_brk top r interpreter =
    let grow = sub64 new_brk top in
    ap
      (λ (b : Bool).
        if b
        then (if ltb (add64 r.base r.size) new_brk then keep_brk ms else move_brk ms addr)
        else brk_realloc ms addr top grow r (host.realloc ms.regions r (add64 r.size grow)))
      interpreter

-- In interpreter mode, a heap that grows ends with new pages of zeros, and mem_translate finds what it
-- found before elsewhere.
pub mem_brk-sees :
    (host : Host) (limit : ℕ) (ms : MemSpace) (addr a n prot i : ℕ) (heap : Region)
    → Serves host limit
    → Each (EndsBelow limit) ms.regions
    → heap.size + 4096 * n ≤ limit
    → IsSpace ms
    → ms.aot_mode ≡ false
    → 0 < addr
    → ms.brk_base ≤ addr
    → ms.brk_current ≤ 4096 * a
    → page_align_up ms.brk_current ≡ 4096 * a
    → page_align_up addr ≡ 4096 * a + 4096 * n
    → 0 < n
    → 4096 * a + 4096 * n < 2 ^ 64
    → find_heap ms.regions ms.brk_base (4096 * a) ≡ some heap
    → Each (λ q. (q.base < 4096 * a) ⊎ (4096 * a + 4096 * n ≤ q.base)) ms.regions
    → (grown : MemSpace) × (mem_brk host ms addr ≡ (addr, grown))
      × IsSpace grown
      × (grown.brk_current ≡ addr)
      × (sees grown prot i ≡ (
          if leb (4096 * a) i && ltb i (4096 * a + 4096 * n)
          then (if bit_and heap.prot prot == prot then some 0 else none)
          else sees ms prot i))
unfolding mem_brk brk_realloc
mem_brk-sees host limit ms addr a n prot i heap serves low room space interpreter some_addr above
      old now new grows fits found gaps =
    let block = serves.resizes ms.regions heap (heap.size + 4096 * n) low room in
    let p = block.0 in
    let ends = find_heap-top ms.brk_base a n heap fits space.laid_out found in
    let grown : MemSpace = record ms {
      regions = grow_heap ms.regions ms.brk_base (4096 * a) p (4096 * n);
      bytes = grow_bytes ms.bytes p heap.host heap.size (4096 * n);
      brk_current = addr;
    } in
    let taken : (addr == 0 || ltb addr ms.brk_base) ≡ false = ground arith in
    let rises : ltb ms.brk_current (4096 * a + 4096 * n) ≡ true = ground arith in
    let by : sub64 (4096 * a + 4096 * n) (4096 * a) ≡ 4096 * n = omega arith in
    let some_pages : ltb 0 (4096 * n) ≡ true = ground arith in
    let size : add64 heap.size (4096 * n) ≡ heap.size + 4096 * n = omega (arith, ends.1) in
    let expand =
      brk_expand-brk_realloc host ms addr (4096 * a + 4096 * n) (4096 * a) heap interpreter
      ∙ ap
          (λ (grow : ℕ).
            brk_realloc ms addr (4096 * a) grow heap
              (host.realloc ms.regions heap (add64 heap.size grow)))
          by
      ∙ ap
          (λ (s : ℕ).
            brk_realloc ms addr (4096 * a) (4096 * n) heap (host.realloc ms.regions heap s))
          size
      ∙ ap (λ (o : Option ℕ). brk_realloc ms addr (4096 * a) (4096 * n) heap o) (block.1) in
    (
      grown,
      rw (taken, now, new, rises, by, some_pages, found) expand,
      record {
        laid_out = grow_heap-IsLaidOut ms.brk_base a n heap fits p space.laid_out gaps;
        blocks =
            grow_heap-HasBlock ms.brk_base a n heap fits ms.bytes p prot i (block.2) found
              space.blocks;
      },
      refl,
      grow_heap-byte_at ms.brk_base a n heap fits ms.bytes p prot i (block.2) space.laid_out
          space.blocks gaps (block.3) found,
    )
