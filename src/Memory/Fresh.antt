-- ===== src/Memory/Fresh.antt =====
-- What a thread reads whose TLB has been flushed since the regions changed: the byte that
-- mem_translate finds. The program flushes a TLB only in `cpu_init`, so a thread that ran before may
-- read something else (Memory.Stale).
use alpine_on_ios.Memory.Access.{AddressSpace, mem_read, mem_ptr, load_bytes}
use alpine_on_ios.Memory.Coherent.{IsAccess, fault, found, mem_ptr-IsAccess, tlb_flush-IsEntry}
use alpine_on_ios.Memory.Brk.{mem_brk, find_heap}
use alpine_on_ios.Memory.Brk.Grow.{mem_brk-sees}
use alpine_on_ios.Memory.Gap.{page_align_up}
use alpine_on_ios.Memory.Host.{Host, Each, EndsBelow, Serves}
use alpine_on_ios.Memory.Space.{Entry, Region, mem_translate, find_region, mem_prot_read, tlb_flush}
use alpine_on_ios.Memory.Unmap.{MemSpace, mem_munmap}
use alpine_on_ios.Memory.Unmap.View.{IsSpace, sees, mem_munmap-sees}
use alpine_on_ios.Memory.View.{byte_at}
use alpine_on_ios.Prelude.{
  ℕ, ◌^◌, ◌<◌, ◌≡◌, ap, ◌∙◌, sym, arith, Option, none, some, ◌>>=◌, ◌+◌, ◌*◌, ◌/◌, ◌≤◌, ◌⊎◌, false,
  ◌&&◌, leb, ltb, ◌==◌, if◌then◌else◌, bit_and,
}

-- A thread with an empty TLB.
abbrev pub flushed : (ℕ → Entry) → MemSpace → AddressSpace
flushed tlb ms = record { tlb = tlb_flush tlb; regions = ms.regions; bytes = ms.bytes }

-- The byte that a load of the guest gives, or a fault.
abbrev pub loads : AddressSpace → ℕ → Option ℕ
loads mem i = mem_read 1 mem i >>= λ r. some (r.0)

abbrev answer : Option (ℕ × AddressSpace) → Option ℕ
answer o =
    (o >>= λ r. some (load_bytes (r.1).bytes (r.0) 1, r.1)) >>= λ (r : ℕ × AddressSpace). some (r.0)

answer-byte_at :
    (mem : AddressSpace) (i : ℕ) (o : Option (ℕ × AddressSpace))
    → i + 1 < 2 ^ 64
    → IsAccess mem i 1 mem_prot_read o
    → answer o ≡ byte_at mem.regions mem.bytes mem_prot_read i
unfolding byte_at mem_translate load_bytes
answer-byte_at mem i none small (fault missed) = ground (arith, missed)
answer-byte_at mem i (some (p, after)) small (found hit coherent regions bytes) =
    let there : find_region mem.regions i 1 mem_prot_read ≡ some p = ground (arith, hit) in
    rw (there, bytes) (ap some (omega arith))

pub loads-sees :
    (tlb : ℕ → Entry) (ms : MemSpace) (i : ℕ)
    → IsSpace ms
    → i + 1 < 2 ^ 64
    → loads (flushed tlb ms) i ≡ sees ms mem_prot_read i
unfolding mem_read
loads-sees tlb ms i space small =
    answer-byte_at (flushed tlb ms) i (mem_ptr (flushed tlb ms) i 1 mem_prot_read) small (
      mem_ptr-IsAccess (flushed tlb ms) i 1 mem_prot_read
        (record { laid_out = space.laid_out; entries = tlb_flush-IsEntry ms.regions tlb })
        (omega arith) (omega arith) (omega arith))

-- In interpreter mode, on regions that are laid out in pages, have blocks below a limit, and on
-- a host that has memory above it, mem_munmap of a range that ends a page below 2^64 keeps the
-- regions laid out with blocks. In the pages from the one of the address to the one where the
-- size ends the walk of the regions finds no byte with any permission, and at any other address
-- what it found before; a load of one byte by a thread whose TLB is empty, at an address below
-- the last, faults in these pages and gives what it gave before at any other.
pub mem_munmap-loads :
    (host : Host) (limit : ℕ) (ms : MemSpace) (addr size prot i : ℕ) (tlb : ℕ → Entry)
    → Serves host limit
    → Each (EndsBelow limit) ms.regions
    → IsSpace ms
    → ms.aot_mode ≡ false
    → addr + size + 4095 < 2 ^ 64
    → i + 1 < 2 ^ 64
    → let first = 4096 * (addr / 4096) in
      let last = first + 4096 * ((size + 4095) / 4096) in
      let after = mem_munmap host ms addr size in
      IsSpace after
      × (sees after prot i ≡ (if leb first i && ltb i last then none else sees ms prot i))
      × (loads (flushed tlb after) i
          ≡ (if leb first i && ltb i last then none else loads (flushed tlb ms) i))
mem_munmap-loads host limit ms addr size prot i tlb serves low space interpreter fits small =
    let unmapped =
      mem_munmap-sees host limit ms addr size prot i serves low space interpreter fits in
    let readable =
      mem_munmap-sees host limit ms addr size mem_prot_read i serves low space interpreter fits in
    let first = 4096 * (addr / 4096) in
    let last = first + 4096 * ((size + 4095) / 4096) in
    (
      unmapped.0,
      unmapped.1,
      loads-sees tlb (mem_munmap host ms addr size) i (unmapped.0) small
          ∙ readable.1
          ∙ ap (λ (b : Option ℕ). if leb first i && ltb i last then none else b)
              (sym (loads-sees tlb ms i space small)),
    )

-- In interpreter mode, if the heap ends at the page boundary of the current break and no region
-- starts in the pages up to that of a new, higher break, on regions laid out in pages with
-- blocks below a limit and a host that has memory for the heap, mem_brk returns the new break
-- and keeps the regions laid out with blocks. The walk of the regions finds zeros in the new
-- pages, as far as the permission of the heap goes, and what it found before at any other
-- address; and so does a load of one byte by a thread whose TLB is empty, at an address below
-- the last.
pub mem_brk-loads :
    (host : Host) (limit : ℕ) (ms : MemSpace) (addr a n prot i : ℕ) (heap : Region)
    (tlb : ℕ → Entry)
    → Serves host limit
    → Each (EndsBelow limit) ms.regions
    → heap.size + 4096 * n ≤ limit
    → IsSpace ms
    → ms.aot_mode ≡ false
    → 0 < addr
    → ms.brk_base ≤ addr
    → ms.brk_current ≤ 4096 * a
    → page_align_up ms.brk_current ≡ 4096 * a
    → page_align_up addr ≡ 4096 * a + 4096 * n
    → 0 < n
    → 4096 * a + 4096 * n < 2 ^ 64
    → find_heap ms.regions ms.brk_base (4096 * a) ≡ some heap
    → Each (λ q. (q.base < 4096 * a) ⊎ (4096 * a + 4096 * n ≤ q.base)) ms.regions
    → i + 1 < 2 ^ 64
    → let inside = leb (4096 * a) i && ltb i (4096 * a + 4096 * n) in
      (grown : MemSpace) × (mem_brk host ms addr ≡ (addr, grown))
      × IsSpace grown
      × (grown.brk_current ≡ addr)
      × (sees grown prot i ≡ (
          if inside
          then (if bit_and heap.prot prot == prot then some 0 else none)
          else sees ms prot i))
      × (loads (flushed tlb grown) i ≡ (
          if inside
          then (if bit_and heap.prot mem_prot_read == mem_prot_read then some 0 else none)
          else loads (flushed tlb ms) i))
mem_brk-loads host limit ms addr a n prot i heap tlb serves low room space interpreter some_addr
      above old now new grows fits heap_found gaps small =
    let inside = leb (4096 * a) i && ltb i (4096 * a + 4096 * n) in
    let fresh = if bit_and heap.prot mem_prot_read == mem_prot_read then some 0 else none in
    let grown = λ (q : ℕ).
      mem_brk-sees host limit ms addr a n q i heap serves low room space interpreter some_addr above
        old now new grows fits heap_found gaps in
    let one = grown prot in
    let readable = grown mem_prot_read in
    let same : readable.0 ≡ one.0 = ap (λ (r : ℕ × MemSpace). r.1) (sym (readable.1) ∙ one.1) in
    (
      one.0,
      one.1,
      one.2,
      one.3,
      one.4,
      loads-sees tlb (one.0) i (one.2) small
          ∙ ap (λ (m : MemSpace). sees m mem_prot_read i) (sym same)
          ∙ readable.4
          ∙ ap (λ (b : Option ℕ). if inside then fresh else b)
              (sym (loads-sees tlb ms i space small)),
    )
