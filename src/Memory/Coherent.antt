-- ===== src/Memory/Coherent.antt =====
-- The software TLB is transparent: while its entries agree with the regions, an access through it
-- answers what the regions answer.
use alpine_on_ios.Memory.Space.{
  Region, Entry, find_region, mem_translate, tlb_flush, tlb_lookup, tlb_insert, tlb_page_mask,
  tlb_index,
}
use alpine_on_ios.Memory.Access.{AddressSpace, hit_or_walk, mem_ptr}
use alpine_on_ios.Memory.Layout.{IsLaidOut, find_region-page, find_region-lt}
use alpine_on_ios.Bits.{and_high}
use alpine_on_ios.Prelude.{
  ℕ, ◌+◌, ◌*◌, ◌/◌, ◌%◌, ◌^◌, ◌≤◌, ◌<◌, bit_and, ◌≡◌, refl, arith, List, Option, none, some, add64,
  sub64,
}

-- An entry answers for its page what the walk answers.
pub IsEntry : List Region → Entry → Type 0
IsEntry regions e =
    (page o size prot : ℕ)
    → e.tag ≡ 4096 * page
    → 0 < size
    → o + size ≤ 4096
    → bit_and e.prot prot ≡ prot
    → find_region regions (4096 * page + o) size prot ≡ some (add64 e.host o)

pub record IsCoherent (mem : AddressSpace) : Type 0 where
  pub laid_out : IsLaidOut 0 mem.regions
  pub entries : (i : ℕ) → IsEntry mem.regions (mem.tlb i)

page_of : (addr : ℕ) → addr < 2 ^ 64 → bit_and addr tlb_page_mask ≡ 4096 * (addr / 4096)
page_of addr h = ground (arith, and_high 12 52 addr)

-- A flushed TLB agrees with every set of regions.
pub tlb_flush-IsEntry :
    (regions : List Region) (tlb : ℕ → Entry) (i : ℕ) → IsEntry regions (tlb_flush tlb i)
unfolding IsEntry tlb_flush
tlb_flush-IsEntry regions tlb i page o size prot t s l b = absurd (omega arith)

module _ (mem : AddressSpace) (coherent : IsCoherent mem) (addr size prot : ℕ) (ha : addr < 2 ^ 64)
    (hs : 0 < size) (hl : size ≤ 4096) where
  tlb_lookup-hit :
      (p : ℕ)
      → tlb_lookup mem.tlb addr size prot ≡ some p
      → mem_translate mem.regions addr size prot ≡ some p
  unfolding tlb_lookup mem_translate IsEntry
  tlb_lookup-hit p hit =
      let page = addr / 4096 in
      let e = mem.tlb (tlb_index (bit_and addr tlb_page_mask)) in
      let ok =
        coherent.entries (tlb_index (bit_and addr tlb_page_mask)) page (addr % 4096) size prot in
      let last = page_of (sub64 (add64 addr size) 1) (omega arith) in
      ground (arith, page_of addr ha, ok, last, find_region-lt addr size prot p coherent.laid_out)

  tlb_insert-IsEntry :
      (p i : ℕ)
      → mem_translate mem.regions addr size prot ≡ some p
      → IsEntry mem.regions (tlb_insert mem.tlb addr p prot i)
  unfolding tlb_insert mem_translate IsEntry
  tlb_insert-IsEntry p i f page o size' prot' t s l b =
      let old = coherent.entries i page o size' prot' in
      let new = find_region-page page (addr % 4096) size prot p o size' prot' coherent.laid_out in
      ground (arith, page_of addr ha, old, new)

-- The answer of an access: with the TLB it is what the regions say, and the memory stays coherent
-- with the same regions and the same bytes.
pub data IsAccess (mem : AddressSpace) (addr size prot : ℕ)
    : Option (ℕ × AddressSpace) → Type 0 where
  fault : mem_translate mem.regions addr size prot ≡ none → IsAccess mem addr size prot none
  found :
      {p : ℕ} {mem' : AddressSpace}
      → mem_translate mem.regions addr size prot ≡ some p
      → IsCoherent mem'
      → mem'.regions ≡ mem.regions
      → mem'.bytes ≡ mem.bytes
      → IsAccess mem addr size prot (some (p, mem'))

module _ (mem : AddressSpace) (coherent : IsCoherent mem) (addr size prot : ℕ) where
  hit_or_walk-IsAccess :
      (hit walked : Option ℕ)
      → ((p : ℕ) → hit ≡ some p → mem_translate mem.regions addr size prot ≡ some p)
      → ((p i : ℕ) → walked ≡ some p → IsEntry mem.regions (tlb_insert mem.tlb addr p prot i))
      → mem_translate mem.regions addr size prot ≡ walked
      → IsAccess mem addr size prot (hit_or_walk mem addr prot hit walked)
  unfolding hit_or_walk
  hit_or_walk-IsAccess (some p) walked on_hit on_walk w = found (on_hit p refl) coherent refl refl
  hit_or_walk-IsAccess none (some p) on_hit on_walk w =
      found w (record { laid_out = coherent.laid_out; entries = λ i. on_walk p i refl }) refl refl
  hit_or_walk-IsAccess none none on_hit on_walk w = fault w

-- If the regions are laid out in pages and the TLB agrees with them, an access of at most a page
-- through the TLB gives the pointer that mem_translate gives and faults exactly if it does;
-- afterwards the regions and bytes are the same and the TLB still agrees.
pub mem_ptr-IsAccess :
    (mem : AddressSpace) (addr size prot : ℕ)
    → IsCoherent mem
    → addr < 2 ^ 64
    → 0 < size
    → size ≤ 4096
    → IsAccess mem addr size prot (mem_ptr mem addr size prot)
unfolding mem_ptr
mem_ptr-IsAccess mem addr size prot coherent ha hs hl =
    hit_or_walk-IsAccess mem coherent addr size prot _ _
      (tlb_lookup-hit mem coherent addr size prot ha hs hl)
      (tlb_insert-IsEntry mem coherent addr size prot ha hs hl) refl
