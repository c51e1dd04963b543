-- ===== src/Memory/Space.antt =====
-- `mem_region_t` and `mem_translate` of emu/src/memory.c, and the TLB entries and functions of
-- emu/include/cpu.h. A host pointer is its address; NULL is `none`. The lock of the address space
-- is left out: each call is one step.
use alpine_on_ios.Prelude.{
  ℕ, ◌-◌, ◌^◌, bit_and, not, ◌&&◌, ◌==◌, ltb, leb, if◌then◌else◌, update, add64, sub64, shr, List,
  [], ◌∷◌, Option, none, some,
}

pub record Region : Type 0 where
  pub base : ℕ
  pub size : ℕ
  pub prot : ℕ
  pub flags : ℕ
  pub host : ℕ

abbrev pub mem_prot_read : ℕ
mem_prot_read = 1

abbrev pub mem_prot_write : ℕ
mem_prot_write = 2

-- The walk over the regions: the first that holds the whole range decides.
unfoldable pub find_region : List Region → ℕ → ℕ → ℕ → Option ℕ
find_region [] addr size prot = none
find_region (r ∷ rest) addr size prot =
    let later = find_region rest addr size prot in
    if leb r.base addr && leb size r.size && leb (addr - r.base) (r.size - size)
    then if bit_and r.prot prot == prot then some (add64 r.host (addr - r.base)) else none
    else later

unfoldable pub mem_translate : List Region → ℕ → ℕ → ℕ → Option ℕ
mem_translate regions addr size prot =
    if not (size == 0) && ltb (add64 addr size) addr
    then none
    else find_region regions addr size prot

pub record Entry : Type 0 where
  pub tag : ℕ
  pub host : ℕ
  pub prot : ℕ

abbrev pub tlb_size : ℕ
tlb_size = 16

abbrev pub tlb_page_mask : ℕ
tlb_page_mask = 0xffff_ffff_ffff_f000

abbrev pub tlb_index : ℕ → ℕ
tlb_index page = bit_and (shr page 12) (tlb_size - 1)

-- `cpu_tlb_flush`: no page has this tag.
unfoldable pub tlb_flush : (ℕ → Entry) → ℕ → Entry
tlb_flush tlb i = record (tlb i) { tag = 2 ^ 64 - 1 }

unfoldable pub tlb_lookup : (ℕ → Entry) → ℕ → ℕ → ℕ → Option ℕ
tlb_lookup tlb addr size prot =
    let page = bit_and addr tlb_page_mask in
    if not (bit_and (sub64 (add64 addr size) 1) tlb_page_mask == page)
    then none
    else let e = tlb (tlb_index page) in
      if e.tag == page && bit_and e.prot prot == prot
      then some (add64 e.host (addr - page))
      else none

unfoldable pub tlb_insert : (ℕ → Entry) → ℕ → ℕ → ℕ → ℕ → Entry
tlb_insert tlb addr host prot =
    let page = bit_and addr tlb_page_mask in
    update tlb (tlb_index page)
      (record { tag = page; host = sub64 host (addr - page); prot = prot })
