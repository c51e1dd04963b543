-- ===== src/Memory/Access.antt =====
-- The accessors `cpu_mem_*` of emu/include/cpu.h: the TLB first, then the regions, and a TLB entry
-- for what the regions answer. Host memory is little-endian, as on every target of the program.
use alpine_on_ios.Memory.Space.{
  Region, Entry, mem_translate, tlb_lookup, tlb_insert, mem_prot_read, mem_prot_write,
}
use alpine_on_ios.Prelude.{
  ℕ, zero, suc, ◌+◌, ◌*◌, ◌/◌, ◌%◌, update, List, Option, none, some, ◌>>=◌,
}

-- What an access works on: the TLB, the regions of the process and the bytes of the host.
pub record AddressSpace : Type 0 where
  pub tlb : ℕ → Entry
  pub regions : List Region
  pub bytes : ℕ → ℕ

-- The hit, else what the walk finds, which the TLB then gets; `none` for a fault.
unfoldable pub hit_or_walk : AddressSpace → ℕ → ℕ → Option ℕ → Option ℕ → Option (ℕ × AddressSpace)
hit_or_walk mem addr prot (some p) walked = some (p, mem)
hit_or_walk mem addr prot none (some p) =
    some (p, record mem { tlb = tlb_insert mem.tlb addr p prot })
hit_or_walk mem addr prot none none = none

unfoldable pub mem_ptr : AddressSpace → ℕ → ℕ → ℕ → Option (ℕ × AddressSpace)
mem_ptr mem addr size prot =
    hit_or_walk mem addr prot (tlb_lookup mem.tlb addr size prot)
      (mem_translate mem.regions addr size prot)

-- The number in `size` bytes at `p`.
unfoldable pub load_bytes : (ℕ → ℕ) → ℕ → ℕ → ℕ
load_bytes bytes p zero = 0
load_bytes bytes p (suc size) = bytes p + 256 * load_bytes bytes (p + 1) size

unfoldable pub store_bytes : (ℕ → ℕ) → ℕ → ℕ → ℕ → ℕ → ℕ
store_bytes bytes p zero val = bytes
store_bytes bytes p (suc size) val =
    store_bytes (update bytes p (val % 256)) (p + 1) size (val / 256)

-- `cpu_mem_read8` to `cpu_mem_read64`, with the size in bytes as an argument.
unfoldable pub mem_read : ℕ → AddressSpace → ℕ → Option (ℕ × AddressSpace)
mem_read size mem addr = do
  (p, mem') ← mem_ptr mem addr size mem_prot_read
  some (load_bytes mem'.bytes p size, mem')

-- `cpu_mem_write8` to `cpu_mem_write64`.
unfoldable pub mem_write : ℕ → AddressSpace → ℕ → ℕ → Option AddressSpace
mem_write size mem addr val = do
  (p, mem') ← mem_ptr mem addr size mem_prot_write
  some (record mem' { bytes = store_bytes mem'.bytes p size val })
