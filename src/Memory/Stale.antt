-- ===== src/Memory/Stale.antt =====
-- The TLB of a thread after `mem_munmap`, which does not flush it.
use alpine_on_ios.Bits.{and_high}
use alpine_on_ios.Memory.Access.{AddressSpace, hit_or_walk, mem_ptr, mem_read, load_bytes}
use alpine_on_ios.Memory.Host.{Host, Each, EndsBelow, Serves}
use alpine_on_ios.Memory.Layout.{IsLaidOut, find_region-within}
use alpine_on_ios.Memory.Space.{
  Region, Entry, find_region, mem_translate, tlb_lookup, tlb_insert, tlb_page_mask, mem_prot_read,
}
use alpine_on_ios.Memory.Unmap.{MemSpace, mem_munmap}
use alpine_on_ios.Memory.Unmap.View.{IsSpace, sees, mem_munmap-sees}
use alpine_on_ios.Memory.View.{byte_at}
use mathlib.Core.Option.{some-injective}
use alpine_on_ios.Prelude.{
  ℕ, ◌+◌, ◌-◌, ◌*◌, ◌/◌, ◌%◌, ◌^◌, ◌≤◌, ◌<◌, bit_and, ◌≡◌, refl, arith, false, add64, sub64, List,
  Option, none, some, true, [], ◌∷◌, ◌&&◌, leb, ltb, ◌>>=◌, ap, sym, ◌∙◌, inl, inr, Option-cases,
}

-- The TLB answers the access that filled it.
tlb_insert-tlb_lookup :
    (tlb : ℕ → Entry) (addr size p : ℕ)
    → addr < 2 ^ 64
    → 0 < size
    → addr % 4096 + size ≤ 4096
    → p < 2 ^ 64
    → tlb_lookup (tlb_insert tlb addr p mem_prot_read) addr size mem_prot_read ≡ some p
unfolding tlb_lookup tlb_insert
tlb_insert-tlb_lookup tlb addr size p ha hs fits hp =
    let page : bit_and addr tlb_page_mask ≡ 4096 * (addr / 4096) =
      ground (arith, and_high 12 52 addr) in
    let last : bit_and (sub64 (add64 addr size) 1) tlb_page_mask ≡ 4096 * (addr / 4096) =
      ground (arith, and_high 12 52 (addr + size - 1)) in
    ground (arith, page, last)

find_region-small :
    {low : ℕ} {regions : List Region} (bytes : ℕ → ℕ) (addr size prot : ℕ)
    → IsLaidOut low regions
    → 0 < size
    → byte_at regions bytes prot addr ≡ none
    → find_region regions addr size prot ≡ none
unfolding byte_at
find_region-small {regions = regions} bytes addr size prot lay hs nothing =
    elim (Option-cases (find_region regions addr size prot)) [
      | inl missed ↦ missed
      | inr (p, hit) ↦
          let part = find_region-within addr size prot p 0 1 lay (omega arith) (omega arith) hit in
          absurd (ground (arith, part, nothing))
    ]

find_region-word :
    (regions : List Region) (addr size prot p : ℕ)
    → find_region regions addr size prot ≡ some p
    → p < 2 ^ 64
unfolding find_region
find_region-word [] addr size prot p f = ground arith
find_region-word (r ∷ rest) addr size prot p f =
    ground (arith, find_region-word rest addr size prot p)

-- After an access that succeeds, the TLB answers the same access.
data IsRepeated (addr size : ℕ) : Option (ℕ × AddressSpace) → Type 0 where
  faulted : IsRepeated addr size none
  answered :
      {p : ℕ} {mem : AddressSpace}
      → tlb_lookup mem.tlb addr size mem_prot_read ≡ some p
      → IsRepeated addr size (some (p, mem))

module _ (addr size : ℕ) (ha : addr < 2 ^ 64) (hs : 0 < size)
    (fits : addr % 4096 + size ≤ 4096) where
  hit_or_walk-IsRepeated :
      (mem : AddressSpace) (hit walked : Option ℕ)
      → tlb_lookup mem.tlb addr size mem_prot_read ≡ hit
      → ((p : ℕ) → walked ≡ some p → p < 2 ^ 64)
      → IsRepeated addr size (hit_or_walk mem addr mem_prot_read hit walked)
  unfolding hit_or_walk
  hit_or_walk-IsRepeated mem (some p) walked looked word = answered looked
  hit_or_walk-IsRepeated mem none (some p) looked word =
      answered (tlb_insert-tlb_lookup mem.tlb addr size p ha hs fits (word p refl))
  hit_or_walk-IsRepeated mem none none looked word = faulted

  mem_ptr-IsRepeated :
      (mem : AddressSpace) → IsRepeated addr size (mem_ptr mem addr size mem_prot_read)
  unfolding mem_ptr mem_translate
  mem_ptr-IsRepeated mem =
      hit_or_walk-IsRepeated mem _ _ refl
        λ p walked. find_region-word mem.regions addr size mem_prot_read p (ground (arith, walked))

  abbrev answer : Option (ℕ × AddressSpace) → Option (ℕ × AddressSpace)
  answer o = o >>= λ x. some (load_bytes (x.1).bytes (x.0) size, x.1)

  repeated :
      (o : Option (ℕ × AddressSpace)) (v : ℕ) (after : AddressSpace)
      → IsRepeated addr size o
      → answer o ≡ some (v, after)
      → (p : ℕ) × (tlb_lookup after.tlb addr size mem_prot_read ≡ some p)
  repeated o v after faulted eq = absurd (ground (arith, eq))
  repeated o v after (answered {p = p} {mem = mem} looked) eq =
      let same : mem ≡ after = ap (λ (x : ℕ × AddressSpace). x.1) (some-injective _ _ eq) in
      (p, ap (λ (m : AddressSpace). tlb_lookup m.tlb addr size mem_prot_read) (sym same) ∙ looked)

  -- Whatever the regions and the bytes have become.
  mem_read-again :
      (mem after : AddressSpace) (v : ℕ) (regions : List Region) (bytes : ℕ → ℕ)
      → mem_read size mem addr ≡ some (v, after)
      → let later = record after { regions = regions; bytes = bytes } in
        (w : ℕ) × (mem_read size later addr ≡ some (w, later))
  unfolding mem_read mem_ptr hit_or_walk
  mem_read-again mem after v regions bytes eq =
      let again =
        repeated (mem_ptr mem addr size mem_prot_read) v after (mem_ptr-IsRepeated mem) eq in
      (load_bytes bytes (again.0) size, rw (again.1) refl)

-- In interpreter mode, after a read inside one page that succeeded and a mem_munmap of its range,
-- mem_translate has no byte there, and yet the same read by the same thread succeeds, out of the
-- TLB.
pub mem_munmap-mem_read :
    (host : Host) (limit : ℕ) (ms : MemSpace) (tlb : ℕ → Entry) (size addr v : ℕ)
    (after : AddressSpace)
    → Serves host limit
    → Each (EndsBelow limit) ms.regions
    → IsSpace ms
    → ms.aot_mode ≡ false
    → addr + size + 4095 < 2 ^ 64
    → 0 < size
    → addr % 4096 + size ≤ 4096
    → mem_read size (record { tlb = tlb; regions = ms.regions; bytes = ms.bytes }) addr
      ≡ some (v, after)
    → let unmapped = mem_munmap host ms addr size in
      let later = record after { regions = unmapped.regions; bytes = unmapped.bytes } in
      (mem_translate unmapped.regions addr size mem_prot_read ≡ none)
      × (w : ℕ) × (mem_read size later addr ≡ some (w, later))
unfolding mem_translate
mem_munmap-mem_read host limit ms tlb size addr v after serves low space interpreter top hs fits
      eq =
    let unmapped = mem_munmap host ms addr size in
    let gone =
      mem_munmap-sees host limit ms addr size mem_prot_read addr serves low space interpreter top in
    let first : (leb (4096 * (addr / 4096)) addr
          && ltb addr (4096 * (addr / 4096) + 4096 * ((size + 4095) / 4096)))
        ≡ true =
      ground arith in
    let nothing : sees unmapped mem_prot_read addr ≡ none = gone.1 ∙ rw (first) refl in
    let missed : find_region unmapped.regions addr size mem_prot_read ≡ none =
      find_region-small unmapped.bytes addr size mem_prot_read (gone.0).laid_out hs nothing in
    let again =
      mem_read-again addr size (omega arith) hs fits _ after v unmapped.regions unmapped.bytes eq in
    (ground (arith, missed), again.0, again.1)
