-- ===== src/LoadStore/Found.antt =====
-- The accesses of a handler, where the regions allow them.
use alpine_on_ios.Machine.{Machine, Result, read_then, write_then, read_case, write_case}
use alpine_on_ios.Memory.Access.{AddressSpace, load_bytes, store_bytes}
use alpine_on_ios.Memory.Coherent.{IsCoherent}
use alpine_on_ios.Memory.RoundTrip.{mem_read-found, mem_write-found}
use alpine_on_ios.Memory.Space.{Region, mem_translate, mem_prot_read, mem_prot_write}
use alpine_on_ios.Prelude.{ℕ, ◌^◌, ◌≤◌, ◌<◌, ◌≡◌, refl, ap, ◌∙◌, List, some}

-- A memory with given regions and bytes, whose TLB agrees with them.
pub record Holds (regions : List Region) (bytes : ℕ → ℕ) (mem : AddressSpace) : Type 0 where
  pub coherent : IsCoherent mem
  pub same_regions : mem.regions ≡ regions
  pub same_bytes : mem.bytes ≡ bytes

module _ {regions : List Region} {bytes : ℕ → ℕ} (m : Machine) (holds : Holds regions bytes m.mem)
    (size addr p : ℕ) (ha : addr < 2 ^ 64) (hs : 0 < size) (hl : size ≤ 4096) where
  pub read_then-found :
      (next : ℕ → Machine → Result)
      → mem_translate regions addr size mem_prot_read ≡ some p
      → (after : AddressSpace) × Holds regions bytes after
        × (read_then size m addr next ≡ next (load_bytes bytes p size) (record m { mem = after }))
  unfolding read_case
  read_then-found next t =
      let here =
        ap (λ (rs : List Region). mem_translate rs addr size mem_prot_read) holds.same_regions
        ∙ t in
      let r = mem_read-found m.mem size addr p holds.coherent ha hs hl here in
      (
        r.0,
        record {
          coherent = r.2;
          same_regions = r.3 ∙ holds.same_regions;
          same_bytes = r.4 ∙ holds.same_bytes;
        },
        rw (r.1) (
            ap (λ (b : ℕ → ℕ). next (load_bytes b p size) (record m { mem = r.0 }))
              holds.same_bytes),
      )

  pub write_then-found :
      (val : ℕ) (next : Machine → Result)
      → mem_translate regions addr size mem_prot_write ≡ some p
      → (after : AddressSpace) × Holds regions (store_bytes bytes p size val) after
        × (write_then size m addr val next ≡ next (record m { mem = after }))
  unfolding write_case
  write_then-found val next t =
      let here =
        ap (λ (rs : List Region). mem_translate rs addr size mem_prot_write) holds.same_regions
        ∙ t in
      let w = mem_write-found m.mem size addr p holds.coherent ha hs hl val here in
      (
        w.0,
        record {
          coherent = w.2;
          same_regions = w.3 ∙ holds.same_regions;
          same_bytes = w.4 ∙ ap (λ (b : ℕ → ℕ). store_bytes b p size val) holds.same_bytes;
        },
        rw (w.1) refl,
      )
