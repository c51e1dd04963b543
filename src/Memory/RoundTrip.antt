-- ===== src/Memory/RoundTrip.antt =====
-- Reading back what was written: the bytes, the pointer and the TLB together.
use alpine_on_ios.Memory.Space.{Region, find_region, mem_translate, mem_prot_read, mem_prot_write}
use alpine_on_ios.Memory.Access.{AddressSpace, mem_read, mem_write, load_bytes, store_bytes}
use alpine_on_ios.Memory.Coherent.{IsCoherent, IsAccess, fault, found, mem_ptr-IsAccess}
use native.Mathlib.Nat.{
  pow-suc, one-le-pow, add-mul-mod_self_left, mod-add-div, mod-eq_of_lt, mod-lt,
}
use alpine_on_ios.Prelude.{
  ℕ, zero, suc, ◌+◌, ◌*◌, ◌/◌, ◌%◌, ◌^◌, ◌≤◌, ◌<◌, ◌≡◌, refl, sym, ◌∙◌, ap, arith, List, [], ◌∷◌,
  Option, some, ◌>>=◌, update,
}

-- Bytes below the stored ones stay.
store_bytes-below : (bytes : ℕ → ℕ) (p n val i : ℕ) → i < p → store_bytes bytes p n val i ≡ bytes i
unfolding store_bytes
store_bytes-below bytes p zero val i h = refl
store_bytes-below bytes p (suc n) val i h =
    store_bytes-below (update bytes p (val % 256)) (p + 1) n (val / 256) i (omega arith)
    ∙ ground arith

digit_split : (k v : ℕ) → 0 < k → v % 256 + 256 * (v / 256 % k) ≡ v % (256 * k)
digit_split k v h =
    let q = v / 256 in
    let whole : v ≡ v % 256 + 256 * (q % k) + 256 * k * (q / k) =
      omega (arith, ap (λ (t : ℕ). 256 * t) (mod-add-div q k)) in
    sym (
      ap (λ (t : ℕ). t % (256 * k)) whole
      ∙ add-mul-mod_self_left (v % 256 + 256 * (q % k)) (256 * k) (q / k)
      ∙ mod-eq_of_lt (omega (arith, mod-lt q h)))

pub load_bytes-store_bytes :
    (bytes : ℕ → ℕ) (p n val : ℕ) → load_bytes (store_bytes bytes p n val) p n ≡ val % 256 ^ n
unfolding load_bytes store_bytes
load_bytes-store_bytes bytes p zero val = ground arith
load_bytes-store_bytes bytes p (suc n) val =
    let rest = load_bytes-store_bytes (update bytes p (val % 256)) (p + 1) n (val / 256) in
    let first =
      store_bytes-below (update bytes p (val % 256)) (p + 1) n (val / 256) p (omega arith) in
    ground (
      arith,
      first,
      rest,
      digit_split (256 ^ n) val (one-le-pow n 256 (omega arith)),
      pow-suc 256 n,
    )

-- The permission asked for does not change the pointer.
pub mem_translate-same :
    (regions : List Region) (addr size prot prot' p q : ℕ)
    → mem_translate regions addr size prot ≡ some p
    → mem_translate regions addr size prot' ≡ some q
    → p ≡ q
unfolding mem_translate find_region
mem_translate-same [] addr size prot prot' p q hp hq = ground arith
mem_translate-same (r ∷ rest) addr size prot prot' p q hp hq =
    ground (arith, mem_translate-same rest addr size prot prot' p q)

-- An access that the regions allow succeeds.
Found : AddressSpace → ℕ → Option (ℕ × AddressSpace) → Type 0
Found mem p o =
    (mem' : AddressSpace) × (o ≡ some (p, mem'))
    × IsCoherent mem'
    × (mem'.regions ≡ mem.regions)
    × (mem'.bytes ≡ mem.bytes)

IsAccess-Found :
    {mem : AddressSpace} {addr size prot : ℕ} {o : Option (ℕ × AddressSpace)} (p : ℕ)
    → mem_translate mem.regions addr size prot ≡ some p
    → IsAccess mem addr size prot o
    → Found mem p o
unfolding Found
IsAccess-Found p t (fault none_found) = absurd (ground (arith, t, none_found))
IsAccess-Found p t (found {p = q} {mem' = mem'} f coherent regions bytes) =
    (mem', ap (λ (r : ℕ). some (r, mem')) (ground (arith, t, f)), coherent, regions, bytes)

-- On a coherent memory, where the regions let a range of at most a page be written and read, a
-- write there succeeds and reading it back gives the value cut to the size of the access, and the
-- memory is coherent afterwards.
pub mem_write-mem_read :
    (mem : AddressSpace) (size addr val p q : ℕ)
    → IsCoherent mem
    → addr < 2 ^ 64
    → 0 < size
    → size ≤ 4096
    → mem_translate mem.regions addr size mem_prot_write ≡ some p
    → mem_translate mem.regions addr size mem_prot_read ≡ some q
    → (written : AddressSpace) × (after : AddressSpace) × (mem_write size mem addr val
        ≡ some written)
      × (mem_read size written addr ≡ some (val % 256 ^ size, after))
      × IsCoherent after
unfolding mem_write mem_read Found
mem_write-mem_read mem size addr val p q coherent ha hs hl tp tq =
    let w = IsAccess-Found p tp (mem_ptr-IsAccess mem addr size mem_prot_write coherent ha hs hl) in
    let stored = store_bytes (w.0).bytes p size val in
    let written = record (w.0) { bytes = stored } in
    let coherent_w : IsCoherent written = record {
      laid_out = (w.2).laid_out;
      entries = (w.2).entries;
    } in
    let tq' : mem_translate written.regions addr size mem_prot_read ≡ some q =
      ap (λ (rs : List Region). mem_translate rs addr size mem_prot_read) (w.3) ∙ tq in
    let r =
      IsAccess-Found q tq' (mem_ptr-IsAccess written addr size mem_prot_read coherent_w ha hs hl) in
    let same = mem_translate-same mem.regions addr size mem_prot_write mem_prot_read p q tp tq in
    let value : load_bytes (r.0).bytes q size ≡ val % 256 ^ size =
      ap (λ (b : ℕ → ℕ). load_bytes b q size) (r.4)
      ∙ ap (λ (t : ℕ). load_bytes stored t size) (sym same)
      ∙ load_bytes-store_bytes _ p size val in
    (
      written,
      r.0,
      ap
          (λ (o : Option (ℕ × AddressSpace)).
            o >>= λ x. some (record (x.1) { bytes = store_bytes (x.1).bytes (x.0) size val }))
          (w.1),
      ap
            (λ (o : Option (ℕ × AddressSpace)).
              o >>= λ x. some (load_bytes (x.1).bytes (x.0) size, x.1))
            (r.1)
          ∙ ap (λ (v : ℕ). some (v, r.0)) value,
      r.2,
    )

-- A write leaves the bytes outside its range.
pub load_bytes-store_bytes_above :
    (bytes : ℕ → ℕ) (p n q k val : ℕ)
    → p + n ≤ q
    → load_bytes (store_bytes bytes q k val) p n ≡ load_bytes bytes p n
unfolding load_bytes
load_bytes-store_bytes_above bytes p zero q k val h = refl
load_bytes-store_bytes_above bytes p (suc n) q k val h = omega (
  arith,
  store_bytes-below bytes q k val p (omega arith),
  load_bytes-store_bytes_above bytes (p + 1) n q k val (omega arith),
)

-- Where the regions allow it, a read gives the bytes and a write stores them.
module _ (mem : AddressSpace) (size addr p : ℕ) (coherent : IsCoherent mem) (ha : addr < 2 ^ 64)
    (hs : 0 < size) (hl : size ≤ 4096) where
  pub mem_read-found :
      mem_translate mem.regions addr size mem_prot_read ≡ some p
      → (after : AddressSpace) × (mem_read size mem addr
          ≡ some (load_bytes mem.bytes p size, after))
        × IsCoherent after
        × (after.regions ≡ mem.regions)
        × (after.bytes ≡ mem.bytes)
  unfolding mem_read Found
  mem_read-found t =
      let r = IsAccess-Found p t (mem_ptr-IsAccess mem addr size mem_prot_read coherent ha hs hl) in
      (
        r.0,
        ap
              (λ (o : Option (ℕ × AddressSpace)).
                o >>= λ x. some (load_bytes (x.1).bytes (x.0) size, x.1))
              (r.1)
            ∙ ap (λ (b : ℕ → ℕ). some (load_bytes b p size, r.0)) (r.4),
        r.2,
        r.3,
        r.4,
      )

  pub mem_write-found :
      (val : ℕ)
      → mem_translate mem.regions addr size mem_prot_write ≡ some p
      → (after : AddressSpace) × (mem_write size mem addr val ≡ some after)
        × IsCoherent after
        × (after.regions ≡ mem.regions)
        × (after.bytes ≡ store_bytes mem.bytes p size val)
  unfolding mem_write Found
  mem_write-found val t =
      let w =
        IsAccess-Found p t (mem_ptr-IsAccess mem addr size mem_prot_write coherent ha hs hl) in
      (
        record (w.0) { bytes = store_bytes (w.0).bytes p size val },
        ap
            (λ (o : Option (ℕ × AddressSpace)).
              o >>= λ x. some (record (x.1) { bytes = store_bytes (x.1).bytes (x.0) size val }))
            (w.1),
        record { laid_out = (w.2).laid_out; entries = (w.2).entries },
        w.3,
        ap (λ (b : ℕ → ℕ). store_bytes b p size val) (w.4),
      )
