-- ===== src/Memory/Words.antt =====
-- The accessors of Guest on a part of a range that the regions map, and the bytes there.
use alpine_on_ios.Memory.Access.{load_bytes, store_bytes}
use alpine_on_ios.Memory.Guest.{read_guest, write_guest}
use alpine_on_ios.Memory.Layout.{IsLaidOut, mem_translate-within, mem_translate-lt}
use alpine_on_ios.Memory.Space.{mem_translate, mem_prot_read, mem_prot_write}
use alpine_on_ios.Memory.Unmap.{MemSpace}
use alpine_on_ios.Prelude.{ℕ, zero, suc, ◌+◌, ◌^◌, ◌≤◌, ◌<◌, ◌≡◌, refl, ap, ◌∙◌, arith, add64, some}

-- A range of `total` bytes that the regions map to `p`.
module _ (ms : MemSpace) (lay : IsLaidOut 0 ms.regions) (addr total p : ℕ)
    (fits : p + total < 2 ^ 64) (o size : ℕ) (hs : 0 < size) (ho : o + size ≤ total) where
  part :
      (prot : ℕ)
      → mem_translate ms.regions addr total prot ≡ some p
      → mem_translate ms.regions (add64 addr o) size prot ≡ some (p + o)
  part prot t =
      let top = mem_translate-lt addr total prot p lay t in
      let here : add64 addr o ≡ addr + o = omega arith in
      let there : add64 p o ≡ p + o = omega arith in
      ap (λ (i : ℕ). mem_translate ms.regions i size prot) here
      ∙ mem_translate-within addr total prot p o size lay hs ho t
      ∙ ap some there

  pub read_guest-part :
      mem_translate ms.regions addr total mem_prot_read ≡ some p
      → read_guest size ms (add64 addr o) ≡ some (load_bytes ms.bytes (p + o) size)
  unfolding read_guest
  read_guest-part t = rw (part mem_prot_read t) refl

  pub write_guest-part :
      (val : ℕ)
      → mem_translate ms.regions addr total mem_prot_write ≡ some p
      → write_guest size ms (add64 addr o) val
        ≡ some (record ms { bytes = store_bytes ms.bytes (p + o) size val })
  unfolding write_guest
  write_guest-part val t = rw (part mem_prot_write t) refl

-- A load depends on the bytes of its range only.
pub load_bytes-same :
    (b b' : ℕ → ℕ) (p size : ℕ)
    → ((i : ℕ) → p ≤ i → i < p + size → b' i ≡ b i)
    → load_bytes b' p size ≡ load_bytes b p size
unfolding load_bytes
load_bytes-same b b' p zero same = refl
load_bytes-same b b' p (suc size) same = omega (
  arith,
  same p (omega arith) (omega arith),
  load_bytes-same b b' (p + 1) size (λ i l h. same i (omega arith) (omega arith)),
)
