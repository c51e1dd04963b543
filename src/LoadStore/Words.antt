-- ===== src/LoadStore/Words.antt =====
-- Two doublewords next to each other, written and read one after the other.
use alpine_on_ios.Cpu.{Cpu}
use alpine_on_ios.LoadStore.Found.{Holds, read_then-found, write_then-found}
use alpine_on_ios.Memory.Access.{AddressSpace, load_bytes, store_bytes}
use alpine_on_ios.Memory.Layout.{IsLaidOut, mem_translate-within, mem_translate-lt}
use alpine_on_ios.Memory.RoundTrip.{load_bytes-store_bytes, load_bytes-store_bytes_above}
use alpine_on_ios.Memory.Space.{Region, mem_translate, mem_prot_read, mem_prot_write}
use alpine_on_ios.Machine.{Machine, Result, read_then, write_then}
use alpine_on_ios.Prelude.{ℕ, ◌+◌, ◌^◌, ◌<◌, ◌≡◌, ap, ◌∙◌, subst, some, List, arith, add64}

-- The two words of a range of sixteen bytes.
two_words :
    {regions : List Region} (a p prot : ℕ)
    → IsLaidOut 0 regions
    → p + 16 < 2 ^ 64
    → mem_translate regions a 16 prot ≡ some p
    → (mem_translate regions a 8 prot ≡ some p)
      × (mem_translate regions (add64 a 8) 8 prot ≡ some (p + 8))
two_words {regions = regions} a p prot lay fits t =
    let top = mem_translate-lt a 16 prot p lay t in
    let first = mem_translate-within a 16 prot p 0 8 lay (omega arith) (omega arith) t in
    let second = mem_translate-within a 16 prot p 8 8 lay (omega arith) (omega arith) t in
    let same : add64 p 0 ≡ p = omega arith in
    let next : add64 p 8 ≡ p + 8 = omega arith in
    let above : add64 a 8 ≡ a + 8 = omega arith in
    (
      ap (λ (i : ℕ). mem_translate regions i 8 prot) (omega arith) ∙ first ∙ ap some same,
      ap (λ (i : ℕ). mem_translate regions i 8 prot) above ∙ second ∙ ap some next,
    )

-- Two words written and two words read, where the regions allow it.
module _ {regions : List Region} {bytes : ℕ → ℕ} (m : Machine) (holds : Holds regions bytes m.mem)
    (a p : ℕ) (fits : p + 16 < 2 ^ 64) where
  pub write_two :
      (v1 : ℕ) (v2 : Cpu → ℕ) (next : Machine → Result)
      → mem_translate regions a 16 mem_prot_write ≡ some p
      → (after : AddressSpace) × Holds regions
          (store_bytes (store_bytes bytes p 8 v1) (p + 8) 8 (v2 (m.cpu)))
          after
        × (write_then 8 m a v1 (λ m1. write_then 8 m1 (add64 a 8) (v2 (m1.cpu)) next)
            ≡ next (record m { mem = after }))
  write_two v1 v2 next t =
      let lay = subst (IsLaidOut 0) holds.same_regions holds.coherent.laid_out in
      let top = mem_translate-lt a 16 mem_prot_write p lay t in
      let words = two_words a p mem_prot_write lay fits t in
      let first =
        write_then-found m holds 8 a p (omega arith) (omega arith) (omega arith) v1
          (λ m1. write_then 8 m1 (add64 a 8) (v2 (m1.cpu)) next) (words.0) in
      let second =
        write_then-found (record m { mem = first.0 }) (first.1) 8 (add64 a 8) (p + 8) (omega arith)
          (omega arith) (omega arith) (v2 (m.cpu)) next (words.1) in
      (second.0, second.1, first.2 ∙ second.2)

  pub read_two :
      (next : ℕ → ℕ → Machine → Result)
      → mem_translate regions a 16 mem_prot_read ≡ some p
      → (after : AddressSpace) × Holds regions bytes after
        × (read_then 8 m a (λ v1 m1. read_then 8 m1 (add64 a 8) (λ v2 m2. next v1 v2 m2))
            ≡ next (load_bytes bytes p 8) (load_bytes bytes (p + 8) 8) (record m { mem = after }))
  read_two next t =
      let lay = subst (IsLaidOut 0) holds.same_regions holds.coherent.laid_out in
      let top = mem_translate-lt a 16 mem_prot_read p lay t in
      let words = two_words a p mem_prot_read lay fits t in
      let first =
        read_then-found m holds 8 a p (omega arith) (omega arith) (omega arith)
          (λ v1 m1. read_then 8 m1 (add64 a 8) (λ v2 m2. next v1 v2 m2)) (words.0) in
      let second =
        read_then-found (record m { mem = first.0 }) (first.1) 8 (add64 a 8) (p + 8) (omega arith)
          (omega arith) (omega arith) (λ v2 m2. next (load_bytes bytes p 8) v2 m2) (words.1) in
      (second.0, second.1, first.2 ∙ second.2)

-- Two words stored one after the other are read back.
pub stored_two :
    (bytes : ℕ → ℕ) (p v1 v2 : ℕ)
    → v1 < 2 ^ 64
    → v2 < 2 ^ 64
    → let stored = store_bytes (store_bytes bytes p 8 v1) (p + 8) 8 v2 in
      (load_bytes stored p 8 ≡ v1) × (load_bytes stored (p + 8) 8 ≡ v2)
stored_two bytes p v1 v2 h1 h2 = (
  load_bytes-store_bytes_above (store_bytes bytes p 8 v1) p 8 (p + 8) 8 v2 (omega arith)
      ∙ load_bytes-store_bytes bytes p 8 v1
      ∙ omega arith,
  load_bytes-store_bytes (store_bytes bytes p 8 v1) (p + 8) 8 v2 ∙ omega arith,
)
