-- ===== src/Memory/Layout.antt =====
-- The regions of a process: sorted, apart from each other and made of whole pages. Then the region
-- that holds one byte of a page holds the page.
use alpine_on_ios.Memory.Space.{Region, find_region, mem_translate}
use alpine_on_ios.Bits.{and_trans}
use alpine_on_ios.Prelude.{
  ℕ, ◌+◌, ◌-◌, ◌*◌, ◌^◌, ◌≤◌, ◌<◌, bit_and, ◌≡◌, refl, arith, ◌&&◌, leb, List, [], ◌∷◌, none, some,
  Bool-cases, inl, inr, add64, sub64,
}

pub data IsLaidOut : ℕ → List Region → Type 0 where
  empty : {low : ℕ} → IsLaidOut low []
  region :
      {low : ℕ} {r : Region} {rest : List Region} (first pages : ℕ)
      → r.base ≡ 4096 * first
      → r.size ≡ 4096 * pages
      → low ≤ r.base
      → r.base + r.size < 2 ^ 64
      → IsLaidOut (r.base + r.size) rest
      → IsLaidOut low (r ∷ rest)

-- An access below all regions finds none.
find_region-below :
    {low : ℕ} {regions : List Region} (addr size prot : ℕ)
    → IsLaidOut low regions
    → addr < low
    → find_region regions addr size prot ≡ none
unfolding find_region
find_region-below addr size prot empty h = refl
find_region-below addr size prot (region first pages b s l e rest) h =
    ground (arith, find_region-below addr size prot rest)

-- What the walk answers to one access of a page tells what it answers to every access that stays
-- in the page and asks for no more.
pub find_region-page :
    {low : ℕ} {regions : List Region} (page o size prot p o' size' prot' : ℕ)
    → IsLaidOut low regions
    → o < 4096
    → 0 < size
    → 0 < size'
    → o' + size' ≤ 4096
    → bit_and prot prot' ≡ prot'
    → find_region regions (4096 * page + o) size prot ≡ some p
    → find_region regions (4096 * page + o') size' prot' ≡ some (add64 (sub64 p o) o')
unfolding find_region
find_region-page page o size prot p o' size' prot' empty ho hs hs' hp hb f = ground arith
find_region-page page o size prot p o' size' prot'
      (region {r = r} {rest = rest} first pages b s l e lay) ho hs hs' hp hb f =
    elim (Bool-cases (
      leb r.base (4096 * page + o)
      && leb size r.size
      && leb (4096 * page + o - r.base) (r.size - size))) [
        | inl here ↦ ground (arith, and_trans r.prot prot prot')
        | inr later ↦
            let below = find_region-below (4096 * page + o) size prot lay in
            ground (arith, find_region-page page o size prot p o' size' prot' lay ho hs hs' hp hb)
      ]

-- What is found ends below the end of the address space.
pub find_region-lt :
    {low : ℕ} {regions : List Region} (addr size prot p : ℕ)
    → IsLaidOut low regions
    → find_region regions addr size prot ≡ some p
    → addr + size < 2 ^ 64
unfolding find_region
find_region-lt addr size prot p empty f = ground arith
find_region-lt addr size prot p (region first pages b s l e rest) f =
    ground (arith, find_region-lt addr size prot p rest)

-- What is found for a range is found, at its offset, for every part of the range.
pub find_region-within :
    {low : ℕ} {regions : List Region} (addr size prot p o size' : ℕ)
    → IsLaidOut low regions
    → 0 < size'
    → o + size' ≤ size
    → find_region regions addr size prot ≡ some p
    → find_region regions (addr + o) size' prot ≡ some (add64 p o)
unfolding find_region
find_region-within addr size prot p o size' empty hs hl f = ground arith
find_region-within addr size prot p o size' (region {r = r} first pages b s l e lay) hs hl f =
    elim (Bool-cases (leb r.base addr && leb size r.size && leb (addr - r.base) (r.size - size))) [
      | inl here ↦ ground arith
      | inr later ↦
          let below = find_region-below addr size prot lay in
          ground (arith, find_region-within addr size prot p o size' lay hs hl)
    ]

pub mem_translate-within :
    {regions : List Region} (addr size prot p o size' : ℕ)
    → IsLaidOut 0 regions
    → 0 < size'
    → o + size' ≤ size
    → mem_translate regions addr size prot ≡ some p
    → mem_translate regions (addr + o) size' prot ≡ some (add64 p o)
unfolding mem_translate
mem_translate-within addr size prot p o size' lay hs hl t = ground (
  arith,
  find_region-lt addr size prot p lay,
  find_region-within addr size prot p o size' lay hs hl,
)

pub mem_translate-lt :
    {regions : List Region} (addr size prot p : ℕ)
    → IsLaidOut 0 regions
    → mem_translate regions addr size prot ≡ some p
    → addr + size < 2 ^ 64
unfolding mem_translate
mem_translate-lt addr size prot p lay t = ground (arith, find_region-lt addr size prot p lay)
