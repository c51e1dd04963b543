-- ===== src/Memory/Insert.antt =====
-- `region_insert` of emu/src/memory.c: a new region among the sorted ones.
use alpine_on_ios.Memory.Space.{Region, find_region}
use alpine_on_ios.Memory.Layout.{IsLaidOut, empty, region}
use alpine_on_ios.Prelude.{
  ℕ, ◌+◌, ◌-◌, ◌*◌, ◌^◌, ◌≤◌, ◌<◌, ◌≡◌, ◌⊎◌, refl, arith, bit_and, Bool, true, false, ◌&&◌, ◌==◌,
  ltb, leb, ltb→lt, ltb→le, if◌then◌else◌, add64, List, [], ◌∷◌, none, some,
}

-- Before the first region with a greater base.
unfoldable pub region_insert : List Region → Region → List Region
region_insert [] r = r ∷ []
region_insert (q ∷ rest) r =
    let later = region_insert rest r in if ltb r.base q.base then r ∷ q ∷ rest else q ∷ later

-- A region that no other overlaps.
pub data IsApart (r : Region) : List Region → Type 0 where
  alone : IsApart r []
  apart :
      {q : Region} {rest : List Region}
      → (q.base + q.size ≤ r.base) ⊎ (r.base + r.size ≤ q.base)
      → IsApart r rest
      → IsApart r (q ∷ rest)

-- A region of whole pages.
pub record IsPages (r : Region) : Type 0 where
  pub first : ℕ
  pub pages : ℕ
  pub at_page : r.base ≡ 4096 * first
  pub whole : r.size ≡ 4096 * pages
  pub not_empty : 0 < pages
  pub in_space : r.base + r.size < 2 ^ 64

IsLaidOut-if :
    {low : ℕ} {xs ys : List Region} (c : Bool)
    → (c ≡ true → IsLaidOut low xs)
    → (c ≡ false → IsLaidOut low ys)
    → IsLaidOut low (if c then xs else ys)
IsLaidOut-if true f g = f refl
IsLaidOut-if false f g = g refl

insert-IsLaidOut :
    {low : ℕ} {regions : List Region} (r : Region)
    → IsPages r
    → low ≤ r.base
    → IsLaidOut low regions
    → IsApart r regions
    → IsLaidOut low (region_insert regions r)
unfolding region_insert
insert-IsLaidOut r k l empty alone = region k.first k.pages k.at_page k.whole l k.in_space empty
insert-IsLaidOut r k l (region {r = q} {rest = rest} first pages b s below e lay)
      (apart side others) =
    IsLaidOut-if (ltb r.base q.base)
      (λ before.
        let at = ltb→lt r.base q.base before in
        region k.first k.pages k.at_page k.whole l k.in_space
          (region first pages b s (ground (arith, k.not_empty, k.whole)) e lay))
      (λ after.
        let at = ltb→le r.base q.base after in
        region first pages b s below e
          (insert-IsLaidOut r k (ground (arith, k.not_empty, k.whole)) lay others))

-- Inside the new region the walk finds it, and elsewhere what it found before.
find-region_insert :
    (r : Region) (addr size prot : ℕ)
    → 0 < size
    → {regions : List Region} → IsApart r regions
    → find_region (region_insert regions r) addr size prot ≡ (
        if leb r.base addr && leb size r.size && leb (addr - r.base) (r.size - size)
        then (if bit_and r.prot prot == prot then some (add64 r.host (addr - r.base)) else none)
        else find_region regions addr size prot)
unfolding find_region region_insert
find-region_insert r addr size prot hs alone = ground arith
find-region_insert r addr size prot hs (apart {rest = rest} side others) =
    ground (arith, find-region_insert r addr size prot hs others)

-- region_insert keeps the regions sorted, apart and made of whole pages, if the new region is not
-- empty, is made of whole pages and overlaps none of them; afterwards an access of at least a byte
-- finds the new region if it lies inside it, and otherwise what it found before.
pub region_insert-find_region :
    (regions : List Region) (r : Region) (addr size prot : ℕ)
    → IsLaidOut 0 regions
    → IsPages r
    → IsApart r regions
    → 0 < size
    → IsLaidOut 0 (region_insert regions r)
      × (find_region (region_insert regions r) addr size prot ≡ (
          if leb r.base addr && leb size r.size && leb (addr - r.base) (r.size - size)
          then (if bit_and r.prot prot == prot then some (add64 r.host (addr - r.base)) else none)
          else find_region regions addr size prot))
region_insert-find_region regions r addr size prot lay k others hs =
    (insert-IsLaidOut r k (omega arith) lay others, find-region_insert r addr size prot hs others)
