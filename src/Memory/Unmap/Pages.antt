-- ===== src/Memory/Unmap/Pages.antt =====
-- `unmap_range` keeps the regions sorted, apart from each other and made of whole pages.
use alpine_on_ios.Memory.Host.{Host}
use alpine_on_ios.Memory.Layout.{IsLaidOut, empty, region}
use alpine_on_ios.Memory.Space.{Region}
use alpine_on_ios.Memory.Unmap.{
  Pieces, mem_map_external, unmap_region, unmap_walk, split_calloc, split_mmap, trim_calloc,
}
use alpine_on_ios.Prelude.{
  ℕ, ◌+◌, ◌-◌, ◌*◌, ◌^◌, ◌≤◌, ◌<◌, ◌≡◌, arith, ◌&&◌, ◌||◌, leb, ltb, is_true, bit_and, Bool, true,
  false, if-cases, if-rule, add64, sub64, List, ◌∷◌, ◌++◌, Option, none, some,
}

pub IsLaidOut-lower :
    {low : ℕ} (low' : ℕ) {regions : List Region}
    → low' ≤ low
    → IsLaidOut low regions
    → IsLaidOut low' regions
IsLaidOut-lower low' h empty = empty
IsLaidOut-lower low' h (region first pages b s l e lay) = region first pages b s (omega arith) e lay

-- Whether or not the host finds a block.
module _ (low : ℕ) (bytes : ℕ → ℕ) (r : Region) (rest : List Region)
    (whole : IsLaidOut low (r ∷ rest)) where
  split_calloc-IsLaidOut :
      (before tail : Region) (offset : ℕ) (o : Option ℕ)
      → ((h : ℕ) → IsLaidOut low (before ∷ record tail { host = h } ∷ rest))
      → IsLaidOut low ((split_calloc bytes r before tail offset o).0 ++ rest)
  unfolding split_calloc
  split_calloc-IsLaidOut before tail offset none lay = whole
  split_calloc-IsLaidOut before tail offset (some p) lay = lay p

  split_mmap-IsLaidOut :
      (before tail : Region) (offset : ℕ) (ok : Bool)
      → ((h : ℕ) → IsLaidOut low (before ∷ record tail { host = h } ∷ rest))
      → IsLaidOut low ((split_mmap bytes r before tail offset ok).0 ++ rest)
  unfolding split_mmap
  split_mmap-IsLaidOut before tail offset false lay = whole
  split_mmap-IsLaidOut before tail offset true lay = lay tail.base

  trim_calloc-IsLaidOut :
      (after : Region) (trim : ℕ) (o : Option ℕ)
      → ((h : ℕ) → IsLaidOut low (record after { host = h } ∷ rest))
      → IsLaidOut low ((trim_calloc bytes r after trim o).0 ++ rest)
  unfolding trim_calloc
  trim_calloc-IsLaidOut after trim none lay = whole
  trim_calloc-IsLaidOut after trim (some p) lay = lay p

module _ (host : Host) (native : Bool) (a n : ℕ) (fits : 4096 * a + 4096 * n < 2 ^ 64) where
  -- One round, before regions that are laid out behind the region.
  module _ (live : List Region) (bytes : ℕ → ℕ) (low first pages : ℕ) (r : Region)
      (b : r.base ≡ 4096 * first) (s : r.size ≡ 4096 * pages) (l : low ≤ r.base)
      (e : r.base + r.size < 2 ^ 64) (rest : List Region)
      (lay : IsLaidOut (r.base + r.size) rest) where
    -- The part above the range, whatever its block.
    upper :
        (low' flags host' : ℕ)
        → low' ≤ 4096 * a + 4096 * n
        → r.base < 4096 * a + 4096 * n
        → 4096 * a + 4096 * n < r.base + r.size
        → (size : ℕ) → size ≡ r.base + r.size - (4096 * a + 4096 * n)
        → IsLaidOut low' (
            record {
              base = 4096 * a + 4096 * n;
              size = size;
              prot = r.prot;
              flags = flags;
              host = host';
            }
            ∷ rest)
    upper low' flags host' lo above hi size is =
        region (a + n) (first + pages - (a + n)) (omega arith) (omega arith) lo (omega arith)
          (IsLaidOut-lower _ (omega arith) lay)

    whole : IsLaidOut low (r ∷ rest)
    whole = region first pages b s l e lay

    both_sides :
        (host' : ℕ)
        → r.base < 4096 * a
        → 4096 * a + 4096 * n < r.base + r.size
        → IsLaidOut low (
            record r { size = sub64 (4096 * a) r.base }
            ∷ record {
              base = 4096 * a + 4096 * n;
              size = sub64 (add64 r.base r.size) (4096 * a + 4096 * n);
              prot = r.prot;
              flags = bit_and r.flags 0xffff_ffbf;
              host = host';
            }
            ∷ rest)
    both_sides host' lo hi =
        region first (a - first) b (omega arith) l (omega arith)
          (upper _ _ host' (omega arith) (omega arith) hi _ (omega arith))

    unmap_region-IsLaidOut :
        IsLaidOut low
          ((unmap_region host native live r (4096 * a) (4096 * a + 4096 * n) bytes).0 ++ rest)
    unfolding unmap_region
    unmap_region-IsLaidOut =
        let addr = 4096 * a in
        let end = 4096 * a + 4096 * n in
        let P : Pieces → Type 0 = λ out. IsLaidOut low (out.0 ++ rest) in
        if-cases P (leb (add64 r.base r.size) addr || leb end r.base) (λ away. whole)
          λ near.
            if-cases P (leb addr r.base && leb (add64 r.base r.size) end)
              (λ within. IsLaidOut-lower low (omega arith) lay)
              λ part.
                if-cases P (ltb r.base addr && ltb end (add64 r.base r.size))
                  (λ both.
                    let sides =
                      λ (h : ℕ). both_sides h (ground (arith, both)) (ground (arith, both)) in
                    if-rule P native (split_mmap-IsLaidOut low bytes r rest whole _ _ _ _ sides)
                      (split_calloc-IsLaidOut low bytes r rest whole _ _ _ _ sides))
                  λ one.
                    if-cases P (ltb r.base addr)
                      (λ before.
                        region first (a - first) b (ground (arith, before)) l
                          (ground (arith, near, before))
                          (IsLaidOut-lower _ (ground (arith, near, before)) lay))
                      λ high.
                        let lo : r.base < end = ground (arith, near) in
                        let hi : end < r.base + r.size = ground (arith, part, high) in
                        let start : low ≤ end = omega arith in
                        if-rule P (is_true (bit_and r.flags mem_map_external))
                          (upper low _ _ start lo hi _ (omega arith))
                          (if-rule P native (upper low _ _ start lo hi _ (omega arith)) (
                            trim_calloc-IsLaidOut low bytes r rest whole _ _ _
                              (λ h. upper low _ h start lo hi _ (omega arith))))

  pub unmap_walk-IsLaidOut :
      {low : ℕ} {regions : List Region} (passed : List Region) (bytes : ℕ → ℕ)
      → IsLaidOut low regions
      → IsLaidOut low
          ((unmap_walk host native passed regions (4096 * a) (4096 * a + 4096 * n) bytes).0)
  unfolding unmap_walk
  unmap_walk-IsLaidOut passed bytes empty = empty
  unmap_walk-IsLaidOut {low = low} passed bytes
        (region {r = r} {rest = rest} first pages b s l e lay) =
      let here =
        unmap_region host native (passed ++ r ∷ rest) r (4096 * a) (4096 * a + 4096 * n) bytes in
      unmap_region-IsLaidOut (passed ++ r ∷ rest) bytes low first pages r b s l e _
        (unmap_walk-IsLaidOut (passed ++ here.0) (here.1) lay)
