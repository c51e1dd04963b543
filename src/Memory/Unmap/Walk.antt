-- ===== src/Memory/Unmap/Walk.antt =====
-- What the walk of the regions finds after `unmap_range`: nothing in the range, and elsewhere what it
-- found before.
use alpine_on_ios.Memory.Host.{
  Host, Each, done, each, Each-++, Each-left, Each-right, Each-all, Each-head, Each-tail, HasBlock,
  EndsBelow, HasMemory, Serves,
}
use alpine_on_ios.Memory.Space.{Region, find_region}
use alpine_on_ios.Memory.Layout.{IsLaidOut, empty, region}
use alpine_on_ios.Memory.Unmap.{Pieces, unmap_region, unmap_walk}
use alpine_on_ios.Memory.Unmap.Round.{SameBlock, IsUnmapped, unmap_region-IsUnmapped}
use alpine_on_ios.Memory.View.{byte_at, region_byte, byte_at-cons}
use alpine_on_ios.Prelude.{
  ℕ, ◌+◌, ◌-◌, ◌^◌, ◌≤◌, ◌<◌, ◌≡◌, ◌⊎◌, refl, ◌∙◌, arith, ◌&&◌, leb, ltb, false, inl, inr, ◌||◌,
  add64, Bool-cases, if-cases, List, ◌∷◌, ◌++◌, none,
}

-- The walk finds only bytes in the blocks of the regions.
pub byte_at-SameBlock :
    {regions : List Region} (bytes b : ℕ → ℕ) (prot i : ℕ)
    → Each HasBlock regions
    → Each (SameBlock bytes b) regions
    → byte_at regions b prot i ≡ byte_at regions bytes prot i
unfolding byte_at find_region region_byte
byte_at-SameBlock bytes b prot i done done = refl
byte_at-SameBlock bytes b prot i (each {r = r} {rest = rest} h hs) (each same others) = ground (
  arith,
  byte_at-cons r rest b prot i h,
  byte_at-cons r rest bytes prot i h,
  byte_at-SameBlock bytes b prot i hs others,
  same (i - r.base),
)

SameBlock-trans :
    (a b c : ℕ → ℕ) {xs : List Region}
    → Each (SameBlock a b) xs
    → Each (SameBlock b c) xs
    → Each (SameBlock a c) xs
SameBlock-trans a b c done done = done
SameBlock-trans a b c (each f fs) (each g gs) =
    each (λ j h. g j h ∙ f j h) (SameBlock-trans a b c fs gs)

-- The regions that are below the end of the address space.
abbrev pub EndsInSpace : Region → Type 0
EndsInSpace r = r.base + r.size < 2 ^ 64

pub IsLaidOut-EndsInSpace :
    {low : ℕ} {regions : List Region} → IsLaidOut low regions → Each EndsInSpace regions
IsLaidOut-EndsInSpace empty = done
IsLaidOut-EndsInSpace (region first pages b s l e lay) = each e (IsLaidOut-EndsInSpace lay)

-- A region that the range does not cut above needs no new block.
low-EndsBelow :
    (host : Host) (addr end limit : ℕ) (live : List Region) (r : Region) (bytes : ℕ → ℕ)
    → EndsBelow limit r
    → limit < 2 ^ 63
    → EndsInSpace r
    → addr ≤ end
    → end < 2 ^ 64
    → r.base + r.size ≤ end
    → Each (EndsBelow limit) ((unmap_region host false live r addr end bytes).0)
unfolding unmap_region
low-EndsBelow host addr end limit live r bytes h small top mid he cut =
    let P : Pieces → Type 0 = λ out. Each (EndsBelow limit) (out.0) in
    if-cases P (leb (add64 r.base r.size) addr || leb end r.base) (λ away. each h done)
      λ near.
        if-cases P (leb addr r.base && leb (add64 r.base r.size) end) (λ within. done)
          λ part.
            if-cases P (ltb r.base addr && ltb end (add64 r.base r.size))
              (λ both. absurd (ground (arith, both)))
              λ one.
                if-cases P (ltb r.base addr) (λ before. each (ground (arith, near, before)) done)
                  λ high. absurd (ground (arith, high, part))

-- The regions behind one that ends above the range.
behind :
    {low : ℕ} {regions : List Region} (end : ℕ)
    → end ≤ low
    → IsLaidOut low regions
    → Each (λ q. end ≤ q.base) regions
behind end h empty = done
behind end h (region first pages b s l e lay) = each (omega arith) (behind end (omega arith) lay)

module _ (host : Host) (limit : ℕ) (serves : Serves host limit) (addr end : ℕ) (mid : addr ≤ end)
    (he : end < 2 ^ 64) where
  pub record IsWalked (passed regions : List Region) (bytes : ℕ → ℕ) (out : List Region × (ℕ → ℕ))
      : Type 0 where
    pub same : Each (SameBlock bytes (out.1)) passed
    pub blocks : Each HasBlock (out.0)
    pub inside : (prot i : ℕ) → addr ≤ i → i < end → byte_at (out.0) (out.1) prot i ≡ none
    pub outside :
        (prot i : ℕ)
        → (i < addr) ⊎ (end ≤ i)
        → byte_at (out.0) (out.1) prot i ≡ byte_at regions bytes prot i

  -- There is memory for what the rest of the walk asks for: all blocks are low, or no region is cut.
  abbrev Ready : List Region → List Region → Type 0
  Ready passed regions =
      Each (EndsBelow limit) (passed ++ regions) ⊎ Each (λ q. end ≤ q.base) regions

  Ready-finds :
      (passed : List Region) (r : Region) (rest : List Region)
      → Ready passed (r ∷ rest)
      → r.base < end
      → (n : ℕ) → n ≤ r.size
      → HasMemory host (passed ++ r ∷ rest) n
  Ready-finds passed r rest (inl low) cut n h =
      let own : EndsBelow limit r = Each-head (Each-right passed (r ∷ rest) low) in
      serves.finds (passed ++ r ∷ rest) n low (omega (arith, own))
  Ready-finds passed r rest (inr above) cut n h = absurd (omega (arith, Each-head above))

  Ready-next :
      (passed : List Region) (r : Region) (rest : List Region) (bytes : ℕ → ℕ)
      → EndsInSpace r
      → IsLaidOut (r.base + r.size) rest
      → Ready passed (r ∷ rest)
      → Ready (passed ++ (unmap_region host false (passed ++ r ∷ rest) r addr end bytes).0) rest
  Ready-next passed r rest bytes top lay (inr above) = inr (Each-tail above)
  Ready-next passed r rest bytes top lay (inl low) = elim (Bool-cases (ltb end (r.base + r.size))) [
    | inl cut ↦ inr (behind end (ground (arith, cut)) lay)
    | inr whole ↦
        let own : EndsBelow limit r = Each-head (Each-right passed (r ∷ rest) low) in
        let here =
          low-EndsBelow host addr end limit (passed ++ r ∷ rest) r bytes own serves.small top mid he
            (ground (arith, whole)) in
        inl (
          Each-++ (Each-++ (Each-left passed (r ∷ rest) low) here)
            (Each-tail (Each-right passed (r ∷ rest) low)))
  ]

  pub unmap_walk-IsWalked :
      (passed : List Region) {low : ℕ} {regions : List Region} (bytes : ℕ → ℕ)
      → IsLaidOut low regions
      → Each HasBlock regions
      → Ready passed regions
      → IsWalked passed regions bytes (unmap_walk host false passed regions addr end bytes)
  unfolding unmap_walk byte_at find_region
  unmap_walk-IsWalked passed bytes empty done ready = record {
    same = Each-all (λ q j h. refl) passed;
    blocks = done;
    inside = λ prot i lo hi. refl;
    outside = λ prot i o. refl;
  }
  unmap_walk-IsWalked passed bytes (region {r = r} {rest = rest} first pages b s l top lay)
        (each h hs) ready =
      let live = passed ++ r ∷ rest in
      let member : (P : Region → Type 0) → Each P live → P r =
        λ P all. Each-head (Each-right passed (r ∷ rest) all) in
      let here = unmap_region host false live r addr end bytes in
      let step : IsUnmapped addr end live r bytes here =
        unmap_region-IsUnmapped addr end live r bytes host
          (λ cut hi n fits. Ready-finds passed r rest ready cut n fits) h member top mid he in
      let later =
        unmap_walk-IsWalked (passed ++ here.0) {regions = rest} (here.1) lay hs
          (Ready-next passed r rest bytes top lay ready) in
      let out = unmap_walk host false (passed ++ here.0) rest addr end (here.1) in
      let kept = Each-tail (Each-right passed (r ∷ rest) step.others) in
      record {
        same =
            SameBlock-trans bytes (here.1) (out.1) (Each-left passed (r ∷ rest) step.others)
              (Each-left passed (here.0) later.same);
        blocks = Each-++ step.blocks later.blocks;
        inside =
            λ prot i lo hi. step.inside (out.0) (out.1) prot i lo hi ∙ later.inside prot i lo hi;
        outside = λ prot i o.
            let front =
              step.outside (out.0) (out.1) prot i o (Each-right passed (here.0) later.same) in
            let back = later.outside prot i o ∙ byte_at-SameBlock bytes (here.1) prot i hs kept in
            ground (arith, front, back, byte_at-cons r rest bytes prot i h);
      }
