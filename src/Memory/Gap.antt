-- ===== src/Memory/Gap.antt =====
-- The search for a free range in `mem_mmap` of emu/src/memory.c, without MAP_FIXED.
use alpine_on_ios.Bits.{and_high}
use alpine_on_ios.Memory.Space.{Region}
use alpine_on_ios.Memory.Layout.{IsLaidOut, empty, region}
use alpine_on_ios.Memory.Insert.{IsApart, alone, apart}
use alpine_on_ios.Prelude.{
  ℕ, zero, suc, ◌+◌, ◌-◌, ◌*◌, ◌^◌, ◌≤◌, ◌<◌, ◌≡◌, ◌⊎◌, inl, inr, ap, ◌∙◌, arith, bit_and, false,
  ◌&&◌, ltb, if◌then◌else◌, u64, add64, List, [], ◌∷◌, Option, none, some, Bool-cases, Option-cases,
}

unfoldable pub page_align_up : ℕ → ℕ
page_align_up addr = bit_and (u64 (addr + 4096 - 1)) 0xffff_ffff_ffff_f000

-- One walk over the regions: where to try next, if `addr` conflicts with a region.
unfoldable pub conflict : List Region → ℕ → ℕ → Option ℕ
conflict [] addr size = none
conflict (q ∷ rest) addr size =
    let later = conflict rest addr size in
    let ce = add64 q.base q.size in
    if ltb addr ce && ltb q.base (add64 addr size) then some (page_align_up ce) else later

-- The endless loop on fuel, `none` if that is used up. A round for each region and one more are
-- enough.
unfoldable pub or_retry : Option ℕ → ℕ → (ℕ → Option ℕ) → Option ℕ
or_retry none addr again = some addr
or_retry (some next) addr again = again next

unfoldable pub find_gap : ℕ → List Region → ℕ → ℕ → Option ℕ
find_gap zero regions addr size = none
find_gap (suc fuel) regions addr size =
    or_retry (conflict regions addr size) addr (λ next. find_gap fuel regions next size)

-- How many regions end above an address.
pending : List Region → ℕ → ℕ
pending [] addr = 0
pending (q ∷ rest) addr =
    if ltb addr (q.base + q.size) then suc (pending rest addr) else pending rest addr

pending-le : (regions : List Region) (a b : ℕ) → a ≤ b → pending regions b ≤ pending regions a
unfolding pending
pending-le [] a b h = ground arith
pending-le (q ∷ rest) a b h = ground (arith, pending-le rest a b)

-- All regions end at or below `top`.
pub data IsBelow (top : ℕ) : List Region → Type 0 where
  no_region : IsBelow top []
  below :
      {q : Region} {rest : List Region}
      → q.base + q.size ≤ top
      → IsBelow top rest
      → IsBelow top (q ∷ rest)

page_end : (n : ℕ) → 4096 * n < 2 ^ 64 → page_align_up (4096 * n) ≡ 4096 * n
unfolding page_align_up
page_end n h = ground (arith, and_high 12 52 (4096 * n + 4096 - 1))

conflict-some :
    (addr size next top : ℕ) {low : ℕ} {regions : List Region}
    → IsLaidOut low regions
    → IsBelow top regions
    → conflict regions addr size ≡ some next
    → (addr < next) × (next ≤ top) × (pending regions next < pending regions addr)
unfolding conflict pending
conflict-some addr size next top empty no_region c = absurd (ground arith)
conflict-some addr size next top (region {r = q} {rest = rest} first pages b s l e lay) (below h hs)
      c =
    ground (
      arith,
      page_end (first + pages),
      conflict-some addr size next top lay hs,
      pending-le rest addr next,
    )

-- A range from `addr` that conflicts with no region.
abbrev pub range : ℕ → ℕ → Region
range addr size = record { base = addr; size = size; prot = 0; flags = 0; host = 0 }

apart-sides :
    (q : Region) (addr size : ℕ)
    → (ltb addr (q.base + q.size) && ltb q.base (addr + size)) ≡ false
    → (q.base + q.size ≤ addr) ⊎ (addr + size ≤ q.base)
apart-sides q addr size h = elim (Bool-cases (ltb addr (q.base + q.size))) [
  | inl low ↦ inr (ground (arith, h, low))
  | inr high ↦ inl (ground (arith, high))
]

conflict-none :
    (addr size : ℕ) {low : ℕ} {regions : List Region}
    → addr + size < 2 ^ 64
    → IsLaidOut low regions
    → conflict regions addr size ≡ none
    → IsApart (range addr size) regions
unfolding conflict
conflict-none addr size fits empty c = alone
conflict-none addr size fits (region {r = q} {rest = rest} first pages b s l e lay) c =
    apart (apart-sides q addr size (ground arith)) (conflict-none addr size fits lay (ground arith))

abbrev pub length : List Region → ℕ
length [] = 0
length (q ∷ rest) = suc (length rest)

pending-length : (regions : List Region) (addr : ℕ) → pending regions addr ≤ length regions
unfolding pending
pending-length [] addr = ground arith
pending-length (q ∷ rest) addr = ground (arith, pending-length rest addr)

module _ {regions : List Region} (size top : ℕ) (lay : IsLaidOut 0 regions)
    (ends : IsBelow top regions) (fits : top + size < 2 ^ 64) where
  -- The search from `addr` with enough fuel.
  search :
      (fuel addr : ℕ)
      → addr ≤ top
      → pending regions addr < fuel
      → (gap : ℕ) × (find_gap fuel regions addr size ≡ some gap)
        × (addr ≤ gap)
        × (gap ≤ top)
        × IsApart (range gap size) regions
  unfolding find_gap or_retry
  search zero addr h p = absurd (omega arith)
  search (suc fuel) addr h p = elim (Option-cases (conflict regions addr size)) [
    | inl free ↦ (
      addr,
      ap (λ (o : Option ℕ). or_retry o addr λ next. find_gap fuel regions next size) free,
      omega arith,
      h,
      conflict-none addr size (omega arith) lay free,
    )
    | inr (next, taken) ↦
        let step = conflict-some addr size next top lay ends taken in
        let later = search fuel next (step.1) (omega (arith, step.2)) in
        (
          later.0,
          ap (λ (o : Option ℕ). or_retry o addr λ next. find_gap fuel regions next size) taken
              ∙ later.1,
          omega (arith, step.0, later.2),
          later.3,
          later.4,
        )
  ]

-- If the regions are laid out in pages and end at or below a bound, the search of mem_mmap from an
-- address up to the bound, for a size that fits above it, ends within one round more than there
-- are regions, at an address from the start to the bound where the range overlaps no region.
pub find_gap-IsApart :
    (regions : List Region) (addr size top : ℕ)
    → IsLaidOut 0 regions
    → IsBelow top regions
    → addr ≤ top
    → top + size < 2 ^ 64
    → (gap : ℕ) × (find_gap (suc (length regions)) regions addr size ≡ some gap)
      × (addr ≤ gap)
      × (gap ≤ top)
      × IsApart (range gap size) regions
find_gap-IsApart regions addr size top lay ends h fits =
    search size top lay ends fits (suc (length regions)) addr h
      (omega (arith, pending-length regions addr))
