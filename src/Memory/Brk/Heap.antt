-- ===== src/Memory/Brk/Heap.antt =====
-- The list of regions and what the walk of it finds when the heap grows into a new block.
use mathlib.Core.Option.{some-injective}
use alpine_on_ios.Memory.Brk.{find_heap, grow_heap, is_heap}
use alpine_on_ios.Memory.Host.{grow_bytes, Each, done, each, HasBlock, IsOutside}
use alpine_on_ios.Memory.Layout.{IsLaidOut, empty, region}
use alpine_on_ios.Memory.Space.{Region}
use alpine_on_ios.Memory.Unmap.Pages.{IsLaidOut-lower}
use alpine_on_ios.Memory.Unmap.Round.{SameBlock}
use alpine_on_ios.Memory.Unmap.Walk.{byte_at-SameBlock}
use alpine_on_ios.Memory.View.{byte_at, region_byte, byte_at-cons}
use alpine_on_ios.Prelude.{
  ℕ, ◌+◌, ◌-◌, ◌*◌, ◌^◌, ◌≤◌, ◌<◌, bit_and, ◌≡◌, ◌⊎◌, sym, ap, subst, arith, ◌&&◌, ◌==◌, leb, ltb,
  if◌then◌else◌, add64, List, ◌∷◌, none, some, inl, inr, Bool-cases, if-cases,
}

module _ (brk_base a n : ℕ) (heap : Region) (fits : 4096 * a + 4096 * n < 2 ^ 64) where
  -- The old and the new end of the heap.
  abbrev top : ℕ
  top = 4096 * a

  pub find_heap-top :
      {low : ℕ} {regions : List Region}
      → IsLaidOut low regions
      → find_heap regions brk_base top ≡ some heap
      → (low ≤ heap.base) × (heap.base + heap.size ≡ top)
  unfolding find_heap
  find_heap-top {low = low} empty f = absurd (ground (arith, f))
  find_heap-top {low = low} (region {r = q} {rest = rest} first pages b s l e lay) f =
      elim (Bool-cases (is_heap brk_base top q)) [
        | inl here ↦
            let is : q ≡ heap = some-injective _ _ (ground (arith, here, f)) in
            subst (λ (h : Region). (low ≤ h.base) × (h.base + h.size ≡ top)) is
              (l, ground (arith, here))
        | inr later ↦
            let found = find_heap-top lay (ground (arith, later, f)) in
            (omega (arith, found.0), found.1)
      ]

  -- The regions behind the heap leave room for it.
  behind :
      {low : ℕ} {regions : List Region}
      → top ≤ low
      → IsLaidOut low regions
      → Each (λ q. (q.base < top) ⊎ (4096 * a + 4096 * n ≤ q.base)) regions
      → IsLaidOut (4096 * a + 4096 * n) regions
  behind h empty gaps = empty
  behind h (region first pages b s l e lay) (each gap gaps) =
      region first pages b s (ground (arith, gap)) e lay

  pub grow_heap-IsLaidOut :
      (p : ℕ) {low : ℕ} {regions : List Region}
      → IsLaidOut low regions
      → Each (λ q. (q.base < top) ⊎ (4096 * a + 4096 * n ≤ q.base)) regions
      → IsLaidOut low (grow_heap regions brk_base top p (4096 * n))
  unfolding grow_heap
  grow_heap-IsLaidOut p {low = low} empty gaps = empty
  grow_heap-IsLaidOut p {low = low} (region {r = q} {rest = rest} first pages b s l e lay)
        (each gap gaps) =
      if-cases (IsLaidOut low) (is_heap brk_base top q)
        (λ here.
          region first (pages + n) b (ground (arith, here)) l (ground (arith, here))
            (IsLaidOut-lower _ (ground (arith, here)) (behind (ground (arith, here)) lay gaps)))
        (λ other. region first pages b s l e (grow_heap-IsLaidOut p lay gaps))

  -- What the walk finds when the heap has its new block.
  module _ (bytes : ℕ → ℕ) (p prot i : ℕ) (hp : p + (heap.size + 4096 * n) < 2 ^ 64) where
    abbrev grown_bytes : ℕ → ℕ
    grown_bytes = grow_bytes bytes p heap.host heap.size (4096 * n)

    same_block : (q : Region) → IsOutside p (heap.size + 4096 * n) q → SameBlock bytes grown_bytes q
    same_block q far j h = ground (arith, far)

    pub grow_heap-HasBlock :
        {regions : List Region}
        → find_heap regions brk_base top ≡ some heap
        → Each HasBlock regions
        → Each HasBlock (grow_heap regions brk_base top p (4096 * n))
    unfolding find_heap grow_heap
    grow_heap-HasBlock f done = done
    grow_heap-HasBlock f (each {r = q} {rest = rest} h hs) =
        if-cases (Each HasBlock) (is_heap brk_base top q)
          (λ here.
            let is : q ≡ heap = some-injective _ _ (ground (arith, here, f)) in
            let sizes : q.size ≡ heap.size = ap (λ (x : Region). x.size) is in
            each (ground (arith, sizes)) hs)
          (λ other. each h (grow_heap-HasBlock (ground (arith, other, f)) hs))

    -- A region beside the heap keeps its block; the heap itself is not beside the heap.
    beside :
        (q : Region)
        → (q ≡ heap) ⊎ IsOutside p (heap.size + 4096 * n) q
        → (heap.base + heap.size ≤ q.base) ⊎ (q.base + q.size ≤ heap.base)
        → SameBlock bytes grown_bytes q
    beside q (inl is) side j h =
        let bases : q.base ≡ heap.base = ap (λ (x : Region). x.base) is in
        let sizes : q.size ≡ heap.size = ap (λ (x : Region). x.size) is in
        absurd (ground (arith, bases, sizes, side))
    beside q (inr far) side j h = same_block q far j h

    behind-SameBlock :
        {low : ℕ} {regions : List Region}
        → heap.base + heap.size ≤ low
        → IsLaidOut low regions
        → Each (λ q. (q ≡ heap) ⊎ IsOutside p (heap.size + 4096 * n) q) regions
        → Each (SameBlock bytes grown_bytes) regions
    behind-SameBlock h empty done = done
    behind-SameBlock h (region {r = q} first pages b s l e lay) (each far fars) =
        each (beside q far (inl (omega arith))) (behind-SameBlock (omega arith) lay fars)

    -- The heap, with what follows it.
    heap-byte_at :
        (rest : List Region)
        → HasBlock heap
        → heap.base + heap.size ≡ top
        → Each HasBlock rest
        → Each (SameBlock bytes grown_bytes) rest
        → byte_at
            (record heap { size = add64 heap.size (4096 * n); host = p } ∷ rest)
            grown_bytes
            prot
            i
          ≡ (if leb top i && ltb i (4096 * a + 4096 * n)
              then (if bit_and heap.prot prot == prot then some 0 else none)
              else byte_at (heap ∷ rest) bytes prot i)
    unfolding region_byte
    heap-byte_at rest h ends hs same =
        let size : add64 heap.size (4096 * n) ≡ heap.size + 4096 * n = omega arith in
        ground (
          arith,
          size,
          byte_at-cons (record heap { size = add64 heap.size (4096 * n); host = p }) rest
              grown_bytes prot i (ground (arith, size)),
          byte_at-cons heap rest bytes prot i h,
          byte_at-SameBlock bytes grown_bytes prot i hs same,
        )

    -- A region before the heap, which ends below it.
    before-byte_at :
        (q : Region) (rest rest' : List Region)
        → HasBlock q
        → q.base + q.size ≤ top
        → SameBlock bytes grown_bytes q
        → byte_at rest' grown_bytes prot i ≡ (
            if leb top i && ltb i (4096 * a + 4096 * n)
            then (if bit_and heap.prot prot == prot then some 0 else none)
            else byte_at rest bytes prot i)
        → byte_at (q ∷ rest') grown_bytes prot i ≡ (
            if leb top i && ltb i (4096 * a + 4096 * n)
            then (if bit_and heap.prot prot == prot then some 0 else none)
            else byte_at (q ∷ rest) bytes prot i)
    unfolding region_byte
    before-byte_at q rest rest' h below same later = ground (
      arith,
      byte_at-cons q rest' grown_bytes prot i h,
      byte_at-cons q rest bytes prot i h,
      same (i - q.base),
      later,
    )

    pub grow_heap-byte_at :
        {low : ℕ} {regions : List Region}
        → IsLaidOut low regions
        → Each HasBlock regions
        → Each (λ q. (q.base < top) ⊎ (4096 * a + 4096 * n ≤ q.base)) regions
        → Each (λ q. (q ≡ heap) ⊎ IsOutside p (heap.size + 4096 * n) q) regions
        → find_heap regions brk_base top ≡ some heap
        → byte_at (grow_heap regions brk_base top p (4096 * n)) grown_bytes prot i ≡ (
            if leb top i && ltb i (4096 * a + 4096 * n)
            then (if bit_and heap.prot prot == prot then some 0 else none)
            else byte_at regions bytes prot i)
    unfolding find_heap grow_heap
    grow_heap-byte_at empty hs gaps fars f = absurd (ground (arith, f))
    grow_heap-byte_at (region {r = q} {rest = rest} first pages b s l e lay) (each h hs)
          (each gap gaps) (each far fars) f =
        elim (Bool-cases (is_heap brk_base top q)) [
          | inl here ↦
              let is : q ≡ heap = some-injective _ _ (ground (arith, here, f)) in
              let ends = find_heap-top (region first pages b s l e lay) f in
              let lay' = subst (λ (x : Region). IsLaidOut (x.base + x.size) rest) is lay in
              rw (here) (
                subst
                  (λ (x : Region).
                    byte_at (record x { size = add64 x.size (4096 * n); host = p } ∷ rest)
                      grown_bytes prot i
                    ≡ (if leb top i && ltb i (4096 * a + 4096 * n)
                        then (if bit_and heap.prot prot == prot then some 0 else none)
                        else byte_at (x ∷ rest) bytes prot i))
                  (sym is)
                  (heap-byte_at rest (subst HasBlock is h) (ends.1) hs
                    (behind-SameBlock (omega arith) lay' fars)))
          | inr other ↦
              let f' : find_heap rest brk_base top ≡ some heap = ground (arith, other, f) in
              let ends = find_heap-top lay f' in
              rw (other) (
                before-byte_at q rest (grow_heap rest brk_base top p (4096 * n)) h
                  (omega (arith, ends.0, ends.1)) (beside q far (inr (omega (arith, ends.0))))
                  (grow_heap-byte_at lay hs gaps fars f'))
        ]
