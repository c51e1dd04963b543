-- ===== src/Memory/Map/Gaps.antt =====
-- The gap that `mem_mmap` finds starts at a page.
use alpine_on_ios.Bits.{and_high}
use alpine_on_ios.Memory.Gap.{page_align_up, conflict, find_gap, or_retry}
use alpine_on_ios.Memory.Space.{Region}
use alpine_on_ios.Prelude.{
  ℕ, zero, suc, ◌+◌, ◌-◌, ◌*◌, ◌/◌, ◌≡◌, arith, ◌&&◌, ltb, List, [], ◌∷◌, Option, some, u64, add64,
  sym, ap, ◌∙◌, inl, inr, Option-cases, Bool-cases,
}

-- A multiple of the page size.
abbrev pub IsPage : ℕ → Type 0
IsPage x = (k : ℕ) × (x ≡ 4096 * k)

pub page_align_up-IsPage : (x : ℕ) → IsPage (page_align_up x)
unfolding page_align_up
page_align_up-IsPage x = let y = u64 (x + 4096 - 1) in (y / 4096, ground (arith, and_high 12 52 y))

conflict-IsPage :
    (regions : List Region) (addr size next : ℕ)
    → conflict regions addr size ≡ some next
    → IsPage next
unfolding conflict
conflict-IsPage [] addr size next c = absurd (ground (arith, c))
conflict-IsPage (q ∷ rest) addr size next c =
    let ce = add64 q.base q.size in
    let page = page_align_up-IsPage ce in
    elim (Bool-cases (ltb addr ce && ltb q.base (add64 addr size))) [
      | inl here ↦
          let is : page_align_up ce ≡ next = ground (arith, here, c) in (page.0, sym is ∙ page.1)
      | inr later ↦ conflict-IsPage rest addr size next (ground (arith, later, c))
    ]

pub find_gap-IsPage :
    (fuel : ℕ) (regions : List Region) (addr size gap : ℕ)
    → IsPage addr
    → find_gap fuel regions addr size ≡ some gap
    → IsPage gap
unfolding find_gap or_retry
find_gap-IsPage zero regions addr size gap a f = absurd (ground (arith, f))
find_gap-IsPage (suc fuel) regions addr size gap a f =
    elim (Option-cases (conflict regions addr size)) [
      | inl free ↦ let is : addr ≡ gap = ground (arith, free, f) in (a.0, sym is ∙ a.1)
      | inr (next, taken) ↦
          find_gap-IsPage fuel regions next size gap (conflict-IsPage regions addr size next taken)
            (ap (λ (o : Option ℕ). or_retry o addr λ n. find_gap fuel regions n size) (sym taken)
              ∙ f)
    ]
