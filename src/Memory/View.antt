-- ===== src/Memory/View.antt =====
-- The memory of a process as its regions show it: for each address and permission, the byte that the
-- walk of the regions finds, or none.
use alpine_on_ios.Memory.Host.{HasBlock}
use alpine_on_ios.Memory.Space.{Region, find_region}
use alpine_on_ios.Prelude.{
  ℕ, ◌+◌, ◌-◌, bit_and, ◌≡◌, arith, ◌&&◌, ◌==◌, leb, ltb, if◌then◌else◌, List, ◌∷◌, Option, none,
  some, ◌>>=◌,
}

-- The byte that an access of one byte finds.
unfoldable pub byte_at : List Region → (ℕ → ℕ) → ℕ → ℕ → Option ℕ
byte_at regions bytes prot i = find_region regions i 1 prot >>= λ p. some (bytes p)

-- The answer of a region for an address inside it.
unfoldable pub region_byte : Region → (ℕ → ℕ) → ℕ → ℕ → Option ℕ
region_byte r bytes prot i =
    if bit_and r.prot prot == prot then some (bytes (r.host + (i - r.base))) else none

pub byte_at-cons :
    (r : Region) (rest : List Region) (bytes : ℕ → ℕ) (prot i : ℕ)
    → HasBlock r
    → byte_at (r ∷ rest) bytes prot i ≡ (
        if leb r.base i && ltb i (r.base + r.size)
        then region_byte r bytes prot i
        else byte_at rest bytes prot i)
unfolding byte_at region_byte find_region
byte_at-cons r rest bytes prot i h = ground arith
