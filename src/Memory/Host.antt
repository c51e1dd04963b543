-- ===== src/Memory/Host.antt =====
-- What emu/src/memory.c gets from its host: blocks of memory, and copies between them. A byte of the
-- host is a function of its address. A freed block keeps its bytes; nothing reads them.
use alpine_on_ios.Memory.Space.{Region}
use alpine_on_ios.Prelude.{
  ℕ, ◌+◌, ◌-◌, ◌^◌, ◌≤◌, ◌<◌, ◌≡◌, ◌⊎◌, Bool, ◌&&◌, leb, ltb, if◌then◌else◌, List, [], ◌∷◌, ◌++◌,
  Option, some,
}

-- The answers of the host, as functions of the regions whose blocks are in use: the block that
-- `calloc`, `realloc` for the block of a region, or a `mmap` without MAP_FIXED finds, whether a `mmap` with MAP_FIXED succeeds, and what
-- `pread` of a file, a length and an offset reads: how many bytes (0 for an error), and which.
pub record Host : Type 0 where
  pub calloc : List Region → ℕ → Option ℕ
  pub realloc : List Region → Region → ℕ → Option ℕ
  pub mmap_anywhere : List Region → ℕ → Option ℕ
  pub mmap_fixed : ℕ → ℕ → Bool
  pub pread : ℕ → ℕ → ℕ → ℕ × (ℕ → ℕ)

-- `memcpy(dst, src, n)` on blocks that are apart or the same.
abbrev pub copy_bytes : (ℕ → ℕ) → ℕ → ℕ → ℕ → ℕ → ℕ
copy_bytes bytes dst src n i =
    if leb dst i && ltb i (dst + n) then bytes (src + (i - dst)) else bytes i

-- A new block is filled with zeros.
abbrev pub zero_bytes : (ℕ → ℕ) → ℕ → ℕ → ℕ → ℕ
zero_bytes bytes p n i = if leb p i && ltb i (p + n) then 0 else bytes i

-- `realloc(src, old + grow)` with the new block at `p`, and then `memset` of what was added.
abbrev pub grow_bytes : (ℕ → ℕ) → ℕ → ℕ → ℕ → ℕ → ℕ → ℕ
grow_bytes bytes p src old grow = zero_bytes (copy_bytes bytes p src old) (p + old) grow

-- The bytes that a read of a file puts at `p`.
abbrev pub put_bytes : (ℕ → ℕ) → ℕ → ℕ × (ℕ → ℕ) → ℕ → ℕ
put_bytes bytes p (n, content) i = if leb p i && ltb i (p + n) then content (i - p) else bytes i

-- Something that holds for each region of a list.
pub data Each (P : Region → Type 0) : List Region → Type 0 where
  done : Each P []
  each : {r : Region} {rest : List Region} → P r → Each P rest → Each P (r ∷ rest)

pub Each-++ :
    {P : Region → Type 0} {xs ys : List Region} → Each P xs → Each P ys → Each P (xs ++ ys)
Each-++ done all = all
Each-++ (each h hs) all = each h (Each-++ hs all)

pub Each-left : {P : Region → Type 0} (xs ys : List Region) → Each P (xs ++ ys) → Each P xs
Each-left [] ys all = done
Each-left (x ∷ xs) ys (each h hs) = each h (Each-left xs ys hs)

pub Each-right : {P : Region → Type 0} (xs ys : List Region) → Each P (xs ++ ys) → Each P ys
Each-right [] ys all = all
Each-right (x ∷ xs) ys (each h hs) = Each-right xs ys hs

pub Each-all : {P : Region → Type 0} → ((r : Region) → P r) → (xs : List Region) → Each P xs
Each-all f [] = done
Each-all f (x ∷ xs) = each (f x) (Each-all f xs)

pub Each-map :
    {P Q : Region → Type 0} {xs : List Region} → ((r : Region) → P r → Q r) → Each P xs → Each Q xs
Each-map f done = done
Each-map f (each {r = r} h hs) = each (f r h) (Each-map f hs)

pub Each-head : {P : Region → Type 0} {x : Region} {xs : List Region} → Each P (x ∷ xs) → P x
Each-head (each h hs) = h

pub Each-tail : {P : Region → Type 0} {x : Region} {xs : List Region} → Each P (x ∷ xs) → Each P xs
Each-tail (each h hs) = hs

-- The block of a region ends below the end of the host's memory.
abbrev pub HasBlock : Region → Type 0
HasBlock r = r.host + r.size < 2 ^ 64

-- The block of a region has no byte of another block.
abbrev pub IsOutside : ℕ → ℕ → Region → Type 0
IsOutside p n r = (p + n ≤ r.host) ⊎ (r.host + r.size ≤ p)

-- The block of a region ends at or below a limit.
abbrev pub EndsBelow : ℕ → Region → Type 0
EndsBelow limit r = r.host + r.size ≤ limit

-- `calloc` finds a block, which has no byte of a block in use.
unfoldable pub HasMemory : Host → List Region → ℕ → Type 0
HasMemory host live n =
    (p : ℕ) × (host.calloc live n ≡ some p) × (p + n < 2 ^ 64) × Each (IsOutside p n) live

-- What the host promises: while the blocks in use end at or below a limit, there is memory for one
-- more block of at most that size, apart from them; a block that is given a new size keeps clear of
-- the others; and `pread` reads no more than it is asked for.
pub record Serves (host : Host) (limit : ℕ) : Type 0 where
  pub small : limit < 2 ^ 63
  pub finds :
      (live : List Region) (n : ℕ) → Each (EndsBelow limit) live → n ≤ limit → HasMemory host live n
  pub resizes :
      (live : List Region) (r : Region) (n : ℕ)
      → Each (EndsBelow limit) live
      → n ≤ limit
      → (p : ℕ) × (host.realloc live r n ≡ some p)
        × (p + n < 2 ^ 64)
        × Each (λ q. (q ≡ r) ⊎ IsOutside p n q) live
  pub at_most : (fd n offset : ℕ) → (host.pread fd n offset).0 ≤ n
