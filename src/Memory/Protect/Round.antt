-- ===== src/Memory/Protect/Round.antt =====
-- One round of `mem_mprotect` in native mode: the pieces of a region hold what it held.
use alpine_on_ios.Memory.Host.{Host, HasBlock}
use alpine_on_ios.Memory.Protect.{
  Protected, upper_piece, protect_region, protect_middle, protect_tail, protect_lower,
}
use alpine_on_ios.Memory.Space.{Region, find_region}
use alpine_on_ios.Memory.View.{byte_at, region_byte}
use alpine_on_ios.Prelude.{
  ℕ, ◌+◌, ◌-◌, ◌^◌, ◌≤◌, ◌<◌, bit_and, ◌≡◌, refl, arith, true, ◌&&◌, ◌||◌, ◌==◌, leb, ltb,
  if◌then◌else◌, add64, sub64, List, ◌∷◌, ◌++◌, Option, none, some, if-cases,
}

module _ (host : Host) (addr end prot : ℕ) (mid : addr ≤ end) (he : end < 2 ^ 64)
    (bytes : ℕ → ℕ) where
  -- The pieces of a region hold its bytes, with the new permission inside the range.
  module _ (r : Region) (h : HasBlock r) (top : r.base + r.size < 2 ^ 64) (rest : List Region)
      (q i : ℕ) where
    abbrev expected : Option ℕ
    expected =
        if leb r.base i && ltb i (r.base + r.size)
        then (if leb addr i && ltb i end
            then (if bit_and prot q == q then some (bytes (r.host + (i - r.base))) else none)
            else region_byte r bytes q i)
        else byte_at rest bytes q i

    -- A piece of the block finds the bytes of the block.
    piece_at :
        (base size prot' flags : ℕ) (rest' : List Region)
        → r.base ≤ base
        → base + size ≤ r.base + r.size
        → byte_at
            (record {
              base = base;
              size = size;
              prot = prot';
              flags = flags;
              host = add64 r.host (sub64 base r.base);
            }
              ∷ rest')
            bytes
            q
            i
          ≡ (if leb base i && ltb i (base + size)
              then (if bit_and prot' q == q then some (bytes (r.host + (i - r.base))) else none)
              else byte_at rest' bytes q i)
    unfolding byte_at find_region
    piece_at base size prot' flags rest' lo hi = ground arith

    start_at :
        (size : ℕ) (rest' : List Region)
        → size ≤ r.size
        → byte_at (record r { size = size } ∷ rest') bytes q i ≡ (
            if leb r.base i && ltb i (r.base + size)
            then (if bit_and r.prot q == q then some (bytes (r.host + (i - r.base))) else none)
            else byte_at rest' bytes q i)
    unfolding byte_at find_region
    start_at size rest' hi = ground arith

    away_at :
        (leb (add64 r.base r.size) addr || leb end r.base) ≡ true
        → byte_at (r ∷ rest) bytes q i ≡ expected
    unfolding region_byte
    away_at away = ground (arith, start_at r.size rest, away)

    whole_at :
        addr ≤ r.base
        → r.base + r.size ≤ end
        → byte_at (record r { prot = prot } ∷ rest) bytes q i ≡ expected
    unfolding byte_at find_region
    whole_at lo hi = ground arith

    -- The middle and the part above it, whose sizes are those of the code.
    abbrev middle_of : ℕ → ℕ → Region
    middle_of start stop = record {
      base = start;
      size = sub64 stop start;
      prot = prot;
      flags = r.flags;
      host = add64 r.host (sub64 start r.base);
    }

    abbrev upper_of : ℕ → Region
    upper_of stop = upper_piece r stop (add64 r.host (sub64 stop r.base))

    both_at :
        (start stop : ℕ)
        → start ≡ addr
        → stop ≡ end
        → r.base < start
        → stop < r.base + r.size
        → byte_at
            (record r { size = sub64 start r.base } ∷ middle_of start stop ∷ upper_of stop ∷ rest)
            bytes
            q
            i
          ≡ expected
    unfolding region_byte
    both_at start stop first last lo hi = ground (
      arith,
      start_at (sub64 start r.base) (middle_of start stop ∷ upper_of stop ∷ rest) (omega arith),
      piece_at start (sub64 stop start) prot r.flags (upper_of stop ∷ rest) (omega arith)
          (omega arith),
      piece_at stop (sub64 (add64 r.base r.size) stop) r.prot r.flags rest (omega arith)
          (omega arith),
    )

    last_at :
        (start stop : ℕ)
        → start ≡ addr
        → stop ≡ r.base + r.size
        → r.base < start
        → start < stop
        → stop ≤ end
        → byte_at (record r { size = sub64 start r.base } ∷ middle_of start stop ∷ rest) bytes q i
          ≡ expected
    unfolding region_byte
    last_at start stop first last lo in_range hi = ground (
      arith,
      start_at (sub64 start r.base) (middle_of start stop ∷ rest) (omega arith),
      piece_at start (sub64 stop start) prot r.flags rest (omega arith) (omega arith),
    )

    first_at :
        (stop : ℕ)
        → stop ≡ end
        → addr ≤ r.base
        → r.base < stop
        → stop < r.base + r.size
        → byte_at
            (record r { size = sub64 stop r.base; prot = prot } ∷ upper_of stop ∷ rest)
            bytes
            q
            i
          ≡ expected
    unfolding region_byte byte_at find_region
    first_at stop last lo in_range hi = ground (
      arith,
      piece_at stop (sub64 (add64 r.base r.size) stop) r.prot r.flags rest (omega arith)
          (omega arith),
    )

    pub protect_region-byte_at :
        (live : List Region)
        → let out = protect_region host true live r addr end prot bytes in
          (out.1 ≡ bytes) × (out.2 ≡ true) × (byte_at (out.0 ++ rest) bytes q i ≡ expected)
    unfolding protect_region protect_middle protect_tail protect_lower
    protect_region-byte_at live =
        let P : Protected → Type 0 = λ out.
          (out.1 ≡ bytes) × (out.2 ≡ true) × (byte_at (out.0 ++ rest) bytes q i ≡ expected) in
        let rend = add64 r.base r.size in
        let start = if ltb r.base addr then addr else r.base in
        let stop = if ltb end rend then end else rend in
        if-cases P (leb rend addr || leb end r.base) (λ away. (refl, refl, away_at away))
          λ near.
            if-cases P (start == r.base && stop == rend)
              (λ whole. (refl, refl, whole_at (ground (arith, whole)) (ground (arith, whole))))
              λ part.
                if-cases P (ltb r.base start)
                  (λ inner.
                    if-cases P (ltb stop rend)
                      (λ tail. (
                        refl,
                        refl,
                        both_at start stop (ground (arith, inner)) (ground (arith, tail))
                            (ground (arith, inner)) (ground (arith, tail)),
                      ))
                      (λ last. (
                        refl,
                        refl,
                        last_at start stop (ground (arith, inner)) (ground (arith, last))
                            (ground (arith, inner)) (ground (arith, inner, last, near))
                            (ground (arith, last)),
                      )))
                  (λ outer. (
                    refl,
                    refl,
                    first_at stop (ground (arith, outer, part)) (ground (arith, outer))
                        (ground (arith, outer, part, near)) (ground (arith, outer, part)),
                  ))
