-- ===== src/Memory/Unmap/Round.antt =====
-- One round of `unmap_range`: the pieces of a region hold what it held outside the range.
use alpine_on_ios.Memory.Host.{
  Host, copy_bytes, zero_bytes, Each, done, each, Each-all, Each-map, Each-head, Each-tail,
  HasBlock, IsOutside, HasMemory,
}
use alpine_on_ios.Memory.Space.{Region}
use alpine_on_ios.Memory.Unmap.{mem_map_external, Pieces, unmap_region, split_calloc, trim_calloc}
use alpine_on_ios.Memory.View.{byte_at, region_byte, byte_at-cons}
use alpine_on_ios.Prelude.{
  ℕ, ◌+◌, ◌-◌, ◌^◌, ◌≤◌, ◌<◌, ◌≡◌, ◌⊎◌, inl, inr, refl, sym, ap, arith, ◌&&◌, ◌||◌, leb, ltb, true,
  false, if-rule, if-cases, if◌then◌else◌, add64, sub64, is_true, bit_and, List, [], ◌∷◌, ◌++◌,
}

-- The bytes of a block, kept.
abbrev pub SameBlock : (ℕ → ℕ) → (ℕ → ℕ) → Region → Type 0
SameBlock bytes bytes' r = (j : ℕ) → j < r.size → bytes' (r.host + j) ≡ bytes (r.host + j)

module _ (addr end : ℕ) (live : List Region) (r : Region) (bytes : ℕ → ℕ) where
  -- What the pieces of a region are for.
  pub record IsUnmapped (out : Pieces) : Type 0 where
    pub others : Each (SameBlock bytes (out.1)) live
    pub blocks : Each HasBlock (out.0)
    pub inside :
        (rest : List Region) (b : ℕ → ℕ) (prot i : ℕ)
        → addr ≤ i
        → i < end
        → byte_at (out.0 ++ rest) b prot i ≡ byte_at rest b prot i
    pub outside :
        (rest : List Region) (b : ℕ → ℕ) (prot i : ℕ)
        → (i < addr) ⊎ (end ≤ i)
        → Each (SameBlock (out.1) b) (out.0)
        → byte_at (out.0 ++ rest) b prot i ≡ (
            if leb r.base i && ltb i (r.base + r.size)
            then region_byte r bytes prot i
            else byte_at rest b prot i)

  -- A part of the region, with the same bytes at the same guest addresses.
  record IsPiece (bytes' : ℕ → ℕ) (q : Region) : Type 0 where
    block : HasBlock q
    same_prot : q.prot ≡ r.prot
    copied :
        (i : ℕ)
        → q.base ≤ i
        → i < q.base + q.size
        → bytes' (q.host + (i - q.base)) ≡ bytes (r.host + (i - r.base))

  piece_at :
      (bytes' : ℕ → ℕ) (q : Region)
      → IsPiece bytes' q
      → (rest : List Region) (b : ℕ → ℕ) (prot i : ℕ) → SameBlock bytes' b q
      → byte_at (q ∷ rest) b prot i ≡ (
          if leb q.base i && ltb i (q.base + q.size)
          then region_byte r bytes prot i
          else byte_at rest b prot i)
  unfolding region_byte
  piece_at bytes' q piece rest b prot i same = ground (
    arith,
    byte_at-cons q rest b prot i piece.block,
    piece.same_prot,
    piece.copied i,
    same (i - q.base),
  )

  module _ (bytes' : ℕ → ℕ) (others : Each (SameBlock bytes bytes') live) where
    no_piece : addr ≤ r.base → r.base + r.size ≤ end → IsUnmapped ([], bytes')
    no_piece lo hi = record {
      others = others;
      blocks = done;
      inside = λ rest b prot i l h. refl;
      outside = λ rest b prot i o same. ground arith;
    }

    -- The addresses of the region outside the range are those of the piece.
    one_piece :
        (q : Region)
        → IsPiece bytes' q
        → ((i : ℕ) → addr ≤ i → i < end → (i < q.base) ⊎ (q.base + q.size ≤ i))
        → ((i : ℕ)
            → (i < addr) ⊎ (end ≤ i)
            → (leb q.base i && ltb i (q.base + q.size)) ≡ (leb r.base i && ltb i (r.base + r.size)))
        → IsUnmapped (q ∷ [], bytes')
    one_piece q piece away back = record {
      others = others;
      blocks = each piece.block done;
      inside =
          λ rest b prot i l h. ground (arith, byte_at-cons q rest b prot i piece.block, away i l h);
      outside = λ rest b prot i o same.
          ground (arith, piece_at bytes' q piece rest b prot i (Each-head same), back i o);
    }

    two_pieces :
        (q q' : Region)
        → IsPiece bytes' q
        → IsPiece bytes' q'
        → q.base ≡ r.base
        → q.base + q.size ≡ addr
        → q'.base ≡ end
        → q'.base + q'.size ≡ r.base + r.size
        → r.base < addr
        → addr ≤ end
        → end < r.base + r.size
        → IsUnmapped (q ∷ q' ∷ [], bytes')
    two_pieces q q' piece piece' start stop start' stop' lo mid hi = record {
      others = others;
      blocks = each piece.block (each piece'.block done);
      inside = λ rest b prot i l h. ground (
        arith,
        byte_at-cons q (q' ∷ rest) b prot i piece.block,
        byte_at-cons q' rest b prot i piece'.block,
      );
      outside = λ rest b prot i o same. ground (
        arith,
        piece_at bytes' q piece (q' ∷ rest) b prot i (Each-head same),
        piece_at bytes' q' piece' rest b prot i (Each-head (Each-tail same)),
      );
    }

  copy_others :
      (p n src : ℕ)
      → Each (IsOutside p n) live
      → Each (SameBlock bytes (copy_bytes (zero_bytes bytes p n) p src n)) live
  copy_others p n src = Each-map λ q far j h. ground (arith, far)

  -- A part of the region above `start`, copied to a new block.
  copy-IsPiece :
      (q : Region) (offset : ℕ)
      → HasBlock r
      → q.prot ≡ r.prot
      → q.base ≡ r.base + offset
      → offset + q.size ≤ r.size
      → HasBlock q
      → IsOutside q.host q.size r
      → IsPiece (copy_bytes (zero_bytes bytes q.host q.size) q.host (add64 r.host offset) q.size) q
  copy-IsPiece q offset hr prots at fits hq far = record {
    block = hq;
    same_prot = prots;
    copied = λ i lo hi. ground (arith, far);
  }

  module _ (host : Host)
      (finds : r.base < end → end < r.base + r.size → (n : ℕ) → n ≤ r.size → HasMemory host live n)
      (hr : HasBlock r) (member : (P : Region → Type 0) → Each P live → P r)
      (top : r.base + r.size < 2 ^ 64) (mid : addr ≤ end) (he : end < 2 ^ 64) where
    kept : Each (SameBlock bytes bytes) live
    kept = Each-all (λ q j h. refl) live

    away-IsUnmapped :
        (leb (add64 r.base r.size) addr || leb end r.base) ≡ true → IsUnmapped (r ∷ [], bytes)
    away-IsUnmapped away =
        one_piece bytes kept r (record { block = hr; same_prot = refl; copied = λ i lo hi. refl })
          (λ i lo hi. ground (arith, away)) (λ i o. refl)

    -- The part of the region below the range.
    low-IsPiece :
        r.base < addr
        → addr ≤ r.base + r.size
        → IsPiece bytes (record r { size = sub64 addr r.base })
    low-IsPiece lo hi = record { block = omega arith; same_prot = refl; copied = λ i l h. refl }

    -- The part above the range, in its old block.
    moved-IsPiece :
        r.base < end
        → end < r.base + r.size
        → IsPiece bytes (record r {
          base = end;
          size = sub64 r.size (sub64 end r.base);
          host = add64 r.host (sub64 end r.base);
        })
    moved-IsPiece lo hi = record {
      block = omega arith;
      same_prot = refl;
      copied = λ i l h. ap bytes (omega arith);
    }

    split-IsUnmapped :
        r.base < addr
        → end < r.base + r.size
        → IsUnmapped (
            split_calloc bytes r
              (record r { size = sub64 addr r.base })
              (record {
                base = end;
                size = sub64 (add64 r.base r.size) end;
                prot = r.prot;
                flags = bit_and r.flags 0xffff_ffbf;
                host = 0;
              })
              (sub64 end r.base)
              (host.calloc live (sub64 (add64 r.base r.size) end)))
    unfolding split_calloc HasMemory
    split-IsUnmapped lo hi =
        let size = sub64 (add64 r.base r.size) end in
        let size_is : size ≡ r.base + r.size - end = omega arith in
        let offset_is : r.base + sub64 end r.base ≡ end = omega arith in
        let found = finds (omega arith) hi size (omega arith) in
        let far = member (IsOutside (found.0) size) (found.3) in
        let tail : Region = record {
          base = end;
          size = size;
          prot = r.prot;
          flags = bit_and r.flags 0xffff_ffbf;
          host = found.0;
        } in
        let bytes' =
          copy_bytes (zero_bytes bytes (found.0) size) (found.0) (add64 r.host (sub64 end r.base))
            size in
        let others = copy_others (found.0) size (add64 r.host (sub64 end r.base)) (found.3) in
        let whole = member (SameBlock bytes bytes') others in
        rw (found.1) (
          two_pieces bytes' others (record r { size = sub64 addr r.base }) tail
            (record {
              block = omega arith;
              same_prot = refl;
              copied = λ i l h. whole (i - r.base) (omega arith);
            })
            (copy-IsPiece tail (sub64 end r.base) hr refl (sym offset_is) (omega arith) (found.2)
              far)
            refl (omega arith) refl (omega arith) lo mid hi)

    trim-IsUnmapped :
        addr ≤ r.base
        → r.base < end
        → end < r.base + r.size
        → IsUnmapped (
            trim_calloc bytes r
              (record r { base = end; size = sub64 r.size (sub64 end r.base) })
              (sub64 end r.base)
              (host.calloc live (sub64 r.size (sub64 end r.base))))
    unfolding trim_calloc HasMemory
    trim-IsUnmapped first lo hi =
        let size = sub64 r.size (sub64 end r.base) in
        let offset_is : r.base + sub64 end r.base ≡ end = omega arith in
        let found = finds (omega arith) hi size (omega arith) in
        let far = member (IsOutside (found.0) size) (found.3) in
        let piece : Region = record r { base = end; size = size; host = found.0 } in
        let bytes' =
          copy_bytes (zero_bytes bytes (found.0) size) (found.0) (add64 r.host (sub64 end r.base))
            size in
        rw (found.1) (
          one_piece bytes' (copy_others (found.0) size (add64 r.host (sub64 end r.base)) (found.3))
            piece
            (copy-IsPiece piece (sub64 end r.base) hr refl (sym offset_is) (omega arith) (found.2)
              far)
            (λ i l h. inl h) (λ i o. ground (arith, o)))

    low-IsUnmapped :
        r.base < addr
        → addr < r.base + r.size
        → r.base + r.size ≤ end
        → IsUnmapped (record r { size = sub64 addr r.base } ∷ [], bytes)
    low-IsUnmapped lo in_range hi =
        one_piece bytes kept (record r { size = sub64 addr r.base }) (low-IsPiece lo (omega arith))
          (λ i l h. inr (omega arith)) (λ i o. ground (arith, o))

    moved-IsUnmapped :
        addr ≤ r.base
        → r.base < end
        → end < r.base + r.size
        → IsUnmapped (
          record r {
            base = end;
            size = sub64 r.size (sub64 end r.base);
            host = add64 r.host (sub64 end r.base);
          }
              ∷ [],
          bytes,
        )
    moved-IsUnmapped first lo hi =
        one_piece bytes kept _ (moved-IsPiece lo hi) (λ i l h. inl h) (λ i o. ground (arith, o))

    pub unmap_region-IsUnmapped : IsUnmapped (unmap_region host false live r addr end bytes)
    unfolding unmap_region
    unmap_region-IsUnmapped =
        if-cases IsUnmapped (leb (add64 r.base r.size) addr || leb end r.base) away-IsUnmapped
          λ near.
            if-cases IsUnmapped (leb addr r.base && leb (add64 r.base r.size) end)
              (λ within. no_piece bytes kept (ground (arith, within)) (ground (arith, within)))
              λ part.
                if-cases IsUnmapped (ltb r.base addr && ltb end (add64 r.base r.size))
                  (λ both. split-IsUnmapped (ground (arith, both)) (ground (arith, both)))
                  λ one.
                    if-cases IsUnmapped (ltb r.base addr)
                      (λ low.
                        low-IsUnmapped (ground (arith, low)) (ground (arith, near))
                          (ground (arith, one, low)))
                      λ high.
                        let first : addr ≤ r.base = ground (arith, high) in
                        let lo : r.base < end = ground (arith, near) in
                        let hi : end < r.base + r.size = ground (arith, part, first) in
                        if-rule IsUnmapped (is_true (bit_and r.flags mem_map_external))
                          (moved-IsUnmapped first lo hi) (trim-IsUnmapped first lo hi)
