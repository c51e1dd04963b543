-- ===== src/Memory/Protect/Calls.antt =====
-- What the calls of the host's `mprotect` in `mem_mprotect` do to the pages of a native guest, whose
-- addresses are those of the host.
use alpine_on_ios.Memory.Host.{Host}
use alpine_on_ios.Memory.Protect.{HostProtect, host_prot, mem_map_unprotected}
use alpine_on_ios.Memory.Space.{Region}
use alpine_on_ios.Prelude.{
  ℕ, ◌+◌, ◌^◌, ◌≤◌, ◌<◌, bit_and, ◌≡◌, Bool, false, not, ◌&&◌, ◌||◌, leb, ltb, if◌then◌else◌,
  is_true, add64, sub64, List, [], ◌∷◌,
}

-- The protection of each address of the host after some calls.
unfoldable pub protected_by : List HostProtect → (ℕ → ℕ) → ℕ → ℕ
protected_by [] old i = old i
protected_by (call ∷ calls) old i =
    protected_by calls
      (λ j. if leb call.start j && ltb j (call.start + call.size) then call.prot else old j) i

-- The host's pages of a region are protected for the guest, unless somebody else owns them or the
-- guest may not change them.
abbrev pub is_protected : Region → Bool
is_protected r = not (is_true (bit_and r.flags mem_map_unprotected))

-- An address stands in a region whose pages are protected for the guest.
unfoldable pub in_protected : List Region → ℕ → Bool
in_protected [] i = false
in_protected (r ∷ rest) i =
    (leb r.base i && ltb i (r.base + r.size) && is_protected r) || in_protected rest i

-- A native region.
abbrev pub IsNative : Region → Type 0
IsNative r = r.host ≡ r.base

module _ (host : Host) (addr end prot : ℕ) (mid : addr ≤ end) (he : end < 2 ^ 64)
    (bytes : ℕ → ℕ) where
  module _ (r : Region) (native : IsNative r) (top : r.base + r.size < 2 ^ 64) (old : ℕ → ℕ)
      (i : ℕ) where
    abbrev expected : ℕ
    expected =
        if (leb r.base i && ltb i (r.base + r.size) && is_protected r) && (leb addr i && ltb i end)
        then host_prot prot
        else old i

    -- The pieces of the code, with their sizes.
    abbrev middle_of : ℕ → ℕ → Region
    middle_of start stop = record {
      base = start;
      size = sub64 stop start;
      prot = prot;
      flags = r.flags;
      host = add64 r.host (sub64 start r.base);
    }
