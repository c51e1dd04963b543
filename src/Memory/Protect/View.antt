-- ===== src/Memory/Protect/View.antt =====
-- What is mapped after `mem_mprotect` in native mode.
use alpine_on_ios.Bits.{and_zero}
use alpine_on_ios.Memory.Host.{Host, Each, done, each, HasBlock}
use alpine_on_ios.Memory.Layout.{IsLaidOut, empty, region}
use alpine_on_ios.Memory.Protect.Round.{protect_region-byte_at}
use alpine_on_ios.Memory.Protect.{protect_region, protect_walk, mem_mprotect}
use alpine_on_ios.Memory.Space.{Region, find_region}
use alpine_on_ios.Memory.Unmap.{MemSpace}
use alpine_on_ios.Memory.Unmap.View.{IsSpace, sees, page_align_up_lem, page_align_down_lem}
use alpine_on_ios.Memory.View.{byte_at, region_byte, byte_at-cons}
use alpine_on_ios.Prelude.{
  ℕ, ◌+◌, ◌-◌, ◌*◌, ◌/◌, ◌^◌, ◌≤◌, ◌<◌, bit_and, ◌≡◌, refl, ap, ◌∙◌, arith, true, ◌&&◌, ◌==◌, leb,
  ltb, if◌then◌else◌, add64, List, [], ◌∷◌, ◌++◌, none, some, ◌>>=◌,
}

-- What an address holds, whatever its permission, is found with no permission asked for.
byte_at-any :
    (r : Region) (rest : List Region) (bytes : ℕ → ℕ) (i : ℕ)
    → HasBlock r
    → byte_at (r ∷ rest) bytes 0 i ≡ (
        if leb r.base i && ltb i (r.base + r.size)
        then some (bytes (r.host + (i - r.base)))
        else byte_at rest bytes 0 i)
unfolding region_byte
byte_at-any r rest bytes i h = ground (arith, byte_at-cons r rest bytes 0 i h, and_zero r.prot)

module _ (host : Host) (addr end prot : ℕ) (mid : addr ≤ end) (he : end < 2 ^ 64) (bytes : ℕ → ℕ)
    (q i : ℕ) where
  nothing_at : byte_at [] bytes q i ≡ (
      if leb addr i && ltb i end
      then (byte_at [] bytes 0 i >>= λ b. if bit_and prot q == q then some b else none)
      else byte_at [] bytes q i)
  unfolding byte_at find_region
  nothing_at = ground arith

  protect_walk-byte_at :
      {low : ℕ} {regions : List Region} (passed : List Region)
      → IsLaidOut low regions
      → Each HasBlock regions
      → let out = protect_walk host true passed regions addr end prot bytes in
        (out.1 ≡ bytes)
        × (byte_at (out.0) bytes q i ≡ (
            if leb addr i && ltb i end
            then (byte_at regions bytes 0 i >>= λ b. if bit_and prot q == q then some b else none)
            else byte_at regions bytes q i))
  unfolding protect_walk region_byte
  protect_walk-byte_at passed empty done = (refl, nothing_at)
  protect_walk-byte_at passed (region {r = r} {rest = rest} first pages b s l top lay) (each h hs) =
      let live = passed ++ r ∷ rest in
      let here = protect_region host true live r addr end prot bytes in
      let walked = protect_walk host true (passed ++ here.0) rest addr end prot bytes in
      let step =
        protect_region-byte_at host addr end prot mid he bytes r h top (walked.0) q i live in
      let later = protect_walk-byte_at (passed ++ here.0) lay hs in
      rw (step.1, step.0)
        (
          later.0,
          ground (
            arith,
            step.2,
            later.1,
            byte_at-cons r rest bytes q i h,
            byte_at-any r rest bytes i h,
          ),
        )

-- In native mode, on regions laid out in pages and with blocks, mem_mprotect changes no byte of the
-- host, and mem_translate finds what is mapped at an address of the pages of the range exactly as far
-- as the new permission goes, and at any other address what it found before.
pub mem_mprotect-sees :
    (host : Host) (ms : MemSpace) (addr size prot q i : ℕ)
    → IsSpace ms
    → ms.aot_mode ≡ true
    → addr + size + 4095 < 2 ^ 64
    → let first = 4096 * (addr / 4096) in
      let last = first + 4096 * ((size + 4095) / 4096) in
      let after = (mem_mprotect host ms addr size prot).0 in
      (after.bytes ≡ ms.bytes)
      × (sees after q i ≡ (
          if leb first i && ltb i last
          then (sees ms 0 i >>= λ b. if bit_and prot q == q then some b else none)
          else sees ms q i))
unfolding mem_mprotect
mem_mprotect-sees host ms addr size prot q i space native fits =
    let a = addr / 4096 in
    let n = (size + 4095) / 4096 in
    let down = page_align_down_lem addr (omega arith) in
    let up = page_align_up_lem size (omega arith) in
    let stop : add64 (4096 * a) (4096 * n) ≡ 4096 * a + 4096 * n = omega arith in
    let walked =
      protect_walk-byte_at host (4096 * a) (4096 * a + 4096 * n) prot (omega arith) (omega arith)
        ms.bytes q i [] space.laid_out space.blocks in
    rw (down, up, stop, native)
      (
        walked.0,
        ap
              (λ (b : ℕ → ℕ).
                byte_at
                  ((protect_walk host true [] ms.regions (4096 * a) (4096 * a + 4096 * n) prot
                    ms.bytes).0)
                  b q i)
              (walked.0)
            ∙ walked.1,
      )
