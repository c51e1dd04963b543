-- ===== src/Memory/Guest.antt =====
-- The accessors of emu/src/memory.c that system calls use: `mem_read8` to `mem_read64`,
-- `mem_write8` to `mem_write64`, `mem_copy_to`, `mem_copy_from` and `mem_read_str`. They ask the
-- regions and not the TLB. A buffer of the caller is the number that its bytes make.
use alpine_on_ios.Memory.Access.{load_bytes, store_bytes}
use alpine_on_ios.Memory.Space.{mem_translate, mem_prot_read, mem_prot_write}
use alpine_on_ios.Memory.Unmap.{MemSpace}
use alpine_on_ios.Prelude.{
  ℕ, zero, suc, ◌==◌, if◌then◌else◌, add64, List, [], ◌∷◌, Option, some, ◌>>=◌,
}

-- `mem_read8` to `mem_read64`, with the size in bytes; `none` for -1.
unfoldable pub read_guest : ℕ → MemSpace → ℕ → Option ℕ
read_guest size ms addr = do
  p ← mem_translate ms.regions addr size mem_prot_read
  some (load_bytes ms.bytes p size)

-- `mem_write8` to `mem_write64`.
unfoldable pub write_guest : ℕ → MemSpace → ℕ → ℕ → Option MemSpace
write_guest size ms addr val = do
  p ← mem_translate ms.regions addr size mem_prot_write
  some (record ms { bytes = store_bytes ms.bytes p size val })

unfoldable pub mem_copy_to : MemSpace → ℕ → ℕ → ℕ → Option MemSpace
mem_copy_to ms addr src size = if size == 0 then some ms else write_guest size ms addr src

unfoldable pub mem_copy_from : MemSpace → ℕ → ℕ → Option ℕ
mem_copy_from ms addr size = if size == 0 then some 0 else read_guest size ms addr

-- The characters up to the first NUL, at most `n` of them: the loop, for a buffer of `n + 1`.
unfoldable pub mem_read_str : ℕ → MemSpace → ℕ → Option (List ℕ)
mem_read_str zero ms addr = some []
mem_read_str (suc n) ms addr = do
  c ← read_guest 1 ms addr
  let rest = mem_read_str n ms (add64 addr 1)
  if c == 0 then some [] else (rest >>= λ cs. some (c ∷ cs))
