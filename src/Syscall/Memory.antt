-- ===== src/Syscall/Memory.antt =====
-- emu/src/sys_memory.c. The host's `close` of a descriptor that finds no slot is left out.
use alpine_on_ios.Memory.Brk.{mem_brk}
use alpine_on_ios.Memory.Clone.{mem_mmap_host, mem_map_private}
use alpine_on_ios.Memory.Guest.{write_guest, mem_read_str}
use alpine_on_ios.Memory.Host.{Host, copy_bytes}
use alpine_on_ios.Memory.Map.{mem_mmap, map_failed, mem_map_anonymous, mem_map_fixed}
use alpine_on_ios.Memory.Protect.{mem_mprotect}
use alpine_on_ios.Memory.Space.{mem_translate, mem_prot_read, mem_prot_write}
use alpine_on_ios.Memory.Unmap.{MemSpace, mem_munmap, mem_map_external}
use alpine_on_ios.Process.Fds.{FdEntry, Fds, fd_get, fd_alloc, is_fd}
use alpine_on_ios.Prelude.{
  ℕ, zero, suc, ◌/◌, Bool, not, ◌&&◌, ◌||◌, ltb, leb, ◌==◌, if◌then◌else◌, is_true, bit_and, bit_or,
  u32, add64, update, List, sub64, Option, none, some, ◌>>=◌,
}
use alpine_on_ios.Process.Call.{failed, enomem, efault, einval, enosys}

-- The value returned and the memory afterwards.
abbrev pub Remapped : Type 0
Remapped = ℕ × MemSpace

-- `framebuffer_t` of emu/include/framebuffer.h.
pub record Framebuffer : Type 0 where
  pub active : Bool
  pub size : ℕ
  pub pixels : ℕ

-- What a mapping is made of: the framebuffer, or a file of the host or nothing.
unfoldable pub map_entry :
    Host → Framebuffer → MemSpace → ℕ → ℕ → ℕ → ℕ → ℕ → Option FdEntry → Option Remapped
map_entry host fb ms addr len prot flags offset none =
    mem_mmap host ms addr len (u32 prot) (u32 flags) none offset
map_entry host fb ms addr len prot flags offset (some e) =
    let cut = if ltb fb.size len then fb.size else len in
    if e.kind == 8
    then (if fb.active
        then mem_mmap_host ms addr cut (u32 prot) fb.pixels mem_map_external
        else some (failed enomem, ms))
    else mem_mmap host ms addr len (u32 prot) (u32 flags)
        (if is_fd e.real_fd then some e.real_fd else none) offset

unfoldable pub do_mmap :
    Host → Framebuffer → Fds → MemSpace → ℕ → ℕ → ℕ → ℕ → ℕ → ℕ → Option Remapped
do_mmap host fb fds ms addr len prot flags fd_arg offset =
    let entry =
      if not (is_true (bit_and flags mem_map_anonymous)) && is_fd (u32 fd_arg)
      then fd_get fds (u32 fd_arg)
      else none in
    map_entry host fb ms addr len prot flags offset entry

-- `memcpy` of the old data, where both ranges can be accessed.
unfoldable pub copy_old : MemSpace → ℕ → Option ℕ → Option ℕ → MemSpace
copy_old ms size none dst = ms
copy_old ms size (some src) none = ms
copy_old ms size (some src) (some dst) = record ms { bytes = copy_bytes ms.bytes dst src size }

unfoldable pub extended : ℕ → Remapped → Remapped
extended old_addr (ret, ms) = if ret == map_failed then (failed enomem, ms) else (old_addr, ms)

unfoldable pub moved_to : Host → ℕ → ℕ → Remapped → Remapped
moved_to host old_addr old_size (new_addr, ms) =
    let src = mem_translate ms.regions old_addr old_size mem_prot_read in
    let dst = mem_translate ms.regions new_addr old_size mem_prot_write in
    if new_addr == map_failed
    then (failed enomem, ms)
    else (new_addr, mem_munmap host (copy_old ms old_size src dst) old_addr old_size)

-- MEM_PROT_READ | MEM_PROT_WRITE
abbrev pub prot_rw : ℕ
prot_rw = 3

unfoldable pub do_mremap : Host → MemSpace → ℕ → ℕ → ℕ → ℕ → Option Remapped
do_mremap host ms old_addr old_size new_size flags =
    if new_size == 0
    then some (failed einval, ms)
    else if leb new_size old_size
    then some (
      old_addr,
      if ltb new_size old_size
          then mem_munmap host ms (add64 old_addr new_size) (sub64 old_size new_size)
          else ms,
    )
    else if not (is_true (bit_and flags 1))
    then (mem_mmap host ms (add64 old_addr old_size) (sub64 new_size old_size) prot_rw
          (bit_or mem_map_private (bit_or mem_map_fixed mem_map_anonymous)) none 0
        >>= λ r. some (extended old_addr r))
    else (mem_mmap host ms 0 new_size prot_rw (bit_or mem_map_private mem_map_anonymous) none 0
        >>= λ r. some (moved_to host old_addr old_size r))

-- What is left of the loop of mincore after a store.
unfoldable pub marked : MemSpace → Option MemSpace → (MemSpace → Remapped) → Remapped
marked ms none rest = (failed efault, ms)
marked ms (some after) rest = rest after

-- The loop of mincore, with the number of pages left: every page is present.
unfoldable pub mark_pages : ℕ → MemSpace → ℕ → Remapped
mark_pages zero ms vec = (0, ms)
mark_pages (suc n) ms vec =
    marked ms (write_guest 1 ms vec 1) (λ after. mark_pages n after (add64 vec 1))

-- The value returned, the memory and the descriptors afterwards.
abbrev pub Served : Type 0
Served = ℕ × MemSpace × Fds

unfoldable pub memfd_entry : MemSpace → Fds → ℕ → Option (ℕ × Fds) → Served
memfd_entry ms fds hfd none = (failed enomem, ms, fds)
memfd_entry ms fds hfd (some (efd, reserved)) = (
  efd,
  ms,
  update reserved efd (record (reserved efd) { kind = 1; real_fd = hfd; flags = 0; cloexec = 0 }),
)

unfoldable pub memfd_host : MemSpace → Fds → Option ℕ → Served
memfd_host ms fds none = (failed enomem, ms, fds)
memfd_host ms fds (some hfd) = memfd_entry ms fds hfd (fd_alloc fds 0)

unfoldable pub memfd_name : (List ℕ → Option ℕ) → MemSpace → Fds → Option (List ℕ) → Served
memfd_name memfd_create ms fds none = (failed efault, ms, fds)
memfd_name memfd_create ms fds (some name) = memfd_host ms fds (memfd_create name)

-- `memfd_create` is the host's, `none` for -1.
unfoldable pub do_memfd_create : (List ℕ → Option ℕ) → MemSpace → Fds → ℕ → Served
do_memfd_create memfd_create ms fds a0 = memfd_name memfd_create ms fds (mem_read_str 255 ms a0)

-- The calls by their numbers; `none` only where a search for a gap ends by its fuel.
unfoldable pub sys_memory :
    Host
    → Framebuffer
    → (List ℕ → Option ℕ)
    → MemSpace
    → Fds
    → ℕ
    → ℕ
    → ℕ
    → ℕ
    → ℕ
    → ℕ
    → ℕ
    → Option Served
sys_memory host fb memfd_create ms fds nr a0 a1 a2 a3 a4 a5 =
    let kept : Remapped → Option Served = λ r. some (r.0, r.1, fds) in
    if nr == 214
    then kept (mem_brk host ms a0)
    else if nr == 222
    then (do_mmap host fb fds ms a0 a1 a2 a3 a4 a5 >>= kept)
    else if nr == 215
    then kept (0, mem_munmap host ms a0 a1)
    else if nr == 226
    then kept (0, (mem_mprotect host ms a0 a1 (u32 a2)).0)
    else if nr == 216
    then (do_mremap host ms a0 a1 a2 a3 >>= kept)
    else if nr == 279
    then some (do_memfd_create memfd_create ms fds a0)
    else if nr == 232
    then kept (mark_pages (add64 a1 4095 / 4096) ms a2)
    else if nr == 227 || nr == 233 || leb 228 nr && leb nr 231
    then kept (0, ms)
    else kept (failed enosys, ms)
