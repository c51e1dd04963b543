-- ===== src/Tests/Syscall.antt =====
-- Concrete runs of the system calls on memory and of a cloned address space.
use alpine_on_ios.Memory.Clone.{mem_space_clone, mem_space_clone-sees}
use alpine_on_ios.Memory.Fresh.{loads, flushed}
use alpine_on_ios.Memory.Guest.{write_guest}
use alpine_on_ios.Memory.Space.{mem_translate, find_region}
use alpine_on_ios.Memory.Unmap.{MemSpace}
use alpine_on_ios.Memory.Unmap.View.{IsSpace, sees}
use alpine_on_ios.Syscall.Memory.{do_mremap}
use alpine_on_ios.Syscall.Remap.{do_mremap-shrink}
use alpine_on_ios.Tests.Memory.{
  test_host, test_limit, test_host-Serves, test_low, test_space, test_space-IsSpace, test_tlb,
}
use alpine_on_ios.Prelude.{◌≡◌, refl, arith, none, some}

-- The parent sees a word that its child writes.
mem_space_clone-sees_example :
    IsSpace (mem_space_clone test_space)
    × (sees (mem_space_clone test_space) 1 0x1_0012 ≡ sees test_space 1 0x1_0012)
    × (after : MemSpace) × (write_guest 4 (mem_space_clone test_space) 0x1_0010 0xabcd ≡ some after)
    × (write_guest 4 test_space 0x1_0010 0xabcd ≡ some (record test_space { bytes = after.bytes }))
    × (sees after 1 0x1_0012 ≡ sees (record test_space { bytes = after.bytes }) 1 0x1_0012)
unfolding mem_translate find_region
mem_space_clone-sees_example =
    mem_space_clone-sees test_space 4 0x1_0010 0xabcd 0x5000_0010 1 0x1_0012 test_space-IsSpace refl

-- From three pages to 4112 bytes: the last 16 of these are lost.
do_mremap-shrink_example :
    (after : MemSpace) × (do_mremap test_host test_space 0x1_0000 0x3000 0x1010 0
      ≡ some (0x1_0000, after))
    × IsSpace after
    × (sees after 1 0x1_1004 ≡ none)
    × (loads (flushed test_tlb after) 0x1_1004 ≡ none)
do_mremap-shrink_example =
    do_mremap-shrink test_host test_limit test_space 0x1_0000 0x3000 0x1010 0 1 0x1_1004 test_tlb
      test_host-Serves test_low test_space-IsSpace refl (omega arith) (omega arith) (omega arith)
      (omega arith)
