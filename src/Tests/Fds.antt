-- ===== src/Tests/Fds.antt =====
-- Concrete runs on a table of descriptors whose first three slots are taken.
use alpine_on_ios.Process.Fds.{
  FdEntry, Fds, max_fds, no_entry, fd_alloc_init, fd_get, fd_close, fd_close_cloexec,
}
use alpine_on_ios.Process.Slots.{
  IsAllocated, is_closed, released_from, fd_alloc_init-IsAllocated, fd_close_cloexec_lem,
  fd_close-fd_alloc_init,
}
use alpine_on_ios.Prelude.{ℕ, ◌<◌, ◌≡◌, arith, if◌then◌else◌, ltb, ◌==◌, none, some}

abbrev test_entry : FdEntry
test_entry = record no_entry { kind = 1; real_fd = 9 }

abbrev test_fds : Fds
test_fds i =
    if ltb i 3
    then record test_entry { real_fd = i; cloexec = if i == 1 then 1 else 0 }
    else no_entry

fd_alloc_init-IsAllocated_example :
    IsAllocated test_fds 0 test_entry (fd_alloc_init test_fds 0 test_entry)
fd_alloc_init-IsAllocated_example = fd_alloc_init-IsAllocated test_fds 0 test_entry (omega arith)

fd_close_cloexec_lem_example :
    ((j : ℕ)
      → j < max_fds
      → ((fd_close_cloexec test_fds).0) j
        ≡ (if is_closed (test_fds j) then no_entry else test_fds j))
    × ((fd_close_cloexec test_fds).1 ≡ released_from max_fds test_fds 0)
fd_close_cloexec_lem_example = fd_close_cloexec_lem test_fds

fd_close-fd_alloc_init_example :
    (reused : Fds) × (fd_get ((fd_close test_fds 1).0) 1 ≡ none)
    × (fd_alloc_init ((fd_close test_fds 1).0) 0 test_entry ≡ some (1, reused))
    × (fd_get reused 1 ≡ some test_entry)
fd_close-fd_alloc_init_example =
    fd_close-fd_alloc_init test_fds 1 0 test_entry (omega arith) (omega arith)
      (λ e. omega (arith, e)) (λ e. omega (arith, e)) (λ j l u e. ground (arith, e))
