-- ===== src/Tests/Process.antt =====
-- Concrete runs of the theorems on processes: a parent, a process that exits and its child.
use alpine_on_ios.Bits.{digit}
use alpine_on_ios.Process.Exit.{proc_exit-proc_wait}
use alpine_on_ios.Process.Family.{proc_exit-sigchld, proc_exit-orphans}
use alpine_on_ios.Process.State.{Process, proc_dead}
use alpine_on_ios.Process.Table.{
  proc_find, put_proc, reparent, exited, proc_exit, wait_pass, is_zombie, signal_parent,
  put_signalled,
}
use alpine_on_ios.Process.Wait.{proc_wait, returned}
use alpine_on_ios.Process.Waited.{IsWaited, wait_pass-IsWaited}
use alpine_on_ios.Signal.Mask.{sig_send}
use alpine_on_ios.Tests.Signal.{test_process}
use alpine_on_ios.Prelude.{ℕ, ◌≡◌, ◌≢◌, refl, arith, List, [], ◌∷◌, some, true}

abbrev test_parent : Process
test_parent = record test_process { pid = 2; ppid = 1; tgid = 2; sig_pending = 0 }

abbrev test_child : Process
test_child = record test_process { pid = 7; ppid = 5; tgid = 7 }

abbrev test_table : List Process
test_table = test_child ∷ test_process ∷ test_parent ∷ []

-- `waitpid(5, &status, WNOHANG)` after process 5 has exited with 3.
proc_exit-proc_wait_example :
    (rest : List Process) × (proc_wait [] (proc_exit test_table test_process 3) 2 5 1
      ≡ returned 5 (some 3) rest)
    × (proc_find rest 5
        ≡ some (record (exited test_process 3) { state = proc_dead; collected = true }))
unfolding proc_find
proc_exit-proc_wait_example =
    proc_exit-proc_wait [] test_table test_process 3 1 refl (λ e. omega (arith, e)) (omega arith)
      (omega arith)

proc_exit-sigchld_example :
    (parent' : Process) × (proc_find (proc_exit test_table test_process 3) 2 ≡ some parent')
    × (digit parent'.sig_pending 16 ≡ 1)
    × ((k : ℕ) → digit (test_parent.sig_pending) k ≡ 1 → digit parent'.sig_pending k ≡ 1)
unfolding proc_find
proc_exit-sigchld_example =
    proc_exit-sigchld test_table test_process test_parent 3 refl (λ e. omega (arith, e)) refl

abbrev adopted_child : Process
adopted_child = record test_child { ppid = 1 }

proc_exit-orphans_example : adopted_child.ppid ≢ test_process.pid
unfolding proc_exit proc_find put_proc reparent exited is_zombie signal_parent put_signalled
    sig_send
proc_exit-orphans_example =
    proc_exit-orphans test_table test_process adopted_child 3 7 refl (λ e. omega (arith, e)) refl

wait_pass-IsWaited_example : IsWaited 2 5 test_table (wait_pass 2 5 test_table)
wait_pass-IsWaited_example = wait_pass-IsWaited 2 5 test_table
