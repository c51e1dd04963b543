-- ===== src/Process/Wait.antt =====
-- `proc_wait` of emu/src/process.c, with what the other threads do to the table while it holds no
-- lock as an argument.
use alpine_on_ios.Process.State.{Process}
use alpine_on_ios.Process.Table.{Waited, no_child, busy, reaped, wait_pass}
use alpine_on_ios.Prelude.{
  ℕ, ◌-◌, ◌^◌, if◌then◌else◌, is_true, bit_and, List, [], ◌∷◌, Option, none, some,
}

-- A change of the table by others, and those of a round of the loop: before the second pass, which
-- holds the lock of the parent, and while the parent sleeps.
abbrev pub Change : Type 0
Change = List Process → List Process

pub record Round : Type 0 where
  pub unlocked : Change
  pub asleep : Change

-- The call returns with a value and the status of the child, or the parent still sleeps.
pub data Wait : Type 0 where
  returned : ℕ → Option ℕ → List Process → Wait
  sleeps : List Process → Wait

-- `-ECHILD`
abbrev pub echild : ℕ
echild = 2 ^ 64 - 10

-- What follows a pass, in a table that the pass leaves unless it reaps.
unfoldable pub after_pass : List Process → Waited → Wait → Wait
after_pass procs (reaped pid status rest) next = returned pid (some status) rest
after_pass procs no_child next = returned echild none procs
after_pass procs busy next = next

unfoldable pub proc_wait : List Round → List Process → ℕ → ℕ → ℕ → Wait
proc_wait [] procs parent pid options =
    after_pass procs (wait_pass parent pid procs)
      (if is_true (bit_and options 1) then returned 0 none procs else sleeps procs)
proc_wait (round ∷ rounds) procs parent pid options =
    let then_procs = round.unlocked procs in
    let woken = proc_wait rounds (round.asleep then_procs) parent pid options in
    after_pass procs (wait_pass parent pid procs) (
      if is_true (bit_and options 1)
      then returned 0 none procs
      else after_pass then_procs (wait_pass parent pid then_procs) woken)
