-- ===== src/Process/Table.antt =====
-- The process table of emu/src/process.c: `proc_next_pid`, `proc_add`, `proc_find`, `proc_exit`,
-- `proc_exit_group` and one pass of `proc_wait`. A pointer to a process is its pid. The table is the list `proc_list` and the
-- counter; the condition variables and futexes on which host threads sleep are left out.
use alpine_on_ios.Process.State.{
  Process, ProcState, proc_running, proc_stopped, proc_zombie, proc_dead,
}
use alpine_on_ios.Memory.Guest.{write_guest}
use alpine_on_ios.Memory.Unmap.{MemSpace}
use alpine_on_ios.Signal.Frame.{written}
use alpine_on_ios.Signal.Mask.{sig_send}
use alpine_on_ios.Prelude.{
  ℕ, suc, Bool, true, false, not, ◌&&◌, ltb, ◌==◌, if◌then◌else◌, ◌^◌, List, [], ◌∷◌, Option, none,
  some,
}

-- `proc_list` and `pid_counter`.
pub record Table : Type 0 where
  pub procs : List Process
  pub pid_counter : ℕ

unfoldable pub proc_next_pid : Table → ℕ × Table
proc_next_pid table = (suc table.pid_counter, record table { pid_counter = suc table.pid_counter })

unfoldable pub proc_add : Table → Process → Table
proc_add table proc = record table { procs = proc ∷ table.procs }

unfoldable pub proc_find : List Process → ℕ → Option Process
proc_find [] pid = none
proc_find (p ∷ rest) pid = if p.pid == pid then some p else proc_find rest pid

-- A change of the process with the pid of `proc`, through a pointer to it.
unfoldable pub put_proc : List Process → Process → List Process
put_proc [] proc = []
put_proc (p ∷ rest) proc =
    let later = put_proc rest proc in if p.pid == proc.pid then proc ∷ rest else p ∷ later

-- `*clear_child_tid = 0`, whose failure is ignored.
unfoldable pub clear_tid : Process → MemSpace
clear_tid proc =
    if proc.clear_child_tid == 0
    then proc.mem
    else written proc.mem (write_guest 4 proc.mem proc.clear_child_tid 0)

-- What becomes of the process that exits.
unfoldable pub exited : Process → ℕ → Process
exited proc status = record proc {
  exit_status = status;
  state = proc_zombie;
  running = false;
  mem = clear_tid proc;
  vfork_done = true;
}

unfoldable pub is_zombie : ProcState → Bool
is_zombie proc_zombie = true
is_zombie proc_running = false
is_zombie proc_stopped = false
is_zombie proc_dead = false

unfoldable pub collect : Process → Process
collect child = record child { state = proc_dead; collected = true }

-- Children of `pid` become children of process 1, which never waits.
unfoldable pub reparent : ℕ → List Process → List Process
reparent pid [] = []
reparent pid (child ∷ rest) =
    let adopted : Process = record child { ppid = 1 } in
    let here =
      if not (child.ppid == pid)
      then child
      else if is_zombie child.state
      then collect adopted
      else adopted in
    here ∷ reparent pid rest

unfoldable pub put_signalled : List Process → Option Process → List Process
put_signalled procs none = procs
put_signalled procs (some parent) = put_proc procs parent

unfoldable pub signal_parent : List Process → Option Process → List Process
signal_parent procs none = procs
signal_parent procs (some parent) = put_signalled procs (sig_send parent 17)

unfoldable pub proc_exit : List Process → Process → ℕ → List Process
proc_exit procs proc status =
    let gone = put_proc procs (exited proc status) in
    if not (proc.tgid == proc.pid)
    then gone
    else let left = reparent proc.pid gone in
      let parent = if proc.ppid == proc.pid then 1 else proc.ppid in
      signal_parent left (proc_find left parent)

unfoldable pub proc_exit_group : List Process → Process → List Process
proc_exit_group [] proc = []
proc_exit_group (p ∷ rest) proc =
    let here =
      if p.tgid == proc.tgid && not (p.pid == proc.pid) then record p { running = false } else p in
    here ∷ proc_exit_group rest proc

-- What a pass of `proc_wait` over the table finds: no child, only children that run, or a zombie,
-- which it collects.
pub data Waited : Type 0 where
  no_child busy : Waited
  reaped : ℕ → ℕ → List Process → Waited

unfoldable pub is_awaited : ℕ → ℕ → Process → Bool
is_awaited parent pid child =
    child.ppid == parent && not (ltb 0 pid && ltb pid (2 ^ 31) && not (child.pid == pid))

-- The child is passed: what is found later counts, and this one was seen.
unfoldable pub seen : Bool → Process → Waited → Waited
seen awaited child no_child = if awaited then busy else no_child
seen awaited child busy = busy
seen awaited child (reaped pid status rest) = reaped pid status (child ∷ rest)

unfoldable pub wait_pass : ℕ → ℕ → List Process → Waited
wait_pass parent pid [] = no_child
wait_pass parent pid (child ∷ rest) =
    let later = wait_pass parent pid rest in
    let awaited = is_awaited parent pid child in
    if awaited && is_zombie child.state
    then reaped child.pid child.exit_status (collect child ∷ rest)
    else seen awaited child later
