-- ===== src/Process/Find.antt =====
-- What the operations of the process table do to the process with a given pid.
use alpine_on_ios.Process.State.{Process}
use alpine_on_ios.Process.Table.{proc_find, put_proc, reparent, is_zombie, collect}
use alpine_on_ios.Prelude.{
  if-rule, ℕ, ◌≡◌, ◌≢◌, refl, arith, List, [], ◌∷◌, Option, none, some, ◌==◌, Bool-cases, inl, inr,
  not, if◌then◌else◌,
}

pub proc_find-pid :
    (procs : List Process) (pid : ℕ) (p : Process) → proc_find procs pid ≡ some p → p.pid ≡ pid
unfolding proc_find
proc_find-pid [] pid p h = ground (arith, h)
proc_find-pid (q ∷ rest) pid p h = ground (arith, proc_find-pid rest pid p)

-- Other processes stay.
pub proc_find-put_proc :
    (procs : List Process) (proc : Process) (pid : ℕ)
    → pid ≢ proc.pid
    → proc_find (put_proc procs proc) pid ≡ proc_find procs pid
unfolding proc_find put_proc
proc_find-put_proc [] proc pid ne = refl
proc_find-put_proc (q ∷ rest) proc pid ne = ground (arith, proc_find-put_proc rest proc pid)

-- A process that is there is replaced.
pub proc_find-put_proc_self :
    (procs : List Process) (proc old : Process)
    → proc_find procs proc.pid ≡ some old
    → proc_find (put_proc procs proc) proc.pid ≡ some proc
unfolding proc_find put_proc
proc_find-put_proc_self [] proc old h = ground (arith, h)
proc_find-put_proc_self (q ∷ rest) proc old h =
    ground (arith, proc_find-put_proc_self rest proc old)

-- An exit of `parent` changes the parent and the state of its children only.
abbrev pub adopted : ℕ → Process → Process
adopted parent child =
    let mine : Process = record child { ppid = 1 } in
    if not (child.ppid == parent)
    then child
    else if is_zombie child.state
    then collect mine
    else mine

abbrev pub map_option : (Process → Process) → Option Process → Option Process
map_option f none = none
map_option f (some p) = some (f p)

adopted-pid : (parent : ℕ) (child : Process) → (adopted parent child).pid ≡ child.pid
unfolding collect
adopted-pid parent child =
    if-rule (λ (p : Process). p.pid ≡ child.pid) (not (child.ppid == parent)) refl
      (if-rule (λ (p : Process). p.pid ≡ child.pid) (is_zombie child.state) refl refl)

pub proc_find-reparent :
    (parent : ℕ) (procs : List Process) (pid : ℕ)
    → proc_find (reparent parent procs) pid ≡ map_option (adopted parent) (proc_find procs pid)
unfolding proc_find reparent
proc_find-reparent parent [] pid = refl
proc_find-reparent parent (q ∷ rest) pid =
    rw (adopted-pid parent q) (elim (Bool-cases (q.pid == pid)) [
      | inl here ↦ rw here refl
      | inr later ↦ rw later (proc_find-reparent parent rest pid)
    ])
