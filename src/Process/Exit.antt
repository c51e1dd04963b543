-- ===== src/Process/Exit.antt =====
-- A process that exits and a parent that waits for it.
use alpine_on_ios.Process.Find.{
  adopted, map_option, proc_find-pid, proc_find-put_proc, proc_find-put_proc_self,
  proc_find-reparent,
}
use alpine_on_ios.Process.State.{Process, proc_dead}
use alpine_on_ios.Process.Table.{
  proc_find, put_proc, reparent, exited, collect, is_zombie, put_signalled, signal_parent,
  proc_exit, reaped, is_awaited, seen, wait_pass,
}
use alpine_on_ios.Process.Wait.{Round, returned, after_pass, proc_wait}
use alpine_on_ios.Signal.Mask.{sig_send}
use alpine_on_ios.Prelude.{
  ℕ, ◌<◌, ◌^◌, ◌≡◌, ◌≢◌, refl, arith, List, [], ◌∷◌, Option, none, some, ◌==◌, Bool-cases, inl, inr,
  ==_iff, sym, ◌∙◌, true, false, ap, Option-cases,
}

or_else : Process → Option Process → Process
or_else p none = p
or_else p (some q) = q

pub some_injective : {p q : Process} → some p ≡ some q → p ≡ q
unfolding or_else
some_injective {p = p} h = ap (or_else p) h

-- A child that the caller waits for by its pid.
is_awaited_self :
    (child : Process) (pid : ℕ) → child.pid ≡ pid → is_awaited child.ppid pid child ≡ true
unfolding is_awaited
is_awaited_self child pid h = ground arith

is_awaited_other :
    (parent pid : ℕ) (child : Process)
    → 0 < pid
    → pid < 2 ^ 31
    → child.pid == pid ≡ false
    → is_awaited parent pid child ≡ false
unfolding is_awaited
is_awaited_other parent pid child hp hl h = ground arith

first :
    (q : Process) (rest : List Process) (pid : ℕ)
    → q.pid == pid ≡ true
    → proc_find (q ∷ rest) pid ≡ some q
unfolding proc_find
first q rest pid h = rw h refl

skip :
    (q : Process) (rest : List Process) (pid : ℕ)
    → q.pid == pid ≡ false
    → proc_find (q ∷ rest) pid ≡ proc_find rest pid
unfolding proc_find
skip q rest pid h = rw h refl

reaped_same :
    (child z : Process) (pid : ℕ) (rest : List Process)
    → child.pid ≡ pid
    → child ≡ z
    → reaped child.pid child.exit_status (collect child ∷ rest)
      ≡ reaped pid z.exit_status (collect child ∷ rest)
reaped_same child z pid rest hp same =
    ap (λ (n : ℕ). reaped n child.exit_status (collect child ∷ rest)) hp
    ∙ ap (λ (q : Process). reaped pid q.exit_status (collect child ∷ rest)) same

-- A zombie that the caller waits for by its pid is found, whatever stands before it.
wait_pass-found :
    (parent pid : ℕ) (procs : List Process) (z : Process)
    → 0 < pid
    → pid < 2 ^ 31
    → proc_find procs pid ≡ some z
    → z.ppid ≡ parent
    → is_zombie z.state ≡ true
    → (rest : List Process) × (wait_pass parent pid procs ≡ reaped pid z.exit_status rest)
      × (proc_find rest pid ≡ some (collect z))
unfolding proc_find wait_pass seen is_awaited collect
wait_pass-found parent pid [] z hp hl found mine dead = absurd (ground (arith, found))
wait_pass-found parent pid (child ∷ rest) z hp hl found mine dead =
    elim (Bool-cases (child.pid == pid)) [
      | inl here ↦
          let same = some_injective (sym (first child rest pid here) ∙ found) in
          let waited : is_awaited parent pid child ≡ true =
            ap (λ (p : ℕ). is_awaited p pid child) (sym (ap (λ (q : Process). q.ppid) same ∙ mine))
            ∙ is_awaited_self child pid ((==_iff _ _).0 here) in
          let gone : is_zombie child.state ≡ true =
            ap (λ (q : Process). is_zombie q.state) same ∙ dead in
          (
            collect child ∷ rest,
            rw (waited, gone) (reaped_same child z pid rest ((==_iff _ _).0 here) same),
            first (collect child) rest pid here ∙ ap (λ (q : Process). some (collect q)) same,
          )
      | inr other ↦
          let later =
            wait_pass-found parent pid rest z hp hl (sym (skip child rest pid other) ∙ found) mine
              dead in
          (
            child ∷ later.0,
            rw (is_awaited_other parent pid child hp hl other, later.1) refl,
            rw other (later.2),
          )
    ]

-- A signal to the process `ppid` changes no other.
pub signal_parent-other :
    (procs : List Process) (ppid pid : ℕ)
    → pid ≢ ppid
    → proc_find (signal_parent procs (proc_find procs ppid)) pid ≡ proc_find procs pid
unfolding signal_parent put_signalled sig_send
signal_parent-other procs ppid pid ne = elim (Option-cases (proc_find procs ppid)) [
  | inl missing ↦ rw missing refl
  | inr (parent, there) ↦
      let number = proc_find-pid procs ppid parent there in
      rw there (proc_find-put_proc procs _ pid (λ e. ne (e ∙ number)))
]

-- The process itself is a zombie with its status.
pub proc_exit_self :
    (procs : List Process) (proc : Process) (status : ℕ)
    → proc_find procs proc.pid ≡ some proc
    → proc.ppid ≢ proc.pid
    → proc_find (proc_exit procs proc status) proc.pid ≡ some (exited proc status)
unfolding proc_exit exited
proc_exit_self procs proc status there ne =
    let gone = put_proc procs (exited proc status) in
    let zombie : proc_find gone proc.pid ≡ some (exited proc status) =
      proc_find-put_proc_self procs (exited proc status) proc there in
    let other : (proc.ppid == proc.pid) ≡ false = ground arith in
    let left : proc_find (reparent proc.pid gone) proc.pid ≡ some (exited proc status) =
      proc_find-reparent proc.pid gone proc.pid
      ∙ ap (map_option (adopted proc.pid)) zombie
      ∙ rw other refl in
    elim (Bool-cases (proc.tgid == proc.pid)) [
      | inl main ↦
          rw (main, other)
            (signal_parent-other (reparent proc.pid gone) proc.ppid proc.pid (λ e. ne (sym e))
              ∙ left)
      | inr thread ↦ rw thread zombie
    ]

-- If a process is in the table under its pid, which is positive, and is not its own parent,
-- then after its proc_exit a proc_wait of its parent for that pid returns at once with the pid
-- and the exit status, whatever the options, and leaves the process dead and collected in the
-- table.
pub proc_exit-proc_wait :
    (rounds : List Round) (procs : List Process) (proc : Process) (status options : ℕ)
    → proc_find procs proc.pid ≡ some proc
    → proc.ppid ≢ proc.pid
    → 0 < proc.pid
    → proc.pid < 2 ^ 31
    → (rest : List Process) × (proc_wait rounds
          (proc_exit procs proc status)
          proc.ppid
          proc.pid
          options
        ≡ returned proc.pid (some status) rest)
      × (proc_find rest proc.pid
          ≡ some (record (exited proc status) { state = proc_dead; collected = true }))
unfolding proc_wait after_pass exited is_zombie collect
proc_exit-proc_wait rounds procs proc status options there ne hp hl =
    let found =
      wait_pass-found proc.ppid proc.pid (proc_exit procs proc status) (exited proc status) hp hl
        (proc_exit_self procs proc status there ne) refl refl in
    (found.0, first_pass rounds (found.1), found.2)
  where
    first_pass :
        (rounds : List Round) {rest : List Process}
        → wait_pass proc.ppid proc.pid (proc_exit procs proc status) ≡ reaped proc.pid status rest
        → proc_wait rounds (proc_exit procs proc status) proc.ppid proc.pid options
          ≡ returned proc.pid (some status) rest
    first_pass [] h = rw h refl
    first_pass (round ∷ rounds) h = rw h refl
