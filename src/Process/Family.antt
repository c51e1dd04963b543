-- ===== src/Process/Family.antt =====
-- Parents and children: what an exit tells them, and what a wait finds.
use alpine_on_ios.Bits.{digit, or_digit}
use alpine_on_ios.Process.Exit.{signal_parent-other, some_injective}
use alpine_on_ios.Process.Find.{
  adopted, map_option, proc_find-pid, proc_find-put_proc, proc_find-put_proc_self,
  proc_find-reparent,
}
use alpine_on_ios.Process.State.{Process}
use alpine_on_ios.Process.Table.{
  proc_find, put_proc, reparent, exited, collect, is_zombie, put_signalled, signal_parent,
  proc_exit,
}
use alpine_on_ios.Signal.Mask.{sig_send, sigmask}
use alpine_on_ios.Prelude.{
  ℕ, ◌≡◌, ◌≢◌, refl, arith, List, Option, none, some, ◌==◌, Bool-cases, inl, inr, sym, ◌∙◌, not,
  if◌then◌else◌, true, false, ap, bit_or, Option-cases, subst, if-rule, if-cases,
}

adopted-sig_pending :
    (parent : ℕ) (child : Process) → (adopted parent child).sig_pending ≡ child.sig_pending
unfolding collect
adopted-sig_pending parent child =
    let P = λ (p : Process). p.sig_pending ≡ child.sig_pending in
    if-rule P (not (child.ppid == parent)) refl (if-rule P (is_zombie child.state) refl refl)

-- A child that exit has reparented has another parent, unless that is process 1.
adopted-ppid : (parent : ℕ) (child : Process) → parent ≢ 1 → (adopted parent child).ppid ≢ parent
unfolding collect
adopted-ppid parent child ne =
    let P = λ (p : Process). p.ppid ≢ parent in
    if-cases P (not (child.ppid == parent)) (λ h e. ground arith)
      (λ h. if-rule P (is_zombie child.state) (λ e. ne (sym e)) (λ e. ne (sym e)))

map_option-adopted :
    (parent : ℕ) (o : Option Process) (c : Process)
    → parent ≢ 1
    → map_option (adopted parent) o ≡ some c
    → c.ppid ≢ parent
map_option-adopted parent none c ne h = absurd (ground (arith, h))
map_option-adopted parent (some q) c ne h =
    subst (λ (p : Process). p.ppid ≢ parent) (some_injective h) (adopted-ppid parent q ne)

-- A signal to a process does not change whose child it is.
signal_parent-ppid :
    (procs : List Process) (ppid pid : ℕ) (child : Process)
    → proc_find (signal_parent procs (proc_find procs ppid)) pid ≡ some child
    → (c : Process) × (proc_find procs pid ≡ some c) × (child.ppid ≡ c.ppid)
unfolding signal_parent put_signalled sig_send
signal_parent-ppid procs ppid pid child h = elim (Option-cases (proc_find procs ppid)) [
  | inl missing ↦ (
    child,
    ap (λ (o : Option Process). proc_find (signal_parent procs o) pid) (sym missing) ∙ h,
    refl,
  )
  | inr (q, there) ↦
      let told : Process = record q { sig_pending = bit_or q.sig_pending (sigmask 17) } in
      let number = proc_find-pid procs ppid q there in
      elim (Bool-cases (pid == q.pid)) [
        | inl same ↦
            let here : pid ≡ q.pid = ground arith in
            let found =
              ap (proc_find (put_proc procs told)) here
              ∙ proc_find-put_proc_self procs told q (ap (proc_find procs) number ∙ there) in
            let told_is = some_injective (
              sym found
              ∙ ap (λ (o : Option Process). proc_find (signal_parent procs o) pid) (sym there)
              ∙ h) in
            (
              q,
              ap (proc_find procs) (here ∙ number) ∙ there,
              sym (ap (λ (p : Process). p.ppid) told_is),
            )
        | inr other ↦
            let apart : pid ≢ ppid = λ e. ground (arith, e, number, other) in
            (child, sym (signal_parent-other procs ppid pid apart) ∙ h, refl)
      ]
]

-- After the proc_exit of a main process that is not its own parent, its parent, if it is in the
-- table, has SIGCHLD pending and every signal that was pending before.
pub proc_exit-sigchld :
    (procs : List Process) (proc parent : Process) (status : ℕ)
    → proc.tgid ≡ proc.pid
    → proc.ppid ≢ proc.pid
    → proc_find procs proc.ppid ≡ some parent
    → (parent' : Process) × (proc_find (proc_exit procs proc status) proc.ppid ≡ some parent')
      × (digit parent'.sig_pending 16 ≡ 1)
      × ((k : ℕ) → digit parent.sig_pending k ≡ 1 → digit parent'.sig_pending k ≡ 1)
unfolding proc_exit exited signal_parent put_signalled sig_send
proc_exit-sigchld procs proc parent status main ne there =
    let other : (proc.ppid == proc.pid) ≡ false = ground arith in
    let leader : (proc.tgid == proc.pid) ≡ true = ground arith in
    let left = reparent proc.pid (put_proc procs (exited proc status)) in
    let found : proc_find left proc.ppid ≡ some (adopted proc.pid parent) =
      proc_find-reparent proc.pid (put_proc procs (exited proc status)) proc.ppid
      ∙ ap (map_option (adopted proc.pid))
          (proc_find-put_proc procs (exited proc status) proc.ppid ne ∙ there) in
    let number = proc_find-pid left proc.ppid (adopted proc.pid parent) found in
    let pending = (adopted proc.pid parent).sig_pending in
    let told : Process = record (adopted proc.pid parent) {
      sig_pending = bit_or pending (sigmask 17);
    } in
    (
      told,
      rw (leader, other, found)
          (ap (proc_find (put_proc left told)) (sym number)
            ∙ proc_find-put_proc_self left told _ (ap (proc_find left) number ∙ found)),
      omega (arith, or_digit 16 pending (sigmask 17)),
      λ k on. omega (
        arith,
        on,
        ap (λ (n : ℕ). digit n k) (adopted-sig_pending proc.pid parent),
        or_digit k pending (sigmask 17),
      ),
    )

-- What a main process does.
main_exit :
    (procs : List Process) (proc : Process) (status : ℕ)
    → (proc.tgid == proc.pid) ≡ true
    → proc_exit procs proc status
      ≡ signal_parent (reparent proc.pid (put_proc procs (exited proc status))) (
          proc_find
            (reparent proc.pid (put_proc procs (exited proc status)))
            (if proc.ppid == proc.pid then 1 else proc.ppid))
unfolding proc_exit
main_exit procs proc status h = rw h refl

-- After the proc_exit of a main process other than process 1, no process that proc_find finds
-- has it as its parent.
pub proc_exit-orphans :
    (procs : List Process) (proc child : Process) (status pid : ℕ)
    → proc.tgid ≡ proc.pid
    → proc.pid ≢ 1
    → proc_find (proc_exit procs proc status) pid ≡ some child
    → child.ppid ≢ proc.pid
unfolding proc_exit
proc_exit-orphans procs proc child status pid main ne there =
    let leader : (proc.tgid == proc.pid) ≡ true = ground arith in
    let gone = put_proc procs (exited proc status) in
    let back =
      signal_parent-ppid (reparent proc.pid gone) (if proc.ppid == proc.pid then 1 else proc.ppid)
        pid child
        (sym (ap (λ (ps : List Process). proc_find ps pid) (main_exit procs proc status leader))
          ∙ there) in
    let c = back.0 in
    let adopted_one =
      map_option-adopted proc.pid (proc_find gone pid) c ne
        (sym (proc_find-reparent proc.pid gone pid) ∙ back.1) in
    λ e. adopted_one (sym (back.2) ∙ e)
