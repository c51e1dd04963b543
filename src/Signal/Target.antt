-- ===== src/Signal/Target.antt =====
-- Which process `do_kill` of emu/src/sys_signal.c signals.
use alpine_on_ios.Bits.{digit, or_digit, power_digit_self}
use alpine_on_ios.Process.Find.{proc_find-pid, proc_find-put_proc, proc_find-put_proc_self}
use alpine_on_ios.Process.Exit.{some_injective}
use alpine_on_ios.Process.State.{Process}
use alpine_on_ios.Process.Table.{proc_find, put_proc}
use alpine_on_ios.Signal.Kill.{Sent, put_sent, send_to, send_found, positive, probe, do_kill}
use alpine_on_ios.Signal.Mask.{nsig, sigmask, sig_send}
use alpine_on_ios.Prelude.{
  ℕ, ◌-◌, ◌<◌, ◌≡◌, ◌≢◌, refl, arith, List, Option, none, some, ◌==◌, ◌||◌, ltb, leb, if◌then◌else◌,
  if-rule, if-cases, u32, Option-cases, inl, inr, sym, ◌∙◌, ap, Bool-cases, bit_or, false,
}

-- The table of an outcome agrees with the one before on a process.
Same : List Process → ℕ → Sent → Type 0
Same procs pid sent = proc_find (sent.1) pid ≡ proc_find procs pid

send_to-other :
    (procs : List Process) (target : Process) (sig pid : ℕ)
    → pid ≢ target.pid
    → Same procs pid (send_to procs target sig)
unfolding Same put_sent sig_send
send_to-other procs target sig pid ne = elim (Bool-cases (ltb sig 1 || leb nsig sig)) [
  | inl bad ↦ rw bad refl
  | inr fine ↦ rw fine (proc_find-put_proc procs _ pid ne)
]

send_found-other :
    (procs : List Process) (number sig pid : ℕ)
    → pid ≢ number
    → Same procs pid (send_found procs (proc_find procs number) sig)
unfolding Same send_found
send_found-other procs number sig pid ne = elim (Option-cases (proc_find procs number)) [
  | inl missing ↦ rw missing refl
  | inr (target, there) ↦
      rw there
        (send_to-other procs target sig pid (λ e. ne (e ∙ proc_find-pid procs number target there)))
]

probe-Same : (procs : List Process) (o : Option Process) (pid : ℕ) → Same procs pid (probe procs o)
unfolding Same probe
probe-Same procs none pid = refl
probe-Same procs (some p) pid = refl

-- Whatever its arguments, do_kill changes no process in the table but the one with the given
-- pid or, if that is 0 or negative, the caller; so the other members of a process group get
-- nothing.
pub do_kill-others :
    (procs : List Process) (proc : Process) (a0 a1 pid : ℕ)
    → pid ≢ (if positive (u32 a0) then u32 a0 else proc.pid)
    → proc_find ((do_kill procs proc a0 a1).1) pid ≡ proc_find procs pid
unfolding do_kill Same
do_kill-others procs proc a0 a1 pid ne =
    let P = λ (s : Sent). proc_find (s.1) pid ≡ proc_find procs pid in
    if-rule P (u32 a1 == 0) (if-rule P (positive (u32 a0)) (probe-Same procs _ pid) refl) (
      if-cases P (positive (u32 a0))
        (λ one. send_found-other procs (u32 a0) (u32 a1) pid (λ e. ne (e ∙ rw one refl)))
        (λ group. send_to-other procs proc (u32 a1) pid (λ e. ne (e ∙ rw group refl))))

abbrev pub told : Process → ℕ → Process
told target sig = record target { sig_pending = bit_or target.sig_pending (sigmask sig) }

send_to-told :
    (procs : List Process) (target : Process) (sig : ℕ)
    → 0 < sig
    → sig < nsig
    → send_to procs target sig ≡ (0, put_proc procs (told target sig))
unfolding put_sent sig_send
send_to-told procs target sig low high =
    let fine : (ltb sig 1 || leb nsig sig) ≡ false = ground arith in rw fine refl

do_kill-told :
    (procs : List Process) (proc target : Process) (a0 a1 : ℕ)
    → proc_find procs proc.pid ≡ some proc
    → proc_find procs (if positive (u32 a0) then u32 a0 else proc.pid) ≡ some target
    → 0 < u32 a1
    → u32 a1 < nsig
    → do_kill procs proc a0 a1 ≡ (0, put_proc procs (told target (u32 a1)))
unfolding do_kill send_found
do_kill-told procs proc target a0 a1 mine there low high =
    let real : u32 a1 == 0 ≡ false = ground arith in
    elim (Bool-cases (positive (u32 a0))) [
      | inl one ↦
          let found : proc_find procs (u32 a0) ≡ some target =
            ap (proc_find procs) (rw one refl) ∙ there in
          rw (real, one, found) (send_to-told procs target (u32 a1) low high)
      | inr group ↦
          let same = some_injective (sym mine ∙ ap (proc_find procs) (rw group refl) ∙ there) in
          rw (real, group)
            (send_to-told procs proc (u32 a1) low high
              ∙ ap (λ (p : Process). (0, put_proc procs (told p (u32 a1)))) same)
    ]

-- If the caller is in the table under its pid, do_kill with a signal from 1 to 63 returns 0 and
-- makes the signal pending, besides those pending before, for the process with the given pid if
-- that is positive and in the table, and for the caller if it is 0 or negative.
pub do_kill-target :
    (procs : List Process) (proc target : Process) (a0 a1 : ℕ)
    → proc_find procs proc.pid ≡ some proc
    → proc_find procs (if positive (u32 a0) then u32 a0 else proc.pid) ≡ some target
    → 0 < u32 a1
    → u32 a1 < nsig
    → (target' : Process) × ((do_kill procs proc a0 a1).0 ≡ 0)
      × (proc_find ((do_kill procs proc a0 a1).1) target.pid ≡ some target')
      × (digit target'.sig_pending (u32 a1 - 1) ≡ 1)
      × ((k : ℕ) → digit target.sig_pending k ≡ 1 → digit target'.sig_pending k ≡ 1)
do_kill-target procs proc target a0 a1 mine there low high =
    let sig = u32 a1 in
    let sent = do_kill-told procs proc target a0 a1 mine there low high in
    let number = proc_find-pid procs _ target there in
    (
      told target sig,
      ap (λ (s : Sent). s.0) sent,
      ap (λ (s : Sent). proc_find (s.1) target.pid) sent
          ∙ proc_find-put_proc_self procs (told target sig) target
              (ap (proc_find procs) number ∙ there),
      omega
          (arith, or_digit (sig - 1) target.sig_pending (sigmask sig), power_digit_self (sig - 1)),
      λ k on. omega (arith, or_digit k target.sig_pending (sigmask sig)),
    )
