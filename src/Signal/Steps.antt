-- ===== src/Signal/Steps.antt =====
-- What may happen to the signals of a process: the calls of emu/src/signal_emu.c and
-- emu/src/sys_signal.c in any order, and the guest in between.
use alpine_on_ios.Cpu.{Cpu}
use alpine_on_ios.Memory.Unmap.{MemSpace}
use alpine_on_ios.Process.Call.{Called, or_efault, stored_or_efault}
use alpine_on_ios.Process.State.{Process, SigAction}
use alpine_on_ios.Signal.Calls.{
  read_action, write_action, give_action, do_rt_sigaction, give_mask, do_rt_sigprocmask,
  do_rt_sigpending, report_altstack, set_altstack, do_sigaltstack,
}
use alpine_on_ios.Signal.Deliver.{Delivery, stays, exits, sig_deliver}
use alpine_on_ios.Signal.Guard.{
  IsGuarded, IsGuarded-same, Yields, refused, yields, sig_action-Yields, sig_procmask-Yields,
  Guarded, staying, exiting, sig_deliver-Guarded,
}
use alpine_on_ios.Signal.Mask.{nsig, sigmask, sig_send}
use alpine_on_ios.Prelude.{
  ℕ, ◌≡◌, refl, Option, none, some, if-rule, subst, ap, u32, ltb, leb, ◌||◌, ◌==◌, is_true, bit_and,
  bit_or,
}

-- The process that a call leaves.
pub data CallGuarded : Called → Type 0 where
  leaves : {ret : ℕ} {proc : Process} → IsGuarded proc → CallGuarded (ret, proc)

or_efault-CallGuarded :
    (proc : Process) (o : Option ℕ) (next : ℕ → Called)
    → IsGuarded proc
    → ((v : ℕ) → CallGuarded (next v))
    → CallGuarded (or_efault proc o next)
unfolding or_efault
or_efault-CallGuarded proc none next g f = leaves g
or_efault-CallGuarded proc (some v) next g f = f v

stored_or_efault-CallGuarded :
    (proc : Process) (o : Option MemSpace) (next : Process → Called)
    → IsGuarded proc
    → ((proc' : Process) → IsGuarded proc' → CallGuarded (next proc'))
    → CallGuarded (stored_or_efault proc o next)
unfolding stored_or_efault
stored_or_efault-CallGuarded proc none next g f = leaves g
stored_or_efault-CallGuarded proc (some mem) next g f = f _ (IsGuarded-same g refl refl)

write_action-CallGuarded :
    (proc : Process) (addr : ℕ) (old : SigAction)
    → IsGuarded proc
    → CallGuarded (write_action proc addr old)
unfolding write_action
write_action-CallGuarded proc addr old g = stored_or_efault-CallGuarded proc _ _ g (λ p1 g1.
    stored_or_efault-CallGuarded p1 _ _ g1 (λ p2 g2.
      stored_or_efault-CallGuarded p2 _ _ g2
        (λ p3 g3. stored_or_efault-CallGuarded p3 _ _ g3 (λ p4 g4. leaves g4))))

give_action-CallGuarded :
    (proc : Process) (a2 : ℕ) (o : Option (Process × SigAction))
    → IsGuarded proc
    → Yields o
    → CallGuarded (give_action proc a2 o)
unfolding give_action
give_action-CallGuarded proc a2 none g refused = leaves g
give_action-CallGuarded proc a2 (some (proc', old)) g (yields g') =
    if-rule CallGuarded (a2 == 0) (leaves g') (write_action-CallGuarded proc' a2 old g')

pub do_rt_sigaction-CallGuarded :
    (proc : Process) (a0 a1 a2 : ℕ) → IsGuarded proc → CallGuarded (do_rt_sigaction proc a0 a1 a2)
unfolding do_rt_sigaction read_action
do_rt_sigaction-CallGuarded proc a0 a1 a2 g =
    let sig = u32 a0 in
    let set = λ (act : Option SigAction).
      give_action-CallGuarded proc a2 _ g (sig_action-Yields proc sig act g) in
    if-rule CallGuarded (ltb sig 1 || leb nsig sig) (leaves g) (
      if-rule CallGuarded (a1 == 0) (set none) (
        or_efault-CallGuarded proc _ _ g (λ v1. or_efault-CallGuarded proc _ _ g (λ v2.
          or_efault-CallGuarded proc _ _ g
            (λ v3. or_efault-CallGuarded proc _ _ g (λ v4. set (some _)))))))

give_mask-CallGuarded :
    (proc : Process) (a2 : ℕ) (o : Option (Process × ℕ))
    → IsGuarded proc
    → Yields o
    → CallGuarded (give_mask proc a2 o)
unfolding give_mask
give_mask-CallGuarded proc a2 none g refused = leaves g
give_mask-CallGuarded proc a2 (some (proc', old)) g (yields g') =
    if-rule CallGuarded (a2 == 0) (leaves g')
      (stored_or_efault-CallGuarded proc' _ _ g' (λ p1 g1. leaves g1))

pub do_rt_sigprocmask-CallGuarded :
    (proc : Process) (a0 a1 a2 : ℕ) → IsGuarded proc → CallGuarded (do_rt_sigprocmask proc a0 a1 a2)
unfolding do_rt_sigprocmask
do_rt_sigprocmask-CallGuarded proc a0 a1 a2 g =
    let set = λ (mask : Option ℕ).
      give_mask-CallGuarded proc a2 _ g (sig_procmask-Yields proc (u32 a0) mask g) in
    if-rule CallGuarded (a1 == 0) (set none) (or_efault-CallGuarded proc _ _ g (λ v. set (some v)))

do_rt_sigpending-CallGuarded :
    (proc : Process) (a0 : ℕ) → IsGuarded proc → CallGuarded (do_rt_sigpending proc a0)
unfolding do_rt_sigpending
do_rt_sigpending-CallGuarded proc a0 g =
    if-rule CallGuarded (a0 == 0) (leaves g)
      (stored_or_efault-CallGuarded proc _ _ g (λ p1 g1. leaves g1))

set_altstack-CallGuarded :
    (a0 : ℕ) (proc : Process) → IsGuarded proc → CallGuarded (set_altstack a0 proc)
unfolding set_altstack
set_altstack-CallGuarded a0 proc g = if-rule CallGuarded (a0 == 0) (leaves g) (
    or_efault-CallGuarded proc _ _ g (λ v1. or_efault-CallGuarded proc _ _ g (λ v2.
      or_efault-CallGuarded proc _ _ g (λ v3.
        if-rule CallGuarded (is_true (bit_and v2 2)) (leaves (IsGuarded-same g refl refl))
          (leaves (IsGuarded-same g refl refl))))))

do_sigaltstack-CallGuarded :
    (proc : Process) (a0 a1 : ℕ) → IsGuarded proc → CallGuarded (do_sigaltstack proc a0 a1)
unfolding do_sigaltstack report_altstack
do_sigaltstack-CallGuarded proc a0 a1 g =
    if-rule CallGuarded (a1 == 0) (set_altstack-CallGuarded a0 proc g) (
      stored_or_efault-CallGuarded proc _ _ g (λ p1 g1.
        stored_or_efault-CallGuarded p1 _ _ g1 (λ p2 g2.
          stored_or_efault-CallGuarded p2 _ _ g2 (λ p3 g3. set_altstack-CallGuarded a0 p3 g3))))

-- A step of a process, as long as it does not call rt_sigreturn.
pub data SignalStep : Process → Process → Type 0 where
  guest :
      {proc : Process} (cpu : Cpu) (mem : MemSpace)
      → SignalStep proc (record proc { cpu = cpu; mem = mem })
  sent : {proc proc' : Process} (sig : ℕ) → sig_send proc sig ≡ some proc' → SignalStep proc proc'
  delivered : {proc proc' : Process} → sig_deliver proc ≡ stays proc' → SignalStep proc proc'
  sigaction :
      {proc proc' : Process} (a0 a1 a2 ret : ℕ)
      → do_rt_sigaction proc a0 a1 a2 ≡ (ret, proc')
      → SignalStep proc proc'
  sigprocmask :
      {proc proc' : Process} (a0 a1 a2 ret : ℕ)
      → do_rt_sigprocmask proc a0 a1 a2 ≡ (ret, proc')
      → SignalStep proc proc'
  sigpending :
      {proc proc' : Process} (a0 ret : ℕ)
      → do_rt_sigpending proc a0 ≡ (ret, proc')
      → SignalStep proc proc'
  sigaltstack :
      {proc proc' : Process} (a0 a1 ret : ℕ)
      → do_sigaltstack proc a0 a1 ≡ (ret, proc')
      → SignalStep proc proc'

pub data SignalSteps : Process → Process → Type 0 where
  done : {proc : Process} → SignalSteps proc proc
  step :
      {proc proc' proc'' : Process}
      → SignalStep proc proc'
      → SignalSteps proc' proc''
      → SignalSteps proc proc''

call_left :
    {proc : Process} {ret : ℕ} {c : Called} → CallGuarded c → c ≡ (ret, proc) → IsGuarded proc
call_left (leaves g) h = subst IsGuarded (ap (λ (c : Called). c.1) h) g

left_by : Delivery → Process
left_by (stays proc) = proc
left_by (exits proc status) = proc

delivery_left : {proc : Process} {d : Delivery} → Guarded d → d ≡ stays proc → IsGuarded proc
unfolding left_by
delivery_left (staying g) h = subst IsGuarded (ap left_by h) g
delivery_left (exiting g) h = subst IsGuarded (ap left_by h) g

or_else : Process → Option Process → Process
or_else proc none = proc
or_else proc (some proc') = proc'

sent_left :
    (proc proc' : Process) (sig : ℕ)
    → sig_send proc sig ≡ some proc'
    → IsGuarded proc
    → IsGuarded proc'
unfolding sig_send or_else
sent_left proc proc' sig h g = subst IsGuarded (ap (or_else proc) h) (
    if-rule (λ (o : Option Process). IsGuarded (or_else proc o)) {x = none}
      {y = some (record proc { sig_pending = bit_or proc.sig_pending (sigmask sig) })}
      (ltb sig 1 || leb nsig sig) g (IsGuarded-same g refl refl))

SignalStep-IsGuarded :
    {proc proc' : Process} → SignalStep proc proc' → IsGuarded proc → IsGuarded proc'
SignalStep-IsGuarded (guest cpu mem) g = IsGuarded-same g refl refl
SignalStep-IsGuarded (sent sig h) g = sent_left _ _ _ h g
SignalStep-IsGuarded (delivered h) g = delivery_left (sig_deliver-Guarded _ g) h
SignalStep-IsGuarded (sigaction a0 a1 a2 ret h) g =
    call_left (do_rt_sigaction-CallGuarded _ _ _ _ g) h
SignalStep-IsGuarded (sigprocmask a0 a1 a2 ret h) g =
    call_left (do_rt_sigprocmask-CallGuarded _ _ _ _ g) h
SignalStep-IsGuarded (sigpending a0 ret h) g = call_left (do_rt_sigpending-CallGuarded _ _ g) h
SignalStep-IsGuarded (sigaltstack a0 a1 ret h) g = call_left (do_sigaltstack-CallGuarded _ _ _ g) h

-- If a process does not block SIGKILL and SIGSTOP and their actions are the default ones, the
-- same holds after any sequence of sent and delivered signals, of the system calls
-- rt_sigaction, rt_sigprocmask, rt_sigpending and sigaltstack, successful or not, and of
-- changes of the guest to its registers and memory.
pub SignalSteps-IsGuarded :
    (proc proc' : Process) → SignalSteps proc proc' → IsGuarded proc → IsGuarded proc'
SignalSteps-IsGuarded proc proc' done g = g
SignalSteps-IsGuarded proc proc' (step s rest) g =
    SignalSteps-IsGuarded _ proc' rest (SignalStep-IsGuarded s g)
