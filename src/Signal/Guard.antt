-- ===== src/Signal/Guard.antt =====
-- SIGKILL and SIGSTOP stay as they are: no mask blocks them and no action replaces theirs.
use alpine_on_ios.Bits.{digit, and_digit}
use alpine_on_ios.Process.State.{Process, SigAction, proc_running, proc_stopped}
use alpine_on_ios.Signal.Deliver.{
  Delivery, stays, exits, lowest_signal, deliver_signal, take_action, call_handler, default_action,
  sig_default_ignore, sig_default_stop, reset_handler, handler_mask, sig_deliver,
}
use alpine_on_ios.Signal.Mask.{
  nsig, sigkill, sigstop, uncatchable, set_action, sig_action, change_mask, sig_procmask,
  sig_pending_set,
}
use alpine_on_ios.Prelude.{
  ℕ, ◌-◌, ◌≡◌, refl, sym, ap, subst, ◌∙◌, arith, Option, none, some, ◌>>=◌, bit_and, not64, update,
  if-rule, if-cases, ◌||◌, ◌==◌, is_true,
}

-- The actions of SIGKILL and SIGSTOP are the default ones.
pub data HasDefaults : Option (ℕ → SigAction) → Type 0 where
  no_table : HasDefaults none
  table :
      {actions : ℕ → SigAction}
      → (actions sigkill).handler ≡ 0
      → (actions sigstop).handler ≡ 0
      → HasDefaults (some actions)

pub record IsGuarded (proc : Process) : Type 0 where
  pub kill_open : digit proc.sig_blocked 8 ≡ 0
  pub stop_open : digit proc.sig_blocked 18 ≡ 0
  pub defaults : HasDefaults proc.sighand

-- The process of a result, if there is one.
pub data Yields {A : Type 0} : Option (Process × A) → Type 0 where
  refused : Yields none
  yields : {proc : Process} {a : A} → IsGuarded proc → Yields (some (proc, a))

-- The process that a delivery leaves, whether it exits or not.
pub data Guarded : Delivery → Type 0 where
  staying : {proc : Process} → IsGuarded proc → Guarded (stays proc)
  exiting : {proc : Process} {status : ℕ} → IsGuarded proc → Guarded (exits proc status)

uncatchable-kill : (b : ℕ) → digit (bit_and b (not64 uncatchable)) 8 ≡ 0
uncatchable-kill b = omega (arith, and_digit 8 b (not64 uncatchable))

uncatchable-stop : (b : ℕ) → digit (bit_and b (not64 uncatchable)) 18 ≡ 0
uncatchable-stop b = omega (arith, and_digit 18 b (not64 uncatchable))

-- A mask without the two, and a table with their default actions, are what it takes.
guarded :
    (proc : Process) (b : ℕ)
    → HasDefaults proc.sighand
    → IsGuarded (record proc { sig_blocked = bit_and b (not64 uncatchable) })
guarded proc b defaults = record {
  kill_open = uncatchable-kill b;
  stop_open = uncatchable-stop b;
  defaults = defaults;
}

set_action-Yields :
    (proc : Process) (sig : ℕ) (act : Option SigAction) (actions : ℕ → SigAction)
    → IsGuarded proc
    → HasDefaults (some actions)
    → Yields (set_action proc sig act actions)
unfolding set_action
set_action-Yields proc sig none actions g d = yields g
set_action-Yields proc sig (some act) actions g (table kill stop) =
    if-cases Yields (sig == sigkill || sig == sigstop) (λ e. refused)
      (λ e. yields (record {
        kill_open = g.kill_open;
        stop_open = g.stop_open;
        defaults = table (ground arith) (ground arith);
      }))

bind-Yields :
    (proc : Process) (sig : ℕ) (act : Option SigAction) (hand : Option (ℕ → SigAction))
    → IsGuarded proc
    → HasDefaults hand
    → Yields (hand >>= set_action proc sig act)
bind-Yields proc sig act none g d = refused
bind-Yields proc sig act (some actions) g d = set_action-Yields proc sig act actions g d

pub sig_action-Yields :
    (proc : Process) (sig : ℕ) (act : Option SigAction)
    → IsGuarded proc
    → Yields (sig_action proc sig act)
unfolding sig_action
sig_action-Yields proc sig act g =
    if-rule Yields _ refused (bind-Yields proc sig act proc.sighand g g.defaults)

mask-Yields :
    (proc : Process) (o : Option ℕ)
    → IsGuarded proc
    → Yields (
        o >>= λ b.
        some (record proc { sig_blocked = bit_and b (not64 uncatchable) }, proc.sig_blocked))
mask-Yields proc none g = refused
mask-Yields proc (some b) g = yields (guarded proc b g.defaults)

pub sig_procmask-Yields :
    (proc : Process) (how : ℕ) (set : Option ℕ)
    → IsGuarded proc
    → Yields (sig_procmask proc how set)
unfolding sig_procmask
sig_procmask-Yields proc how none g = yields g
sig_procmask-Yields proc how (some set) g =
    mask-Yields proc (change_mask how set proc.sig_blocked) g

reset_handler-HasDefaults :
    (actions : ℕ → SigAction) (sig : ℕ) (sa : SigAction)
    → HasDefaults (some actions)
    → HasDefaults (some (reset_handler actions sig sa))
unfolding reset_handler
reset_handler-HasDefaults actions sig sa (table kill stop) =
    if-rule (λ t. HasDefaults (some t))
      {x = update actions sig (record (actions sig) { handler = 0 })}
      (is_true (bit_and sa.flags 0x8000_0000)) (table (ground arith) (ground arith))
      (table kill stop)

call_handler-IsGuarded :
    (proc : Process) (actions : ℕ → SigAction) (sig : ℕ) (sa : SigAction) (place : Option ℕ)
    → IsGuarded proc
    → HasDefaults (some actions)
    → IsGuarded (call_handler proc actions sig sa place)
unfolding call_handler handler_mask
call_handler-IsGuarded proc actions sig sa none g d = g
call_handler-IsGuarded proc actions sig sa (some p) g d = record {
  kill_open = uncatchable-kill _;
  stop_open = uncatchable-stop _;
  defaults = reset_handler-HasDefaults actions sig sa d;
}

-- Other fields do not matter.
pub IsGuarded-same :
    {proc proc' : Process}
    → IsGuarded proc
    → proc'.sig_blocked ≡ proc.sig_blocked
    → proc'.sighand ≡ proc.sighand
    → IsGuarded proc'
IsGuarded-same g b h = record {
  kill_open = ap (λ (m : ℕ). digit m 8) b ∙ g.kill_open;
  stop_open = ap (λ (m : ℕ). digit m 18) b ∙ g.stop_open;
  defaults = subst HasDefaults (sym h) g.defaults;
}

default_action-Guarded :
    (proc : Process) (sig : ℕ) → IsGuarded proc → Guarded (default_action proc sig)
unfolding default_action
default_action-Guarded proc sig g =
    let runs : IsGuarded (record proc { state = proc_running }) = IsGuarded-same g refl refl in
    let stops : IsGuarded (record proc { state = proc_stopped }) = IsGuarded-same g refl refl in
    if-rule Guarded (sig_default_ignore sig) (staying g) (
      if-rule Guarded (sig == 18) (staying runs)
        (if-rule Guarded (sig_default_stop sig) (staying stops) (exiting g)))

take_action-Guarded :
    (proc : Process) (sig : ℕ) (hand : Option (ℕ → SigAction))
    → IsGuarded proc
    → HasDefaults hand
    → Guarded (take_action proc sig hand)
unfolding take_action
take_action-Guarded proc sig none g d = staying g
take_action-Guarded proc sig (some actions) g d = if-rule Guarded _ (staying g) (
    if-rule Guarded _ (default_action-Guarded proc sig g)
      (staying (call_handler-IsGuarded proc actions sig (actions sig) _ g d)))

deliver_signal-Guarded :
    (proc : Process) (o : Option ℕ) → IsGuarded proc → Guarded (deliver_signal proc o)
unfolding deliver_signal
deliver_signal-Guarded proc none g = staying g
deliver_signal-Guarded proc (some sig) g =
    take_action-Guarded _ sig proc.sighand (IsGuarded-same g refl refl) g.defaults

pub sig_deliver-Guarded : (proc : Process) → IsGuarded proc → Guarded (sig_deliver proc)
unfolding sig_deliver
sig_deliver-Guarded proc g =
    if-rule Guarded _ (staying g)
      (deliver_signal-Guarded proc (lowest_signal (nsig - 1) 1 (sig_pending_set proc)) g)
