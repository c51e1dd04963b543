-- ===== src/Signal/Mask.antt =====
-- Actions, masks and pending signals: `sig_action`, `sig_procmask`, `sig_send` and `sig_pending` of
-- emu/src/signal_emu.c. A signal number or a `how` is an `int`, so a negative one is its pattern of
-- 32 bits.
use alpine_on_ios.Process.State.{Process, SigAction}
use alpine_on_ios.Prelude.{
  ℕ, ◌-◌, ◌^◌, bit_and, bit_or, ◌||◌, ltb, leb, ◌==◌, if◌then◌else◌, not64, update, Option, none,
  some, ◌>>=◌,
}

abbrev pub nsig : ℕ
nsig = 64

abbrev pub sigkill : ℕ
sigkill = 9

abbrev pub sigstop : ℕ
sigstop = 19

abbrev pub sigmask : ℕ → ℕ
sigmask sig = 2 ^ (sig - 1)

abbrev pub uncatchable : ℕ
uncatchable = 0x4_0100

-- The action is read, and then replaced if there is a new one.
unfoldable pub set_action :
    Process → ℕ → Option SigAction → (ℕ → SigAction) → Option (Process × SigAction)
set_action proc sig none actions = some (proc, actions sig)
set_action proc sig (some act) actions =
    if sig == sigkill || sig == sigstop
    then none
    else some (record proc { sighand = some (update actions sig act) }, actions sig)

-- `none` for -EINVAL; else the process and the action before, which the caller may have asked for.
unfoldable pub sig_action : Process → ℕ → Option SigAction → Option (Process × SigAction)
sig_action proc sig act =
    if ltb sig 1 || leb nsig sig then none else (proc.sighand >>= set_action proc sig act)

-- The `switch` on `how`.
unfoldable pub change_mask : ℕ → ℕ → ℕ → Option ℕ
change_mask how set blocked =
    if how == 0
    then some (bit_or blocked set)
    else if how == 1
    then some (bit_and blocked (not64 set))
    else if how == 2
    then some set
    else none

-- `none` for -EINVAL; else the process and the mask before.
unfoldable pub sig_procmask : Process → ℕ → Option ℕ → Option (Process × ℕ)
sig_procmask proc how none = some (proc, proc.sig_blocked)
sig_procmask proc how (some set) = do
  blocked ← change_mask how set proc.sig_blocked
  some (record proc { sig_blocked = bit_and blocked (not64 uncatchable) }, proc.sig_blocked)

unfoldable pub sig_send : Process → ℕ → Option Process
sig_send proc sig =
    if ltb sig 1 || leb nsig sig
    then none
    else some (record proc { sig_pending = bit_or proc.sig_pending (sigmask sig) })

unfoldable pub sig_pending_set : Process → ℕ
sig_pending_set proc = bit_and proc.sig_pending (not64 proc.sig_blocked)
