-- ===== src/Signal/Deliver.antt =====
-- `sig_deliver` of emu/src/signal_emu.c.
use alpine_on_ios.Cpu.{Cpu}
use alpine_on_ios.Memory.Space.{mem_translate, mem_prot_write}
use alpine_on_ios.Process.State.{Process, SigAction, proc_running, proc_stopped}
use alpine_on_ios.Signal.Frame.{sigframe_size, save_frame}
use alpine_on_ios.Signal.Mask.{nsig, sigstop, sigmask, uncatchable, sig_pending_set}
use alpine_on_ios.Prelude.{
  ℕ, zero, suc, ◌-◌, bit_and, bit_or, Bool, ◌||◌, ◌==◌, if◌then◌else◌, is_true, not64, sub64,
  update, Option, none, some,
}

-- The process after the call, or the status with which it called `proc_exit`, its last step.
pub data Delivery : Type 0 where
  stays : Process → Delivery
  exits : Process → ℕ → Delivery

-- The loop over the signals from `sig` on.
unfoldable pub lowest_signal : ℕ → ℕ → ℕ → Option ℕ
lowest_signal zero sig deliverable = none
lowest_signal (suc n) sig deliverable =
    if is_true (bit_and deliverable (sigmask sig))
    then some sig
    else lowest_signal n (suc sig) deliverable

unfoldable pub sig_default_ignore : ℕ → Bool
sig_default_ignore sig = sig == 17 || sig == 23 || sig == 28

unfoldable pub sig_default_stop : ℕ → Bool
sig_default_stop sig = sig == sigstop || sig == 20 || sig == 21 || sig == 22

unfoldable pub default_action : Process → ℕ → Delivery
default_action proc sig =
    if sig_default_ignore sig
    then stays proc
    else if sig == 18
    then stays (record proc { state = proc_running })
    else if sig_default_stop sig
    then stays (record proc { state = proc_stopped })
    else exits proc (bit_and sig 0x7f)

abbrev pub frame_addr : ℕ → ℕ
frame_addr sp = bit_and (sub64 sp sigframe_size) (not64 15)

-- The registers with which the handler starts.
unfoldable pub enter_handler : Cpu → ℕ → ℕ → SigAction → Cpu
enter_handler c frame sig sa =
    let lr = if is_true (bit_and sa.flags 0x0400_0000) then sa.restorer else 0 in
    record c { sp = frame; x = update (update c.x 0 sig) 30 lr; pc = sa.handler }

-- The signals blocked while the handler runs.
unfoldable pub handler_mask : ℕ → ℕ → SigAction → ℕ
handler_mask blocked sig sa =
    let masked = bit_or blocked sa.mask in
    let deferred =
      if is_true (bit_and sa.flags 0x4000_0000) then masked else bit_or masked (sigmask sig) in
    bit_and deferred (not64 uncatchable)

-- The table after SA_RESETHAND.
unfoldable pub reset_handler : (ℕ → SigAction) → ℕ → SigAction → ℕ → SigAction
reset_handler actions sig sa =
    if is_true (bit_and sa.flags 0x8000_0000)
    then update actions sig (record (actions sig) { handler = 0 })
    else actions

unfoldable pub call_handler : Process → (ℕ → SigAction) → ℕ → SigAction → Option ℕ → Process
call_handler proc actions sig sa none = proc
call_handler proc actions sig sa (some p) =
    let frame = frame_addr proc.cpu.sp in
    record proc {
      mem = save_frame proc.mem frame proc.cpu proc.sig_blocked;
      cpu = enter_handler proc.cpu frame sig sa;
      sig_blocked = handler_mask proc.sig_blocked sig sa;
      sighand = some (reset_handler actions sig sa);
    }

unfoldable pub take_action : Process → ℕ → Option (ℕ → SigAction) → Delivery
take_action proc sig none = stays proc
take_action proc sig (some actions) =
    let sa = actions sig in
    let place =
      mem_translate proc.mem.regions (frame_addr proc.cpu.sp) sigframe_size mem_prot_write in
    if sa.handler == 1
    then stays proc
    else if sa.handler == 0
    then default_action proc sig
    else stays (call_handler proc actions sig sa place)

unfoldable pub deliver_signal : Process → Option ℕ → Delivery
deliver_signal proc none = stays proc
deliver_signal proc (some sig) =
    take_action (record proc { sig_pending = bit_and proc.sig_pending (not64 (sigmask sig)) }) sig
      proc.sighand

unfoldable pub sig_deliver : Process → Delivery
sig_deliver proc =
    let deliverable = sig_pending_set proc in
    if deliverable == 0
    then stays proc
    else deliver_signal proc (lowest_signal (nsig - 1) 1 deliverable)
