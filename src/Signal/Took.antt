-- ===== src/Signal/Took.antt =====
-- What one delivery changes: at most the mask, the table of actions and the state of the processor.
use alpine_on_ios.Bits.{digit, and_digit, or_digit, and-lt_right}
use alpine_on_ios.Process.State.{Process, SigAction}
use alpine_on_ios.Signal.Deliver.{
  Delivery, stays, exits, take_action, call_handler, default_action, sig_default_ignore,
  sig_default_stop, handler_mask,
}
use alpine_on_ios.Signal.Mask.{sigmask, uncatchable}
use alpine_on_ios.Prelude.{
  ℕ, ◌^◌, ◌<◌, ◌≡◌, refl, arith, Option, none, some, bit_and, bit_or, not64, ◌==◌, if-rule, is_true,
  each_below, each_below-at, ==_iff,
}

-- The process ends, or nothing but the mask and what a handler needs has changed.
pub data Took (proc : Process) : Delivery → Type 0 where
  ended : {proc' : Process} {status : ℕ} → Took proc (exits proc' status)
  went_on :
      {proc' : Process}
      → proc'.sig_pending ≡ proc.sig_pending
      → ((k : ℕ) → k < 8 → digit proc.sig_blocked k ≡ 1 → digit proc'.sig_blocked k ≡ 1)
      → proc'.sig_blocked < 2 ^ 64
      → (actions : ℕ → SigAction) → proc'.sighand ≡ some actions
      → Took proc (stays proc')

open_digit : (k : ℕ) → k < 8 → digit (not64 uncatchable) k ≡ 1
unfolding each_below
open_digit k h = (==_iff _ _).0 (each_below-at (λ k. digit (not64 uncatchable) k == 1) 8 refl k h)

handler_mask-digit :
    (blocked sig : ℕ) (sa : SigAction) (k : ℕ)
    → k < 8
    → digit blocked k ≡ 1
    → digit (handler_mask blocked sig sa) k ≡ 1
unfolding handler_mask
handler_mask-digit blocked sig sa k h on =
    let masked : digit (bit_or blocked sa.mask) k ≡ 1 = omega (arith, or_digit k blocked sa.mask) in
    let kept = λ (m : ℕ) (set : digit m k ≡ 1).
      let here : digit (bit_and m (not64 uncatchable)) k ≡ 1 =
        omega (arith, set, open_digit k h, and_digit k m (not64 uncatchable)) in
      here in
    if-rule (λ (m : ℕ). digit (bit_and m (not64 uncatchable)) k ≡ 1) {x = bit_or blocked sa.mask}
      {y = bit_or (bit_or blocked sa.mask) (sigmask sig)} (is_true (bit_and sa.flags 0x4000_0000))
      (kept _ masked) (kept _ (omega (arith, or_digit k (bit_or blocked sa.mask) (sigmask sig))))

call_handler-Took :
    (proc : Process) (actions : ℕ → SigAction) (sig : ℕ) (sa : SigAction) (place : Option ℕ)
    → proc.sig_blocked < 2 ^ 64
    → proc.sighand ≡ some actions
    → Took proc (stays (call_handler proc actions sig sa place))
unfolding call_handler handler_mask
call_handler-Took proc actions sig sa none hb hand = went_on refl (λ k h on. on) hb actions hand
call_handler-Took proc actions sig sa (some p) hb hand =
    went_on refl (handler_mask-digit proc.sig_blocked sig sa)
      (and-lt_right 64 _ (not64 uncatchable) (omega arith)) _ refl

pub take_action-Took :
    (proc : Process) (actions : ℕ → SigAction) (sig : ℕ)
    → proc.sig_blocked < 2 ^ 64
    → proc.sighand ≡ some actions
    → Took proc (take_action proc sig (some actions))
unfolding take_action default_action
take_action-Took proc actions sig hb hand =
    let on = went_on refl (λ k h d. d) hb actions hand in
    if-rule (Took proc) ((actions sig).handler == 1) on (
      if-rule (Took proc) ((actions sig).handler == 0)
        (if-rule (Took proc) (sig_default_ignore sig) on (
          if-rule (Took proc) (sig == 18) (went_on refl (λ k h d. d) hb actions hand) (
            if-rule (Took proc) (sig_default_stop sig) (went_on refl (λ k h d. d) hb actions hand)
              ended)))
        (call_handler-Took proc actions sig (actions sig) _ hb hand))

-- The default action of SIGKILL.
pub take_action-kill :
    (proc : Process) (actions : ℕ → SigAction)
    → (actions 9).handler ≡ 0
    → take_action proc 9 (some actions) ≡ exits proc 9
unfolding take_action default_action sig_default_ignore sig_default_stop
take_action-kill proc actions h = rw h refl
