-- ===== src/Signal/Killed.antt =====
-- A signal SIGKILL that is sent is acted on.
use alpine_on_ios.Bits.{digit, or_digit}
use alpine_on_ios.Process.State.{Process, SigAction}
use alpine_on_ios.Signal.Deliver.{lowest_signal, Delivery, stays, exits, take_action, sig_deliver}
use alpine_on_ios.Signal.Guard.{
  IsGuarded, IsGuarded-same, HasDefaults, table, Guarded, staying, exiting, sig_deliver-Guarded,
}
use alpine_on_ios.Signal.Lowest.{
  IsLowest, lowest, nothing, lowest_signal-IsLowest, pending_digit, cleared_digit_self,
  cleared_digit_other,
}
use alpine_on_ios.Signal.Mask.{nsig, sigkill, sig_send, sigmask, sig_pending_set}
use alpine_on_ios.Signal.Return.{sig_deliver-some}
use alpine_on_ios.Signal.Took.{Took, ended, went_on, take_action-Took, take_action-kill}
use alpine_on_ios.Prelude.{
  ℕ, zero, suc, ◌+◌, ◌-◌, ◌^◌, ◌≤◌, ◌<◌, ◌≡◌, ◌≢◌, refl, sym, ap, subst, ◌∙◌, arith, Option, some,
  inl, inr, bit_and, bit_or, not64, Bool-cases, ◌==◌, ltb, ==_iff, ltb→lt, ltb→le,
}

-- Deliveries one after the other, up to the one that ends the process.
unfoldable pub unless_exits : Delivery → (Process → Delivery) → Delivery
unless_exits (stays proc) next = next proc
unless_exits (exits proc status) next = exits proc status

unfoldable pub deliver_rounds : ℕ → Process → Delivery
deliver_rounds zero proc = stays proc
deliver_rounds (suc n) proc = unless_exits (sig_deliver proc) (deliver_rounds n)

-- What a delivery leaves, if the process goes on, when no signal before `j` can be delivered.
record Doomed (j : ℕ) (proc : Process) : Type 0 where
  guarded : IsGuarded proc
  blocked_word : proc.sig_blocked < 2 ^ 64
  actions : ℕ → SigAction
  hand : proc.sighand ≡ some actions
  killed : digit proc.sig_pending 8 ≡ 1
  none_before : (r : ℕ) → 1 ≤ r → r < j → digit (sig_pending_set proc) (r - 1) ≡ 0

Ends : Delivery → Type 0
Ends d = (proc : Process) × (status : ℕ) × (d ≡ exits proc status)

default_of_kill : (actions : ℕ → SigAction) → HasDefaults (some actions) → (actions 9).handler ≡ 0
default_of_kill actions (table kill stop) = kill

-- After a delivery of `s`, no signal up to `s` can be delivered.
module _ {j : ℕ} {proc : Process} (d : Doomed j proc) (proc' : Process) (s : ℕ) (hs : s < 9)
    (before : (r : ℕ) → 1 ≤ r → r < s → digit (sig_pending_set proc) (r - 1) ≡ 0)
    (pending : proc'.sig_pending ≡ bit_and proc.sig_pending (not64 (sigmask s)))
    (masks : (k : ℕ) → k < 8 → digit proc.sig_blocked k ≡ 1 → digit proc'.sig_blocked k ≡ 1)
    (hb : proc'.sig_blocked < 2 ^ 64) where
  pending_other :
      (k : ℕ) → k < 64 → k ≢ s - 1 → digit proc'.sig_pending k ≡ digit proc.sig_pending k
  pending_other k hk ne =
      ap (λ (n : ℕ). digit n k) pending
      ∙ cleared_digit_other proc.sig_pending s (omega arith) k hk ne

  none_up_to : (r : ℕ) → 1 ≤ r → r < suc s → digit (sig_pending_set proc') (r - 1) ≡ 0
  none_up_to r lr ur =
      let new = pending_digit proc' (r - 1) (omega arith) hb in
      elim (Bool-cases (ltb r s)) [
        | inl earlier ↦
            let old = pending_digit proc (r - 1) (omega arith) d.blocked_word in
            let off = before r lr (ltb→lt r s earlier) in
            let same =
              pending_other (r - 1) (omega arith) (λ e. omega (arith, e, ltb→lt r s earlier)) in
            elim (Bool-cases (digit proc.sig_blocked (r - 1) == 1)) [
              | inl masked ↦ omega (arith, new, masks (r - 1) (omega arith) ((==_iff _ _).0 masked))
              | inr bare ↦
                  let clear : digit proc.sig_blocked (r - 1) ≡ 0 = ground arith in
                  omega (arith, new, old, off, same, clear)
            ]
        | inr last ↦
            let here : r ≡ s = omega (arith, ltb→le r s last) in
            let gone : digit proc'.sig_pending (r - 1) ≡ 0 =
              ap (λ (n : ℕ). digit n (r - 1)) pending
              ∙ ap (λ (t : ℕ). digit (bit_and proc.sig_pending (not64 (sigmask s))) (t - 1)) here
              ∙ cleared_digit_self proc.sig_pending s (omega arith) in
            omega (arith, new, gone)
      ]

  next-Doomed :
      IsGuarded proc'
      → 1 ≤ s
      → (actions : ℕ → SigAction) → proc'.sighand ≡ some actions
      → Doomed (suc s) proc'
  next-Doomed g hs1 actions hand = record {
    guarded = g;
    blocked_word = hb;
    actions = actions;
    hand = hand;
    killed = pending_other 8 (omega arith) (λ e. omega (arith, e, hs)) ∙ d.killed;
    none_before = none_up_to;
  }

unless_exits-Ends :
    {j s : ℕ} {proc : Process} {d : Delivery} (n : ℕ) (doomed : Doomed j proc)
    → s < 9
    → 1 ≤ s
    → ((r : ℕ) → 1 ≤ r → r < s → digit (sig_pending_set proc) (r - 1) ≡ 0)
    → Guarded d
    → Took (record proc { sig_pending = bit_and proc.sig_pending (not64 (sigmask s)) }) d
    → ((proc' : Process) → Doomed (suc s) proc' → Ends (deliver_rounds n proc'))
    → Ends (unless_exits d (deliver_rounds n))
unfolding Ends unless_exits
unless_exits-Ends n doomed hs hs1 before (exiting g) ended rest = (_, _, refl)
unless_exits-Ends {s = s} n doomed hs hs1 before (staying g) (went_on pending masks hb actions hand)
      rest =
    rest _ (next-Doomed doomed _ s hs before pending masks hb g hs1 actions hand)

module _ (n j : ℕ) (proc : Process) (d : Doomed j proc)
    (rest : (s : ℕ) (proc' : Process)
      → j ≤ s
      → Doomed (suc s) proc'
      → Ends (deliver_rounds n proc')) where
  taken :
      (s : ℕ)
      → lowest_signal (nsig - 1) 1 (sig_pending_set proc) ≡ some s
      → sig_deliver proc
        ≡ take_action
            (record proc { sig_pending = bit_and proc.sig_pending (not64 (sigmask s)) })
            s
            (some d.actions)
  taken s low = sig_deliver-some proc s low ∙ ap (take_action _ s) d.hand

  at_kill :
      lowest_signal (nsig - 1) 1 (sig_pending_set proc) ≡ some 9
      → Ends (unless_exits (sig_deliver proc) (deliver_rounds n))
  unfolding Ends unless_exits
  at_kill low =
      let defaults = subst HasDefaults d.hand d.guarded.defaults in
      let killed = take_action-kill _ d.actions (default_of_kill d.actions defaults) in
      (_, 9, ap (λ (r : Delivery). unless_exits r (deliver_rounds n)) (taken 9 low ∙ killed))

  deliver_round :
      {o : Option ℕ}
      → IsLowest (sig_pending_set proc) 1 (nsig - 1) o
      → lowest_signal (nsig - 1) 1 (sig_pending_set proc) ≡ o
      → Ends (unless_exits (sig_deliver proc) (deliver_rounds n))
  deliver_round (nothing all) low = absurd (
      omega (
        arith,
        all 9 (omega arith) (omega arith),
        pending_digit proc 8 (omega arith) d.blocked_word,
        d.killed,
        d.guarded.kill_open,
      ))
  deliver_round (lowest s l u on below) low =
      let kill_on : digit (sig_pending_set proc) 8 ≡ 1 =
        omega (
          arith,
          pending_digit proc 8 (omega arith) d.blocked_word,
          d.killed,
          d.guarded.kill_open,
        ) in
      elim (Bool-cases (ltb s 9)) [
        | inl before ↦
            let hs = ltb→lt s 9 before in
            let after : j ≤ s = elim (Bool-cases (ltb s j)) [
              | inl early ↦ absurd (omega (arith, on, d.none_before s l (ltb→lt s j early)))
              | inr late ↦ ltb→le s j late
            ] in
            subst (λ (r : Delivery). Ends (unless_exits r (deliver_rounds n))) (sym (taken s low))
              (unless_exits-Ends n d hs l below
                (subst Guarded (taken s low) (sig_deliver-Guarded proc d.guarded))
                (take_action-Took _ d.actions s d.blocked_word d.hand)
                (λ proc' d'. rest s proc' after d'))
        | inr not_before ↦
            let high = ltb→le s 9 not_before in
            elim (Bool-cases (ltb 9 s)) [
              | inl beyond ↦
                  absurd (omega (arith, kill_on, below 9 (omega arith) (ltb→lt 9 s beyond)))
              | inr exact ↦
                  let here : s ≡ 9 = omega (arith, high, ltb→le 9 s exact) in
                  at_kill (low ∙ ap some here)
            ]
      ]

deliver_rounds-Doomed :
    (n j : ℕ) (proc : Process) → 10 ≤ j + n → Doomed j proc → Ends (deliver_rounds n proc)
unfolding deliver_rounds
deliver_rounds-Doomed zero j proc h d = absurd (
    omega (
      arith,
      d.none_before 9 (omega arith) (omega arith),
      pending_digit proc 8 (omega arith) d.blocked_word,
      d.killed,
      d.guarded.kill_open,
    ))
deliver_rounds-Doomed (suc n) j proc h d =
    deliver_round n j proc d
      (λ s proc' after d'. deliver_rounds-Doomed n (suc s) proc' (omega arith) d')
      (lowest_signal-IsLowest (nsig - 1) 1 (sig_pending_set proc)) refl

-- If a process has a table of actions, does not block SIGKILL and SIGSTOP and has their default
-- actions, sig_send of SIGKILL succeeds, and of nine calls of sig_deliver in a row one ends the
-- process.
pub sig_send-kill :
    (proc : Process) (actions : ℕ → SigAction)
    → IsGuarded proc
    → proc.sig_blocked < 2 ^ 64
    → proc.sighand ≡ some actions
    → (sent : Process) × (ended : Process) × (status : ℕ) × (sig_send proc sigkill ≡ some sent)
      × (deliver_rounds 9 sent ≡ exits ended status)
unfolding sig_send Ends
sig_send-kill proc actions g hb hand =
    let sent : Process = record proc { sig_pending = bit_or proc.sig_pending (sigmask sigkill) } in
    let d : Doomed 1 sent = record {
      guarded = IsGuarded-same g refl refl;
      blocked_word = hb;
      actions = actions;
      hand = hand;
      killed = omega (arith, or_digit 8 proc.sig_pending (sigmask sigkill));
      none_before = λ r lr ur. absurd (omega arith);
    } in
    let ends = deliver_rounds-Doomed 9 1 sent (omega arith) d in
    (sent, ends.0, ends.1, refl, ends.2)
