-- ===== src/Signal/Lowest.antt =====
-- Which signal `sig_deliver` takes.
use alpine_on_ios.Bits.{
  digit, and_bit, and_digit, complement_digit, power_digit_self, power_digit_other,
}
use alpine_on_ios.Process.State.{Process}
use alpine_on_ios.Signal.Deliver.{lowest_signal, take_action, sig_deliver}
use alpine_on_ios.Signal.Mask.{nsig, sigmask, sig_pending_set}
use alpine_on_ios.Signal.Return.{sig_deliver-some}
use Prim.Native.Nat.{min}
use native.Mathlib.Nat.{one-le-pow, zero-mul, one-mul, pow-le-pow_right}
use alpine_on_ios.Prelude.{
  ℕ, zero, suc, ◌+◌, ◌-◌, ◌*◌, ◌^◌, ◌≤◌, ◌<◌, ◌≡◌, ◌≢◌, ◌⊎◌, sym, ap, ◌∙◌, arith, Option, none,
  some, inl, inr, bit_and, Bool-cases, is_true, not64, true, false, ◌==◌, ltb, if-cases, ==_iff,
  ltb→lt, ltb→le,
}

set_digit : (d k : ℕ) → is_true (bit_and d (2 ^ k)) ≡ true → digit d k ≡ 1
set_digit d k h = elim (Bool-cases (digit d k == 0)) [
  | inl off ↦
      let gone : digit d k * 2 ^ k ≡ 0 =
        ap (λ (t : ℕ). t * 2 ^ k) (ground arith) ∙ zero-mul (2 ^ k) in
      absurd (ground (arith, and_bit k d, gone, h))
  | inr on ↦ ground arith
]

clear_digit : (d k : ℕ) → is_true (bit_and d (2 ^ k)) ≡ false → digit d k ≡ 0
clear_digit d k h = elim (Bool-cases (digit d k == 0)) [
  | inl off ↦ ground arith
  | inr on ↦
      let there : digit d k * 2 ^ k ≡ 2 ^ k =
        ap (λ (t : ℕ). t * 2 ^ k) (ground arith) ∙ one-mul (2 ^ k) in
      absurd (ground (arith, and_bit k d, there, h, one-le-pow k 2))
]

-- The first set digit of `n` signals from `sig` on.
pub data IsLowest (d sig n : ℕ) : Option ℕ → Type 0 where
  lowest :
      (s : ℕ)
      → sig ≤ s
      → s < sig + n
      → digit d (s - 1) ≡ 1
      → ((r : ℕ) → sig ≤ r → r < s → digit d (r - 1) ≡ 0)
      → IsLowest d sig n (some s)
  nothing : ((r : ℕ) → sig ≤ r → r < sig + n → digit d (r - 1) ≡ 0) → IsLowest d sig n none

pub lowest_signal-IsLowest : (n sig d : ℕ) → IsLowest d sig n (lowest_signal n sig d)
unfolding lowest_signal
lowest_signal-IsLowest zero sig d = nothing (λ r l u. absurd (omega arith))
lowest_signal-IsLowest (suc n) sig d =
    if-cases (IsLowest d sig (suc n)) (is_true (bit_and d (sigmask sig)))
      (λ on.
        lowest sig (omega arith) (omega arith) (set_digit d (sig - 1) on)
          (λ r l u. absurd (omega arith)))
      (λ off. later off (lowest_signal-IsLowest n (suc sig) d))
  where
    later :
        {o : Option ℕ}
        → is_true (bit_and d (sigmask sig)) ≡ false
        → IsLowest d (suc sig) n o
        → IsLowest d sig (suc n) o
    later off (lowest s l u on first) = lowest s (omega arith) (omega arith) on (λ r lr ur.
        elim (Bool-cases (r == sig)) [
          | inl here ↦ rw ((==_iff r sig).0 here) (clear_digit d (sig - 1) off)
          | inr after ↦ first r (ground arith) ur
        ])
    later off (nothing all) = nothing (λ r lr ur. elim (Bool-cases (r == sig)) [
      | inl here ↦ rw ((==_iff r sig).0 here) (clear_digit d (sig - 1) off)
      | inr after ↦ all r (ground arith) (omega arith)
    ])

-- A signal may be delivered if it is pending and not blocked.
pub pending_digit :
    (proc : Process) (k : ℕ)
    → k < 64
    → proc.sig_blocked < 2 ^ 64
    → digit (sig_pending_set proc) k ≡ min (digit proc.sig_pending k) (1 - digit proc.sig_blocked k)
unfolding sig_pending_set
pending_digit proc k hk hb = omega (
  arith,
  and_digit k proc.sig_pending (not64 proc.sig_blocked),
  complement_digit k 64 proc.sig_blocked hk hb,
)

-- Clearing a signal clears its bit and no other.
sigmask-lt : (sig : ℕ) → sig ≤ 64 → sigmask sig < 2 ^ 64
sigmask-lt sig h =
    let top : 2 ^ (sig - 1) ≤ 2 ^ 63 =
      pow-le-pow_right {n = 2} (omega arith) {i = sig - 1} {j = 63} (omega arith) in
    omega arith

pub cleared_digit_self :
    (pending sig : ℕ) → sig ≤ 64 → digit (bit_and pending (not64 (sigmask sig))) (sig - 1) ≡ 0
cleared_digit_self pending sig h = omega (
  arith,
  and_digit (sig - 1) pending (not64 (sigmask sig)),
  complement_digit (sig - 1) 64 (sigmask sig) (omega arith) (sigmask-lt sig h),
  power_digit_self (sig - 1),
)

pub cleared_digit_other :
    (pending sig : ℕ)
    → sig ≤ 64
    → (k : ℕ) → k < 64
    → k ≢ sig - 1
    → digit (bit_and pending (not64 (sigmask sig))) k ≡ digit pending k
cleared_digit_other pending sig h k hk ne = omega (
  arith,
  and_digit k pending (not64 (sigmask sig)),
  complement_digit k 64 (sigmask sig) hk (sigmask-lt sig h),
  power_digit_other (sig - 1) k (λ e. ne (sym e)),
)

lowest_signal_lem :
    (proc : Process) (sig : ℕ)
    → proc.sig_blocked < 2 ^ 64
    → 1 ≤ sig
    → sig < nsig
    → digit proc.sig_pending (sig - 1) ≡ 1
    → digit proc.sig_blocked (sig - 1) ≡ 0
    → ((r : ℕ)
        → 1 ≤ r
        → r < sig
        → (digit proc.sig_pending (r - 1) ≡ 0) ⊎ (digit proc.sig_blocked (r - 1) ≡ 1))
    → lowest_signal (nsig - 1) 1 (sig_pending_set proc) ≡ some sig
lowest_signal_lem proc sig hb l u p b first =
    from_lowest (lowest_signal-IsLowest (nsig - 1) 1 (sig_pending_set proc))
  where
    set_at : digit (sig_pending_set proc) (sig - 1) ≡ 1
    set_at = omega (arith, pending_digit proc (sig - 1) (omega arith) hb)

    clear_before : (r : ℕ) → 1 ≤ r → r < sig → digit (sig_pending_set proc) (r - 1) ≡ 0
    clear_before r lr ur =
        let here = pending_digit proc (r - 1) (omega arith) hb in
        elim (first r lr ur) [ inl quiet ↦ omega arith | inr masked ↦ omega arith ]

    from_lowest : {o : Option ℕ} → IsLowest (sig_pending_set proc) 1 (nsig - 1) o → o ≡ some sig
    from_lowest (lowest s ls us on below) = elim (Bool-cases (ltb s sig)) [
      | inl early ↦ absurd (omega (arith, on, clear_before s ls (ltb→lt s sig early)))
      | inr late ↦ elim (Bool-cases (ltb sig s)) [
        | inl over ↦ absurd (omega (arith, set_at, below sig l (ltb→lt sig s over)))
        | inr same ↦ ap some (omega (arith, ltb→le s sig late, ltb→le sig s same))
      ]
    ]
    from_lowest (nothing all) = absurd (omega (arith, set_at, all sig l (omega arith)))

-- If a signal from 1 to 63 is pending and not blocked, and each signal below it is not pending
-- or blocked, sig_deliver clears it from the pending signals, and no other, and goes on to take
-- its action.
pub sig_deliver-lowest :
    (proc : Process) (sig : ℕ)
    → proc.sig_blocked < 2 ^ 64
    → 1 ≤ sig
    → sig < nsig
    → digit proc.sig_pending (sig - 1) ≡ 1
    → digit proc.sig_blocked (sig - 1) ≡ 0
    → ((r : ℕ)
        → 1 ≤ r
        → r < sig
        → (digit proc.sig_pending (r - 1) ≡ 0) ⊎ (digit proc.sig_blocked (r - 1) ≡ 1))
    → (left : ℕ) × (sig_deliver proc
        ≡ take_action (record proc { sig_pending = left }) sig proc.sighand)
      × (digit left (sig - 1) ≡ 0)
      × ((k : ℕ) → k < 64 → k ≢ sig - 1 → digit left k ≡ digit proc.sig_pending k)
sig_deliver-lowest proc sig hb l u p b first = (
  bit_and proc.sig_pending (not64 (sigmask sig)),
  sig_deliver-some proc sig (lowest_signal_lem proc sig hb l u p b first),
  cleared_digit_self proc.sig_pending sig (omega arith),
  cleared_digit_other proc.sig_pending sig (omega arith),
)
