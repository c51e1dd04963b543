-- ===== src/Signal/Calls.antt =====
-- The system calls of emu/src/sys_signal.c that work on their own process, but for
-- `do_rt_sigreturn`, which is in Frame.
use alpine_on_ios.Process.Call.{Called, failed, einval, load_then, store_then}
use alpine_on_ios.Process.State.{Process, SigAction}
use alpine_on_ios.Signal.Mask.{nsig, sig_action, sig_procmask, sig_pending_set}
use alpine_on_ios.Prelude.{
  ℕ, ◌||◌, ltb, leb, ◌==◌, if◌then◌else◌, is_true, bit_and, u32, add64, Option, none, some,
}

-- The four words of a `struct emu_sigaction`.
unfoldable pub read_action : Process → ℕ → (SigAction → Called) → Called
read_action proc addr next = load_then 8 proc addr (λ handler.
    load_then 8 proc (add64 addr 8) (λ flags. load_then 8 proc (add64 addr 16) (λ restorer.
      load_then 8 proc (add64 addr 24) (λ mask.
        next (record { handler = handler; flags = flags; restorer = restorer; mask = mask })))))

unfoldable pub write_action : Process → ℕ → SigAction → Called
write_action proc addr old = store_then 8 proc addr old.handler (λ proc1.
    store_then 8 proc1 (add64 addr 8) old.flags (λ proc2.
      store_then 8 proc2 (add64 addr 16) old.restorer
        (λ proc3. store_then 8 proc3 (add64 addr 24) old.mask (λ proc4. (0, proc4)))))

-- EINVAL for an error, and the old action to the guest if it asked for it.
unfoldable pub give_action : Process → ℕ → Option (Process × SigAction) → Called
give_action proc a2 none = (failed einval, proc)
give_action proc a2 (some (proc', old)) = if a2 == 0 then (0, proc') else write_action proc' a2 old

unfoldable pub do_rt_sigaction : Process → ℕ → ℕ → ℕ → Called
do_rt_sigaction proc a0 a1 a2 =
    let sig = u32 a0 in
    if ltb sig 1 || leb nsig sig
    then (failed einval, proc)
    else if a1 == 0
    then give_action proc a2 (sig_action proc sig none)
    else read_action proc a1 (λ act. give_action proc a2 (sig_action proc sig (some act)))

unfoldable pub give_mask : Process → ℕ → Option (Process × ℕ) → Called
give_mask proc a2 none = (failed einval, proc)
give_mask proc a2 (some (proc', old)) =
    if a2 == 0 then (0, proc') else store_then 8 proc' a2 old (λ proc1. (0, proc1))

unfoldable pub do_rt_sigprocmask : Process → ℕ → ℕ → ℕ → Called
do_rt_sigprocmask proc a0 a1 a2 =
    if a1 == 0
    then give_mask proc a2 (sig_procmask proc (u32 a0) none)
    else load_then 8 proc a1 (λ set. give_mask proc a2 (sig_procmask proc (u32 a0) (some set)))

unfoldable pub do_rt_sigpending : Process → ℕ → Called
do_rt_sigpending proc a0 =
    if a0 == 0 then (0, proc) else store_then 8 proc a0 (sig_pending_set proc) (λ proc1. (0, proc1))

-- The old stack to the guest, and then the rest of the call.
unfoldable pub report_altstack : Process → ℕ → (Process → Called) → Called
report_altstack proc a1 next =
    if a1 == 0
    then next proc
    else store_then 8 proc a1 proc.sig_altstack (λ proc1.
      store_then 4 proc1 (add64 a1 8) (if proc.sig_altstack == 0 then 2 else 0)
        (λ proc2. store_then 8 proc2 (add64 a1 16) proc.sig_altstack_size next))

unfoldable pub set_altstack : ℕ → Process → Called
set_altstack a0 proc =
    if a0 == 0
    then (0, proc)
    else load_then 8 proc a0 (λ sp. load_then 4 proc (add64 a0 8) (λ flags.
      load_then 8 proc (add64 a0 16) (λ size.
        if is_true (bit_and flags 2)
        then (0, record proc { sig_altstack = 0; sig_altstack_size = 0 })
        else (0, record proc { sig_altstack = sp; sig_altstack_size = size }))))

unfoldable pub do_sigaltstack : Process → ℕ → ℕ → Called
do_sigaltstack proc a0 a1 = report_altstack proc a1 (set_altstack a0)
