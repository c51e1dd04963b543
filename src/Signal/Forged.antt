-- ===== src/Signal/Forged.antt =====
-- `do_rt_sigreturn` takes the mask from the frame as it is.
use alpine_on_ios.Bits.{and_zero}
use alpine_on_ios.Cpu.{Cpu}
use alpine_on_ios.Cpu.Valid.{IsCpu}
use alpine_on_ios.Memory.Layout.{IsLaidOut}
use alpine_on_ios.Memory.Space.{mem_translate, mem_prot_read}
use alpine_on_ios.Process.Call.{Called}
use alpine_on_ios.Process.State.{Process}
use alpine_on_ios.Signal.Deliver.{stays, sig_deliver}
use alpine_on_ios.Signal.Fields.{HasFrame}
use alpine_on_ios.Signal.Frame.{sigframe_size, do_rt_sigreturn}
use alpine_on_ios.Signal.Mask.{sig_pending_set}
use alpine_on_ios.Signal.Return.{do_rt_sigreturn-frame}
use alpine_on_ios.Prelude.{ℕ, ◌+◌, ◌-◌, ◌^◌, ◌<◌, ◌≡◌, refl, ap, some}

-- With every signal blocked, nothing is delivered.
sig_deliver-blocked :
    (proc : Process) → proc.sig_blocked ≡ 2 ^ 64 - 1 → sig_deliver proc ≡ stays proc
unfolding sig_deliver sig_pending_set
sig_deliver-blocked proc h =
    let nothing : sig_pending_set proc ≡ 0 = rw h (and_zero proc.sig_pending) in rw nothing refl

-- On a readable stack that holds a frame in which all 64 signals are blocked, do_rt_sigreturn
-- leaves a process to which sig_deliver delivers nothing, whatever signals are pending, SIGKILL
-- among them.
pub do_rt_sigreturn-blocked :
    (run : Process) (c : Cpu) (p pending : ℕ)
    → IsLaidOut 0 run.mem.regions
    → p + 800 < 2 ^ 64
    → mem_translate run.mem.regions run.cpu.sp sigframe_size mem_prot_read ≡ some p
    → IsCpu c
    → HasFrame run.mem.bytes p c (2 ^ 64 - 1)
    → let after = record ((do_rt_sigreturn run).1) { sig_pending = pending } in
      sig_deliver after ≡ stays after
do_rt_sigreturn-blocked run c p pending lay fits t valid has = sig_deliver-blocked _ (
    ap (λ (r : Called). (r.1).sig_blocked)
      (do_rt_sigreturn-frame (record run { cpu = c; sig_blocked = 2 ^ 64 - 1 }) run p lay fits t
        valid has))
