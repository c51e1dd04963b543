-- ===== src/Signal/Return.antt =====
-- A handler that returns: `sig_deliver` pushes the frame, and `do_rt_sigreturn` brings back what the
-- signal interrupted.
use alpine_on_ios.Bits.{and-lt}
use alpine_on_ios.Cpu.Valid.{IsCpu}
use alpine_on_ios.Memory.Layout.{IsLaidOut}
use alpine_on_ios.Memory.Space.{mem_translate, mem_prot_read, mem_prot_write}
use alpine_on_ios.Memory.Unmap.{MemSpace}
use alpine_on_ios.Process.State.{Process, SigAction}
use alpine_on_ios.Signal.Deliver.{
  stays, lowest_signal, deliver_signal, take_action, call_handler, sig_deliver, enter_handler,
  frame_addr,
}
use alpine_on_ios.Signal.Fields.{HasFrame, HasFrame-same, frame_bytes-HasFrame}
use alpine_on_ios.Signal.Frame.{sigframe_size, do_rt_sigreturn}
use alpine_on_ios.Signal.Mask.{nsig, sigmask, sig_pending_set}
use alpine_on_ios.Signal.Restored.{
  patched, restore_xregs-frame, restore_special-frame, restore_vregs-frame, restore_status-frame,
}
use alpine_on_ios.Signal.Saved.{save_frame-bytes}
use alpine_on_ios.Prelude.{
  ℕ, zero, suc, ◌+◌, ◌-◌, ◌^◌, ◌≤◌, ◌<◌, ◌≡◌, refl, ap, ◌∙◌, arith, some, none, false, bit_and,
  not64, Bool-cases, inl, inr, ◌==◌,
}

lowest_signal-zero : (n sig : ℕ) → lowest_signal n sig 0 ≡ none
unfolding lowest_signal
lowest_signal-zero zero sig = refl
lowest_signal-zero (suc n) sig =
    ground (arith, lowest_signal-zero n (suc sig), and-lt 0 0 (sigmask sig) (omega arith))

-- The call, when a signal is to be delivered.
pub sig_deliver-some :
    (proc : Process) (sig : ℕ)
    → lowest_signal (nsig - 1) 1 (sig_pending_set proc) ≡ some sig
    → sig_deliver proc
      ≡ take_action
          (record proc { sig_pending = bit_and proc.sig_pending (not64 (sigmask sig)) })
          sig
          proc.sighand
unfolding sig_deliver deliver_signal
sig_deliver-some proc sig low = elim (Bool-cases (sig_pending_set proc == 0)) [
  | inl empty ↦
      let zero_set : sig_pending_set proc ≡ 0 = ground arith in
      absurd (ground (arith, low, lowest_signal-zero (nsig - 1) 1, zero_set))
  | inr busy ↦ rw (busy, low) refl
]

-- The handler of a user starts.
entered_lem :
    (proc : Process) (actions : ℕ → SigAction) (sig p : ℕ)
    → 1 < (actions sig).handler
    → mem_translate proc.mem.regions (frame_addr proc.cpu.sp) sigframe_size mem_prot_write ≡ some p
    → take_action proc sig (some actions)
      ≡ stays (call_handler proc actions sig (actions sig) (some p))
unfolding take_action
entered_lem proc actions sig p user t =
    let not_ignored : (actions sig).handler == 1 ≡ false = ground arith in
    let not_default : (actions sig).handler == 0 ≡ false = ground arith in
    rw (not_ignored, not_default, t) refl

-- The state that the signal interrupted, in a process that the handler has run in.
abbrev pub resumed : Process → Process → Process
resumed run proc = record run {
  cpu = record (run.cpu) {
    x = patched (run.cpu).x (proc.cpu).x 0 31;
    sp = (proc.cpu).sp;
    pc = (proc.cpu).pc;
    nzcv = (proc.cpu).nzcv;
    v = patched (run.cpu).v (proc.cpu).v 0 32;
    fpcr = (proc.cpu).fpcr;
    fpsr = (proc.cpu).fpsr;
  };
  sig_blocked = proc.sig_blocked;
}

-- A frame of `proc` on top of the stack of `run` is restored.
pub do_rt_sigreturn-frame :
    (proc run : Process) (p : ℕ)
    → IsLaidOut 0 run.mem.regions
    → p + 800 < 2 ^ 64
    → mem_translate run.mem.regions run.cpu.sp sigframe_size mem_prot_read ≡ some p
    → IsCpu proc.cpu
    → HasFrame run.mem.bytes p proc.cpu proc.sig_blocked
    → do_rt_sigreturn run ≡ (proc.cpu.x 0, resumed run proc)
unfolding do_rt_sigreturn
do_rt_sigreturn-frame proc run p lay fits t valid has =
    let s = proc.cpu in
    let frame = run.cpu.sp in
    let b = proc.sig_blocked in
    restore_xregs-frame run lay frame p fits t s b has 31 0 run.cpu _ (omega arith)
    ∙ restore_special-frame run lay frame p fits t s b has _ _
    ∙ restore_vregs-frame run lay frame p fits t s b has 32 0 _ b _ valid.d0_word (omega arith)
    ∙ restore_status-frame run lay frame p fits t s b has _ b

-- On a well-formed processor, if the lowest deliverable signal has a handler of the user and
-- the regions let the frame of 800 bytes below the stack pointer be written, in a block that
-- does not wrap, sig_deliver starts the handler with the signal as its argument and the frame
-- as its stack; whatever the process does then, once its stack pointer is back at the frame,
-- and the frame can be read in the same block and has the bytes that sig_deliver left,
-- do_rt_sigreturn returns x0 as it was and brings back the general and vector registers, sp,
-- pc, the flags, fpcr, fpsr and the mask of blocked signals.
pub sig_deliver-do_rt_sigreturn :
    (proc run : Process) (actions : ℕ → SigAction) (sig p : ℕ)
    → IsCpu proc.cpu
    → proc.sig_blocked < 2 ^ 64
    → IsLaidOut 0 proc.mem.regions
    → p + 800 < 2 ^ 64
    → proc.sighand ≡ some actions
    → lowest_signal (nsig - 1) 1 (sig_pending_set proc) ≡ some sig
    → 1 < (actions sig).handler
    → mem_translate proc.mem.regions (frame_addr proc.cpu.sp) sigframe_size mem_prot_write ≡ some p
    → IsLaidOut 0 run.mem.regions
    → run.cpu.sp ≡ frame_addr proc.cpu.sp
    → mem_translate run.mem.regions run.cpu.sp sigframe_size mem_prot_read ≡ some p
    → ((entered : Process)
        → sig_deliver proc ≡ stays entered
        → (i : ℕ) → p ≤ i
        → i < p + 800
        → run.mem.bytes i ≡ entered.mem.bytes i)
    → (entered : Process) × (sig_deliver proc ≡ stays entered)
      × (entered.cpu.pc ≡ (actions sig).handler)
      × (entered.cpu.x 0 ≡ sig)
      × (entered.cpu.sp ≡ frame_addr proc.cpu.sp)
      × (do_rt_sigreturn run ≡ (proc.cpu.x 0, resumed run proc))
unfolding call_handler enter_handler
sig_deliver-do_rt_sigreturn proc run actions sig p valid hb lay fits table low user tw lay' top tr
      same =
    let cleared : Process = record proc {
      sig_pending = bit_and proc.sig_pending (not64 (sigmask sig));
    } in
    let entered = call_handler cleared actions sig (actions sig) (some p) in
    let delivered : sig_deliver proc ≡ stays entered =
      sig_deliver-some proc sig low
      ∙ ap (take_action cleared sig) table
      ∙ entered_lem cleared actions sig p user tw in
    let saved = frame_bytes-HasFrame proc.mem.bytes p proc.cpu proc.sig_blocked valid hb in
    let stored =
      ap (λ (ms : MemSpace). ms.bytes)
        (save_frame-bytes proc.mem lay (frame_addr proc.cpu.sp) p fits tw proc.cpu
          proc.sig_blocked) in
    let has =
      HasFrame-same run.mem.bytes
        (λ i l u. same entered delivered i l u ∙ ap (λ (b : ℕ → ℕ). b i) stored) saved in
    (entered, delivered, refl, refl, refl, do_rt_sigreturn-frame proc run p lay' fits tr valid has)
