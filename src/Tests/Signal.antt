-- ===== src/Tests/Signal.antt =====
-- Concrete runs of the theorems on signals: a process with a handler for SIGUSR1, which is pending.
use alpine_on_ios.Bits.{digit}
use alpine_on_ios.Memory.Guest.{write_guest, mem_copy_to}
use alpine_on_ios.Memory.Space.{find_region, mem_translate}
use alpine_on_ios.Process.State.{Process, SigAction, proc_running}
use alpine_on_ios.Signal.Deliver.{
  Delivery, stays, exits, lowest_signal, deliver_signal, take_action, call_handler, sig_deliver,
  enter_handler,
}
use alpine_on_ios.Signal.Frame.{
  written, save_word, save_xregs, save_vregs, save_frame, do_rt_sigreturn,
}
use alpine_on_ios.Signal.Mask.{sig_pending_set, sig_send}
use alpine_on_ios.Signal.Return.{resumed, sig_deliver-do_rt_sigreturn}
use alpine_on_ios.Process.Table.{proc_find}
use alpine_on_ios.Signal.Fields.{frame_bytes-HasFrame}
use alpine_on_ios.Signal.Forged.{do_rt_sigreturn-blocked}
use alpine_on_ios.Signal.Guard.{IsGuarded, table}
use alpine_on_ios.Signal.Kill.{do_kill}
use alpine_on_ios.Signal.Killed.{deliver_rounds, sig_send-kill}
use alpine_on_ios.Signal.Lowest.{sig_deliver-lowest}
use alpine_on_ios.Signal.Saved.{frame_bytes}
use alpine_on_ios.Signal.Steps.{done, step, delivered, guest, SignalSteps-IsGuarded}
use alpine_on_ios.Signal.Target.{do_kill-others, do_kill-target}
use alpine_on_ios.Cpu.Valid.{IsCpu}
use alpine_on_ios.Tests.{test_cpu}
use alpine_on_ios.Tests.Memory.{test_space, test_space-IsSpace}
use alpine_on_ios.Prelude.{
  ℕ, ◌+◌, ◌^◌, ◌≡◌, refl, ap, arith, true, false, some, if◌then◌else◌, ◌==◌, ◌<◌, ◌≢◌, ◌-◌,
  each_below, each_below-at, inl, ==_iff, [], ◌∷◌,
}

abbrev pub test_actions : ℕ → SigAction
test_actions sig = record {
  handler = if sig == 10 then 0x1_0400 else 0;
  flags = 0x0400_0000;
  restorer = 0x1_0800;
  mask = 0x40200;
}

abbrev pub test_process : Process
test_process = record {
  pid = 5;
  ppid = 2;
  tgid = 5;
  state = proc_running;
  exit_status = 0;
  collected = false;
  cpu = record test_cpu { sp = 0x1_2008 };
  running = true;
  mem = test_space;
  sighand = some test_actions;
  sig_pending = 2 ^ 9 + 2 ^ 14;
  sig_blocked = 2 ^ 16;
  sig_altstack = 0;
  sig_altstack_size = 0;
  clear_child_tid = 0;
  vfork_done = false;
}

pub test_process-IsCpu : IsCpu (test_process.cpu)
test_process-IsCpu = record {
  x_word = λ r. ground arith;
  sp_word = omega arith;
  pc_word = omega arith;
  nzcv_word = omega arith;
  nzcv_flags = refl;
  fpcr_word = omega arith;
  fpsr_word = omega arith;
  tpidr_word = omega arith;
  tpidrro_word = omega arith;
  d0_word = λ r. omega arith;
  d1_word = λ r. omega arith;
}

abbrev delivered_to : Delivery → Process
delivered_to (stays proc) = proc
delivered_to (exits proc status) = proc

-- The handler has returned to the restorer.
abbrev test_run : Process
test_run =
    let entered = delivered_to (sig_deliver test_process) in
    record entered { cpu = record (entered.cpu) { pc = 0x1_0800 } }

sig_deliver-do_rt_sigreturn_example :
    (entered : Process) × (sig_deliver test_process ≡ stays entered)
    × (entered.cpu.pc ≡ 0x1_0400)
    × (entered.cpu.x 0 ≡ 10)
    × (entered.cpu.sp ≡ 0x1_1ce0)
    × (do_rt_sigreturn test_run ≡ (test_cpu.x 0, resumed test_run test_process))
unfolding sig_deliver sig_pending_set lowest_signal deliver_signal take_action call_handler
    enter_handler save_frame save_xregs save_vregs save_word written write_guest mem_copy_to
    mem_translate find_region
sig_deliver-do_rt_sigreturn_example =
    sig_deliver-do_rt_sigreturn test_process test_run test_actions 10 0x5000_1ce0 test_process-IsCpu
      (omega arith) (test_space-IsSpace.laid_out) (omega arith) refl refl (omega arith) refl
      (test_space-IsSpace.laid_out) refl refl
      (λ entered delivered i l u. ap (λ (d : Delivery). (delivered_to d).mem.bytes i) delivered)

-- The interrupted process again, before a second delivery.
test_process-IsGuarded : IsGuarded test_process
test_process-IsGuarded = record { kill_open = refl; stop_open = refl; defaults = table refl refl }

SignalSteps-IsGuarded_example : IsGuarded test_run
unfolding sig_deliver sig_pending_set lowest_signal deliver_signal take_action
SignalSteps-IsGuarded_example =
    SignalSteps-IsGuarded test_process test_run
      (step (delivered refl) (step (guest (test_run.cpu) (test_run.mem)) done))
      test_process-IsGuarded

sig_send-kill_example :
    (sent : Process) × (ended : Process) × (status : ℕ) × (sig_send test_process 9 ≡ some sent)
    × (deliver_rounds 9 sent ≡ exits ended status)
sig_send-kill_example =
    sig_send-kill test_process test_actions test_process-IsGuarded (omega arith) refl

sig_deliver-lowest_example :
    (left : ℕ) × (sig_deliver test_process
      ≡ take_action (record test_process { sig_pending = left }) 10 (some test_actions))
    × (digit left 9 ≡ 0)
    × ((k : ℕ) → k < 64 → k ≢ 9 → digit left k ≡ digit (2 ^ 9 + 2 ^ 14) k)
unfolding each_below
sig_deliver-lowest_example =
    sig_deliver-lowest test_process 10 (omega arith) (omega arith) (omega arith) refl refl (λ r l u.
      inl ((==_iff _ _).0 (each_below-at (λ r. digit (2 ^ 9 + 2 ^ 14) (r - 1) == 0) 10 refl r u)))

-- A frame in which every signal is blocked.
abbrev forged_run : Process
forged_run = record test_process {
  cpu = record test_cpu { sp = 0x1_1ce0 };
  mem = record test_space {
    bytes = frame_bytes test_space.bytes 0x5000_1ce0 (test_process.cpu) (2 ^ 64 - 1);
  };
}

do_rt_sigreturn-blocked_example :
    let after = record ((do_rt_sigreturn forged_run).1) { sig_pending = 2 ^ 8 } in
    sig_deliver after ≡ stays after
unfolding mem_translate find_region
do_rt_sigreturn-blocked_example =
    do_rt_sigreturn-blocked forged_run (test_process.cpu) 0x5000_1ce0 (2 ^ 8)
      (test_space-IsSpace.laid_out) (omega arith) refl test_process-IsCpu
      (frame_bytes-HasFrame test_space.bytes 0x5000_1ce0 (test_process.cpu) (2 ^ 64 - 1)
        test_process-IsCpu (omega arith))

abbrev other_process : Process
other_process = record test_process { pid = 8; ppid = 5; tgid = 8 }

-- `kill(-8, SIGUSR1)` leaves process 8 alone.
do_kill-others_example :
    proc_find ((do_kill (test_process ∷ other_process ∷ []) test_process (2 ^ 64 - 8) 10).1) 8
    ≡ some other_process
unfolding proc_find
do_kill-others_example =
    do_kill-others (test_process ∷ other_process ∷ []) test_process (2 ^ 64 - 8) 10 8
      (λ e. omega (arith, e))

do_kill-target_example :
    (target' : Process) × ((do_kill (test_process ∷ other_process ∷ []) test_process 8 15).0 ≡ 0)
    × (proc_find ((do_kill (test_process ∷ other_process ∷ []) test_process 8 15).1) 8
        ≡ some target')
    × (digit target'.sig_pending 14 ≡ 1)
    × ((k : ℕ) → digit (other_process.sig_pending) k ≡ 1 → digit target'.sig_pending k ≡ 1)
unfolding proc_find
do_kill-target_example =
    do_kill-target (test_process ∷ other_process ∷ []) test_process other_process 8 15 refl refl
      (omega arith) (omega arith)
