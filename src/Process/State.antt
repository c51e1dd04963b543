-- ===== src/Process/State.antt =====
-- `emu_process_t` of emu/include/process.h, `struct emu_sigaction` and `sighand_t` of
-- emu/include/signal_emu.h. What belongs to files, users, native code and host threads is left out,
-- and so are the locks and the reference count of the signal handlers.
use alpine_on_ios.Cpu.{Cpu}
use alpine_on_ios.Memory.Unmap.{MemSpace}
use alpine_on_ios.Prelude.{ℕ, Bool, Option}

pub record SigAction : Type 0 where
  pub handler : ℕ
  pub flags : ℕ
  pub restorer : ℕ
  pub mask : ℕ

pub data ProcState : Type 0 where
  proc_running proc_stopped proc_zombie proc_dead : ProcState

-- `sighand` is the table of actions by signal number, or `none` for NULL; the alternate stack is
-- an address, 0 for NULL; `running` and `vfork_done` are flags that other threads read.
pub record Process : Type 0 where
  pub pid : ℕ
  pub ppid : ℕ
  pub tgid : ℕ
  pub state : ProcState
  pub exit_status : ℕ
  pub collected : Bool
  pub cpu : Cpu
  pub running : Bool
  pub mem : MemSpace
  pub sighand : Option (ℕ → SigAction)
  pub sig_pending : ℕ
  pub sig_blocked : ℕ
  pub sig_altstack : ℕ
  pub sig_altstack_size : ℕ
  pub clear_child_tid : ℕ
  pub vfork_done : Bool
