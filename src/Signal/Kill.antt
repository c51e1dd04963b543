-- ===== src/Signal/Kill.antt =====
-- The system calls of emu/src/sys_signal.c that send signals, and `sys_signal`.
use alpine_on_ios.Process.Call.{Called, failed, esrch, einval, enosys}
use alpine_on_ios.Process.State.{Process}
use alpine_on_ios.Process.Table.{proc_find, put_proc}
use alpine_on_ios.Signal.Calls.{
  do_rt_sigaction, do_rt_sigprocmask, do_rt_sigpending, do_sigaltstack,
}
use alpine_on_ios.Signal.Frame.{do_rt_sigreturn}
use alpine_on_ios.Signal.Mask.{sig_send}
use alpine_on_ios.Prelude.{
  ℕ, ◌^◌, Bool, ◌&&◌, ltb, ◌==◌, if◌then◌else◌, u32, List, Option, none, some,
}

-- The value returned and the process table afterwards.
abbrev pub Sent : Type 0
Sent = ℕ × List Process

unfoldable pub put_sent : List Process → Option Process → Sent
put_sent procs none = (failed einval, procs)
put_sent procs (some target) = (0, put_proc procs target)

abbrev pub send_to : List Process → Process → ℕ → Sent
send_to procs target sig = put_sent procs (sig_send target sig)

unfoldable pub send_found : List Process → Option Process → ℕ → Sent
send_found procs none sig = (failed esrch, procs)
send_found procs (some target) sig = send_to procs target sig

-- An `int` above 0, as its pattern.
abbrev pub positive : ℕ → Bool
positive n = ltb 0 n && ltb n (2 ^ 31)

unfoldable pub probe : List Process → Option Process → Sent
probe procs none = (failed esrch, procs)
probe procs (some target) = (0, procs)

unfoldable pub do_kill : List Process → Process → ℕ → ℕ → Sent
do_kill procs proc a0 a1 =
    let pid = u32 a0 in
    let sig = u32 a1 in
    let target = proc_find procs pid in
    if sig == 0
    then (if positive pid then probe procs target else (0, procs))
    else if positive pid
    then send_found procs target sig
    else send_to procs proc sig

unfoldable pub do_tkill : List Process → ℕ → ℕ → Sent
do_tkill procs a0 a1 = send_found procs (proc_find procs (u32 a0)) (u32 a1)

-- The thread group `a0` is ignored.
unfoldable pub do_tgkill : List Process → ℕ → ℕ → ℕ → Sent
do_tgkill procs a0 a1 a2 = do_tkill procs a1 a2

-- A call of the process itself, in the table.
unfoldable pub own_call : List Process → Called → Sent
own_call procs (ret, proc) = (ret, put_proc procs proc)

unfoldable pub sys_signal : List Process → Process → ℕ → ℕ → ℕ → ℕ → Sent
sys_signal procs proc nr a0 a1 a2 =
    if nr == 134
    then own_call procs (do_rt_sigaction proc a0 a1 a2)
    else if nr == 135
    then own_call procs (do_rt_sigprocmask proc a0 a1 a2)
    else if nr == 136
    then own_call procs (do_rt_sigpending proc a0)
    else if nr == 139
    then own_call procs (do_rt_sigreturn proc)
    else if nr == 133
    then (0, procs)
    else if nr == 137
    then (0, procs)
    else if nr == 129
    then do_kill procs proc a0 a1
    else if nr == 130
    then do_tkill procs a0 a1
    else if nr == 131
    then do_tgkill procs a0 a1 a2
    else if nr == 132
    then own_call procs (do_sigaltstack proc a0 a1)
    else (failed enosys, procs)
