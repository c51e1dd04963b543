-- ===== src/Signal/Frame.antt =====
-- The frame that `sig_deliver` of emu/src/signal_emu.c pushes on the stack of the guest and
-- `do_rt_sigreturn` of emu/src/sys_signal.c reads back.
use alpine_on_ios.Cpu.{Cpu, Vreg}
use alpine_on_ios.Memory.Guest.{write_guest, mem_copy_to}
use alpine_on_ios.Memory.Unmap.{MemSpace}
use alpine_on_ios.Process.State.{Process}
use alpine_on_ios.Process.Call.{Called, load_then, copy_then}
use alpine_on_ios.Prelude.{ℕ, zero, suc, ◌+◌, ◌*◌, ◌/◌, ◌%◌, ◌^◌, update, add64, Option, none, some}

abbrev pub sigframe_size : ℕ
sigframe_size = 800

-- A write whose result is not looked at.
unfoldable pub written : MemSpace → Option MemSpace → MemSpace
written ms none = ms
written ms (some after) = after

unfoldable pub save_word : ℕ → MemSpace → ℕ → ℕ → MemSpace
save_word size ms addr val = written ms (write_guest size ms addr val)

-- The first rounds of the loop that saves x0 to x30.
unfoldable pub save_xregs : MemSpace → ℕ → (ℕ → ℕ) → ℕ → MemSpace
save_xregs ms frame x zero = ms
save_xregs ms frame x (suc i) = save_word 8 (save_xregs ms frame x i) (add64 frame (i * 8)) (x i)

-- The sixteen bytes of a vector register as a number.
abbrev pub vreg_bytes : Vreg → ℕ
vreg_bytes r = r.d0 + 2 ^ 64 * r.d1

abbrev pub bytes_vreg : ℕ → Vreg
bytes_vreg n = record { d0 = n % 2 ^ 64; d1 = n / 2 ^ 64 }

-- The loop that saves v0 to v31.
unfoldable pub save_vregs : MemSpace → ℕ → (ℕ → Vreg) → ℕ → MemSpace
save_vregs ms frame v zero = ms
save_vregs ms frame v (suc i) =
    let before = save_vregs ms frame v i in
    written before (mem_copy_to before (add64 frame (280 + i * 16)) (vreg_bytes (v i)) 16)

unfoldable pub save_frame : MemSpace → ℕ → Cpu → ℕ → MemSpace
save_frame ms frame c blocked =
    let ms1 = save_xregs ms frame c.x 31 in
    let ms2 = save_word 8 ms1 (add64 frame 248) c.sp in
    let ms3 = save_word 8 ms2 (add64 frame 256) c.pc in
    let ms4 = save_word 4 ms3 (add64 frame 264) c.nzcv in
    let ms5 = save_word 8 ms4 (add64 frame 268) blocked in
    let ms6 = save_vregs ms5 frame c.v 32 in
    let ms7 = save_word 4 ms6 (add64 frame 792) c.fpcr in save_word 4 ms7 (add64 frame 796) c.fpsr

-- The rounds of the loop that restores x0 to x30 from `i` on, and then the rest of the call. A read
-- that fails leaves what the rounds before have restored.
unfoldable pub restore_xregs : ℕ → ℕ → ℕ → Process → (Process → Called) → Called
restore_xregs zero i frame proc next = next proc
restore_xregs (suc n) i frame proc next = load_then 8 proc (add64 frame (i * 8)) (λ val.
    restore_xregs n (suc i) frame
      (record proc { cpu = record (proc.cpu) { x = update (proc.cpu).x i val } }) next)

unfoldable pub restore_vregs : ℕ → ℕ → ℕ → Process → (Process → Called) → Called
restore_vregs zero i frame proc next = next proc
restore_vregs (suc n) i frame proc next = copy_then proc (add64 frame (280 + i * 16)) 16 (λ val.
    restore_vregs n (suc i) frame
      (record proc { cpu = record (proc.cpu) { v = update (proc.cpu).v i (bytes_vreg val) } }) next)

unfoldable pub restore_status : ℕ → Process → Called
restore_status frame proc = load_then 4 proc (add64 frame 792) (λ fpcr.
    load_then 4 (record proc { cpu = record (proc.cpu) { fpcr = fpcr } }) (add64 frame 796)
      (λ fpsr.
        let after = record proc { cpu = record (proc.cpu) { fpcr = fpcr; fpsr = fpsr } } in
        (after.cpu.x 0, after)))

unfoldable pub restore_special : ℕ → Process → (Process → Called) → Called
restore_special frame proc next = load_then 8 proc (add64 frame 248) (λ sp.
    let proc1 = record proc { cpu = record (proc.cpu) { sp = sp } } in
    load_then 8 proc1 (add64 frame 256) (λ pc.
      let proc2 = record proc1 { cpu = record (proc1.cpu) { pc = pc } } in
      load_then 4 proc2 (add64 frame 264) (λ nzcv.
        let proc3 = record proc2 { cpu = record (proc2.cpu) { nzcv = nzcv } } in
        load_then 8 proc3 (add64 frame 268)
          (λ blocked. next (record proc3 { sig_blocked = blocked })))))

unfoldable pub do_rt_sigreturn : Process → Called
do_rt_sigreturn proc =
    let frame = proc.cpu.sp in
    restore_xregs 31 0 frame proc (λ proc1.
      restore_special frame proc1 (λ proc2. restore_vregs 32 0 frame proc2 (restore_status frame)))
