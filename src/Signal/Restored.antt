-- ===== src/Signal/Restored.antt =====
-- `do_rt_sigreturn` on a stack that holds a signal frame.
use alpine_on_ios.Cpu.{Cpu, Vreg}
use alpine_on_ios.Memory.Layout.{IsLaidOut}
use alpine_on_ios.Memory.Space.{mem_translate, mem_prot_read}
use alpine_on_ios.Memory.Words.{read_guest-part}
use alpine_on_ios.Memory.Guest.{read_guest, mem_copy_from}
use alpine_on_ios.Memory.Access.{load_bytes}
use alpine_on_ios.Process.Call.{Called, or_efault}
use alpine_on_ios.Process.State.{Process}
use alpine_on_ios.Signal.Fields.{HasFrame}
use alpine_on_ios.Signal.Frame.{
  sigframe_size, bytes_vreg, vreg_bytes, restore_xregs, restore_vregs, restore_special,
  restore_status,
}
use alpine_on_ios.Prelude.{
  ℕ, zero, suc, ◌+◌, ◌*◌, ◌^◌, ◌≤◌, ◌<◌, ◌≡◌, refl, ap, ◌∙◌, sym, arith, add64, some, ltb, leb,
  ◌&&◌, if◌then◌else◌, update, fun_ext,
}

-- An array whose elements from `i` to before `i + n` come from another.
abbrev pub patched {ℓ} : {A : Type ℓ} → (ℕ → A) → (ℕ → A) → ℕ → ℕ → ℕ → A
patched old new i n j = if leb i j && ltb j (i + n) then new j else old j

module _ {ℓ} {A : Type ℓ} (old new : ℕ → A) (i : ℕ) where
  patched-step : (n : ℕ) → patched (update old i (new i)) new (suc i) n ≡ patched old new i (suc n)
  patched-step n = fun_ext (λ j. ground arith)

  patched-none : patched old new i 0 ≡ old
  patched-none = fun_ext (λ j. ground arith)

bytes_vreg-vreg_bytes : (r : Vreg) → r.d0 < 2 ^ 64 → bytes_vreg (vreg_bytes r) ≡ r
bytes_vreg-vreg_bytes r h = ground arith

-- The registers of `s` come back from the frame of `s`.
module _ (proc : Process) (lay : IsLaidOut 0 proc.mem.regions) (frame p : ℕ)
    (fits : p + 800 < 2 ^ 64)
    (t : mem_translate proc.mem.regions frame sigframe_size mem_prot_read ≡ some p) (s : Cpu)
    (blocked : ℕ) (has : HasFrame proc.mem.bytes p s blocked) where
  pub restore_xregs-frame :
      (n i : ℕ) (c : Cpu) (next : Process → Called)
      → i + n ≤ 31
      → restore_xregs n i frame (record proc { cpu = c }) next
        ≡ next (record proc { cpu = record c { x = patched c.x s.x i n } })
  unfolding restore_xregs or_efault
  restore_xregs-frame zero i c next h =
      ap (λ (x : ℕ → ℕ). next (record proc { cpu = record c { x = x } }))
        (sym (patched-none c.x s.x i))
  restore_xregs-frame (suc n) i c next h =
      let read =
        read_guest-part proc.mem lay frame 800 p fits (i * 8) 8 (omega arith) (omega arith) t
        ∙ ap some (has.xs i (omega arith)) in
      rw read (
        restore_xregs-frame n (suc i) (record c { x = update c.x i (s.x i) }) next (omega arith)
        ∙ ap (λ (x : ℕ → ℕ). next (record proc { cpu = record c { x = x } }))
            (patched-step c.x s.x i n))

  pub restore_vregs-frame :
      (n i : ℕ) (c : Cpu) (b : ℕ) (next : Process → Called)
      → ((r : ℕ) → (s.v r).d0 < 2 ^ 64)
      → i + n ≤ 32
      → restore_vregs n i frame (record proc { cpu = c; sig_blocked = b }) next
        ≡ next (record proc { cpu = record c { v = patched c.v s.v i n }; sig_blocked = b })
  unfolding restore_vregs or_efault mem_copy_from
  restore_vregs-frame zero i c b next hv h =
      ap (λ (v : ℕ → Vreg). next (record proc { cpu = record c { v = v }; sig_blocked = b }))
        (sym (patched-none c.v s.v i))
  restore_vregs-frame (suc n) i c b next hv h =
      let read =
        read_guest-part proc.mem lay frame 800 p fits (280 + i * 16) 16 (omega arith) (omega arith)
          t
        ∙ ap some (has.vs i (omega arith)) in
      let here = bytes_vreg-vreg_bytes (s.v i) (hv i) in
      rw (read, here)
        (restore_vregs-frame n (suc i) (record c { v = update c.v i (s.v i) }) b next hv
            (omega arith)
          ∙ ap (λ (v : ℕ → Vreg). next (record proc { cpu = record c { v = v }; sig_blocked = b }))
              (patched-step c.v s.v i n))

  field :
      (o size : ℕ)
      → 0 < size
      → o + size ≤ 800
      → read_guest size proc.mem (add64 frame o) ≡ some (load_bytes proc.mem.bytes (p + o) size)
  field o size hs h = read_guest-part proc.mem lay frame 800 p fits o size hs h t

  pub restore_special-frame :
      (c : Cpu) (next : Process → Called)
      → restore_special frame (record proc { cpu = c }) next
        ≡ next (record proc {
          cpu = record c { sp = s.sp; pc = s.pc; nzcv = s.nzcv };
          sig_blocked = blocked;
        })
  unfolding restore_special or_efault
  restore_special-frame c next =
      rw
        (
          field 248 8 (omega arith) (omega arith),
          field 256 8 (omega arith) (omega arith),
          field 264 4 (omega arith) (omega arith),
          field 268 8 (omega arith) (omega arith),
          has.sp,
          has.pc,
          has.nzcv,
          has.mask,
        )
        refl

  pub restore_status-frame :
      (c : Cpu) (b : ℕ)
      → restore_status frame (record proc { cpu = c; sig_blocked = b })
        ≡ (c.x 0, record proc { cpu = record c { fpcr = s.fpcr; fpsr = s.fpsr }; sig_blocked = b })
  unfolding restore_status or_efault
  restore_status-frame c b =
      rw
        (
          field 792 4 (omega arith) (omega arith),
          field 796 4 (omega arith) (omega arith),
          has.fpcr,
          has.fpsr,
        )
        refl
