-- ===== src/Signal/Saved.antt =====
-- What `save_frame` stores: each field of the frame is at its place, and no later one covers it.
use alpine_on_ios.Cpu.{Cpu, Vreg}
use alpine_on_ios.Memory.Access.{store_bytes}
use alpine_on_ios.Memory.Layout.{IsLaidOut}
use alpine_on_ios.Memory.Space.{mem_translate, mem_prot_write}
use alpine_on_ios.Memory.Unmap.{MemSpace}
use alpine_on_ios.Memory.Words.{write_guest-part}
use alpine_on_ios.Memory.Guest.{mem_copy_to}
use alpine_on_ios.Signal.Frame.{
  written, save_word, save_xregs, save_vregs, save_frame, vreg_bytes, sigframe_size,
}
use alpine_on_ios.Prelude.{
  ℕ, zero, suc, ◌+◌, ◌*◌, ◌^◌, ◌≤◌, ◌<◌, ◌≡◌, refl, ap, ◌∙◌, arith, add64, some,
}

unfoldable pub xregs_bytes : (ℕ → ℕ) → ℕ → (ℕ → ℕ) → ℕ → ℕ → ℕ
xregs_bytes b p x zero = b
xregs_bytes b p x (suc i) = store_bytes (xregs_bytes b p x i) (p + i * 8) 8 (x i)

unfoldable pub vregs_bytes : (ℕ → ℕ) → ℕ → (ℕ → Vreg) → ℕ → ℕ → ℕ
vregs_bytes b p v zero = b
vregs_bytes b p v (suc i) =
    store_bytes (vregs_bytes b p v i) (p + (280 + i * 16)) 16 (vreg_bytes (v i))

abbrev pub special_bytes : (ℕ → ℕ) → ℕ → Cpu → ℕ → ℕ → ℕ
special_bytes b p c blocked =
    store_bytes
      (store_bytes (store_bytes (store_bytes b (p + 248) 8 c.sp) (p + 256) 8 c.pc) (p + 264) 4
        c.nzcv)
      (p + 268) 8 blocked

abbrev pub frame_bytes : (ℕ → ℕ) → ℕ → Cpu → ℕ → ℕ → ℕ
frame_bytes b p c blocked =
    store_bytes
      (store_bytes (vregs_bytes (special_bytes (xregs_bytes b p c.x 31) p c blocked) p c.v 32)
        (p + 792) 4 c.fpcr)
      (p + 796) 4 c.fpsr

-- Each call of the accessors stores its bytes.
module _ (ms : MemSpace) (lay : IsLaidOut 0 ms.regions) (frame p : ℕ) (fits : p + 800 < 2 ^ 64)
    (t : mem_translate ms.regions frame sigframe_size mem_prot_write ≡ some p) where
  save_word-bytes :
      (b : ℕ → ℕ) (o size val : ℕ)
      → 0 < size
      → o + size ≤ 800
      → save_word size (record ms { bytes = b }) (add64 frame o) val
        ≡ record ms { bytes = store_bytes b (p + o) size val }
  unfolding save_word written
  save_word-bytes b o size val hs ho =
      ap (written (record ms { bytes = b }))
        (write_guest-part (record ms { bytes = b }) lay frame 800 p fits o size hs ho val t)

  save_xregs-bytes :
      (b : ℕ → ℕ) (x : ℕ → ℕ) (n : ℕ)
      → n ≤ 31
      → save_xregs (record ms { bytes = b }) frame x n ≡ record ms { bytes = xregs_bytes b p x n }
  unfolding save_xregs xregs_bytes
  save_xregs-bytes b x zero h = refl
  save_xregs-bytes b x (suc i) h =
      ap (λ (m : MemSpace). save_word 8 m (add64 frame (i * 8)) (x i))
        (save_xregs-bytes b x i (omega arith))
      ∙ save_word-bytes (xregs_bytes b p x i) (i * 8) 8 (x i) (omega arith) (omega arith)

  save_vregs-bytes :
      (b : ℕ → ℕ) (v : ℕ → Vreg) (n : ℕ)
      → n ≤ 32
      → save_vregs (record ms { bytes = b }) frame v n ≡ record ms { bytes = vregs_bytes b p v n }
  unfolding save_vregs vregs_bytes mem_copy_to save_word
  save_vregs-bytes b v zero h = refl
  save_vregs-bytes b v (suc i) h =
      ap (λ (m : MemSpace). save_word 16 m (add64 frame (280 + i * 16)) (vreg_bytes (v i)))
        (save_vregs-bytes b v i (omega arith))
      ∙ save_word-bytes (vregs_bytes b p v i) (280 + i * 16) 16 (vreg_bytes (v i)) (omega arith)
          (omega arith)

  pub save_frame-bytes :
      (c : Cpu) (blocked : ℕ)
      → save_frame ms frame c blocked ≡ record ms { bytes = frame_bytes ms.bytes p c blocked }
  unfolding save_frame
  save_frame-bytes c blocked =
      rw
        (
          save_xregs-bytes ms.bytes c.x 31 (omega arith),
          save_word-bytes _ 248 8 c.sp (omega arith) (omega arith),
          save_word-bytes _ 256 8 c.pc (omega arith) (omega arith),
          save_word-bytes _ 264 4 c.nzcv (omega arith) (omega arith),
          save_word-bytes _ 268 8 blocked (omega arith) (omega arith),
          save_vregs-bytes _ c.v 32 (omega arith),
          save_word-bytes _ 792 4 c.fpcr (omega arith) (omega arith),
          save_word-bytes _ 796 4 c.fpsr (omega arith) (omega arith),
        )
        refl
