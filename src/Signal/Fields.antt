-- ===== src/Signal/Fields.antt =====
-- The fields of a signal frame in the bytes of the host.
use alpine_on_ios.Cpu.{Cpu, Vreg}
use alpine_on_ios.Cpu.Valid.{IsCpu}
use alpine_on_ios.Memory.Access.{load_bytes, store_bytes}
use alpine_on_ios.Memory.RoundTrip.{load_bytes-store_bytes, load_bytes-store_bytes_above}
use alpine_on_ios.Memory.Words.{load_bytes-same}
use alpine_on_ios.Signal.Frame.{vreg_bytes}
use alpine_on_ios.Signal.Saved.{xregs_bytes, vregs_bytes, special_bytes, frame_bytes}
use native.Mathlib.Nat.{mod-eq_of_lt}
use alpine_on_ios.Prelude.{
  ℕ, zero, suc, ◌+◌, ◌*◌, ◌^◌, ◌≤◌, ◌<◌, ◌≡◌, refl, ◌∙◌, arith, Bool-cases, inl, inr, ltb,
}

pub record HasFrame (b : ℕ → ℕ) (p : ℕ) (c : Cpu) (blocked : ℕ) : Type 0 where
  pub xs : (i : ℕ) → i < 31 → load_bytes b (p + i * 8) 8 ≡ c.x i
  pub sp : load_bytes b (p + 248) 8 ≡ c.sp
  pub pc : load_bytes b (p + 256) 8 ≡ c.pc
  pub nzcv : load_bytes b (p + 264) 4 ≡ c.nzcv
  pub mask : load_bytes b (p + 268) 8 ≡ blocked
  pub vs : (i : ℕ) → i < 32 → load_bytes b (p + (280 + i * 16)) 16 ≡ vreg_bytes (c.v i)
  pub fpcr : load_bytes b (p + 792) 4 ≡ c.fpcr
  pub fpsr : load_bytes b (p + 796) 4 ≡ c.fpsr

-- What is stored at a place is there.
at_place :
    (b : ℕ → ℕ) (q size val : ℕ)
    → val < 256 ^ size
    → load_bytes (store_bytes b q size val) q size ≡ val
at_place b q size val h = load_bytes-store_bytes b q size val ∙ mod-eq_of_lt h

module _ (b : ℕ → ℕ) (p : ℕ) where
  xregs_bytes-at :
      (x : ℕ → ℕ) (n i : ℕ)
      → ((r : ℕ) → x r < 2 ^ 64)
      → i < n
      → load_bytes (xregs_bytes b p x n) (p + i * 8) 8 ≡ x i
  unfolding xregs_bytes
  xregs_bytes-at x zero i hx h = absurd (omega arith)
  xregs_bytes-at x (suc n) i hx h = elim (Bool-cases (ltb i n)) [
    | inl low ↦
        load_bytes-store_bytes_above _ (p + i * 8) 8 (p + n * 8) 8 (x n) (ground arith)
        ∙ xregs_bytes-at x n i hx (ground arith)
    | inr top ↦ let same : i ≡ n = ground arith in rw same (at_place _ (p + n * 8) 8 (x n) (hx n))
  ]

  vregs_bytes-at :
      (v : ℕ → Vreg) (n i : ℕ)
      → ((r : ℕ) → vreg_bytes (v r) < 2 ^ 128)
      → i < n
      → load_bytes (vregs_bytes b p v n) (p + (280 + i * 16)) 16 ≡ vreg_bytes (v i)
  unfolding vregs_bytes
  vregs_bytes-at v zero i hv h = absurd (omega arith)
  vregs_bytes-at v (suc n) i hv h = elim (Bool-cases (ltb i n)) [
    | inl low ↦
        load_bytes-store_bytes_above _ (p + (280 + i * 16)) 16 (p + (280 + n * 16)) 16
          (vreg_bytes (v n)) (ground arith)
        ∙ vregs_bytes-at v n i hv (ground arith)
    | inr top ↦
        let same : i ≡ n = ground arith in
        rw same (at_place _ (p + (280 + n * 16)) 16 (vreg_bytes (v n)) (hv n))
  ]

  vregs_bytes-below :
      (v : ℕ → Vreg) (n q size : ℕ)
      → q + size ≤ p + 280
      → load_bytes (vregs_bytes b p v n) q size ≡ load_bytes b q size
  unfolding vregs_bytes
  vregs_bytes-below v zero q size h = refl
  vregs_bytes-below v (suc n) q size h =
      load_bytes-store_bytes_above _ q size (p + (280 + n * 16)) 16 (vreg_bytes (v n)) (omega arith)
      ∙ vregs_bytes-below v n q size h

-- The later fields do not cover the earlier ones.
module _ (b : ℕ → ℕ) (p : ℕ) (c : Cpu) (blocked : ℕ) where
  below_fpcr :
      (q size : ℕ)
      → q + size ≤ p + 792
      → load_bytes (frame_bytes b p c blocked) q size
        ≡ load_bytes
            (vregs_bytes (special_bytes (xregs_bytes b p c.x 31) p c blocked) p c.v 32)
            q
            size
  below_fpcr q size h =
      load_bytes-store_bytes_above _ q size (p + 796) 4 c.fpsr (omega arith)
      ∙ load_bytes-store_bytes_above _ q size (p + 792) 4 c.fpcr h

  below_vregs :
      (q size : ℕ)
      → q + size ≤ p + 280
      → load_bytes (frame_bytes b p c blocked) q size
        ≡ load_bytes (special_bytes (xregs_bytes b p c.x 31) p c blocked) q size
  below_vregs q size h =
      below_fpcr q size (omega arith)
      ∙ vregs_bytes-below (special_bytes (xregs_bytes b p c.x 31) p c blocked) p c.v 32 q size h

  pub frame_bytes-HasFrame :
      IsCpu c → blocked < 2 ^ 64 → HasFrame (frame_bytes b p c blocked) p c blocked
  frame_bytes-HasFrame valid hb =
      let x31 = xregs_bytes b p c.x 31 in
      let above = λ (d : ℕ → ℕ) (q size o k val : ℕ) (h : q + size ≤ p + o).
        load_bytes-store_bytes_above d q size (p + o) k val h in
      record {
        xs = λ i h.
            below_vregs (p + i * 8) 8 (omega arith)
            ∙ above _ (p + i * 8) 8 268 8 blocked (omega arith)
            ∙ above _ (p + i * 8) 8 264 4 c.nzcv (omega arith)
            ∙ above _ (p + i * 8) 8 256 8 c.pc (omega arith)
            ∙ above _ (p + i * 8) 8 248 8 c.sp (omega arith)
            ∙ xregs_bytes-at b p c.x 31 i valid.x_word h;
        sp =
            below_vregs (p + 248) 8 (omega arith)
            ∙ above _ (p + 248) 8 268 8 blocked (omega arith)
            ∙ above _ (p + 248) 8 264 4 c.nzcv (omega arith)
            ∙ above _ (p + 248) 8 256 8 c.pc (omega arith)
            ∙ at_place _ (p + 248) 8 c.sp valid.sp_word;
        pc =
            below_vregs (p + 256) 8 (omega arith)
            ∙ above _ (p + 256) 8 268 8 blocked (omega arith)
            ∙ above _ (p + 256) 8 264 4 c.nzcv (omega arith)
            ∙ at_place _ (p + 256) 8 c.pc valid.pc_word;
        nzcv =
            below_vregs (p + 264) 4 (omega arith)
            ∙ above _ (p + 264) 4 268 8 blocked (omega arith)
            ∙ at_place _ (p + 264) 4 c.nzcv valid.nzcv_word;
        mask = below_vregs (p + 268) 8 (omega arith) ∙ at_place _ (p + 268) 8 blocked hb;
        vs = λ i h.
            below_fpcr (p + (280 + i * 16)) 16 (omega arith)
            ∙ vregs_bytes-at _ p c.v 32 i (λ r. omega (arith, valid.d0_word r, valid.d1_word r)) h;
        fpcr =
            above _ (p + 792) 4 796 4 c.fpsr (omega arith)
            ∙ at_place _ (p + 792) 4 c.fpcr valid.fpcr_word;
        fpsr = at_place _ (p + 796) 4 c.fpsr valid.fpsr_word;
      }

-- A frame stays as long as its bytes do.
pub HasFrame-same :
    {b : ℕ → ℕ} {p : ℕ} {c : Cpu} {blocked : ℕ} (b' : ℕ → ℕ)
    → ((i : ℕ) → p ≤ i → i < p + 800 → b' i ≡ b i)
    → HasFrame b p c blocked
    → HasFrame b' p c blocked
HasFrame-same {b = b} {p = p} b' same has =
    let kept = λ (o size : ℕ) (h : o + size ≤ 800).
      load_bytes-same b b' (p + o) size (λ i l u. same i (omega arith) (omega arith)) in
    record {
      xs = λ i h. kept (i * 8) 8 (omega arith) ∙ has.xs i h;
      sp = kept 248 8 (omega arith) ∙ has.sp;
      pc = kept 256 8 (omega arith) ∙ has.pc;
      nzcv = kept 264 4 (omega arith) ∙ has.nzcv;
      mask = kept 268 8 (omega arith) ∙ has.mask;
      vs = λ i h. kept (280 + i * 16) 16 (omega arith) ∙ has.vs i h;
      fpcr = kept 792 4 (omega arith) ∙ has.fpcr;
      fpsr = kept 796 4 (omega arith) ∙ has.fpsr;
    }
