-- ===== src/Cpu/Kept.antt =====
-- What data processing may do to the state: write general registers, the stack pointer and the
-- flags, each with a word of its width.
use alpine_on_ios.Cpu.State.{Cpu, Outcome, set_xreg, set_wreg, set_xreg_sp}
use alpine_on_ios.Cpu.Flags.{
  update_flags_add32, update_flags_add64, update_flags_sub32, update_flags_sub64, update_flags_nz32,
  update_flags_nz64,
}
use alpine_on_ios.Cpu.Valid.{
  IsCpu, IsWord, Leaves, set_xreg-IsCpu, set_wreg-IsCpu, set_xreg_sp-IsCpu, with_nzcv-IsCpu,
  update_flags_add32-IsCpu, update_flags_add64-IsCpu, update_flags_sub32-IsCpu,
  update_flags_sub64-IsCpu, update_flags_nz32-IsCpu, update_flags_nz64-IsCpu,
}
use alpine_on_ios.Prelude.{
  ℕ, ◌%◌, ◌^◌, ◌<◌, ◌≡◌, refl, ◌∙◌, arith, Bool, true, false, if◌then◌else◌,
}

pub record Kept (cpu c : Cpu) : Type 0 where
  pub valid : IsCpu c
  pub same_pc : c.pc ≡ cpu.pc
  pub same_v : (r : ℕ) → c.v r ≡ cpu.v r
  pub same_fpcr : c.fpcr ≡ cpu.fpcr
  pub same_fpsr : c.fpsr ≡ cpu.fpsr
  pub same_tpidr : c.tpidr_el0 ≡ cpu.tpidr_el0
  pub same_tpidrro : c.tpidrro_el0 ≡ cpu.tpidrro_el0
  pub same_excl_addr : c.excl_addr ≡ cpu.excl_addr
  pub same_excl_val : c.excl_val ≡ cpu.excl_val
  pub same_excl_active : c.excl_active ≡ cpu.excl_active

pub Kept-refl : {cpu : Cpu} → IsCpu cpu → Kept cpu cpu
Kept-refl h = record {
  valid = h;
  same_pc = refl;
  same_v = λ r. refl;
  same_fpcr = refl;
  same_fpsr = refl;
  same_tpidr = refl;
  same_tpidrro = refl;
  same_excl_addr = refl;
  same_excl_val = refl;
  same_excl_active = refl;
}

-- A state that differs from `c` only in what may be written.
Kept-like :
    {cpu c d : Cpu}
    → Kept cpu c
    → IsCpu d
    → d.pc ≡ c.pc
    → ((r : ℕ) → d.v r ≡ c.v r)
    → (d.fpcr ≡ c.fpcr)
      × (d.fpsr ≡ c.fpsr)
      × (d.tpidr_el0 ≡ c.tpidr_el0)
      × (d.tpidrro_el0 ≡ c.tpidrro_el0)
      × (d.excl_addr ≡ c.excl_addr)
      × (d.excl_val ≡ c.excl_val)
      × (d.excl_active ≡ c.excl_active)
    → Kept cpu d
Kept-like k h p v same = record {
  valid = h;
  same_pc = p ∙ k.same_pc;
  same_v = λ r. v r ∙ k.same_v r;
  same_fpcr = same.0 ∙ k.same_fpcr;
  same_fpsr = same.1 ∙ k.same_fpsr;
  same_tpidr = same.2 ∙ k.same_tpidr;
  same_tpidrro = same.3 ∙ k.same_tpidrro;
  same_excl_addr = same.4 ∙ k.same_excl_addr;
  same_excl_val = same.5 ∙ k.same_excl_val;
  same_excl_active = same.6 ∙ k.same_excl_active;
}

module _ {cpu c : Cpu} (k : Kept cpu c) where
  pub set_xreg-Kept : (r val : ℕ) → IsWord val → Kept cpu (set_xreg c r val)
  unfolding set_xreg
  set_xreg-Kept r val h =
      Kept-like k (set_xreg-IsCpu k.valid r val h) (ground arith) (λ q. ground arith) (ground arith)

  pub set_wreg-Kept : (r val : ℕ) → Kept cpu (set_wreg c r val)
  unfolding set_wreg
  set_wreg-Kept r val =
      Kept-like k (set_wreg-IsCpu k.valid r val) (ground arith) (λ q. ground arith) (ground arith)

  pub set_xreg_sp-Kept : (r val : ℕ) → IsWord val → Kept cpu (set_xreg_sp c r val)
  unfolding set_xreg_sp
  set_xreg_sp-Kept r val h =
      Kept-like k (set_xreg_sp-IsCpu k.valid r val h) (ground arith) (λ q. ground arith)
        (ground arith)

  pub with_nzcv-Kept : (w : ℕ) → w < 2 ^ 32 → w % 2 ^ 28 ≡ 0 → Kept cpu (record c { nzcv = w })
  with_nzcv-Kept w h m =
      Kept-like k (with_nzcv-IsCpu k.valid w h m) refl (λ r. refl)
        (refl, refl, refl, refl, refl, refl, refl)

  pub update_flags_add32-Kept : (a b r : ℕ) → Kept cpu (update_flags_add32 c a b r)
  unfolding update_flags_add32
  update_flags_add32-Kept a b r =
      Kept-like k (update_flags_add32-IsCpu k.valid a b r) (ground arith) (λ q. ground arith)
        (ground arith)

  pub update_flags_add64-Kept : (a b r : ℕ) → Kept cpu (update_flags_add64 c a b r)
  unfolding update_flags_add64
  update_flags_add64-Kept a b r =
      Kept-like k (update_flags_add64-IsCpu k.valid a b r) (ground arith) (λ q. ground arith)
        (ground arith)

  pub update_flags_sub32-Kept : (a b r : ℕ) → Kept cpu (update_flags_sub32 c a b r)
  unfolding update_flags_sub32
  update_flags_sub32-Kept a b r =
      Kept-like k (update_flags_sub32-IsCpu k.valid a b r) (ground arith) (λ q. ground arith)
        (ground arith)

  pub update_flags_sub64-Kept : (a b r : ℕ) → Kept cpu (update_flags_sub64 c a b r)
  unfolding update_flags_sub64
  update_flags_sub64-Kept a b r =
      Kept-like k (update_flags_sub64-IsCpu k.valid a b r) (ground arith) (λ q. ground arith)
        (ground arith)

  pub update_flags_nz32-Kept : (r : ℕ) → Kept cpu (update_flags_nz32 c r)
  unfolding update_flags_nz32
  update_flags_nz32-Kept r =
      Kept-like k (update_flags_nz32-IsCpu k.valid r) (ground arith) (λ q. ground arith)
        (ground arith)

  pub update_flags_nz64-Kept : (r : ℕ) → Kept cpu (update_flags_nz64 c r)
  unfolding update_flags_nz64
  update_flags_nz64-Kept r =
      Kept-like k (update_flags_nz64-IsCpu k.valid r) (ground arith) (λ q. ground arith)
        (ground arith)

pub Kept-if : {cpu x y : Cpu} (b : Bool) → Kept cpu x → Kept cpu y → Kept cpu (if b then x else y)
Kept-if true kx ky = kx
Kept-if false kx ky = ky

pub Leaves-if :
    {P : Cpu → Type 0} {x y : Outcome} (b : Bool)
    → Leaves P x
    → Leaves P y
    → Leaves P (if b then x else y)
Leaves-if true hx hy = hx
Leaves-if false hx hy = hy
