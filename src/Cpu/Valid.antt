-- ===== src/Cpu/Valid.antt =====
-- The invariant of the processor state, and what keeps it: every register holds a word of its
-- width, and `nzcv` holds nothing but the four flags.
use alpine_on_ios.Cpu.State.{
  Cpu, Code, Outcome, returns, undefined, xreg, wreg, xreg_sp, set_xreg, set_wreg, set_xreg_sp,
}
use alpine_on_ios.Cpu.Flags.{
  flags_of, update_flags_add32, update_flags_add64, update_flags_sub32, update_flags_sub64,
  update_flags_nz32, update_flags_nz64,
}
use alpine_on_ios.Prelude.{ℕ, ◌%◌, ◌^◌, ◌<◌, Bool, ◌≡◌, arith}

abbrev pub IsWord : ℕ → Type 0
IsWord n = n < 2 ^ 64

pub record IsCpu (c : Cpu) : Type 0 where
  pub x_word : (r : ℕ) → IsWord (c.x r)
  pub sp_word : IsWord c.sp
  pub pc_word : IsWord c.pc
  pub nzcv_word : c.nzcv < 2 ^ 32
  pub nzcv_flags : c.nzcv % 2 ^ 28 ≡ 0
  pub fpcr_word : c.fpcr < 2 ^ 32
  pub fpsr_word : c.fpsr < 2 ^ 32
  pub tpidr_word : IsWord c.tpidr_el0
  pub tpidrro_word : IsWord c.tpidrro_el0
  pub d0_word : (r : ℕ) → IsWord (c.v r).d0
  pub d1_word : (r : ℕ) → IsWord (c.v r).d1

-- A property of the state that a handler leaves, whatever code it returns.
pub data Leaves (P : Cpu → Type 0) : Outcome → Type 0 where
  leaves : {code : Code} {c : Cpu} → P c → Leaves P (returns code c)
  stops : Leaves P undefined

module _ {c : Cpu} (valid : IsCpu c) (r : ℕ) where
  pub xreg-lt : xreg c r < 2 ^ 64
  unfolding xreg
  xreg-lt = ground (arith, valid.x_word r)

  pub wreg-lt : wreg c r < 2 ^ 32
  unfolding wreg
  wreg-lt = ground arith

  pub xreg_sp-lt : xreg_sp c r < 2 ^ 64
  unfolding xreg_sp
  xreg_sp-lt = ground (arith, valid.x_word r)

  pub set_xreg-IsCpu : (val : ℕ) → IsWord val → IsCpu (set_xreg c r val)
  unfolding set_xreg
  set_xreg-IsCpu val h = ground arith

  pub set_wreg-IsCpu : (val : ℕ) → IsCpu (set_wreg c r val)
  unfolding set_wreg
  set_wreg-IsCpu val = ground arith

  pub set_xreg_sp-IsCpu : (val : ℕ) → IsWord val → IsCpu (set_xreg_sp c r val)
  unfolding set_xreg_sp
  set_xreg_sp-IsCpu val h = ground arith

flags_of-lt : (n z c v : Bool) → flags_of n z c v < 2 ^ 32
unfolding flags_of
flags_of-lt n z c v = ground arith

flags_of-mod : (n z c v : Bool) → flags_of n z c v % 2 ^ 28 ≡ 0
unfolding flags_of
flags_of-mod n z c v = ground arith

module _ {cpu : Cpu} (valid : IsCpu cpu) where
  pub with_nzcv-IsCpu : (w : ℕ) → w < 2 ^ 32 → w % 2 ^ 28 ≡ 0 → IsCpu (record cpu { nzcv = w })
  with_nzcv-IsCpu w h m = ground arith

  pub with_flags-IsCpu : (n z c v : Bool) → IsCpu (record cpu { nzcv = flags_of n z c v })
  with_flags-IsCpu n z c v = with_nzcv-IsCpu _ (flags_of-lt n z c v) (flags_of-mod n z c v)

  pub with_pc-IsCpu : (target : ℕ) → IsWord target → IsCpu (record cpu { pc = target })
  with_pc-IsCpu target h = ground arith

  pub update_flags_add32-IsCpu : (a b r : ℕ) → IsCpu (update_flags_add32 cpu a b r)
  unfolding update_flags_add32
  update_flags_add32-IsCpu a b r = with_flags-IsCpu _ _ _ _

  pub update_flags_add64-IsCpu : (a b r : ℕ) → IsCpu (update_flags_add64 cpu a b r)
  unfolding update_flags_add64
  update_flags_add64-IsCpu a b r = with_flags-IsCpu _ _ _ _

  pub update_flags_sub32-IsCpu : (a b r : ℕ) → IsCpu (update_flags_sub32 cpu a b r)
  unfolding update_flags_sub32
  update_flags_sub32-IsCpu a b r = with_flags-IsCpu _ _ _ _

  pub update_flags_sub64-IsCpu : (a b r : ℕ) → IsCpu (update_flags_sub64 cpu a b r)
  unfolding update_flags_sub64
  update_flags_sub64-IsCpu a b r = with_flags-IsCpu _ _ _ _

  pub update_flags_nz32-IsCpu : (r : ℕ) → IsCpu (update_flags_nz32 cpu r)
  unfolding update_flags_nz32
  update_flags_nz32-IsCpu r = with_flags-IsCpu _ _ _ _

  pub update_flags_nz64-IsCpu : (r : ℕ) → IsCpu (update_flags_nz64 cpu r)
  unfolding update_flags_nz64
  update_flags_nz64-IsCpu r = with_flags-IsCpu _ _ _ _
