-- ===== src/Branch/Compare.antt =====
-- A compare followed by a conditional branch: the two handlers and the flags between them.
use alpine_on_ios.Branch.System.{Clock}
use alpine_on_ios.Branch.Exec.{jump_if, exec_branch}
use alpine_on_ios.Branch.Targets.{b_cond, cmp_imm, offset, exec_b_cond, exec_cmp}
use alpine_on_ios.Cpu.{Cpu, returns, emu_ok, xreg_sp}
use alpine_on_ios.Cpu.Flags.{check_cond, update_flags_sub64}
use alpine_on_ios.Cpu.Condition.{Compared, check_cond-update_flags_sub64, signed_ltb64}
use alpine_on_ios.Cpu.Valid.{IsCpu, xreg_sp-lt}
use alpine_on_ios.DpImm.Bitfield.{exec_dp_imm}
use alpine_on_ios.Prelude.{ℕ, ◌^◌, ◌<◌, ◌≡◌, refl, ap, ◌∙◌, arith, Bool, not, ◌==◌, ltb, leb, sub64}

-- The condition codes that compare two words, and the relation that each stands for.
pub data Relation (a b : ℕ) : ℕ → Bool → Type 0 where
  eq_code : Relation a b 0 (a == b)
  ne_code : Relation a b 1 (not (a == b))
  cs_code : Relation a b 2 (leb b a)
  cc_code : Relation a b 3 (ltb a b)
  hi_code : Relation a b 8 (ltb b a)
  ls_code : Relation a b 9 (leb a b)
  ge_code : Relation a b 10 (not (signed_ltb64 a b))
  lt_code : Relation a b 11 (signed_ltb64 a b)
  gt_code : Relation a b 12 (signed_ltb64 b a)
  le_code : Relation a b 13 (not (signed_ltb64 b a))

Relation-lt : {a b code : ℕ} {holds : Bool} → Relation a b code holds → code < 16
Relation-lt eq_code = omega arith
Relation-lt ne_code = omega arith
Relation-lt cs_code = omega arith
Relation-lt cc_code = omega arith
Relation-lt hi_code = omega arith
Relation-lt ls_code = omega arith
Relation-lt ge_code = omega arith
Relation-lt lt_code = omega arith
Relation-lt gt_code = omega arith
Relation-lt le_code = omega arith

check_cond-Relation :
    (cpu : Cpu) {a b code : ℕ} {holds : Bool}
    → Compared cpu a b signed_ltb64
    → Relation a b code holds
    → check_cond cpu code ≡ holds
check_cond-Relation cpu t eq_code = t.0
check_cond-Relation cpu t ne_code = t.1
check_cond-Relation cpu t cs_code = t.2
check_cond-Relation cpu t cc_code = t.3
check_cond-Relation cpu t hi_code = t.4
check_cond-Relation cpu t ls_code = t.5
check_cond-Relation cpu t ge_code = t.6
check_cond-Relation cpu t lt_code = t.7
check_cond-Relation cpu t gt_code = t.8
check_cond-Relation cpu t le_code = t.9

-- On a well-formed state, CMP of a register (SP for 31) with an immediate leaves a state at the
-- same instruction, from which B.cond goes to its offset exactly if the relation of its condition
-- code holds between the two, and to the next instruction otherwise, for each of the ten codes
-- that compare.
pub exec_cmp-exec_b_cond :
    (clock : Clock) (cpu : Cpu) (rn imm imm19 code : ℕ) (holds : Bool)
    → IsCpu cpu
    → rn < 32
    → imm < 2 ^ 12
    → imm19 < 2 ^ 19
    → Relation (xreg_sp cpu rn) imm code holds
    → (c : Cpu) × (exec_dp_imm cpu (cmp_imm rn imm) ≡ returns emu_ok c)
      × (c.pc ≡ cpu.pc)
      × (exec_branch clock c (b_cond code imm19) ≡ jump_if holds c (offset (2 ^ 18) imm19))
unfolding update_flags_sub64
exec_cmp-exec_b_cond clock cpu rn imm imm19 code holds h hr hi ho relation =
    let a = xreg_sp cpu rn in
    let c = update_flags_sub64 cpu a imm (sub64 a imm) in
    let compared = check_cond-update_flags_sub64 cpu a imm (xreg_sp-lt h rn) (omega arith) in
    (
      c,
      exec_cmp cpu rn imm hr hi,
      refl,
      exec_b_cond clock c code imm19 (Relation-lt relation) ho
          ∙ ap (λ (b : Bool). jump_if b c (offset (2 ^ 18) imm19))
              (check_cond-Relation c compared relation),
    )
