-- ===== src/LoadStore/Valid/Register.antt =====
-- The handlers of one register and of literals keep the machine well formed.
use alpine_on_ios.Cpu.{emu_ok, xreg_sp, set_xreg_sp, bits, bit, sign_extend}
use alpine_on_ios.Cpu.Valid.{IsWord, set_xreg-IsCpu, set_wreg-IsCpu, set_xreg_sp-IsCpu, xreg_sp-lt}
use alpine_on_ios.Decoder.Laws.{sign_extend-lt}
use alpine_on_ios.LoadStore.Register.{
  is_load, access, exec_ldst_unsigned_offset, exec_ldst_imm9, exec_ldst_reg_offset, literal_vector,
  literal_general, exec_ldst_literal,
}
use alpine_on_ios.LoadStore.Valid.Access.{
  set_v-IsMachine, clear_v-IsMachine, Tries, or_segfault-Ends, do_load-Tries, do_store-Tries,
}
use alpine_on_ios.Machine.{Machine, Result, stepped}
use alpine_on_ios.Machine.Valid.{IsMachine, Ends, ends, with_cpu-IsMachine, read_or-rule}
use alpine_on_ios.Prelude.{ℕ, ◌^◌, ◌<◌, ◌==◌, arith, add64, if-rule, is_true, Bool, if◌then◌else◌}

-- What may follow an access.
abbrev pub Continues : (Machine → Result) → Type 0
Continues next = (m : Machine) → IsMachine m → Ends IsMachine (next m)

pub done-Continues : Continues (λ m. stepped emu_ok m)
done-Continues m h = ends h

module _ {m : Machine} (valid : IsMachine m) (rn val : ℕ) (h : IsWord val) where
  pub write_base-Ends :
      Ends IsMachine (stepped emu_ok (record m { cpu = set_xreg_sp (m.cpu) rn val }))
  write_base-Ends = ends (with_cpu-IsMachine valid _ (set_xreg_sp-IsCpu (valid.cpu_valid) rn val h))

-- The write-back of the base after or before the access, or none.
pub write_back-Continues :
    (after before : Bool) (rn offset addr : ℕ)
    → IsWord addr
    → Continues (λ m'.
      if after
      then stepped emu_ok
          (record m' { cpu = set_xreg_sp (m'.cpu) rn (add64 (xreg_sp (m'.cpu) rn) offset) })
      else if before
      then stepped emu_ok (record m' { cpu = set_xreg_sp (m'.cpu) rn addr })
      else stepped emu_ok m')
write_back-Continues after before rn offset addr h m valid =
    if-rule (Ends IsMachine) after (write_base-Ends valid rn _ (omega arith))
      (if-rule (Ends IsMachine) before (write_base-Ends valid rn addr h) (ends valid))

module _ {m : Machine} (valid : IsMachine m) (insn : ℕ) where
  access-Ends :
      (addr : ℕ) (next : Machine → Result)
      → addr < 2 ^ 64
      → Continues next
      → Ends IsMachine (access m insn addr next)
  unfolding access
  access-Ends addr next h continues =
      or_segfault-Ends _ next
        (if-rule Tries (is_load (bits insn 23 22) (bit insn 26))
          (do_load-Tries valid addr _ _ _ h _) (do_store-Tries valid addr _ _ _ h _))
        continues

  pub exec_ldst_unsigned_offset-Ends : Ends IsMachine (exec_ldst_unsigned_offset m insn)
  unfolding exec_ldst_unsigned_offset
  exec_ldst_unsigned_offset-Ends = access-Ends _ _ (omega arith) done-Continues

  pub exec_ldst_reg_offset-Ends : Ends IsMachine (exec_ldst_reg_offset m insn)
  unfolding exec_ldst_reg_offset
  exec_ldst_reg_offset-Ends = access-Ends _ _ (omega arith) done-Continues

  pub exec_ldst_imm9-Ends : Ends IsMachine (exec_ldst_imm9 m insn)
  unfolding exec_ldst_imm9
  exec_ldst_imm9-Ends =
      let idx_type = bits insn 11 10 in
      let word =
        if-rule IsWord (idx_type == 1) (xreg_sp-lt (valid.cpu_valid) (bits insn 9 5))
          (omega arith) in
      if-rule (Ends IsMachine) (idx_type == 2) (ends valid) (
        access-Ends _ _ word (
          write_back-Continues (idx_type == 1) (idx_type == 3) (bits insn 9 5)
            (sign_extend (bits insn 20 12) 9) _ word))

module _ {m : Machine} (valid : IsMachine m) (addr opc rt : ℕ) (ha : addr < 2 ^ 64) where
  literal_vector-Ends : Ends IsMachine (literal_vector m addr opc rt)
  unfolding literal_vector
  literal_vector-Ends =
      let cleared = clear_v-IsMachine valid rt in
      if-rule (Ends IsMachine) (opc == 0)
        (read_or-rule cleared (Ends IsMachine) 4 addr ha (omega arith) (omega arith) _ _
          (ends cleared)
          (λ val mem v small. ends (set_v-IsMachine v rt val 0 (omega arith) (omega arith))))
        (if-rule (Ends IsMachine) (opc == 1)
          (read_or-rule cleared (Ends IsMachine) 8 addr ha (omega arith) (omega arith) _ _
            (ends cleared)
            (λ val mem v small. ends (set_v-IsMachine v rt val 0 (omega arith) (omega arith))))
          (if-rule (Ends IsMachine) (opc == 2)
            (read_or-rule cleared (Ends IsMachine) 8 addr ha (omega arith) (omega arith) _ _
              (ends cleared)
              (λ low mem v small.
                let half = set_v-IsMachine v rt low 0 (omega arith) (omega arith) in
                read_or-rule half (Ends IsMachine) 8 (add64 addr 8) (omega arith) (omega arith)
                  (omega arith) _ _ (ends half)
                  (λ high mem' v' small'.
                    ends (set_v-IsMachine v' rt low high (omega arith) (omega arith)))))
            (ends cleared)))

  literal_general-Ends : Ends IsMachine (literal_general m addr opc rt)
  unfolding literal_general
  literal_general-Ends =
      if-rule (Ends IsMachine) (opc == 0)
        (read_or-rule valid (Ends IsMachine) 4 addr ha (omega arith) (omega arith) _ _ (ends valid)
          (λ val mem v small. ends (with_cpu-IsMachine v _ (set_wreg-IsCpu (v.cpu_valid) rt val))))
        (if-rule (Ends IsMachine) (opc == 1)
          (read_or-rule valid (Ends IsMachine) 8 addr ha (omega arith) (omega arith) _ _
            (ends valid)
            (λ val mem v small.
              ends (with_cpu-IsMachine v _ (set_xreg-IsCpu (v.cpu_valid) rt val (omega arith)))))
          (if-rule (Ends IsMachine) (opc == 2)
            (read_or-rule valid (Ends IsMachine) 4 addr ha (omega arith) (omega arith) _ _
              (ends valid)
              (λ val mem v small. ends (
                with_cpu-IsMachine v _
                  (set_xreg-IsCpu (v.cpu_valid) rt _ (sign_extend-lt val 32)))))
            (ends valid)))

pub exec_ldst_literal-Ends :
    {m : Machine} → IsMachine m → (insn : ℕ) → Ends IsMachine (exec_ldst_literal m insn)
unfolding exec_ldst_literal
exec_ldst_literal-Ends valid insn =
    if-rule (Ends IsMachine) (is_true (bit insn 26)) (literal_vector-Ends valid _ _ _ (omega arith))
      (literal_general-Ends valid _ _ _ (omega arith))
