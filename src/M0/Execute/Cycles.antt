-- ===== src/M0/Execute/Cycles.antt =====
-- `executeInstruction` and the cycle counter.
use rp2350js.Base.{ℕ, ◌+◌, ◌≤◌, ◌≡◌, refl, arith, Bool-cases, inl, inr}
use rp2350js.M0.Instr.{Instr}
use rp2350js.M0.State.{Bus, Core, load16, pc, clear1, add_pc}
use rp2350js.M0.Decode.{decode}
use rp2350js.M0.Flags.{add_update_flags, subtract_update_flags, set_nz}
use rp2350js.M0.Execute.{
  execute, poll, fetch, is_wide, warn_unimplemented, step_awake, execute_instruction,
}
use rp2350js.M0.Alu.{exec_adcs, exec_add_sp, exec_add_sp_imm, exec_adds1, exec_adds2}
use rp2350js.M0.Alu.{exec_adds_reg, exec_adr, exec_ands, exec_bics, exec_cmn, exec_cmp_imm}
use rp2350js.M0.Alu.{exec_cmp_reg, exec_eors, exec_movs, exec_muls, exec_mvns, exec_negs}
use rp2350js.M0.Alu.{exec_orrs, exec_rev, exec_rev16, exec_revsh, exec_sbcs, exec_sub_sp}
use rp2350js.M0.Alu.{exec_subs1, exec_subs2, exec_subs_reg, exec_sxtb, exec_sxth, exec_tst}
use rp2350js.M0.Alu.{exec_uxtb, exec_uxth}
use rp2350js.M0.Alu.Shift.{exec_asrs, exec_asrs_reg, exec_lsls, exec_lsls_reg, exec_lsrs}
use rp2350js.M0.Alu.Shift.{exec_lsrs_reg, exec_ror}
use rp2350js.M0.Memory.{exec_ldr, exec_ldrb, exec_ldrh, exec_ldrsb, exec_ldrsh, exec_str}
use rp2350js.M0.Memory.{exec_strb, exec_strh}
use rp2350js.M0.Control.{exec_b, exec_barrier, exec_bl, exec_blx, exec_break, exec_bx, exec_cps}
use rp2350js.M0.Control.{exec_mrs, exec_msr, exec_svc, exec_wfi}
use rp2350js.M0.Execute.Frame.{Counted, follow}
use rp2350js.M0.Execute.Frame.{cycles_add_reg, cycles_mov, cycles_b_cond, cycles_wfe}
use rp2350js.M0.Execute.Frame.{cycles-fire_sev, cycles-read_special_register, cycles_ldmia}
use rp2350js.M0.Execute.Frame.{cycles-write_special_register, cycles-check_trace_magic}
use rp2350js.M0.Execute.Frame.{cycles_stmia, cycles-bx_write_pc, cycles_pop, cycles_push}
use rp2350js.M0.Execute.Frame.{cycles-check_for_interrupts}

-- a step that returns d
abbrev Charged : {M : Type 0} → ℕ → Core M → Core M → Type 0
Charged d s t =
    (t.cycles + s.added_cycles ≡ s.cycles + d + t.added_cycles)
    × (s.added_cycles ≤ t.added_cycles)
    × (1 ≤ d)

module _ {M : Type 0} (bus : Bus M) where
  -- A branch touches the cycle counter only by `addCycles`.
  cycles-execute :
      (opcode_pc : ℕ) (i : Instr) (s : Core M) → Counted s (execute bus opcode_pc i s).0
  unfolding execute add_update_flags subtract_update_flags set_nz exec_adcs exec_add_sp
      exec_add_sp_imm exec_adds1 exec_adds2 exec_adds_reg exec_adr exec_ands exec_asrs exec_asrs_reg
      exec_b exec_barrier exec_bics exec_bl exec_blx exec_break exec_bx exec_cmn exec_cmp_imm
      exec_cmp_reg exec_cps exec_eors exec_ldr exec_ldrb exec_ldrh exec_ldrsb exec_ldrsh exec_lsls
      exec_lsls_reg exec_lsrs exec_lsrs_reg exec_movs exec_mrs exec_msr exec_muls exec_mvns
      exec_negs exec_orrs exec_rev exec_rev16 exec_revsh exec_ror exec_sbcs exec_str exec_strb
      exec_strh exec_sub_sp exec_subs1 exec_subs2 exec_subs_reg exec_svc exec_sxtb exec_sxth
      exec_tst exec_uxtb exec_uxth exec_wfi
  cycles-execute _ (Instr.adcs _ _) s = record { kept = refl; grows = omega arith }
  cycles-execute _ (Instr.add_sp_imm _ _) s = record { kept = refl; grows = omega arith }
  cycles-execute _ (Instr.add_sp _) s = record { kept = refl; grows = omega arith }
  cycles-execute _ (Instr.adds1 _ _ _) s = record { kept = refl; grows = omega arith }
  cycles-execute _ (Instr.adds2 _ _) s = record { kept = refl; grows = omega arith }
  cycles-execute _ (Instr.adds_reg _ _ _) s = record { kept = refl; grows = omega arith }
  cycles-execute _ (Instr.add_reg rm rdn) s = cycles_add_reg rm rdn s
  cycles-execute _ (Instr.adr _ _) s = record { kept = refl; grows = omega arith }
  cycles-execute _ (Instr.ands _ _) s = record { kept = refl; grows = omega arith }
  cycles-execute _ (Instr.asrs _ _ _) s = record { kept = refl; grows = omega arith }
  cycles-execute _ (Instr.asrs_reg _ _) s = record { kept = refl; grows = omega arith }
  cycles-execute _ (Instr.b_cond cond imm8) s = cycles_b_cond cond imm8 s
  cycles-execute opcode_pc (Instr.b_always _) s =
      let h = cycles-check_trace_magic bus opcode_pc s in record { kept = h.kept; grows = h.grows }
  cycles-execute _ (Instr.bics _ _) s = record { kept = refl; grows = omega arith }
  cycles-execute _ (Instr.bkpt _) s = record { kept = refl; grows = omega arith }
  cycles-execute _ (Instr.bl _ _ _ _ _) s = record { kept = refl; grows = omega arith }
  cycles-execute _ (Instr.blx _) s = record { kept = refl; grows = omega arith }
  cycles-execute _ (Instr.bx rm) s = cycles-bx_write_pc bus (s.regs rm) s
  cycles-execute _ (Instr.cmn _ _) s = record { kept = refl; grows = omega arith }
  cycles-execute _ (Instr.cmp_imm _ _) s = record { kept = refl; grows = omega arith }
  cycles-execute _ (Instr.cmp_reg1 _ _) s = record { kept = refl; grows = omega arith }
  cycles-execute _ (Instr.cmp_reg2 _ _) s = record { kept = refl; grows = omega arith }
  cycles-execute _ Instr.cpsid s = record { kept = refl; grows = omega arith }
  cycles-execute _ Instr.cpsie s = record { kept = refl; grows = omega arith }
  cycles-execute _ Instr.dmb s = record { kept = refl; grows = omega arith }
  cycles-execute _ Instr.dsb s = record { kept = refl; grows = omega arith }
  cycles-execute _ (Instr.eors _ _) s = record { kept = refl; grows = omega arith }
  cycles-execute _ Instr.isb s = record { kept = refl; grows = omega arith }
  cycles-execute _ (Instr.ldmia rn registers) s = cycles_ldmia bus rn registers s
  cycles-execute _ (Instr.ldr_imm _ _ _) s = record { kept = refl; grows = omega arith }
  cycles-execute _ (Instr.ldr_sp _ _) s = record { kept = refl; grows = omega arith }
  cycles-execute _ (Instr.ldr_lit _ _) s = record { kept = refl; grows = omega arith }
  cycles-execute _ (Instr.ldr_reg _ _ _) s = record { kept = refl; grows = omega arith }
  cycles-execute _ (Instr.ldrb _ _ _) s = record { kept = refl; grows = omega arith }
  cycles-execute _ (Instr.ldrb_reg _ _ _) s = record { kept = refl; grows = omega arith }
  cycles-execute _ (Instr.ldrh _ _ _) s = record { kept = refl; grows = omega arith }
  cycles-execute _ (Instr.ldrh_reg _ _ _) s = record { kept = refl; grows = omega arith }
  cycles-execute _ (Instr.ldrsb _ _ _) s = record { kept = refl; grows = omega arith }
  cycles-execute _ (Instr.ldrsh _ _ _) s = record { kept = refl; grows = omega arith }
  cycles-execute _ (Instr.lsls _ _ _) s = record { kept = refl; grows = omega arith }
  cycles-execute _ (Instr.lsls_reg _ _) s = record { kept = refl; grows = omega arith }
  cycles-execute _ (Instr.lsrs _ _ _) s = record { kept = refl; grows = omega arith }
  cycles-execute _ (Instr.lsrs_reg _ _) s = record { kept = refl; grows = omega arith }
  cycles-execute _ (Instr.mov rm rd) s = cycles_mov rm rd s
  cycles-execute _ (Instr.movs _ _) s = record { kept = refl; grows = omega arith }
  cycles-execute _ (Instr.mrs sysm _) s =
      let h = cycles-read_special_register sysm s in record { kept = h.kept; grows = h.grows }
  cycles-execute _ (Instr.msr sysm rn) s =
      let h = cycles-write_special_register sysm (s.regs rn) s in
      record { kept = h.kept; grows = h.grows }
  cycles-execute _ (Instr.muls _ _) s = record { kept = refl; grows = omega arith }
  cycles-execute _ (Instr.mvns _ _) s = record { kept = refl; grows = omega arith }
  cycles-execute _ (Instr.orrs _ _) s = record { kept = refl; grows = omega arith }
  cycles-execute _ (Instr.pop p registers) s = cycles_pop bus p registers s
  cycles-execute _ (Instr.push m registers) s = cycles_push bus m registers s
  cycles-execute _ (Instr.rev _ _) s = record { kept = refl; grows = omega arith }
  cycles-execute _ (Instr.rev16 _ _) s = record { kept = refl; grows = omega arith }
  cycles-execute _ (Instr.revsh _ _) s = record { kept = refl; grows = omega arith }
  cycles-execute _ (Instr.ror _ _) s = record { kept = refl; grows = omega arith }
  cycles-execute _ (Instr.negs _ _) s = record { kept = refl; grows = omega arith }
  cycles-execute _ Instr.nop s = record { kept = refl; grows = omega arith }
  cycles-execute _ (Instr.sbcs _ _) s = record { kept = refl; grows = omega arith }
  cycles-execute _ Instr.sev s =
      let h = cycles-fire_sev s in record { kept = h.kept; grows = h.grows }
  cycles-execute _ (Instr.stmia rn registers) s = cycles_stmia bus rn registers s
  cycles-execute _ (Instr.str_imm _ _ _) s = record { kept = omega arith; grows = omega arith }
  cycles-execute _ (Instr.str_sp _ _) s = record { kept = omega arith; grows = omega arith }
  cycles-execute _ (Instr.str_reg _ _ _) s = record { kept = omega arith; grows = omega arith }
  cycles-execute _ (Instr.strb _ _ _) s = record { kept = omega arith; grows = omega arith }
  cycles-execute _ (Instr.strb_reg _ _ _) s = record { kept = omega arith; grows = omega arith }
  cycles-execute _ (Instr.strh _ _ _) s = record { kept = omega arith; grows = omega arith }
  cycles-execute _ (Instr.strh_reg _ _ _) s = record { kept = omega arith; grows = omega arith }
  cycles-execute _ (Instr.sub_sp _) s = record { kept = refl; grows = omega arith }
  cycles-execute _ (Instr.subs1 _ _ _) s = record { kept = refl; grows = omega arith }
  cycles-execute _ (Instr.subs2 _ _) s = record { kept = refl; grows = omega arith }
  cycles-execute _ (Instr.subs_reg _ _ _) s = record { kept = refl; grows = omega arith }
  cycles-execute _ Instr.svc s = record { kept = refl; grows = omega arith }
  cycles-execute _ (Instr.sxtb _ _) s = record { kept = refl; grows = omega arith }
  cycles-execute _ (Instr.sxth _ _) s = record { kept = refl; grows = omega arith }
  cycles-execute _ (Instr.tst _ _) s = record { kept = refl; grows = omega arith }
  cycles-execute _ (Instr.udf _) s = record { kept = refl; grows = omega arith }
  cycles-execute _ (Instr.udf2 _ _) s = record { kept = refl; grows = omega arith }
  cycles-execute _ (Instr.uxtb _ _) s = record { kept = refl; grows = omega arith }
  cycles-execute _ (Instr.uxth _ _) s = record { kept = refl; grows = omega arith }
  cycles-execute _ Instr.wfe s = cycles_wfe s
  cycles-execute _ Instr.wfi s = record { kept = refl; grows = omega arith }
  cycles-execute _ Instr.yield_hint s = record { kept = refl; grows = omega arith }
  cycles-execute _ Instr.unimplemented s = record { kept = refl; grows = omega arith }

  cycles-poll : (s : Core M) → Counted s (poll bus s)
  unfolding poll
  cycles-poll s = ground (arith, cycles-check_for_interrupts bus s)

  cycles-warn_unimplemented :
      (a op op2 : ℕ) (i : Instr) (s : Core M) → Counted s (warn_unimplemented bus a op op2 i s)
  unfolding warn_unimplemented
  cycles-warn_unimplemented a op op2 Instr.unimplemented s = record {
    kept = refl;
    grows = omega arith;
  }
  cycles-warn_unimplemented a op op2 _ s = record { kept = refl; grows = omega arith }

  cycles-fetch : (a : ℕ) (s : Core M) → Counted s (fetch bus a s).2
  unfolding fetch
  cycles-fetch a s = elim (Bool-cases (is_wide (load16 bus a s).0)) [
    | inl e ↦ rw e (record { kept = refl; grows = omega arith })
    | inr e ↦ rw e (record { kept = refl; grows = omega arith })
  ]

  cycles-step_awake : (s : Core M) → let (d, s') = step_awake bus s in Charged d s s'
  unfolding step_awake
  cycles-step_awake s =
      let s1 = poll bus s in
      let opcode_pc = clear1 (pc s1) in
      let (op, op2, s2) = fetch bus opcode_pc s1 in
      let i = decode op op2 in
      let s3 = (execute bus opcode_pc i (add_pc 2 s2)).0 in
      let h = follow (cycles-poll s) (cycles-fetch opcode_pc s1) in
      let k =
        follow (cycles-execute opcode_pc i (add_pc 2 s2))
          (cycles-warn_unimplemented opcode_pc op op2 i s3) in
      (omega (arith, h.kept, k.kept), omega (arith, h.grows, k.grows), omega arith)

  -- `executeInstruction` adds the number that it returns to the cycle counter, and that number is at
  -- least one, whatever the instruction, an interrupt that it takes or a wait in WFI or WFE. Besides that the
  -- counter grows during the call only by what the chip gives to `addCycles` when the core writes.
  pub cycles-execute_instruction :
      (s : Core M)
      → let (d, s') = execute_instruction bus s in
        (s'.cycles + s.added_cycles ≡ s.cycles + d + s'.added_cycles)
        × (s.added_cycles ≤ s'.added_cycles)
        × (1 ≤ d)
  unfolding execute_instruction
  cycles-execute_instruction s = ground (arith, cycles-step_awake s)
