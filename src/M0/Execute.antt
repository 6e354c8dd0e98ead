-- ===== src/M0/Execute.antt =====
-- cortex-m0-core.ts: `executeInstruction` and `executeInstructionsUpTo`.
pub mod Frame
pub mod Cycles
use rp2350js.Base.{ℕ, zero, suc, ◌+◌, ◌-◌, ◌*◌, ◌^◌, Bool, true, false, ◌||◌}
use rp2350js.Base.{if◌then◌else◌, u32, shr, ltb, ◌==◌}
use rp2350js.M0.Instr.{Instr}
use rp2350js.M0.Decode.{decode}
use rp2350js.M0.State.{Bus, Core, yielded, warn_opcode, reg, sp, pc, add_pc, emit, clear1, clear2}
use rp2350js.M0.State.{load16}
use rp2350js.M0.Exception.Select.{check_for_interrupts}
use rp2350js.M0.Alu.{exec_adcs, exec_add_reg, exec_add_sp, exec_add_sp_imm, exec_adds1}
use rp2350js.M0.Alu.{exec_adds2, exec_adds_reg, exec_adr, exec_ands, exec_bics, exec_cmn}
use rp2350js.M0.Alu.{exec_cmp_imm, exec_cmp_reg, exec_eors, exec_mov, exec_movs, exec_muls}
use rp2350js.M0.Alu.{exec_mvns, exec_negs, exec_orrs, exec_rev, exec_rev16, exec_revsh, exec_sbcs}
use rp2350js.M0.Alu.{exec_sub_sp, exec_subs1, exec_subs2, exec_subs_reg, exec_sxtb, exec_sxth}
use rp2350js.M0.Alu.{exec_tst, exec_uxtb, exec_uxth}
use rp2350js.M0.Alu.Shift.{exec_asrs, exec_asrs_reg, exec_lsls, exec_lsls_reg, exec_lsrs}
use rp2350js.M0.Alu.Shift.{exec_lsrs_reg, exec_ror}
use rp2350js.M0.Memory.{exec_ldmia, exec_ldr, exec_ldrb, exec_ldrh, exec_ldrsb, exec_ldrsh}
use rp2350js.M0.Memory.{exec_push, exec_stmia, exec_str, exec_strb, exec_strh}
use rp2350js.M0.Control.{exec_b, exec_b_cond, exec_barrier, exec_bl, exec_blx, exec_break}
use rp2350js.M0.Control.{exec_bx, exec_cps, exec_mrs, exec_msr, exec_pop, exec_svc, exec_wfe}
use rp2350js.M0.Control.{exec_wfi, fire_sev}

abbrev pub is_wide : ℕ → Bool
is_wide op = (shr op 12 == 0b1111) || (shr op 11 == 0b11101)

module _ {M : Type 0} (bus : Bus M) where
  -- The body of the branch that the instruction selects, after `this.PC += 2`, with what the branch
  -- adds to `deltaCycles`.
  unfoldable pub execute : ℕ → Instr → Core M → Core M × ℕ
  execute opcode_pc (Instr.adcs rm rdn) s = (exec_adcs rm rdn s, 0)
  execute opcode_pc (Instr.add_sp_imm imm8 rd) s = (exec_add_sp_imm imm8 rd s, 0)
  execute opcode_pc (Instr.add_sp imm7) s = (exec_add_sp imm7 s, 0)
  execute opcode_pc (Instr.adds1 imm3 rn rd) s = (exec_adds1 imm3 rn rd s, 0)
  execute opcode_pc (Instr.adds2 imm8 rdn) s = (exec_adds2 imm8 rdn s, 0)
  execute opcode_pc (Instr.adds_reg rm rn rd) s = (exec_adds_reg rm rn rd s, 0)
  execute opcode_pc (Instr.add_reg rm rdn) s = exec_add_reg rm rdn s
  execute opcode_pc (Instr.adr imm8 rd) s = (exec_adr opcode_pc imm8 rd s, 0)
  execute opcode_pc (Instr.ands rm rdn) s = (exec_ands rm rdn s, 0)
  execute opcode_pc (Instr.asrs imm5 rm rd) s = (exec_asrs imm5 rm rd s, 0)
  execute opcode_pc (Instr.asrs_reg rm rdn) s = (exec_asrs_reg rm rdn s, 0)
  execute opcode_pc (Instr.b_cond cond imm8) s = exec_b_cond cond imm8 s
  execute opcode_pc (Instr.b_always imm11) s = exec_b bus opcode_pc imm11 s
  execute opcode_pc (Instr.bics rm rdn) s = (exec_bics rm rdn s, 0)
  execute opcode_pc (Instr.bkpt imm8) s = (exec_break 2 imm8 s, 0)
  execute opcode_pc (Instr.bl sign imm10 j1 j2 imm11) s = exec_bl sign imm10 j1 j2 imm11 s
  execute opcode_pc (Instr.blx rm) s = exec_blx rm s
  execute opcode_pc (Instr.bx rm) s = exec_bx bus rm s
  execute opcode_pc (Instr.cmn rm rn) s = (exec_cmn rm rn s, 0)
  execute opcode_pc (Instr.cmp_imm rn imm8) s = (exec_cmp_imm rn imm8 s, 0)
  execute opcode_pc (Instr.cmp_reg1 rm rn) s = (exec_cmp_reg rm rn s, 0)
  execute opcode_pc (Instr.cmp_reg2 rm rn) s = (exec_cmp_reg rm rn s, 0)
  execute opcode_pc Instr.cpsid s = (exec_cps true s, 0)
  execute opcode_pc Instr.cpsie s = (exec_cps false s, 0)
  execute opcode_pc Instr.dmb s = exec_barrier s
  execute opcode_pc Instr.dsb s = exec_barrier s
  execute opcode_pc (Instr.eors rm rdn) s = (exec_eors rm rdn s, 0)
  execute opcode_pc Instr.isb s = exec_barrier s
  execute opcode_pc (Instr.ldmia rn registers) s = exec_ldmia bus rn registers s
  execute opcode_pc (Instr.ldr_imm imm5 rn rt) s = exec_ldr bus (reg s rn + imm5 * 4) rt s
  execute opcode_pc (Instr.ldr_sp rt imm8) s = exec_ldr bus (sp s + imm8 * 4) rt s
  execute opcode_pc (Instr.ldr_lit imm8 rt) s =
      exec_ldr bus (clear2 (u32 (pc s + 2)) + imm8 * 4) rt s
  execute opcode_pc (Instr.ldr_reg rm rn rt) s = exec_ldr bus (reg s rm + reg s rn) rt s
  execute opcode_pc (Instr.ldrb imm5 rn rt) s = exec_ldrb bus (reg s rn + imm5) rt s
  execute opcode_pc (Instr.ldrb_reg rm rn rt) s = exec_ldrb bus (reg s rm + reg s rn) rt s
  execute opcode_pc (Instr.ldrh imm5 rn rt) s = exec_ldrh bus (reg s rn + imm5 * 2) rt s
  execute opcode_pc (Instr.ldrh_reg rm rn rt) s = exec_ldrh bus (reg s rm + reg s rn) rt s
  execute opcode_pc (Instr.ldrsb rm rn rt) s = exec_ldrsb bus (reg s rm + reg s rn) rt s
  execute opcode_pc (Instr.ldrsh rm rn rt) s = exec_ldrsh bus (reg s rm + reg s rn) rt s
  execute opcode_pc (Instr.lsls imm5 rm rd) s = (exec_lsls imm5 rm rd s, 0)
  execute opcode_pc (Instr.lsls_reg rm rdn) s = (exec_lsls_reg rm rdn s, 0)
  execute opcode_pc (Instr.lsrs imm5 rm rd) s = (exec_lsrs imm5 rm rd s, 0)
  execute opcode_pc (Instr.lsrs_reg rm rdn) s = (exec_lsrs_reg rm rdn s, 0)
  execute opcode_pc (Instr.mov rm rd) s = exec_mov rm rd s
  execute opcode_pc (Instr.movs imm8 rd) s = (exec_movs imm8 rd s, 0)
  execute opcode_pc (Instr.mrs sysm rd) s = exec_mrs sysm rd s
  execute opcode_pc (Instr.msr sysm rn) s = exec_msr sysm rn s
  execute opcode_pc (Instr.muls rn rdm) s = (exec_muls rn rdm s, 0)
  execute opcode_pc (Instr.mvns rm rd) s = (exec_mvns rm rd s, 0)
  execute opcode_pc (Instr.orrs rm rdn) s = (exec_orrs rm rdn s, 0)
  execute opcode_pc (Instr.pop p registers) s = exec_pop bus p registers s
  execute opcode_pc (Instr.push m registers) s = exec_push bus m registers s
  execute opcode_pc (Instr.rev rm rd) s = (exec_rev rm rd s, 0)
  execute opcode_pc (Instr.rev16 rm rd) s = (exec_rev16 rm rd s, 0)
  execute opcode_pc (Instr.revsh rm rd) s = (exec_revsh rm rd s, 0)
  execute opcode_pc (Instr.ror rm rdn) s = (exec_ror rm rdn s, 0)
  execute opcode_pc (Instr.negs rn rd) s = (exec_negs rn rd s, 0)
  execute opcode_pc Instr.nop s = (s, 0)
  execute opcode_pc (Instr.sbcs rm rdn) s = (exec_sbcs rm rdn s, 0)
  execute opcode_pc Instr.sev s = (fire_sev s, 0)
  execute opcode_pc (Instr.stmia rn registers) s = exec_stmia bus rn registers s
  execute opcode_pc (Instr.str_imm imm5 rn rt) s = exec_str bus (reg s rn + imm5 * 4) rt s
  execute opcode_pc (Instr.str_sp rt imm8) s = exec_str bus (sp s + imm8 * 4) rt s
  execute opcode_pc (Instr.str_reg rm rn rt) s = exec_str bus (reg s rm + reg s rn) rt s
  execute opcode_pc (Instr.strb imm5 rn rt) s = exec_strb bus (reg s rn + imm5) rt s
  execute opcode_pc (Instr.strb_reg rm rn rt) s = exec_strb bus (reg s rm + reg s rn) rt s
  execute opcode_pc (Instr.strh imm5 rn rt) s = exec_strh bus (reg s rn + imm5 * 2) rt s
  execute opcode_pc (Instr.strh_reg rm rn rt) s = exec_strh bus (reg s rm + reg s rn) rt s
  execute opcode_pc (Instr.sub_sp imm7) s = (exec_sub_sp imm7 s, 0)
  execute opcode_pc (Instr.subs1 imm3 rn rd) s = (exec_subs1 imm3 rn rd s, 0)
  execute opcode_pc (Instr.subs2 imm8 rdn) s = (exec_subs2 imm8 rdn s, 0)
  execute opcode_pc (Instr.subs_reg rm rn rd) s = (exec_subs_reg rm rn rd s, 0)
  execute opcode_pc Instr.svc s = (exec_svc s, 0)
  execute opcode_pc (Instr.sxtb rm rd) s = (exec_sxtb rm rd s, 0)
  execute opcode_pc (Instr.sxth rm rd) s = (exec_sxth rm rd s, 0)
  execute opcode_pc (Instr.tst rm rn) s = (exec_tst rm rn s, 0)
  execute opcode_pc (Instr.udf imm8) s = (exec_break 2 imm8 s, 0)
  execute opcode_pc (Instr.udf2 imm4 imm12) s =
      (add_pc 2 (exec_break 4 (imm4 * 2 ^ 12 + imm12) s), 0)
  execute opcode_pc (Instr.uxtb rm rd) s = (exec_uxtb rm rd s, 0)
  execute opcode_pc (Instr.uxth rm rd) s = (exec_uxth rm rd s, 0)
  execute opcode_pc Instr.wfe s = exec_wfe s
  execute opcode_pc Instr.wfi s = exec_wfi s
  execute opcode_pc Instr.yield_hint s = (emit yielded s, 0)
  execute opcode_pc Instr.unimplemented s = (s, 0)

  -- The two `warn` calls for an opcode that no branch takes.
  unfoldable pub warn_unimplemented : ℕ → ℕ → ℕ → Instr → Core M → Core M
  warn_unimplemented opcode_pc op op2 Instr.unimplemented s = emit (warn_opcode opcode_pc op op2) s
  warn_unimplemented opcode_pc op op2 _ s = s

  -- the check for interrupts at the start of a step
  unfoldable pub poll : Core M → Core M
  poll s =
      if s.interrupts_updated
      then (let (taken, s') = check_for_interrupts bus s in
          if taken then record s' { waiting = false } else s')
      else s

  -- the one or two halfwords of the instruction
  unfoldable pub fetch : ℕ → Core M → ℕ × ℕ × Core M
  fetch opcode_pc s =
      let (op, s1) = load16 bus opcode_pc s in
      if is_wide op
      then (let (op2, s2) = load16 bus (opcode_pc + 2) s1 in (op, op2, s2))
      else (op, 0, s1)

  -- a core that is awake: the interrupts, the fetch, the branch, and the count of cycles
  unfoldable pub step_awake : Core M → ℕ × Core M
  step_awake s =
      let s1 = poll s in
      let opcode_pc = clear1 (pc s1) in
      let (op, op2, s2) = fetch opcode_pc s1 in
      let i = decode op op2 in
      let (s3, extra) = execute opcode_pc i (add_pc 2 s2) in
      let s4 = warn_unimplemented opcode_pc op op2 i s3 in
      (1 + extra, record s4 { cycles = s4.cycles + (1 + extra) })

  unfoldable pub execute_instruction : Core M → ℕ × Core M
  execute_instruction s =
      if s.waiting then (1, record s { cycles = s.cycles + 1 }) else step_awake s

  -- the loop of `executeInstructionsUpTo`, with fuel
  unfoldable pub run_up_to : ℕ → ℕ → Core M → Core M
  run_up_to zero cycle s = s
  run_up_to (suc fuel) cycle s =
      let rest = run_up_to fuel cycle (execute_instruction s).1 in
      if ltb s.cycles cycle then rest else s

  -- The fuel is the number of cycles that are missing; each step adds one at least.
  unfoldable pub execute_instructions_up_to : ℕ → Core M → Core M
  unfolding run_up_to
  execute_instructions_up_to cycle s =
      if s.waiting
      then (if ltb s.cycles cycle then record s { cycles = cycle } else s)
      else run_up_to (cycle - s.cycles) cycle s
