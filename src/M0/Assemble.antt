-- ===== src/M0/Assemble.antt =====
-- The encoder of utils/assembler.ts for each instruction that cortex-m0-core.ts decodes. An
-- immediate is scaled as the encoder expects it.
pub mod Check
mod Tables
pub mod RoundTrip
pub mod Branches
pub mod ShortBranches
use rp2350js.Base.{ℕ, ◌*◌, ◌<◌, ltb, Option, some, none}
use rp2350js.M0.Instr.{Instr}
use rp2350js.Assembler.AtoK.{opcode_adcs, opcode_add_reg, opcode_add_sp2, opcode_add_sp_plus_imm}
use rp2350js.Assembler.AtoK.{opcode_adds1, opcode_adds2, opcode_adds_reg, opcode_adr, opcode_ands}
use rp2350js.Assembler.AtoK.{opcode_asrs, opcode_asrs_reg, opcode_bics, opcode_blx, opcode_bt1}
use rp2350js.Assembler.AtoK.{opcode_bt2, opcode_bx, opcode_cmn, opcode_cmp_imm, opcode_cmp_reg_t1}
use rp2350js.Assembler.AtoK.{opcode_cmp_reg_t2, opcode_dmbsy, opcode_dsbsy, opcode_eors}
use rp2350js.Assembler.AtoK.{opcode_isbsy}
use rp2350js.Assembler.LtoR.{opcode_ldmia, opcode_ldr_imm, opcode_ldr_lit, opcode_ldr_reg}
use rp2350js.Assembler.LtoR.{opcode_ldr_sp, opcode_ldrb, opcode_ldrb_reg, opcode_ldrh}
use rp2350js.Assembler.LtoR.{opcode_ldrh_reg, opcode_ldrsb, opcode_ldrsh, opcode_lsls_imm}
use rp2350js.Assembler.LtoR.{opcode_lsls_reg, opcode_lsrs, opcode_lsrs_reg, opcode_mov}
use rp2350js.Assembler.LtoR.{opcode_movs, opcode_mrs, opcode_msr, opcode_muls, opcode_mvns}
use rp2350js.Assembler.LtoR.{opcode_nop, opcode_orrs, opcode_pop, opcode_push, opcode_rev}
use rp2350js.Assembler.LtoR.{opcode_rev16, opcode_revsh, opcode_ror, opcode_rsbs}
use rp2350js.Assembler.StoZ.{opcode_sbcs, opcode_stmia, opcode_str, opcode_str_reg, opcode_str_sp}
use rp2350js.Assembler.StoZ.{opcode_strb, opcode_strb_reg, opcode_strh, opcode_strh_reg}
use rp2350js.Assembler.StoZ.{opcode_sub_sp, opcode_subs1, opcode_subs2, opcode_subs_reg}
use rp2350js.Assembler.StoZ.{opcode_svc, opcode_sxtb, opcode_sxth, opcode_tst, opcode_udf}
use rp2350js.Assembler.StoZ.{opcode_uxtb, opcode_uxth, opcode_wfi, opcode_yield}

-- `none`: the assembler has no such encoder (`BKPT`, `CPS`, `SEV`, `WFE`), or it takes its operand
-- in another form (`BL` and the wide `UDF`).
abbrev pub assemble : Instr → Option ℕ
assemble (Instr.adcs rm rdn) = some (opcode_adcs rdn rm)
assemble (Instr.add_sp_imm imm8 rd) = some (opcode_add_sp_plus_imm rd (imm8 * 4))
assemble (Instr.add_sp imm7) = some (opcode_add_sp2 (imm7 * 4))
assemble (Instr.adds1 imm3 rn rd) = some (opcode_adds1 rd rn imm3)
assemble (Instr.adds2 imm8 rdn) = some (opcode_adds2 rdn imm8)
assemble (Instr.adds_reg rm rn rd) = some (opcode_adds_reg rd rn rm)
assemble (Instr.add_reg rm rdn) = some (opcode_add_reg rdn rm)
assemble (Instr.adr imm8 rd) = some (opcode_adr rd (imm8 * 4))
assemble (Instr.ands rm rdn) = some (opcode_ands rdn rm)
assemble (Instr.asrs imm5 rm rd) = some (opcode_asrs rd rm imm5)
assemble (Instr.asrs_reg rm rdn) = some (opcode_asrs_reg rdn rm)
assemble (Instr.b_cond cond imm8) = some (opcode_bt1 cond (imm8 * 2))
assemble (Instr.b_always imm11) = some (opcode_bt2 (imm11 * 2))
assemble (Instr.bics rm rdn) = some (opcode_bics rdn rm)
assemble (Instr.blx rm) = some (opcode_blx rm)
assemble (Instr.bx rm) = some (opcode_bx rm)
assemble (Instr.cmn rm rn) = some (opcode_cmn rn rm)
assemble (Instr.cmp_imm rn imm8) = some (opcode_cmp_imm rn imm8)
assemble (Instr.cmp_reg1 rm rn) = some (opcode_cmp_reg_t1 rn rm)
assemble (Instr.cmp_reg2 rm rn) = some (opcode_cmp_reg_t2 rn rm)
assemble Instr.dmb = some opcode_dmbsy
assemble Instr.dsb = some opcode_dsbsy
assemble (Instr.eors rm rdn) = some (opcode_eors rdn rm)
assemble Instr.isb = some opcode_isbsy
assemble (Instr.ldmia rn registers) = some (opcode_ldmia rn registers)
assemble (Instr.ldr_imm imm5 rn rt) = some (opcode_ldr_imm rt rn (imm5 * 4))
assemble (Instr.ldr_sp rt imm8) = some (opcode_ldr_sp rt (imm8 * 4))
assemble (Instr.ldr_lit imm8 rt) = some (opcode_ldr_lit rt (imm8 * 4))
assemble (Instr.ldr_reg rm rn rt) = some (opcode_ldr_reg rt rn rm)
assemble (Instr.ldrb imm5 rn rt) = some (opcode_ldrb rt rn imm5)
assemble (Instr.ldrb_reg rm rn rt) = some (opcode_ldrb_reg rt rn rm)
assemble (Instr.ldrh imm5 rn rt) = some (opcode_ldrh rt rn (imm5 * 2))
assemble (Instr.ldrh_reg rm rn rt) = some (opcode_ldrh_reg rt rn rm)
assemble (Instr.ldrsb rm rn rt) = some (opcode_ldrsb rt rn rm)
assemble (Instr.ldrsh rm rn rt) = some (opcode_ldrsh rt rn rm)
assemble (Instr.lsls imm5 rm rd) = some (opcode_lsls_imm rd rm imm5)
assemble (Instr.lsls_reg rm rdn) = some (opcode_lsls_reg rdn rm)
assemble (Instr.lsrs imm5 rm rd) = some (opcode_lsrs rd rm imm5)
assemble (Instr.lsrs_reg rm rdn) = some (opcode_lsrs_reg rdn rm)
assemble (Instr.mov rm rd) = some (opcode_mov rd rm)
assemble (Instr.movs imm8 rd) = some (opcode_movs rd imm8)
assemble (Instr.mrs sysm rd) = some (opcode_mrs rd sysm)
assemble (Instr.msr sysm rn) = some (opcode_msr sysm rn)
assemble (Instr.muls rn rdm) = some (opcode_muls rn rdm)
assemble (Instr.mvns rm rd) = some (opcode_mvns rd rm)
assemble (Instr.orrs rm rdn) = some (opcode_orrs rdn rm)
assemble (Instr.pop p registers) = some (opcode_pop (ltb 0 p) registers)
assemble (Instr.push m registers) = some (opcode_push (ltb 0 m) registers)
assemble (Instr.rev rm rd) = some (opcode_rev rd rm)
assemble (Instr.rev16 rm rd) = some (opcode_rev16 rd rm)
assemble (Instr.revsh rm rd) = some (opcode_revsh rd rm)
assemble (Instr.ror rm rdn) = some (opcode_ror rdn rm)
assemble (Instr.negs rn rd) = some (opcode_rsbs rd rn)
assemble Instr.nop = some opcode_nop
assemble (Instr.sbcs rm rdn) = some (opcode_sbcs rdn rm)
assemble (Instr.stmia rn registers) = some (opcode_stmia rn registers)
assemble (Instr.str_imm imm5 rn rt) = some (opcode_str rt rn (imm5 * 4))
assemble (Instr.str_sp rt imm8) = some (opcode_str_sp rt (imm8 * 4))
assemble (Instr.str_reg rm rn rt) = some (opcode_str_reg rt rn rm)
assemble (Instr.strb imm5 rn rt) = some (opcode_strb rt rn imm5)
assemble (Instr.strb_reg rm rn rt) = some (opcode_strb_reg rt rn rm)
assemble (Instr.strh imm5 rn rt) = some (opcode_strh rt rn (imm5 * 2))
assemble (Instr.strh_reg rm rn rt) = some (opcode_strh_reg rt rn rm)
assemble (Instr.sub_sp imm7) = some (opcode_sub_sp (imm7 * 4))
assemble (Instr.subs1 imm3 rn rd) = some (opcode_subs1 rd rn imm3)
assemble (Instr.subs2 imm8 rdn) = some (opcode_subs2 rdn imm8)
assemble (Instr.subs_reg rm rn rd) = some (opcode_subs_reg rd rn rm)
assemble Instr.svc = some (opcode_svc 0)
assemble (Instr.sxtb rm rd) = some (opcode_sxtb rd rm)
assemble (Instr.sxth rm rd) = some (opcode_sxth rd rm)
assemble (Instr.tst rm rn) = some (opcode_tst rn rm)
assemble (Instr.udf imm8) = some (opcode_udf imm8)
assemble (Instr.uxtb rm rd) = some (opcode_uxtb rd rm)
assemble (Instr.uxth rm rd) = some (opcode_uxth rd rm)
assemble Instr.wfi = some opcode_wfi
assemble Instr.yield_hint = some opcode_yield
assemble _ = none

-- The fields fit the bits that the encoder gives them. `B` with condition 14 or 15 is another
-- instruction, and `opcodeLDRH` keeps four bits of the five.
abbrev pub IsWellFormed : Instr → Type 0
IsWellFormed (Instr.adcs rm rdn) = (rm < 8) × (rdn < 8)
IsWellFormed (Instr.add_sp_imm imm8 rd) = (imm8 < 256) × (rd < 8)
IsWellFormed (Instr.add_sp imm7) = (imm7 < 128)
IsWellFormed (Instr.adds1 imm3 rn rd) = (imm3 < 8) × (rn < 8) × (rd < 8)
IsWellFormed (Instr.adds2 imm8 rdn) = (imm8 < 256) × (rdn < 8)
IsWellFormed (Instr.adds_reg rm rn rd) = (rm < 8) × (rn < 8) × (rd < 8)
IsWellFormed (Instr.add_reg rm rdn) = (rm < 16) × (rdn < 16)
IsWellFormed (Instr.adr imm8 rd) = (imm8 < 256) × (rd < 8)
IsWellFormed (Instr.ands rm rdn) = (rm < 8) × (rdn < 8)
IsWellFormed (Instr.asrs imm5 rm rd) = (imm5 < 32) × (rm < 8) × (rd < 8)
IsWellFormed (Instr.asrs_reg rm rdn) = (rm < 8) × (rdn < 8)
IsWellFormed (Instr.b_cond cond imm8) = (cond < 14) × (imm8 < 256)
IsWellFormed (Instr.b_always imm11) = (imm11 < 2048)
IsWellFormed (Instr.bics rm rdn) = (rm < 8) × (rdn < 8)
IsWellFormed (Instr.blx rm) = (rm < 16)
IsWellFormed (Instr.bx rm) = (rm < 16)
IsWellFormed (Instr.cmn rm rn) = (rm < 8) × (rn < 8)
IsWellFormed (Instr.cmp_imm rn imm8) = (rn < 8) × (imm8 < 256)
IsWellFormed (Instr.cmp_reg1 rm rn) = (rm < 8) × (rn < 8)
IsWellFormed (Instr.cmp_reg2 rm rn) = (rm < 16) × (rn < 16)
IsWellFormed (Instr.eors rm rdn) = (rm < 8) × (rdn < 8)
IsWellFormed (Instr.ldmia rn registers) = (rn < 8) × (registers < 256)
IsWellFormed (Instr.ldr_imm imm5 rn rt) = (imm5 < 32) × (rn < 8) × (rt < 8)
IsWellFormed (Instr.ldr_sp rt imm8) = (rt < 8) × (imm8 < 256)
IsWellFormed (Instr.ldr_lit imm8 rt) = (imm8 < 256) × (rt < 8)
IsWellFormed (Instr.ldr_reg rm rn rt) = (rm < 8) × (rn < 8) × (rt < 8)
IsWellFormed (Instr.ldrb imm5 rn rt) = (imm5 < 32) × (rn < 8) × (rt < 8)
IsWellFormed (Instr.ldrb_reg rm rn rt) = (rm < 8) × (rn < 8) × (rt < 8)
IsWellFormed (Instr.ldrh imm5 rn rt) = (imm5 < 16) × (rn < 8) × (rt < 8)
IsWellFormed (Instr.ldrh_reg rm rn rt) = (rm < 8) × (rn < 8) × (rt < 8)
IsWellFormed (Instr.ldrsb rm rn rt) = (rm < 8) × (rn < 8) × (rt < 8)
IsWellFormed (Instr.ldrsh rm rn rt) = (rm < 8) × (rn < 8) × (rt < 8)
IsWellFormed (Instr.lsls imm5 rm rd) = (imm5 < 32) × (rm < 8) × (rd < 8)
IsWellFormed (Instr.lsls_reg rm rdn) = (rm < 8) × (rdn < 8)
IsWellFormed (Instr.lsrs imm5 rm rd) = (imm5 < 32) × (rm < 8) × (rd < 8)
IsWellFormed (Instr.lsrs_reg rm rdn) = (rm < 8) × (rdn < 8)
IsWellFormed (Instr.mov rm rd) = (rm < 16) × (rd < 16)
IsWellFormed (Instr.movs imm8 rd) = (imm8 < 256) × (rd < 8)
IsWellFormed (Instr.mrs sysm rd) = (sysm < 256) × (rd < 16)
IsWellFormed (Instr.msr sysm rn) = (sysm < 256) × (rn < 16)
IsWellFormed (Instr.muls rn rdm) = (rn < 8) × (rdm < 8)
IsWellFormed (Instr.mvns rm rd) = (rm < 8) × (rd < 8)
IsWellFormed (Instr.orrs rm rdn) = (rm < 8) × (rdn < 8)
IsWellFormed (Instr.pop p registers) = (p < 2) × (registers < 256)
IsWellFormed (Instr.push m registers) = (m < 2) × (registers < 256)
IsWellFormed (Instr.rev rm rd) = (rm < 8) × (rd < 8)
IsWellFormed (Instr.rev16 rm rd) = (rm < 8) × (rd < 8)
IsWellFormed (Instr.revsh rm rd) = (rm < 8) × (rd < 8)
IsWellFormed (Instr.ror rm rdn) = (rm < 8) × (rdn < 8)
IsWellFormed (Instr.negs rn rd) = (rn < 8) × (rd < 8)
IsWellFormed (Instr.sbcs rm rdn) = (rm < 8) × (rdn < 8)
IsWellFormed (Instr.stmia rn registers) = (rn < 8) × (registers < 256)
IsWellFormed (Instr.str_imm imm5 rn rt) = (imm5 < 32) × (rn < 8) × (rt < 8)
IsWellFormed (Instr.str_sp rt imm8) = (rt < 8) × (imm8 < 256)
IsWellFormed (Instr.str_reg rm rn rt) = (rm < 8) × (rn < 8) × (rt < 8)
IsWellFormed (Instr.strb imm5 rn rt) = (imm5 < 32) × (rn < 8) × (rt < 8)
IsWellFormed (Instr.strb_reg rm rn rt) = (rm < 8) × (rn < 8) × (rt < 8)
IsWellFormed (Instr.strh imm5 rn rt) = (imm5 < 32) × (rn < 8) × (rt < 8)
IsWellFormed (Instr.strh_reg rm rn rt) = (rm < 8) × (rn < 8) × (rt < 8)
IsWellFormed (Instr.sub_sp imm7) = (imm7 < 128)
IsWellFormed (Instr.subs1 imm3 rn rd) = (imm3 < 8) × (rn < 8) × (rd < 8)
IsWellFormed (Instr.subs2 imm8 rdn) = (imm8 < 256) × (rdn < 8)
IsWellFormed (Instr.subs_reg rm rn rd) = (rm < 8) × (rn < 8) × (rd < 8)
IsWellFormed (Instr.sxtb rm rd) = (rm < 8) × (rd < 8)
IsWellFormed (Instr.sxth rm rd) = (rm < 8) × (rd < 8)
IsWellFormed (Instr.tst rm rn) = (rm < 8) × (rn < 8)
IsWellFormed (Instr.udf imm8) = (imm8 < 256)
IsWellFormed (Instr.uxtb rm rd) = (rm < 8) × (rd < 8)
IsWellFormed (Instr.uxth rm rd) = (rm < 8) × (rd < 8)
IsWellFormed _ = Unit
