-- ===== src/M0/Assemble/RoundTrip.antt =====
-- Decoding undoes assembling.
use rp2350js.Base.{ℕ, ◌≡◌, some}
use rp2350js.M0.Instr.{Instr}
use rp2350js.M0.Assemble.{assemble, IsWellFormed}
use rp2350js.M0.Assemble.Check.{decode_word}
use rp2350js.M0.Assemble.Tables.A.{adcs_table, add_sp_imm_table, add_sp_table, adds1_table}
use rp2350js.M0.Assemble.Tables.A.{adds2_table, adds_reg_table, add_reg_table, adr_table}
use rp2350js.M0.Assemble.Tables.A.{ands_table, asrs_table, asrs_reg_table, b_cond_table}
use rp2350js.M0.Assemble.Tables.A.{b_always_table}
use rp2350js.M0.Assemble.Tables.B.{bics_table, blx_table, bx_table, cmn_table, cmp_imm_table}
use rp2350js.M0.Assemble.Tables.B.{cmp_reg1_table, cmp_reg2_table, dmb_table, dsb_table}
use rp2350js.M0.Assemble.Tables.B.{eors_table, isb_table, ldmia_table, ldr_imm_table}
use rp2350js.M0.Assemble.Tables.C.{ldr_sp_table, ldr_lit_table, ldr_reg_table, ldrb_table}
use rp2350js.M0.Assemble.Tables.C.{ldrb_reg_table, ldrh_table, ldrh_reg_table, ldrsb_table}
use rp2350js.M0.Assemble.Tables.C.{ldrsh_table, lsls_table, lsls_reg_table, lsrs_table}
use rp2350js.M0.Assemble.Tables.C.{lsrs_reg_table}
use rp2350js.M0.Assemble.Tables.D.{mov_table, movs_table, mrs_table, msr_table, muls_table}
use rp2350js.M0.Assemble.Tables.D.{mvns_table, orrs_table, pop_table, push_table, rev_table}
use rp2350js.M0.Assemble.Tables.D.{rev16_table, revsh_table, ror_table}
use rp2350js.M0.Assemble.Tables.E.{negs_table, nop_table, sbcs_table, stmia_table, str_imm_table}
use rp2350js.M0.Assemble.Tables.E.{str_sp_table, str_reg_table, strb_table, strb_reg_table}
use rp2350js.M0.Assemble.Tables.E.{strh_table, strh_reg_table, sub_sp_table, subs1_table}
use rp2350js.M0.Assemble.Tables.F.{subs2_table, subs_reg_table, svc_table, sxtb_table, sxth_table}
use rp2350js.M0.Assemble.Tables.F.{tst_table, udf_table, uxtb_table, uxth_table, wfi_table}
use rp2350js.M0.Assemble.Tables.F.{yield_hint_table}

-- If an instruction decodes back from each word that equals its encoding, it does from `w`.
from_word : {i : Instr} {v w : ℕ} → decode_word v ≡ i → some v ≡ some w → decode_word w ≡ i
from_word e h = cc

-- For every instruction that the assembler can encode and whose fields are in range, the halfwords
-- of the assembled word decode to the same instruction with the same fields.
pub decode-assemble : (i : Instr) (w : ℕ) → IsWellFormed i → assemble i ≡ some w → decode_word w ≡ i
decode-assemble (Instr.adcs rm rdn) w h e = from_word (adcs_table rm rdn h.0 h.1) e
decode-assemble (Instr.add_sp_imm imm8 rd) w h e = from_word (add_sp_imm_table imm8 rd h.0 h.1) e
decode-assemble (Instr.add_sp imm7) w h e = from_word (add_sp_table imm7 h) e
decode-assemble (Instr.adds1 imm3 rn rd) w h e = from_word (adds1_table imm3 rn rd h.0 h.1 h.2) e
decode-assemble (Instr.adds2 imm8 rdn) w h e = from_word (adds2_table imm8 rdn h.0 h.1) e
decode-assemble (Instr.adds_reg rm rn rd) w h e = from_word (adds_reg_table rm rn rd h.0 h.1 h.2) e
decode-assemble (Instr.add_reg rm rdn) w h e = from_word (add_reg_table rm rdn h.0 h.1) e
decode-assemble (Instr.adr imm8 rd) w h e = from_word (adr_table imm8 rd h.0 h.1) e
decode-assemble (Instr.ands rm rdn) w h e = from_word (ands_table rm rdn h.0 h.1) e
decode-assemble (Instr.asrs imm5 rm rd) w h e = from_word (asrs_table imm5 rm rd h.0 h.1 h.2) e
decode-assemble (Instr.asrs_reg rm rdn) w h e = from_word (asrs_reg_table rm rdn h.0 h.1) e
decode-assemble (Instr.b_cond cond imm8) w h e = from_word (b_cond_table cond imm8 h.0 h.1) e
decode-assemble (Instr.b_always imm11) w h e = from_word (b_always_table imm11 h) e
decode-assemble (Instr.bics rm rdn) w h e = from_word (bics_table rm rdn h.0 h.1) e
decode-assemble (Instr.bkpt imm8) w h e = cc
decode-assemble (Instr.bl s imm10 j1 j2 imm11) w h e = cc
decode-assemble (Instr.blx rm) w h e = from_word (blx_table rm h) e
decode-assemble (Instr.bx rm) w h e = from_word (bx_table rm h) e
decode-assemble (Instr.cmn rm rn) w h e = from_word (cmn_table rm rn h.0 h.1) e
decode-assemble (Instr.cmp_imm rn imm8) w h e = from_word (cmp_imm_table rn imm8 h.0 h.1) e
decode-assemble (Instr.cmp_reg1 rm rn) w h e = from_word (cmp_reg1_table rm rn h.0 h.1) e
decode-assemble (Instr.cmp_reg2 rm rn) w h e = from_word (cmp_reg2_table rm rn h.0 h.1) e
decode-assemble Instr.cpsid w h e = cc
decode-assemble Instr.cpsie w h e = cc
decode-assemble Instr.dmb w h e = from_word dmb_table e
decode-assemble Instr.dsb w h e = from_word dsb_table e
decode-assemble (Instr.eors rm rdn) w h e = from_word (eors_table rm rdn h.0 h.1) e
decode-assemble Instr.isb w h e = from_word isb_table e
decode-assemble (Instr.ldmia rn registers) w h e = from_word (ldmia_table rn registers h.0 h.1) e
decode-assemble (Instr.ldr_imm imm5 rn rt) w h e =
    from_word (ldr_imm_table imm5 rn rt h.0 h.1 h.2) e
decode-assemble (Instr.ldr_sp rt imm8) w h e = from_word (ldr_sp_table rt imm8 h.0 h.1) e
decode-assemble (Instr.ldr_lit imm8 rt) w h e = from_word (ldr_lit_table imm8 rt h.0 h.1) e
decode-assemble (Instr.ldr_reg rm rn rt) w h e = from_word (ldr_reg_table rm rn rt h.0 h.1 h.2) e
decode-assemble (Instr.ldrb imm5 rn rt) w h e = from_word (ldrb_table imm5 rn rt h.0 h.1 h.2) e
decode-assemble (Instr.ldrb_reg rm rn rt) w h e = from_word (ldrb_reg_table rm rn rt h.0 h.1 h.2) e
decode-assemble (Instr.ldrh imm5 rn rt) w h e = from_word (ldrh_table imm5 rn rt h.0 h.1 h.2) e
decode-assemble (Instr.ldrh_reg rm rn rt) w h e = from_word (ldrh_reg_table rm rn rt h.0 h.1 h.2) e
decode-assemble (Instr.ldrsb rm rn rt) w h e = from_word (ldrsb_table rm rn rt h.0 h.1 h.2) e
decode-assemble (Instr.ldrsh rm rn rt) w h e = from_word (ldrsh_table rm rn rt h.0 h.1 h.2) e
decode-assemble (Instr.lsls imm5 rm rd) w h e = from_word (lsls_table imm5 rm rd h.0 h.1 h.2) e
decode-assemble (Instr.lsls_reg rm rdn) w h e = from_word (lsls_reg_table rm rdn h.0 h.1) e
decode-assemble (Instr.lsrs imm5 rm rd) w h e = from_word (lsrs_table imm5 rm rd h.0 h.1 h.2) e
decode-assemble (Instr.lsrs_reg rm rdn) w h e = from_word (lsrs_reg_table rm rdn h.0 h.1) e
decode-assemble (Instr.mov rm rd) w h e = from_word (mov_table rm rd h.0 h.1) e
decode-assemble (Instr.movs imm8 rd) w h e = from_word (movs_table imm8 rd h.0 h.1) e
decode-assemble (Instr.mrs sysm rd) w h e = from_word (mrs_table sysm rd h.0 h.1) e
decode-assemble (Instr.msr sysm rn) w h e = from_word (msr_table sysm rn h.0 h.1) e
decode-assemble (Instr.muls rn rdm) w h e = from_word (muls_table rn rdm h.0 h.1) e
decode-assemble (Instr.mvns rm rd) w h e = from_word (mvns_table rm rd h.0 h.1) e
decode-assemble (Instr.orrs rm rdn) w h e = from_word (orrs_table rm rdn h.0 h.1) e
decode-assemble (Instr.pop p registers) w h e = from_word (pop_table p registers h.0 h.1) e
decode-assemble (Instr.push m registers) w h e = from_word (push_table m registers h.0 h.1) e
decode-assemble (Instr.rev rm rd) w h e = from_word (rev_table rm rd h.0 h.1) e
decode-assemble (Instr.rev16 rm rd) w h e = from_word (rev16_table rm rd h.0 h.1) e
decode-assemble (Instr.revsh rm rd) w h e = from_word (revsh_table rm rd h.0 h.1) e
decode-assemble (Instr.ror rm rdn) w h e = from_word (ror_table rm rdn h.0 h.1) e
decode-assemble (Instr.negs rn rd) w h e = from_word (negs_table rn rd h.0 h.1) e
decode-assemble Instr.nop w h e = from_word nop_table e
decode-assemble (Instr.sbcs rm rdn) w h e = from_word (sbcs_table rm rdn h.0 h.1) e
decode-assemble Instr.sev w h e = cc
decode-assemble (Instr.stmia rn registers) w h e = from_word (stmia_table rn registers h.0 h.1) e
decode-assemble (Instr.str_imm imm5 rn rt) w h e =
    from_word (str_imm_table imm5 rn rt h.0 h.1 h.2) e
decode-assemble (Instr.str_sp rt imm8) w h e = from_word (str_sp_table rt imm8 h.0 h.1) e
decode-assemble (Instr.str_reg rm rn rt) w h e = from_word (str_reg_table rm rn rt h.0 h.1 h.2) e
decode-assemble (Instr.strb imm5 rn rt) w h e = from_word (strb_table imm5 rn rt h.0 h.1 h.2) e
decode-assemble (Instr.strb_reg rm rn rt) w h e = from_word (strb_reg_table rm rn rt h.0 h.1 h.2) e
decode-assemble (Instr.strh imm5 rn rt) w h e = from_word (strh_table imm5 rn rt h.0 h.1 h.2) e
decode-assemble (Instr.strh_reg rm rn rt) w h e = from_word (strh_reg_table rm rn rt h.0 h.1 h.2) e
decode-assemble (Instr.sub_sp imm7) w h e = from_word (sub_sp_table imm7 h) e
decode-assemble (Instr.subs1 imm3 rn rd) w h e = from_word (subs1_table imm3 rn rd h.0 h.1 h.2) e
decode-assemble (Instr.subs2 imm8 rdn) w h e = from_word (subs2_table imm8 rdn h.0 h.1) e
decode-assemble (Instr.subs_reg rm rn rd) w h e = from_word (subs_reg_table rm rn rd h.0 h.1 h.2) e
decode-assemble Instr.svc w h e = from_word svc_table e
decode-assemble (Instr.sxtb rm rd) w h e = from_word (sxtb_table rm rd h.0 h.1) e
decode-assemble (Instr.sxth rm rd) w h e = from_word (sxth_table rm rd h.0 h.1) e
decode-assemble (Instr.tst rm rn) w h e = from_word (tst_table rm rn h.0 h.1) e
decode-assemble (Instr.udf imm8) w h e = from_word (udf_table imm8 h) e
decode-assemble (Instr.udf2 imm4 imm12) w h e = cc
decode-assemble (Instr.uxtb rm rd) w h e = from_word (uxtb_table rm rd h.0 h.1) e
decode-assemble (Instr.uxth rm rd) w h e = from_word (uxth_table rm rd h.0 h.1) e
decode-assemble Instr.wfe w h e = cc
decode-assemble Instr.wfi w h e = from_word wfi_table e
decode-assemble Instr.yield_hint w h e = from_word yield_hint_table e
decode-assemble Instr.unimplemented w h e = cc
