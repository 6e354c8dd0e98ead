-- ===== src/M0/Assemble/Tables/E.antt =====
-- Decoding what the encoders give, over all values of the fields: from `negs` to `subs1`.
use rp2350js.Base.{ℕ, ◌*◌, ◌<◌, ◌≡◌, refl, all_below}
use rp2350js.M0.Instr.{Instr}
use rp2350js.M0.Assemble.Check.{decode_word, same, Agree1, Agree2, Agree3, agree1, agree2, agree3}
use rp2350js.Assembler.LtoR.{opcode_nop, opcode_rsbs}
use rp2350js.Assembler.StoZ.{opcode_sbcs, opcode_stmia, opcode_str, opcode_str_reg, opcode_str_sp}
use rp2350js.Assembler.StoZ.{opcode_strb, opcode_strb_reg, opcode_strh, opcode_strh_reg}
use rp2350js.Assembler.StoZ.{opcode_sub_sp, opcode_subs1}

negs_values : Agree2 (λ rn rd. decode_word (opcode_rsbs rd rn)) (λ rn rd. Instr.negs rn rd) 8 8
unfolding decode_word opcode_rsbs all_below same
negs_values = refl

pub negs_table : (rn rd : ℕ) → rn < 8 → rd < 8 → decode_word (opcode_rsbs rd rn) ≡ Instr.negs rn rd
negs_table = agree2 _ _ 8 8 negs_values

pub nop_table : decode_word opcode_nop ≡ Instr.nop
unfolding decode_word
nop_table = refl

sbcs_values : Agree2 (λ rm rdn. decode_word (opcode_sbcs rdn rm)) (λ rm rdn. Instr.sbcs rm rdn) 8 8
unfolding decode_word opcode_sbcs all_below same
sbcs_values = refl

pub sbcs_table :
    (rm rdn : ℕ) → rm < 8 → rdn < 8 → decode_word (opcode_sbcs rdn rm) ≡ Instr.sbcs rm rdn
sbcs_table = agree2 _ _ 8 8 sbcs_values

stmia_values :
    Agree2
      (λ rn registers. decode_word (opcode_stmia rn registers))
      (λ rn registers. Instr.stmia rn registers)
      8
      256
unfolding decode_word opcode_stmia all_below same
stmia_values = refl

pub stmia_table :
    (rn registers : ℕ)
    → rn < 8
    → registers < 256
    → decode_word (opcode_stmia rn registers) ≡ Instr.stmia rn registers
stmia_table = agree2 _ _ 8 256 stmia_values

str_imm_values :
    Agree3
      (λ imm5 rn rt. decode_word (opcode_str rt rn (imm5 * 4)))
      (λ imm5 rn rt. Instr.str_imm imm5 rn rt)
      32
      8
      8
unfolding decode_word opcode_str all_below same
str_imm_values = refl

pub str_imm_table :
    (imm5 rn rt : ℕ)
    → imm5 < 32
    → rn < 8
    → rt < 8
    → decode_word (opcode_str rt rn (imm5 * 4)) ≡ Instr.str_imm imm5 rn rt
str_imm_table = agree3 _ _ 32 8 8 str_imm_values

str_sp_values :
    Agree2
      (λ rt imm8. decode_word (opcode_str_sp rt (imm8 * 4)))
      (λ rt imm8. Instr.str_sp rt imm8)
      8
      256
unfolding decode_word opcode_str_sp all_below same
str_sp_values = refl

pub str_sp_table :
    (rt imm8 : ℕ)
    → rt < 8
    → imm8 < 256
    → decode_word (opcode_str_sp rt (imm8 * 4)) ≡ Instr.str_sp rt imm8
str_sp_table = agree2 _ _ 8 256 str_sp_values

str_reg_values :
    Agree3
      (λ rm rn rt. decode_word (opcode_str_reg rt rn rm))
      (λ rm rn rt. Instr.str_reg rm rn rt)
      8
      8
      8
unfolding decode_word opcode_str_reg all_below same
str_reg_values = refl

pub str_reg_table :
    (rm rn rt : ℕ)
    → rm < 8
    → rn < 8
    → rt < 8
    → decode_word (opcode_str_reg rt rn rm) ≡ Instr.str_reg rm rn rt
str_reg_table = agree3 _ _ 8 8 8 str_reg_values

strb_values :
    Agree3
      (λ imm5 rn rt. decode_word (opcode_strb rt rn imm5))
      (λ imm5 rn rt. Instr.strb imm5 rn rt)
      32
      8
      8
unfolding decode_word opcode_strb all_below same
strb_values = refl

pub strb_table :
    (imm5 rn rt : ℕ)
    → imm5 < 32
    → rn < 8
    → rt < 8
    → decode_word (opcode_strb rt rn imm5) ≡ Instr.strb imm5 rn rt
strb_table = agree3 _ _ 32 8 8 strb_values

strb_reg_values :
    Agree3
      (λ rm rn rt. decode_word (opcode_strb_reg rt rn rm))
      (λ rm rn rt. Instr.strb_reg rm rn rt)
      8
      8
      8
unfolding decode_word opcode_strb_reg all_below same
strb_reg_values = refl

pub strb_reg_table :
    (rm rn rt : ℕ)
    → rm < 8
    → rn < 8
    → rt < 8
    → decode_word (opcode_strb_reg rt rn rm) ≡ Instr.strb_reg rm rn rt
strb_reg_table = agree3 _ _ 8 8 8 strb_reg_values

strh_values :
    Agree3
      (λ imm5 rn rt. decode_word (opcode_strh rt rn (imm5 * 2)))
      (λ imm5 rn rt. Instr.strh imm5 rn rt)
      32
      8
      8
unfolding decode_word opcode_strh all_below same
strh_values = refl

pub strh_table :
    (imm5 rn rt : ℕ)
    → imm5 < 32
    → rn < 8
    → rt < 8
    → decode_word (opcode_strh rt rn (imm5 * 2)) ≡ Instr.strh imm5 rn rt
strh_table = agree3 _ _ 32 8 8 strh_values

strh_reg_values :
    Agree3
      (λ rm rn rt. decode_word (opcode_strh_reg rt rn rm))
      (λ rm rn rt. Instr.strh_reg rm rn rt)
      8
      8
      8
unfolding decode_word opcode_strh_reg all_below same
strh_reg_values = refl

pub strh_reg_table :
    (rm rn rt : ℕ)
    → rm < 8
    → rn < 8
    → rt < 8
    → decode_word (opcode_strh_reg rt rn rm) ≡ Instr.strh_reg rm rn rt
strh_reg_table = agree3 _ _ 8 8 8 strh_reg_values

sub_sp_values :
    Agree1 (λ imm7. decode_word (opcode_sub_sp (imm7 * 4))) (λ imm7. Instr.sub_sp imm7) 128
unfolding decode_word opcode_sub_sp all_below same
sub_sp_values = refl

pub sub_sp_table :
    (imm7 : ℕ) → imm7 < 128 → decode_word (opcode_sub_sp (imm7 * 4)) ≡ Instr.sub_sp imm7
sub_sp_table = agree1 _ _ 128 sub_sp_values

subs1_values :
    Agree3
      (λ imm3 rn rd. decode_word (opcode_subs1 rd rn imm3))
      (λ imm3 rn rd. Instr.subs1 imm3 rn rd)
      8
      8
      8
unfolding decode_word opcode_subs1 all_below same
subs1_values = refl

pub subs1_table :
    (imm3 rn rd : ℕ)
    → imm3 < 8
    → rn < 8
    → rd < 8
    → decode_word (opcode_subs1 rd rn imm3) ≡ Instr.subs1 imm3 rn rd
subs1_table = agree3 _ _ 8 8 8 subs1_values
