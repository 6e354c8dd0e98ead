-- ===== src/M0/Assemble/Tables/B.antt =====
-- Decoding what the encoders give, over all values of the fields: from `bics` to `ldr_imm`.
use rp2350js.Base.{ℕ, ◌*◌, ◌<◌, ◌≡◌, refl, all_below}
use rp2350js.M0.Instr.{Instr}
use rp2350js.M0.Assemble.Check.{decode_word, same, Agree1, Agree2, Agree3, agree1, agree2, agree3}
use rp2350js.Assembler.AtoK.{opcode_bics, opcode_blx, opcode_bx, opcode_cmn, opcode_cmp_imm}
use rp2350js.Assembler.AtoK.{opcode_cmp_reg_t1, opcode_cmp_reg_t2, opcode_dmbsy, opcode_dsbsy}
use rp2350js.Assembler.AtoK.{opcode_eors, opcode_isbsy}
use rp2350js.Assembler.LtoR.{opcode_ldmia, opcode_ldr_imm}

bics_values : Agree2 (λ rm rdn. decode_word (opcode_bics rdn rm)) (λ rm rdn. Instr.bics rm rdn) 8 8
unfolding decode_word opcode_bics all_below same
bics_values = refl

pub bics_table :
    (rm rdn : ℕ) → rm < 8 → rdn < 8 → decode_word (opcode_bics rdn rm) ≡ Instr.bics rm rdn
bics_table = agree2 _ _ 8 8 bics_values

blx_values : Agree1 (λ rm. decode_word (opcode_blx rm)) (λ rm. Instr.blx rm) 16
unfolding decode_word opcode_blx all_below same
blx_values = refl

pub blx_table : (rm : ℕ) → rm < 16 → decode_word (opcode_blx rm) ≡ Instr.blx rm
blx_table = agree1 _ _ 16 blx_values

bx_values : Agree1 (λ rm. decode_word (opcode_bx rm)) (λ rm. Instr.bx rm) 16
unfolding decode_word opcode_bx all_below same
bx_values = refl

pub bx_table : (rm : ℕ) → rm < 16 → decode_word (opcode_bx rm) ≡ Instr.bx rm
bx_table = agree1 _ _ 16 bx_values

cmn_values : Agree2 (λ rm rn. decode_word (opcode_cmn rn rm)) (λ rm rn. Instr.cmn rm rn) 8 8
unfolding decode_word opcode_cmn all_below same
cmn_values = refl

pub cmn_table : (rm rn : ℕ) → rm < 8 → rn < 8 → decode_word (opcode_cmn rn rm) ≡ Instr.cmn rm rn
cmn_table = agree2 _ _ 8 8 cmn_values

cmp_imm_values :
    Agree2
      (λ rn imm8. decode_word (opcode_cmp_imm rn imm8))
      (λ rn imm8. Instr.cmp_imm rn imm8)
      8
      256
unfolding decode_word opcode_cmp_imm all_below same
cmp_imm_values = refl

pub cmp_imm_table :
    (rn imm8 : ℕ)
    → rn < 8
    → imm8 < 256
    → decode_word (opcode_cmp_imm rn imm8) ≡ Instr.cmp_imm rn imm8
cmp_imm_table = agree2 _ _ 8 256 cmp_imm_values

cmp_reg1_values :
    Agree2 (λ rm rn. decode_word (opcode_cmp_reg_t1 rn rm)) (λ rm rn. Instr.cmp_reg1 rm rn) 8 8
unfolding decode_word opcode_cmp_reg_t1 all_below same
cmp_reg1_values = refl

pub cmp_reg1_table :
    (rm rn : ℕ) → rm < 8 → rn < 8 → decode_word (opcode_cmp_reg_t1 rn rm) ≡ Instr.cmp_reg1 rm rn
cmp_reg1_table = agree2 _ _ 8 8 cmp_reg1_values

cmp_reg2_values :
    Agree2 (λ rm rn. decode_word (opcode_cmp_reg_t2 rn rm)) (λ rm rn. Instr.cmp_reg2 rm rn) 16 16
unfolding decode_word opcode_cmp_reg_t2 all_below same
cmp_reg2_values = refl

pub cmp_reg2_table :
    (rm rn : ℕ) → rm < 16 → rn < 16 → decode_word (opcode_cmp_reg_t2 rn rm) ≡ Instr.cmp_reg2 rm rn
cmp_reg2_table = agree2 _ _ 16 16 cmp_reg2_values

pub dmb_table : decode_word opcode_dmbsy ≡ Instr.dmb
unfolding decode_word
dmb_table = refl

pub dsb_table : decode_word opcode_dsbsy ≡ Instr.dsb
unfolding decode_word
dsb_table = refl

eors_values : Agree2 (λ rm rdn. decode_word (opcode_eors rdn rm)) (λ rm rdn. Instr.eors rm rdn) 8 8
unfolding decode_word opcode_eors all_below same
eors_values = refl

pub eors_table :
    (rm rdn : ℕ) → rm < 8 → rdn < 8 → decode_word (opcode_eors rdn rm) ≡ Instr.eors rm rdn
eors_table = agree2 _ _ 8 8 eors_values

pub isb_table : decode_word opcode_isbsy ≡ Instr.isb
unfolding decode_word
isb_table = refl

ldmia_values :
    Agree2
      (λ rn registers. decode_word (opcode_ldmia rn registers))
      (λ rn registers. Instr.ldmia rn registers)
      8
      256
unfolding decode_word opcode_ldmia all_below same
ldmia_values = refl

pub ldmia_table :
    (rn registers : ℕ)
    → rn < 8
    → registers < 256
    → decode_word (opcode_ldmia rn registers) ≡ Instr.ldmia rn registers
ldmia_table = agree2 _ _ 8 256 ldmia_values

ldr_imm_values :
    Agree3
      (λ imm5 rn rt. decode_word (opcode_ldr_imm rt rn (imm5 * 4)))
      (λ imm5 rn rt. Instr.ldr_imm imm5 rn rt)
      32
      8
      8
unfolding decode_word opcode_ldr_imm all_below same
ldr_imm_values = refl

pub ldr_imm_table :
    (imm5 rn rt : ℕ)
    → imm5 < 32
    → rn < 8
    → rt < 8
    → decode_word (opcode_ldr_imm rt rn (imm5 * 4)) ≡ Instr.ldr_imm imm5 rn rt
ldr_imm_table = agree3 _ _ 32 8 8 ldr_imm_values
