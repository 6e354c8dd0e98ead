-- ===== src/M0/Assemble/Tables/C.antt =====
-- Decoding what the encoders give, over all values of the fields: from `ldr_sp` to `lsrs_reg`.
use rp2350js.Base.{ℕ, ◌*◌, ◌<◌, ◌≡◌, refl, all_below}
use rp2350js.M0.Instr.{Instr}
use rp2350js.M0.Assemble.Check.{decode_word, same, Agree2, Agree3, agree2, agree3}
use rp2350js.Assembler.LtoR.{opcode_ldr_lit, opcode_ldr_reg, opcode_ldr_sp, opcode_ldrb}
use rp2350js.Assembler.LtoR.{opcode_ldrb_reg, opcode_ldrh, opcode_ldrh_reg, opcode_ldrsb}
use rp2350js.Assembler.LtoR.{opcode_ldrsh, opcode_lsls_imm, opcode_lsls_reg, opcode_lsrs}
use rp2350js.Assembler.LtoR.{opcode_lsrs_reg}

ldr_sp_values :
    Agree2
      (λ rt imm8. decode_word (opcode_ldr_sp rt (imm8 * 4)))
      (λ rt imm8. Instr.ldr_sp rt imm8)
      8
      256
unfolding decode_word opcode_ldr_sp all_below same
ldr_sp_values = refl

pub ldr_sp_table :
    (rt imm8 : ℕ)
    → rt < 8
    → imm8 < 256
    → decode_word (opcode_ldr_sp rt (imm8 * 4)) ≡ Instr.ldr_sp rt imm8
ldr_sp_table = agree2 _ _ 8 256 ldr_sp_values

ldr_lit_values :
    Agree2
      (λ imm8 rt. decode_word (opcode_ldr_lit rt (imm8 * 4)))
      (λ imm8 rt. Instr.ldr_lit imm8 rt)
      256
      8
unfolding decode_word opcode_ldr_lit all_below same
ldr_lit_values = refl

pub ldr_lit_table :
    (imm8 rt : ℕ)
    → imm8 < 256
    → rt < 8
    → decode_word (opcode_ldr_lit rt (imm8 * 4)) ≡ Instr.ldr_lit imm8 rt
ldr_lit_table = agree2 _ _ 256 8 ldr_lit_values

ldr_reg_values :
    Agree3
      (λ rm rn rt. decode_word (opcode_ldr_reg rt rn rm))
      (λ rm rn rt. Instr.ldr_reg rm rn rt)
      8
      8
      8
unfolding decode_word opcode_ldr_reg all_below same
ldr_reg_values = refl

pub ldr_reg_table :
    (rm rn rt : ℕ)
    → rm < 8
    → rn < 8
    → rt < 8
    → decode_word (opcode_ldr_reg rt rn rm) ≡ Instr.ldr_reg rm rn rt
ldr_reg_table = agree3 _ _ 8 8 8 ldr_reg_values

ldrb_values :
    Agree3
      (λ imm5 rn rt. decode_word (opcode_ldrb rt rn imm5))
      (λ imm5 rn rt. Instr.ldrb imm5 rn rt)
      32
      8
      8
unfolding decode_word opcode_ldrb all_below same
ldrb_values = refl

pub ldrb_table :
    (imm5 rn rt : ℕ)
    → imm5 < 32
    → rn < 8
    → rt < 8
    → decode_word (opcode_ldrb rt rn imm5) ≡ Instr.ldrb imm5 rn rt
ldrb_table = agree3 _ _ 32 8 8 ldrb_values

ldrb_reg_values :
    Agree3
      (λ rm rn rt. decode_word (opcode_ldrb_reg rt rn rm))
      (λ rm rn rt. Instr.ldrb_reg rm rn rt)
      8
      8
      8
unfolding decode_word opcode_ldrb_reg all_below same
ldrb_reg_values = refl

pub ldrb_reg_table :
    (rm rn rt : ℕ)
    → rm < 8
    → rn < 8
    → rt < 8
    → decode_word (opcode_ldrb_reg rt rn rm) ≡ Instr.ldrb_reg rm rn rt
ldrb_reg_table = agree3 _ _ 8 8 8 ldrb_reg_values

ldrh_values :
    Agree3
      (λ imm5 rn rt. decode_word (opcode_ldrh rt rn (imm5 * 2)))
      (λ imm5 rn rt. Instr.ldrh imm5 rn rt)
      16
      8
      8
unfolding decode_word opcode_ldrh all_below same
ldrh_values = refl

pub ldrh_table :
    (imm5 rn rt : ℕ)
    → imm5 < 16
    → rn < 8
    → rt < 8
    → decode_word (opcode_ldrh rt rn (imm5 * 2)) ≡ Instr.ldrh imm5 rn rt
ldrh_table = agree3 _ _ 16 8 8 ldrh_values

ldrh_reg_values :
    Agree3
      (λ rm rn rt. decode_word (opcode_ldrh_reg rt rn rm))
      (λ rm rn rt. Instr.ldrh_reg rm rn rt)
      8
      8
      8
unfolding decode_word opcode_ldrh_reg all_below same
ldrh_reg_values = refl

pub ldrh_reg_table :
    (rm rn rt : ℕ)
    → rm < 8
    → rn < 8
    → rt < 8
    → decode_word (opcode_ldrh_reg rt rn rm) ≡ Instr.ldrh_reg rm rn rt
ldrh_reg_table = agree3 _ _ 8 8 8 ldrh_reg_values

ldrsb_values :
    Agree3
      (λ rm rn rt. decode_word (opcode_ldrsb rt rn rm))
      (λ rm rn rt. Instr.ldrsb rm rn rt)
      8
      8
      8
unfolding decode_word opcode_ldrsb all_below same
ldrsb_values = refl

pub ldrsb_table :
    (rm rn rt : ℕ)
    → rm < 8
    → rn < 8
    → rt < 8
    → decode_word (opcode_ldrsb rt rn rm) ≡ Instr.ldrsb rm rn rt
ldrsb_table = agree3 _ _ 8 8 8 ldrsb_values

ldrsh_values :
    Agree3
      (λ rm rn rt. decode_word (opcode_ldrsh rt rn rm))
      (λ rm rn rt. Instr.ldrsh rm rn rt)
      8
      8
      8
unfolding decode_word opcode_ldrsh all_below same
ldrsh_values = refl

pub ldrsh_table :
    (rm rn rt : ℕ)
    → rm < 8
    → rn < 8
    → rt < 8
    → decode_word (opcode_ldrsh rt rn rm) ≡ Instr.ldrsh rm rn rt
ldrsh_table = agree3 _ _ 8 8 8 ldrsh_values

lsls_values :
    Agree3
      (λ imm5 rm rd. decode_word (opcode_lsls_imm rd rm imm5))
      (λ imm5 rm rd. Instr.lsls imm5 rm rd)
      32
      8
      8
unfolding decode_word opcode_lsls_imm all_below same
lsls_values = refl

pub lsls_table :
    (imm5 rm rd : ℕ)
    → imm5 < 32
    → rm < 8
    → rd < 8
    → decode_word (opcode_lsls_imm rd rm imm5) ≡ Instr.lsls imm5 rm rd
lsls_table = agree3 _ _ 32 8 8 lsls_values

lsls_reg_values :
    Agree2 (λ rm rdn. decode_word (opcode_lsls_reg rdn rm)) (λ rm rdn. Instr.lsls_reg rm rdn) 8 8
unfolding decode_word opcode_lsls_reg all_below same
lsls_reg_values = refl

pub lsls_reg_table :
    (rm rdn : ℕ) → rm < 8 → rdn < 8 → decode_word (opcode_lsls_reg rdn rm) ≡ Instr.lsls_reg rm rdn
lsls_reg_table = agree2 _ _ 8 8 lsls_reg_values

lsrs_values :
    Agree3
      (λ imm5 rm rd. decode_word (opcode_lsrs rd rm imm5))
      (λ imm5 rm rd. Instr.lsrs imm5 rm rd)
      32
      8
      8
unfolding decode_word opcode_lsrs all_below same
lsrs_values = refl

pub lsrs_table :
    (imm5 rm rd : ℕ)
    → imm5 < 32
    → rm < 8
    → rd < 8
    → decode_word (opcode_lsrs rd rm imm5) ≡ Instr.lsrs imm5 rm rd
lsrs_table = agree3 _ _ 32 8 8 lsrs_values

lsrs_reg_values :
    Agree2 (λ rm rdn. decode_word (opcode_lsrs_reg rdn rm)) (λ rm rdn. Instr.lsrs_reg rm rdn) 8 8
unfolding decode_word opcode_lsrs_reg all_below same
lsrs_reg_values = refl

pub lsrs_reg_table :
    (rm rdn : ℕ) → rm < 8 → rdn < 8 → decode_word (opcode_lsrs_reg rdn rm) ≡ Instr.lsrs_reg rm rdn
lsrs_reg_table = agree2 _ _ 8 8 lsrs_reg_values
