-- ===== src/M0/Assemble/Tables/A.antt =====
-- Decoding what the encoders give, over all values of the fields: from `adcs` to `b_always`.
use rp2350js.Base.{ℕ, ◌*◌, ◌<◌, ◌≡◌, refl, all_below}
use rp2350js.M0.Instr.{Instr}
use rp2350js.M0.Assemble.Check.{decode_word, same, Agree1, Agree2, Agree3, agree1, agree2, agree3}
use rp2350js.Assembler.AtoK.{opcode_adcs, opcode_add_reg, opcode_add_sp2, opcode_add_sp_plus_imm}
use rp2350js.Assembler.AtoK.{opcode_adds1, opcode_adds2, opcode_adds_reg, opcode_adr, opcode_ands}
use rp2350js.Assembler.AtoK.{opcode_asrs, opcode_asrs_reg, opcode_bt1, opcode_bt2}

adcs_values : Agree2 (λ rm rdn. decode_word (opcode_adcs rdn rm)) (λ rm rdn. Instr.adcs rm rdn) 8 8
unfolding decode_word opcode_adcs all_below same
adcs_values = refl

pub adcs_table :
    (rm rdn : ℕ) → rm < 8 → rdn < 8 → decode_word (opcode_adcs rdn rm) ≡ Instr.adcs rm rdn
adcs_table = agree2 _ _ 8 8 adcs_values

add_sp_imm_values :
    Agree2
      (λ imm8 rd. decode_word (opcode_add_sp_plus_imm rd (imm8 * 4)))
      (λ imm8 rd. Instr.add_sp_imm imm8 rd)
      256
      8
unfolding decode_word opcode_add_sp_plus_imm all_below same
add_sp_imm_values = refl

pub add_sp_imm_table :
    (imm8 rd : ℕ)
    → imm8 < 256
    → rd < 8
    → decode_word (opcode_add_sp_plus_imm rd (imm8 * 4)) ≡ Instr.add_sp_imm imm8 rd
add_sp_imm_table = agree2 _ _ 256 8 add_sp_imm_values

add_sp_values :
    Agree1 (λ imm7. decode_word (opcode_add_sp2 (imm7 * 4))) (λ imm7. Instr.add_sp imm7) 128
unfolding decode_word opcode_add_sp2 all_below same
add_sp_values = refl

pub add_sp_table :
    (imm7 : ℕ) → imm7 < 128 → decode_word (opcode_add_sp2 (imm7 * 4)) ≡ Instr.add_sp imm7
add_sp_table = agree1 _ _ 128 add_sp_values

adds1_values :
    Agree3
      (λ imm3 rn rd. decode_word (opcode_adds1 rd rn imm3))
      (λ imm3 rn rd. Instr.adds1 imm3 rn rd)
      8
      8
      8
unfolding decode_word opcode_adds1 all_below same
adds1_values = refl

pub adds1_table :
    (imm3 rn rd : ℕ)
    → imm3 < 8
    → rn < 8
    → rd < 8
    → decode_word (opcode_adds1 rd rn imm3) ≡ Instr.adds1 imm3 rn rd
adds1_table = agree3 _ _ 8 8 8 adds1_values

adds2_values :
    Agree2
      (λ imm8 rdn. decode_word (opcode_adds2 rdn imm8))
      (λ imm8 rdn. Instr.adds2 imm8 rdn)
      256
      8
unfolding decode_word opcode_adds2 all_below same
adds2_values = refl

pub adds2_table :
    (imm8 rdn : ℕ)
    → imm8 < 256
    → rdn < 8
    → decode_word (opcode_adds2 rdn imm8) ≡ Instr.adds2 imm8 rdn
adds2_table = agree2 _ _ 256 8 adds2_values

adds_reg_values :
    Agree3
      (λ rm rn rd. decode_word (opcode_adds_reg rd rn rm))
      (λ rm rn rd. Instr.adds_reg rm rn rd)
      8
      8
      8
unfolding decode_word opcode_adds_reg all_below same
adds_reg_values = refl

pub adds_reg_table :
    (rm rn rd : ℕ)
    → rm < 8
    → rn < 8
    → rd < 8
    → decode_word (opcode_adds_reg rd rn rm) ≡ Instr.adds_reg rm rn rd
adds_reg_table = agree3 _ _ 8 8 8 adds_reg_values

add_reg_values :
    Agree2 (λ rm rdn. decode_word (opcode_add_reg rdn rm)) (λ rm rdn. Instr.add_reg rm rdn) 16 16
unfolding decode_word opcode_add_reg all_below same
add_reg_values = refl

pub add_reg_table :
    (rm rdn : ℕ) → rm < 16 → rdn < 16 → decode_word (opcode_add_reg rdn rm) ≡ Instr.add_reg rm rdn
add_reg_table = agree2 _ _ 16 16 add_reg_values

adr_values :
    Agree2 (λ imm8 rd. decode_word (opcode_adr rd (imm8 * 4))) (λ imm8 rd. Instr.adr imm8 rd) 256 8
unfolding decode_word opcode_adr all_below same
adr_values = refl

pub adr_table :
    (imm8 rd : ℕ) → imm8 < 256 → rd < 8 → decode_word (opcode_adr rd (imm8 * 4)) ≡ Instr.adr imm8 rd
adr_table = agree2 _ _ 256 8 adr_values

ands_values : Agree2 (λ rm rdn. decode_word (opcode_ands rdn rm)) (λ rm rdn. Instr.ands rm rdn) 8 8
unfolding decode_word opcode_ands all_below same
ands_values = refl

pub ands_table :
    (rm rdn : ℕ) → rm < 8 → rdn < 8 → decode_word (opcode_ands rdn rm) ≡ Instr.ands rm rdn
ands_table = agree2 _ _ 8 8 ands_values

asrs_values :
    Agree3
      (λ imm5 rm rd. decode_word (opcode_asrs rd rm imm5))
      (λ imm5 rm rd. Instr.asrs imm5 rm rd)
      32
      8
      8
unfolding decode_word opcode_asrs all_below same
asrs_values = refl

pub asrs_table :
    (imm5 rm rd : ℕ)
    → imm5 < 32
    → rm < 8
    → rd < 8
    → decode_word (opcode_asrs rd rm imm5) ≡ Instr.asrs imm5 rm rd
asrs_table = agree3 _ _ 32 8 8 asrs_values

asrs_reg_values :
    Agree2 (λ rm rdn. decode_word (opcode_asrs_reg rdn rm)) (λ rm rdn. Instr.asrs_reg rm rdn) 8 8
unfolding decode_word opcode_asrs_reg all_below same
asrs_reg_values = refl

pub asrs_reg_table :
    (rm rdn : ℕ) → rm < 8 → rdn < 8 → decode_word (opcode_asrs_reg rdn rm) ≡ Instr.asrs_reg rm rdn
asrs_reg_table = agree2 _ _ 8 8 asrs_reg_values

b_cond_values :
    Agree2
      (λ cond imm8. decode_word (opcode_bt1 cond (imm8 * 2)))
      (λ cond imm8. Instr.b_cond cond imm8)
      14
      256
unfolding decode_word opcode_bt1 all_below same
b_cond_values = refl

pub b_cond_table :
    (cond imm8 : ℕ)
    → cond < 14
    → imm8 < 256
    → decode_word (opcode_bt1 cond (imm8 * 2)) ≡ Instr.b_cond cond imm8
b_cond_table = agree2 _ _ 14 256 b_cond_values

b_always_values :
    Agree1 (λ imm11. decode_word (opcode_bt2 (imm11 * 2))) (λ imm11. Instr.b_always imm11) 2048
unfolding decode_word opcode_bt2 all_below same
b_always_values = refl

pub b_always_table :
    (imm11 : ℕ) → imm11 < 2048 → decode_word (opcode_bt2 (imm11 * 2)) ≡ Instr.b_always imm11
b_always_table = agree1 _ _ 2048 b_always_values
