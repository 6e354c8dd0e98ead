-- ===== src/M0/Assemble/Tables/F.antt =====
-- Decoding what the encoders give, over all values of the fields: from `subs2` to `yield_hint`.
use rp2350js.Base.{ℕ, ◌<◌, ◌≡◌, refl, all_below}
use rp2350js.M0.Instr.{Instr}
use rp2350js.M0.Assemble.Check.{decode_word, same, Agree1, Agree2, Agree3, agree1, agree2, agree3}
use rp2350js.Assembler.StoZ.{opcode_subs2, opcode_subs_reg, opcode_svc, opcode_sxtb, opcode_sxth}
use rp2350js.Assembler.StoZ.{opcode_tst, opcode_udf, opcode_uxtb, opcode_uxth, opcode_wfi}
use rp2350js.Assembler.StoZ.{opcode_yield}

subs2_values :
    Agree2
      (λ imm8 rdn. decode_word (opcode_subs2 rdn imm8))
      (λ imm8 rdn. Instr.subs2 imm8 rdn)
      256
      8
unfolding decode_word opcode_subs2 all_below same
subs2_values = refl

pub subs2_table :
    (imm8 rdn : ℕ)
    → imm8 < 256
    → rdn < 8
    → decode_word (opcode_subs2 rdn imm8) ≡ Instr.subs2 imm8 rdn
subs2_table = agree2 _ _ 256 8 subs2_values

subs_reg_values :
    Agree3
      (λ rm rn rd. decode_word (opcode_subs_reg rd rn rm))
      (λ rm rn rd. Instr.subs_reg rm rn rd)
      8
      8
      8
unfolding decode_word opcode_subs_reg all_below same
subs_reg_values = refl

pub subs_reg_table :
    (rm rn rd : ℕ)
    → rm < 8
    → rn < 8
    → rd < 8
    → decode_word (opcode_subs_reg rd rn rm) ≡ Instr.subs_reg rm rn rd
subs_reg_table = agree3 _ _ 8 8 8 subs_reg_values

pub svc_table : decode_word (opcode_svc 0) ≡ Instr.svc
unfolding decode_word opcode_svc
svc_table = refl

sxtb_values : Agree2 (λ rm rd. decode_word (opcode_sxtb rd rm)) (λ rm rd. Instr.sxtb rm rd) 8 8
unfolding decode_word opcode_sxtb all_below same
sxtb_values = refl

pub sxtb_table : (rm rd : ℕ) → rm < 8 → rd < 8 → decode_word (opcode_sxtb rd rm) ≡ Instr.sxtb rm rd
sxtb_table = agree2 _ _ 8 8 sxtb_values

sxth_values : Agree2 (λ rm rd. decode_word (opcode_sxth rd rm)) (λ rm rd. Instr.sxth rm rd) 8 8
unfolding decode_word opcode_sxth all_below same
sxth_values = refl

pub sxth_table : (rm rd : ℕ) → rm < 8 → rd < 8 → decode_word (opcode_sxth rd rm) ≡ Instr.sxth rm rd
sxth_table = agree2 _ _ 8 8 sxth_values

tst_values : Agree2 (λ rm rn. decode_word (opcode_tst rn rm)) (λ rm rn. Instr.tst rm rn) 8 8
unfolding decode_word opcode_tst all_below same
tst_values = refl

pub tst_table : (rm rn : ℕ) → rm < 8 → rn < 8 → decode_word (opcode_tst rn rm) ≡ Instr.tst rm rn
tst_table = agree2 _ _ 8 8 tst_values

udf_values : Agree1 (λ imm8. decode_word (opcode_udf imm8)) (λ imm8. Instr.udf imm8) 256
unfolding decode_word opcode_udf all_below same
udf_values = refl

pub udf_table : (imm8 : ℕ) → imm8 < 256 → decode_word (opcode_udf imm8) ≡ Instr.udf imm8
udf_table = agree1 _ _ 256 udf_values

uxtb_values : Agree2 (λ rm rd. decode_word (opcode_uxtb rd rm)) (λ rm rd. Instr.uxtb rm rd) 8 8
unfolding decode_word opcode_uxtb all_below same
uxtb_values = refl

pub uxtb_table : (rm rd : ℕ) → rm < 8 → rd < 8 → decode_word (opcode_uxtb rd rm) ≡ Instr.uxtb rm rd
uxtb_table = agree2 _ _ 8 8 uxtb_values

uxth_values : Agree2 (λ rm rd. decode_word (opcode_uxth rd rm)) (λ rm rd. Instr.uxth rm rd) 8 8
unfolding decode_word opcode_uxth all_below same
uxth_values = refl

pub uxth_table : (rm rd : ℕ) → rm < 8 → rd < 8 → decode_word (opcode_uxth rd rm) ≡ Instr.uxth rm rd
uxth_table = agree2 _ _ 8 8 uxth_values

pub wfi_table : decode_word opcode_wfi ≡ Instr.wfi
unfolding decode_word
wfi_table = refl

pub yield_hint_table : decode_word opcode_yield ≡ Instr.yield_hint
unfolding decode_word
yield_hint_table = refl
