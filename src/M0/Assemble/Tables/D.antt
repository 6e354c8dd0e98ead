-- ===== src/M0/Assemble/Tables/D.antt =====
-- Decoding what the encoders give, over all values of the fields: from `mov` to `ror`.
use rp2350js.Base.{ℕ, ◌<◌, ◌≡◌, refl, ltb, all_below}
use rp2350js.M0.Instr.{Instr}
use rp2350js.M0.Assemble.Check.{decode_word, same, Agree2, agree2}
use rp2350js.Assembler.LtoR.{opcode_mov, opcode_movs, opcode_mrs, opcode_msr, opcode_muls}
use rp2350js.Assembler.LtoR.{opcode_mvns, opcode_orrs, opcode_pop, opcode_push, opcode_rev}
use rp2350js.Assembler.LtoR.{opcode_rev16, opcode_revsh, opcode_ror}

mov_values : Agree2 (λ rm rd. decode_word (opcode_mov rd rm)) (λ rm rd. Instr.mov rm rd) 16 16
unfolding decode_word opcode_mov all_below same
mov_values = refl

pub mov_table : (rm rd : ℕ) → rm < 16 → rd < 16 → decode_word (opcode_mov rd rm) ≡ Instr.mov rm rd
mov_table = agree2 _ _ 16 16 mov_values

movs_values :
    Agree2 (λ imm8 rd. decode_word (opcode_movs rd imm8)) (λ imm8 rd. Instr.movs imm8 rd) 256 8
unfolding decode_word opcode_movs all_below same
movs_values = refl

pub movs_table :
    (imm8 rd : ℕ) → imm8 < 256 → rd < 8 → decode_word (opcode_movs rd imm8) ≡ Instr.movs imm8 rd
movs_table = agree2 _ _ 256 8 movs_values

mrs_values :
    Agree2 (λ sysm rd. decode_word (opcode_mrs rd sysm)) (λ sysm rd. Instr.mrs sysm rd) 256 16
unfolding decode_word opcode_mrs all_below same
mrs_values = refl

pub mrs_table :
    (sysm rd : ℕ) → sysm < 256 → rd < 16 → decode_word (opcode_mrs rd sysm) ≡ Instr.mrs sysm rd
mrs_table = agree2 _ _ 256 16 mrs_values

msr_values :
    Agree2 (λ sysm rn. decode_word (opcode_msr sysm rn)) (λ sysm rn. Instr.msr sysm rn) 256 16
unfolding decode_word opcode_msr all_below same
msr_values = refl

pub msr_table :
    (sysm rn : ℕ) → sysm < 256 → rn < 16 → decode_word (opcode_msr sysm rn) ≡ Instr.msr sysm rn
msr_table = agree2 _ _ 256 16 msr_values

muls_values : Agree2 (λ rn rdm. decode_word (opcode_muls rn rdm)) (λ rn rdm. Instr.muls rn rdm) 8 8
unfolding decode_word opcode_muls all_below same
muls_values = refl

pub muls_table :
    (rn rdm : ℕ) → rn < 8 → rdm < 8 → decode_word (opcode_muls rn rdm) ≡ Instr.muls rn rdm
muls_table = agree2 _ _ 8 8 muls_values

mvns_values : Agree2 (λ rm rd. decode_word (opcode_mvns rd rm)) (λ rm rd. Instr.mvns rm rd) 8 8
unfolding decode_word opcode_mvns all_below same
mvns_values = refl

pub mvns_table : (rm rd : ℕ) → rm < 8 → rd < 8 → decode_word (opcode_mvns rd rm) ≡ Instr.mvns rm rd
mvns_table = agree2 _ _ 8 8 mvns_values

orrs_values : Agree2 (λ rm rdn. decode_word (opcode_orrs rdn rm)) (λ rm rdn. Instr.orrs rm rdn) 8 8
unfolding decode_word opcode_orrs all_below same
orrs_values = refl

pub orrs_table :
    (rm rdn : ℕ) → rm < 8 → rdn < 8 → decode_word (opcode_orrs rdn rm) ≡ Instr.orrs rm rdn
orrs_table = agree2 _ _ 8 8 orrs_values

pop_values :
    Agree2
      (λ p registers. decode_word (opcode_pop (ltb 0 p) registers))
      (λ p registers. Instr.pop p registers)
      2
      256
unfolding decode_word opcode_pop all_below same
pop_values = refl

pub pop_table :
    (p registers : ℕ)
    → p < 2
    → registers < 256
    → decode_word (opcode_pop (ltb 0 p) registers) ≡ Instr.pop p registers
pop_table = agree2 _ _ 2 256 pop_values

push_values :
    Agree2
      (λ m registers. decode_word (opcode_push (ltb 0 m) registers))
      (λ m registers. Instr.push m registers)
      2
      256
unfolding decode_word opcode_push all_below same
push_values = refl

pub push_table :
    (m registers : ℕ)
    → m < 2
    → registers < 256
    → decode_word (opcode_push (ltb 0 m) registers) ≡ Instr.push m registers
push_table = agree2 _ _ 2 256 push_values

rev_values : Agree2 (λ rm rd. decode_word (opcode_rev rd rm)) (λ rm rd. Instr.rev rm rd) 8 8
unfolding decode_word opcode_rev all_below same
rev_values = refl

pub rev_table : (rm rd : ℕ) → rm < 8 → rd < 8 → decode_word (opcode_rev rd rm) ≡ Instr.rev rm rd
rev_table = agree2 _ _ 8 8 rev_values

rev16_values : Agree2 (λ rm rd. decode_word (opcode_rev16 rd rm)) (λ rm rd. Instr.rev16 rm rd) 8 8
unfolding decode_word opcode_rev16 all_below same
rev16_values = refl

pub rev16_table :
    (rm rd : ℕ) → rm < 8 → rd < 8 → decode_word (opcode_rev16 rd rm) ≡ Instr.rev16 rm rd
rev16_table = agree2 _ _ 8 8 rev16_values

revsh_values : Agree2 (λ rm rd. decode_word (opcode_revsh rd rm)) (λ rm rd. Instr.revsh rm rd) 8 8
unfolding decode_word opcode_revsh all_below same
revsh_values = refl

pub revsh_table :
    (rm rd : ℕ) → rm < 8 → rd < 8 → decode_word (opcode_revsh rd rm) ≡ Instr.revsh rm rd
revsh_table = agree2 _ _ 8 8 revsh_values

ror_values : Agree2 (λ rm rdn. decode_word (opcode_ror rdn rm)) (λ rm rdn. Instr.ror rm rdn) 8 8
unfolding decode_word opcode_ror all_below same
ror_values = refl

pub ror_table : (rm rdn : ℕ) → rm < 8 → rdn < 8 → decode_word (opcode_ror rdn rm) ≡ Instr.ror rm rdn
ror_table = agree2 _ _ 8 8 ror_values
