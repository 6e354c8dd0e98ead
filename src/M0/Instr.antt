-- ===== src/M0/Instr.antt =====
-- One constructor for each branch of `executeInstruction`, with the fields that the branch reads.
-- An immediate is the bare field, before any shift.
use rp2350js.Base.{ℕ}

pub data Instr : Type 0 where
  adcs : (rm rdn : ℕ) → Instr
  add_sp_imm : (imm8 rd : ℕ) → Instr
  add_sp : (imm7 : ℕ) → Instr
  adds1 : (imm3 rn rd : ℕ) → Instr
  adds2 : (imm8 rdn : ℕ) → Instr
  adds_reg : (rm rn rd : ℕ) → Instr
  add_reg : (rm rdn : ℕ) → Instr
  adr : (imm8 rd : ℕ) → Instr
  ands : (rm rdn : ℕ) → Instr
  asrs : (imm5 rm rd : ℕ) → Instr
  asrs_reg : (rm rdn : ℕ) → Instr
  b_cond : (cond imm8 : ℕ) → Instr
  b_always : (imm11 : ℕ) → Instr
  bics : (rm rdn : ℕ) → Instr
  bkpt : (imm8 : ℕ) → Instr
  bl : (s imm10 j1 j2 imm11 : ℕ) → Instr
  blx : (rm : ℕ) → Instr
  bx : (rm : ℕ) → Instr
  cmn : (rm rn : ℕ) → Instr
  cmp_imm : (rn imm8 : ℕ) → Instr
  cmp_reg1 : (rm rn : ℕ) → Instr
  cmp_reg2 : (rm rn : ℕ) → Instr
  cpsid : Instr
  cpsie : Instr
  dmb : Instr
  dsb : Instr
  eors : (rm rdn : ℕ) → Instr
  isb : Instr
  ldmia : (rn registers : ℕ) → Instr
  ldr_imm : (imm5 rn rt : ℕ) → Instr
  ldr_sp : (rt imm8 : ℕ) → Instr
  ldr_lit : (imm8 rt : ℕ) → Instr
  ldr_reg : (rm rn rt : ℕ) → Instr
  ldrb : (imm5 rn rt : ℕ) → Instr
  ldrb_reg : (rm rn rt : ℕ) → Instr
  ldrh : (imm5 rn rt : ℕ) → Instr
  ldrh_reg : (rm rn rt : ℕ) → Instr
  ldrsb : (rm rn rt : ℕ) → Instr
  ldrsh : (rm rn rt : ℕ) → Instr
  lsls : (imm5 rm rd : ℕ) → Instr
  lsls_reg : (rm rdn : ℕ) → Instr
  lsrs : (imm5 rm rd : ℕ) → Instr
  lsrs_reg : (rm rdn : ℕ) → Instr
  mov : (rm rd : ℕ) → Instr
  movs : (imm8 rd : ℕ) → Instr
  mrs : (sysm rd : ℕ) → Instr
  msr : (sysm rn : ℕ) → Instr
  muls : (rn rdm : ℕ) → Instr
  mvns : (rm rd : ℕ) → Instr
  orrs : (rm rdn : ℕ) → Instr
  pop : (p registers : ℕ) → Instr
  push : (m registers : ℕ) → Instr
  rev : (rm rd : ℕ) → Instr
  rev16 : (rm rd : ℕ) → Instr
  revsh : (rm rd : ℕ) → Instr
  ror : (rm rdn : ℕ) → Instr
  negs : (rn rd : ℕ) → Instr
  nop : Instr
  sbcs : (rm rdn : ℕ) → Instr
  sev : Instr
  stmia : (rn registers : ℕ) → Instr
  str_imm : (imm5 rn rt : ℕ) → Instr
  str_sp : (rt imm8 : ℕ) → Instr
  str_reg : (rm rn rt : ℕ) → Instr
  strb : (imm5 rn rt : ℕ) → Instr
  strb_reg : (rm rn rt : ℕ) → Instr
  strh : (imm5 rn rt : ℕ) → Instr
  strh_reg : (rm rn rt : ℕ) → Instr
  sub_sp : (imm7 : ℕ) → Instr
  subs1 : (imm3 rn rd : ℕ) → Instr
  subs2 : (imm8 rdn : ℕ) → Instr
  subs_reg : (rm rn rd : ℕ) → Instr
  svc : Instr
  sxtb : (rm rd : ℕ) → Instr
  sxth : (rm rd : ℕ) → Instr
  tst : (rm rn : ℕ) → Instr
  udf : (imm8 : ℕ) → Instr
  udf2 : (imm4 imm12 : ℕ) → Instr
  uxtb : (rm rd : ℕ) → Instr
  uxth : (rm rd : ℕ) → Instr
  wfe : Instr
  wfi : Instr
  yield_hint : Instr
  unimplemented : Instr
