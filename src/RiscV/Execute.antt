-- ===== src/RiscV/Execute.antt =====
-- riscv/cpu.ts: `executePacked`, `executeInstruction` and `executeInstructionsUpTo`. An error that is
-- thrown is `none`, by the core itself or by an access to the chip.
pub mod Packed
pub mod Cycles
pub mod Illegal
use rp2350js.Base.{ℕ, zero, suc, ◌+◌, ◌%◌, Bool, true, false, not, ◌&&◌, Option, some, none}
use rp2350js.Base.{u32, field, low_bits, shl, shr, sar, ltb, leb, ◌==◌, if◌then◌else◌}
use rp2350js.Base.Int.{sint, ltb_ℤ}
use rp2350js.M0.State.{Bus}
use rp2350js.RiscV.State.{Core, reg, set_reg, tick}
use rp2350js.RiscV.Alu.{op_value, op_cycles}
use rp2350js.RiscV.Alu.Imm.{op_imm_value}
use rp2350js.RiscV.Trap.{fire_sev, exec_block, branch_cycles, check_for_interrupts}
use rp2350js.RiscV.Amo.{exec_amo}
use rp2350js.RiscV.Memory.{exec_load, exec_store, exec_zcmp}
use rp2350js.RiscV.System.{exec_system, check_trace_magic}
use rp2350js.RiscV.Tags.{t_beq, t_bne, t_blt, t_bge, t_bltu, t_h3_block, t_h3_bextm, t_lb}
use rp2350js.RiscV.Tags.{t_lhu, t_fence, t_addi, t_zext_h, t_sb, t_sw, t_lr_w}
use rp2350js.RiscV.Tags.{t_amomaxu_w, t_add, t_remu, t_h3_unblock, t_lui, t_auipc, t_bgeu}
use rp2350js.RiscV.Tags.{t_jalr, t_jal, t_mret, t_csrrci, t_h3_bextmi, t_cm_push}
use rp2350js.RiscV.Tags.{t_cm_mva01s}

-- What a core needs of the chip to fetch an instruction: `getDecodeEntry`, which may fill the decode cache, and
-- throws where the decoder does.
pub record Code (M : Type 0) : Type 0 where
  pub entry : M → ℕ → Option (ℕ × M)

-- The fields of a packed entry. The immediate is sign-extended from each width as a pattern.
abbrev pub tag_field : ℕ → ℕ
tag_field p = field p 24 8

abbrev pub rd_field : ℕ → ℕ
rd_field p = field p 9 5

abbrev pub rs1_field : ℕ → ℕ
rs1_field p = field p 14 5

abbrev pub rs2_field : ℕ → ℕ
rs2_field p = field p 19 5

abbrev pub is_long : ℕ → Bool
is_long p = field p 8 1 == 1

abbrev pub imm_field : ℕ → ℕ
imm_field p = u32 (shr p 32)

abbrev pub sx12 : ℕ → ℕ
sx12 imm = sar (shl imm 20) 20

abbrev pub sx13 : ℕ → ℕ
sx13 imm = sar (shl imm 19) 19

abbrev pub sx21 : ℕ → ℕ
sx21 imm = sar (shl imm 11) 11

unfoldable pub is_taken : ℕ → ℕ → ℕ → Bool
is_taken tag a b =
    if tag == t_beq
    then a == b
    else if tag == t_bne
    then not (a == b)
    else if tag == t_blt
    then ltb_ℤ (sint a) (sint b)
    else if tag == t_bge
    then not (ltb_ℤ (sint a) (sint b))
    else if tag == t_bltu
    then ltb a b
    else leb b a

infixl 40 ◌>>=◌
abbrev pub ◌>>=◌ : {A B : Type 0} → Option A → (A → Option B) → Option B
o >>= f = elim o [ none ↦ none | some x ↦ f x ]

abbrev pub between : ℕ → ℕ → ℕ → Bool
between lo hi x = leb lo x && leb x hi

module _ {M : Type 0} where
  abbrev pub set_result : ℕ → Option ℕ → Core M → Core M
  set_result r o s = elim o [ none ↦ s | some x ↦ set_reg r x s ]

  unfoldable pub exec_op : ℕ → ℕ → ℕ → ℕ → Core M → Core M
  unfolding op_value
  exec_op tag r s1 s2 s = tick (op_cycles tag) (set_result r (op_value tag (reg s s1) (reg s s2)) s)

  unfoldable pub exec_op_imm : ℕ → ℕ → ℕ → ℕ → Core M → Core M
  unfolding op_imm_value
  exec_op_imm tag r s1 imm s = set_result r (op_imm_value tag (reg s s1) imm) s

  unfoldable pub exec_h3 : ℕ → Core M → Core M
  unfolding exec_block fire_sev
  exec_h3 tag s = if tag == t_h3_block then exec_block s else fire_sev s

  unfoldable pub exec_branch : ℕ → ℕ → ℕ → ℕ → Core M → Core M
  unfolding is_taken branch_cycles
  exec_branch tag s1 s2 imm s =
      let taken = is_taken tag (reg s s1) (reg s s2) in
      branch_cycles taken (if taken then record s { next_pc = u32 (s.pc + imm) } else s)

  unfoldable pub exec_custom0 : ℕ → ℕ → ℕ → ℕ → ℕ → Core M → Core M
  exec_custom0 tag r s1 s2 imm s =
      let size = field imm 1 3 in
      let sh = if tag == t_h3_bextm then low_bits (reg s s2) 5 else s2 in
      set_reg r (low_bits (shr (reg s s1) sh) (size + 1)) s

  unfoldable pub exec_jalr : ℕ → ℕ → ℕ → Core M → Core M
  exec_jalr r s1 imm s =
      let target = u32 (reg s s1 + imm) in
      tick 1 (record (set_reg r (s.pc + s.inst_length) s) { next_pc = target })

  -- the PC update at the end of `executePacked`
  unfoldable pub advance : Core M → Core M
  advance s =
      if not (s.next_pc == 0)
      then record s { pc = s.next_pc; next_pc = 0; did_just_jump = true }
      else record s { pc = u32 (s.pc + s.inst_length); did_just_jump = false }

  -- what `executePacked` does before it dispatches
  unfoldable pub prepare : ℕ → Core M → Core M
  prepare p s =
      let s1 = if is_long p && not (s.pc % 4 == 0) && s.did_just_jump then tick 1 s else s in
      record s1 { inst_length = if is_long p then 4 else 2 }

module _ {M : Type 0} (bus : Bus M) where
  unfoldable pub exec_jal : ℕ → ℕ → Core M → Core M
  unfolding check_trace_magic
  exec_jal r imm s =
      let link = s.pc + s.inst_length in
      let t = check_trace_magic bus link (set_reg r link s) in
      tick 1 (record t { next_pc = u32 (t.pc + imm) })

  -- The cases of the switch are the ranges of their tags.
  unfoldable pub dispatch : ℕ → ℕ → ℕ → ℕ → ℕ → Core M → Option (Core M)
  dispatch tag r s1 s2 imm s =
      if between t_lb t_lhu tag
      then some (exec_load bus tag r s1 (sx12 imm) s)
      else if tag == t_fence
      then some s
      else if between t_addi t_zext_h tag
      then some (exec_op_imm tag r s1 (sx12 imm) s)
      else if between t_sb t_sw tag
      then some (exec_store bus tag s1 s2 (sx12 imm) s)
      else if between t_lr_w t_amomaxu_w tag
      then some (exec_amo bus tag r s1 s2 s)
      else if between t_add t_remu tag
      then some (exec_op tag r s1 s2 s)
      else if between t_h3_block t_h3_unblock tag
      then some (exec_h3 tag s)
      else if tag == t_lui
      then some (set_reg r (shl imm 12) s)
      else if tag == t_auipc
      then some (set_reg r (shl imm 12 + s.pc) s)
      else if between t_beq t_bgeu tag
      then some (exec_branch tag s1 s2 (sx13 imm) s)
      else if tag == t_jalr
      then some (exec_jalr r s1 (sx12 imm) s)
      else if tag == t_jal
      then some (exec_jal r (sx21 imm) s)
      else if between t_mret t_csrrci tag
      then some (exec_system tag r s1 imm s)
      else if between t_h3_bextm t_h3_bextmi tag
      then some (exec_custom0 tag r s1 s2 imm s)
      else if between t_cm_push t_cm_mva01s tag
      then some (exec_zcmp bus tag r s1 s2 imm s)
      else none

  unfoldable pub exec_packed : ℕ → Core M → Option (Core M)
  unfolding prepare dispatch advance
  exec_packed p s = do
    t ← dispatch (tag_field p) (rd_field p) (rs1_field p) (rs2_field p) (imm_field p) (prepare p s)
    if bus.thrown t.mem then none else some (advance t)

  module _ (code : Code M) where
    unfoldable pub execute_instruction : Core M → Option (Core M)
    execute_instruction s =
        let s1 = check_for_interrupts s in
        if s1.waiting then some (tick 1 s1) else (do
          (p, m) ← code.entry s1.mem s1.pc
          t ← exec_packed p (record s1 { mem = m })
          some (tick 1 t))

    -- The loop of `executeInstructionsUpTo`, for at most n instructions.
    unfoldable pub run_loop : ℕ → ℕ → Core M → Option (Core M)
    run_loop zero cycle s = some s
    run_loop (suc n) cycle s = elim (ltb s.cycles cycle) [
      | false ↦ some s
      | true ↦ elim (execute_instruction s) [ none ↦ none | some t ↦ run_loop n cycle t ]
    ]

    -- An instruction takes at least one cycle, so there are at most `cycle` of them.
    unfoldable pub execute_instructions_up_to : ℕ → Core M → Option (Core M)
    execute_instructions_up_to cycle s =
        let s1 = check_for_interrupts s in
        if s1.waiting
        then some (if ltb s1.cycles cycle then record s1 { cycles = cycle } else s1)
        else run_loop cycle cycle s1
