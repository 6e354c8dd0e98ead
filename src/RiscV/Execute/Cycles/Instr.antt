-- ===== src/RiscV/Execute/Cycles/Instr.antt =====
-- Every instruction adds to the cycle count or leaves it.
use rp2350js.Base.{ℕ, zero, suc, ◌+◌, ◌≤◌, ◌≡◌, refl, arith, Bool, true, false}
use rp2350js.Base.{
  bit_or, bit_and, not32, Option, some, none, Bool-cases, inl, inr, ◌==◌, List, [], ◌∷◌,
}
use rp2350js.M0.State.{Bus}
use rp2350js.Base.{low_bits, field, sub32, u32}
use rp2350js.RiscV.State.{Core, reg, set_reg, tick, store32, load32, load16, load8}
use rp2350js.RiscV.Memory.{xreg_list, stack_adj_base}
use rp2350js.RiscV.Csr.{get_csr}
use rp2350js.RiscV.Trap.{trap_entry, exec_mret, exec_wfi, exec_block, fire_sev, branch_cycles}
use rp2350js.RiscV.Trap.{resolve_waking_interrupt, check_for_interrupts, external}
use rp2350js.RiscV.Irq.{priority_save, priority_restore}
use rp2350js.RiscV.Amo.{exec_amo, exec_lr, exec_sc, exec_amo_op}
use rp2350js.RiscV.Memory.{
  exec_load, exec_store, push_regs, pop_regs, exec_push, exec_pop, exec_zcmp,
}
use rp2350js.RiscV.System.{
  exec_csrrw, exec_csrrs, exec_csrrc, exec_csrrwi, exec_csrrsi, exec_csrrci,
}
use rp2350js.RiscV.System.{exec_system, tag_bound, read_tag, check_trace_magic}
use rp2350js.RiscV.Alu.{op_value}
use rp2350js.RiscV.Alu.Imm.{op_imm_value}
use rp2350js.RiscV.Execute.{set_result}
use rp2350js.RiscV.Execute.{
  exec_op, exec_op_imm, exec_h3, exec_branch, exec_custom0, exec_jalr, exec_jal,
}
use rp2350js.RiscV.Execute.Cycles.{cycles-set_csr, cycles-get_csr}

module _ {M : Type 0} where
  cycles-trap_entry : (c : ℕ) (b : Bool) (s : Core M) → s.cycles ≤ (trap_entry c b s).cycles
  unfolding trap_entry
  cycles-trap_entry c b s = simp cycles-set_csr (ground arith)

  cycles-exec_mret : (s : Core M) → s.cycles ≤ (exec_mret s).cycles
  unfolding exec_mret priority_restore
  cycles-exec_mret s = simp cycles-set_csr (ground arith)

  cycles-exec_wfi : (s : Core M) → s.cycles ≤ (exec_wfi s).cycles
  unfolding exec_wfi
  cycles-exec_wfi s = ground arith

  pub cycles-exec_h3 : (tag : ℕ) (s : Core M) → s.cycles ≤ (exec_h3 tag s).cycles
  unfolding exec_h3 exec_block fire_sev
  cycles-exec_h3 tag s = ground arith

  pub cycles-exec_branch :
      (tag a b imm : ℕ) (s : Core M) → s.cycles ≤ (exec_branch tag a b imm s).cycles
  unfolding exec_branch branch_cycles
  cycles-exec_branch tag a b imm s = ground arith

  cycles-exec_csrrw : (r a csr : ℕ) (s : Core M) → s.cycles ≤ (exec_csrrw r a csr s).cycles
  unfolding exec_csrrw
  cycles-exec_csrrw r a csr s = simp cycles-set_csr (ground (arith, cycles-get_csr csr (reg s a) s))

  cycles-exec_csrrs : (r a csr : ℕ) (s : Core M) → s.cycles ≤ (exec_csrrs r a csr s).cycles
  unfolding exec_csrrs
  cycles-exec_csrrs r a csr s = ground (
    arith,
    cycles-get_csr csr (reg s a) s,
    cycles-set_csr csr (bit_or (get_csr csr (reg s a) s).0 (reg s a)) (reg s a)
        (get_csr csr (reg s a) s).1,
  )

  cycles-exec_csrrc : (r a csr : ℕ) (s : Core M) → s.cycles ≤ (exec_csrrc r a csr s).cycles
  unfolding exec_csrrc
  cycles-exec_csrrc r a csr s =
      let (old, t) = get_csr csr (reg s a) s in
      ground (
        arith,
        cycles-get_csr csr (reg s a) s,
        cycles-set_csr csr (bit_and old (not32 (reg s a))) (reg s a) t,
      )

  cycles-exec_csrrwi : (r a csr : ℕ) (s : Core M) → s.cycles ≤ (exec_csrrwi r a csr s).cycles
  unfolding exec_csrrwi
  cycles-exec_csrrwi r a csr s = simp cycles-set_csr (ground (arith, cycles-get_csr csr a s))

  cycles-exec_csrrsi : (r a csr : ℕ) (s : Core M) → s.cycles ≤ (exec_csrrsi r a csr s).cycles
  unfolding exec_csrrsi
  cycles-exec_csrrsi r a csr s =
      let (old, t) = get_csr csr a s in
      ground (arith, cycles-get_csr csr a s, cycles-set_csr csr (bit_or old a) a t)

  cycles-exec_csrrci : (r a csr : ℕ) (s : Core M) → s.cycles ≤ (exec_csrrci r a csr s).cycles
  unfolding exec_csrrci
  cycles-exec_csrrci r a csr s =
      let (old, t) = get_csr csr a s in
      ground (arith, cycles-get_csr csr a s, cycles-set_csr csr (bit_and old (not32 a)) a t)

  pub cycles-exec_system :
      (tag r a imm : ℕ) (s : Core M) → s.cycles ≤ (exec_system tag r a imm s).cycles
  unfolding exec_system
  cycles-exec_system tag r a imm s = ground (
    arith,
    cycles-exec_mret s,
    cycles-trap_entry 0xb true s,
    cycles-trap_entry 3 true s,
    cycles-exec_wfi s,
    cycles-exec_csrrw r a (low_bits imm 12) s,
    cycles-exec_csrrs r a (low_bits imm 12) s,
    cycles-exec_csrrc r a (low_bits imm 12) s,
    cycles-exec_csrrwi r (low_bits imm 5) (field imm 5 12) s,
    cycles-exec_csrrsi r (low_bits imm 5) (field imm 5 12) s,
    cycles-exec_csrrci r (low_bits imm 5) (field imm 5 12) s,
  )

  cycles-set_result : (r : ℕ) (o : Option ℕ) (s : Core M) → (set_result r o s).cycles ≡ s.cycles
  cycles-set_result r none s = refl
  cycles-set_result r (some x) s = ground arith

  pub cycles-exec_op : (tag r a b : ℕ) (s : Core M) → s.cycles ≤ (exec_op tag r a b s).cycles
  unfolding exec_op
  cycles-exec_op tag r a b s =
      omega (arith, cycles-set_result r (op_value tag (reg s a) (reg s b)) s)

  pub cycles-exec_op_imm :
      (tag r a imm : ℕ) (s : Core M) → s.cycles ≤ (exec_op_imm tag r a imm s).cycles
  unfolding exec_op_imm
  cycles-exec_op_imm tag r a imm s =
      omega (arith, cycles-set_result r (op_imm_value tag (reg s a) imm) s)

  pub cycles-exec_custom0 :
      (tag r a b imm : ℕ) (s : Core M) → s.cycles ≤ (exec_custom0 tag r a b imm s).cycles
  unfolding exec_custom0
  cycles-exec_custom0 tag r a b imm s = ground arith

  pub cycles-exec_jalr : (r a imm : ℕ) (s : Core M) → s.cycles ≤ (exec_jalr r a imm s).cycles
  unfolding exec_jalr
  cycles-exec_jalr r a imm s = ground arith

  -- Interrupts are taken in two cycles.
  pub cycles-check_for_interrupts : (s : Core M) → s.cycles ≤ (check_for_interrupts s).cycles
  unfolding check_for_interrupts resolve_waking_interrupt priority_save
  cycles-check_for_interrupts s = ground (
    arith,
    cycles-trap_entry external false (priority_save (record s { interrupts_updated = false })),
  )

module _ {M : Type 0} (bus : Bus M) where
  pub cycles-exec_load :
      (tag r a imm : ℕ) (s : Core M) → s.cycles ≤ (exec_load bus tag r a imm s).cycles
  unfolding exec_load
  cycles-exec_load tag r a imm s = ground arith

  pub cycles-exec_store :
      (tag a b imm : ℕ) (s : Core M) → s.cycles ≤ (exec_store bus tag a b imm s).cycles
  unfolding exec_store
  cycles-exec_store tag a b imm s = ground arith

  pub cycles-exec_amo : (tag r a b : ℕ) (s : Core M) → s.cycles ≤ (exec_amo bus tag r a b s).cycles
  unfolding exec_amo exec_lr exec_sc exec_amo_op
  cycles-exec_amo tag r a b s = ground arith

  cycles-push_regs :
      (rs : List ℕ) (addr : ℕ) (s : Core M) → s.cycles ≤ (push_regs bus rs addr s).cycles
  unfolding push_regs
  cycles-push_regs [] addr s = ground arith
  cycles-push_regs (r ∷ rs) addr s =
      omega (arith, cycles-push_regs rs (sub32 addr 4) (tick 1 (store32 bus addr (reg s r) s)))

  cycles-pop_regs :
      (rs : List ℕ) (addr : ℕ) (s : Core M) → s.cycles ≤ (pop_regs bus rs addr s).cycles
  unfolding pop_regs
  cycles-pop_regs [] addr s = ground arith
  cycles-pop_regs (r ∷ rs) addr s =
      let (x, t) = load32 bus addr s in
      ground (arith, cycles-pop_regs rs (sub32 addr 4) (tick 1 (set_reg r x t)))

  pub cycles-exec_zcmp :
      (tag r a b imm : ℕ) (s : Core M) → s.cycles ≤ (exec_zcmp bus tag r a b imm s).cycles
  unfolding exec_zcmp exec_push exec_pop
  cycles-exec_zcmp tag r a b imm s = ground (
    arith,
    cycles-push_regs (xreg_list b) (sub32 (reg s 2) 4) s,
    cycles-pop_regs (xreg_list b) (u32 (reg s 2 + (stack_adj_base b + imm) + 0xfffffffc)) s,
  )

  cycles-read_tag : (n a : ℕ) (s : Core M) → (read_tag bus n a s).1.cycles ≡ s.cycles
  unfolding read_tag
  cycles-read_tag zero a s = refl
  cycles-read_tag (suc n) a s =
      let (x, t) = load8 bus a s in ground (arith, cycles-read_tag n (u32 (a + 1)) t)

  cycles-check_trace_magic : (a : ℕ) (s : Core M) → (check_trace_magic bus a s).cycles ≡ s.cycles
  unfolding check_trace_magic
  cycles-check_trace_magic a s =
      let (x, t) = load16 bus a s in
      let (y, u) = load16 bus (a + 2) t in
      elim (Bool-cases (x == 0xabcd)) [
        | inr k ↦ simp k refl
        | inl k ↦ elim (Bool-cases (y == 0xffff)) [
          | inr l ↦ simp (k, l) refl
          | inl l ↦ simp (k, l) (cycles-read_tag tag_bound (a + 4) u)
        ]
      ]

  pub cycles-exec_jal : (r imm : ℕ) (s : Core M) → s.cycles ≤ (exec_jal bus r imm s).cycles
  unfolding exec_jal
  cycles-exec_jal r imm s =
      let link = s.pc + s.inst_length in
      let e : (set_reg r link s).cycles ≡ s.cycles = ground arith in
      omega (arith, cycles-check_trace_magic link (set_reg r link s), e)
