-- ===== src/RiscV/Memory.antt =====
-- riscv/cpu.ts: loads, stores, and the Zcmp instructions. Addresses are modulo 2 ^ 32, as the chip
-- reads them.
pub mod Stack
mod Tests
use rp2350js.Base.{ℕ, ◌+◌, ◌||◌, List, [], ◌∷◌, u32, sub32}
use rp2350js.Base.{low_bits, ◌==◌, if◌then◌else◌}
use rp2350js.M0.State.{Bus}
use rp2350js.RiscV.State.{Core, reg, set_reg, tick, load32, load16, load8, store32, store16, store8}
use rp2350js.RiscV.Alu.Unary.{sext_h, sext_b}
use rp2350js.RiscV.Tags.{t_lb, t_lh, t_lw, t_lbu, t_sb, t_sh, t_cm_push, t_cm_pop}
use rp2350js.RiscV.Tags.{t_cm_popretz, t_cm_popret}

-- `xreg_list`
unfoldable pub xreg_list : ℕ → List ℕ
xreg_list k =
    if k == 4
    then 1 ∷ []
    else if k == 5
    then 8 ∷ 1 ∷ []
    else if k == 6
    then 9 ∷ 8 ∷ 1 ∷ []
    else if k == 7
    then 18 ∷ 9 ∷ 8 ∷ 1 ∷ []
    else if k == 8
    then 19 ∷ 18 ∷ 9 ∷ 8 ∷ 1 ∷ []
    else if k == 9
    then 20 ∷ 19 ∷ 18 ∷ 9 ∷ 8 ∷ 1 ∷ []
    else if k == 10
    then 21 ∷ 20 ∷ 19 ∷ 18 ∷ 9 ∷ 8 ∷ 1 ∷ []
    else if k == 11
    then 22 ∷ 21 ∷ 20 ∷ 19 ∷ 18 ∷ 9 ∷ 8 ∷ 1 ∷ []
    else if k == 12
    then 23 ∷ 22 ∷ 21 ∷ 20 ∷ 19 ∷ 18 ∷ 9 ∷ 8 ∷ 1 ∷ []
    else if k == 13
    then 24 ∷ 23 ∷ 22 ∷ 21 ∷ 20 ∷ 19 ∷ 18 ∷ 9 ∷ 8 ∷ 1 ∷ []
    else if k == 14
    then 25 ∷ 24 ∷ 23 ∷ 22 ∷ 21 ∷ 20 ∷ 19 ∷ 18 ∷ 9 ∷ 8 ∷ 1 ∷ []
    else if k == 15
    then 27 ∷ 26 ∷ 25 ∷ 24 ∷ 23 ∷ 22 ∷ 21 ∷ 20 ∷ 19 ∷ 18 ∷ 9 ∷ 8 ∷ 1 ∷ []
    else []

-- `stack_adj_base`
unfoldable pub stack_adj_base : ℕ → ℕ
stack_adj_base k =
    if k == 4
    then 16
    else if k == 5
    then 16
    else if k == 6
    then 16
    else if k == 7
    then 16
    else if k == 8
    then 32
    else if k == 9
    then 32
    else if k == 10
    then 32
    else if k == 11
    then 32
    else if k == 12
    then 48
    else if k == 13
    then 48
    else if k == 14
    then 48
    else if k == 15
    then 64
    else 0

module _ {M : Type 0} (bus : Bus M) where
  unfoldable pub exec_load : ℕ → ℕ → ℕ → ℕ → Core M → Core M
  exec_load tag r s1 imm s =
      let addr = u32 (reg s s1 + imm) in
      if tag == t_lb
      then (let (x, t) = load8 bus addr s in set_reg r (sext_b x) t)
      else if tag == t_lh
      then (let (x, t) = load16 bus addr s in set_reg r (sext_h x) t)
      else if tag == t_lw
      then (let (x, t) = load32 bus addr s in set_reg r x t)
      else if tag == t_lbu
      then (let (x, t) = load8 bus addr s in set_reg r x t)
      else (let (x, t) = load16 bus addr s in set_reg r x t)

  unfoldable pub exec_store : ℕ → ℕ → ℕ → ℕ → Core M → Core M
  exec_store tag s1 s2 imm s =
      let addr = u32 (reg s s1 + imm) in
      let v = reg s s2 in
      if tag == t_sb
      then store8 bus addr (low_bits v 8) s
      else if tag == t_sh
      then store16 bus addr (low_bits v 16) s
      else store32 bus addr v s

  -- The loops of CM.PUSH and CM.POP over the register list.
  unfoldable pub push_regs : List ℕ → ℕ → Core M → Core M
  push_regs [] addr s = s
  push_regs (r ∷ rs) addr s = push_regs rs (sub32 addr 4) (tick 1 (store32 bus addr (reg s r) s))

  unfoldable pub pop_regs : List ℕ → ℕ → Core M → Core M
  pop_regs [] addr s = s
  pop_regs (r ∷ rs) addr s =
      let (x, t) = load32 bus addr s in pop_regs rs (sub32 addr 4) (tick 1 (set_reg r x t))

  unfoldable pub exec_push : ℕ → ℕ → Core M → Core M
  unfolding push_regs xreg_list stack_adj_base
  exec_push list imm s =
      let stack_adj = stack_adj_base list + imm in
      let sp = reg s 2 in set_reg 2 (sub32 sp stack_adj) (push_regs (xreg_list list) (sub32 sp 4) s)

  unfoldable pub exec_pop : ℕ → ℕ → Core M → Core M
  unfolding pop_regs xreg_list stack_adj_base
  exec_pop list imm s =
      let stack_adj = stack_adj_base list + imm in
      let sp = reg s 2 in
      set_reg 2 (sp + stack_adj) (pop_regs (xreg_list list) (u32 (sp + stack_adj + 0xfffffffc)) s)

  unfoldable pub exec_zcmp : ℕ → ℕ → ℕ → ℕ → ℕ → Core M → Core M
  unfolding exec_push exec_pop
  exec_zcmp tag r s1 s2 imm s =
      if tag == t_cm_push
      then exec_push s2 imm s
      else if (tag == t_cm_pop) || (tag == t_cm_popretz) || (tag == t_cm_popret)
      then (let t = exec_pop s2 imm s in
          let u = if tag == t_cm_popretz then set_reg 10 0 t else t in
          if (tag == t_cm_popret) || (tag == t_cm_popretz)
          then tick 1 (record u { next_pc = reg u 1 })
          else u)
      else (let t = set_reg r (reg s s2) s in set_reg s1 (reg t imm) t)
