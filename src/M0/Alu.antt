-- ===== src/M0/Alu.antt =====
-- cortex-m0-core.ts, `executeInstruction`: the branches that compute on registers and flags only.
-- Each function is the body of one branch, over the fields that `decode` reads.
pub mod Shift
use rp2350js.Base.{ℕ, ◌+◌, ◌-◌, ◌*◌, ◌/◌, ◌%◌, ◌^◌, Bool, bit_and, bit_or, bit_xor, if◌then◌else◌}
use rp2350js.Base.{u32, sub32, not32, low_bits, field, shl, sar, to_num, ◌==◌}
use rp2350js.M0.State.{Core, reg, set_reg, sp, set_sp, pc, clear1, clear2}
use rp2350js.M0.Flags.{add_update_flags, subtract_update_flags, set_nz}

abbrev pub sign_extend8 : ℕ → ℕ
sign_extend8 x = sar (shl x 24) 24

abbrev pub sign_extend16 : ℕ → ℕ
sign_extend16 x = sar (shl x 16) 16

module _ {M : Type 0} where
  -- Store the result of a flag-setting operation.
  abbrev pub store_result : ℕ → ℕ × Core M → Core M
  store_result rd (r, s) = set_reg rd r s

  -- Store a result and set N and Z by it.
  abbrev pub store_nz : ℕ → ℕ → Core M → Core M
  store_nz rd r s = set_nz r (set_reg rd r s)

  unfoldable pub exec_adcs : ℕ → ℕ → Core M → Core M
  exec_adcs rm rdn s = store_result rdn (add_update_flags (reg s rm) (reg s rdn + to_num s.c) s)

  unfoldable pub exec_add_sp_imm : ℕ → ℕ → Core M → Core M
  exec_add_sp_imm imm8 rd s = set_reg rd (sp s + imm8 * 4) s

  unfoldable pub exec_add_sp : ℕ → Core M → Core M
  exec_add_sp imm7 s = set_sp (sp s + imm7 * 4) s

  unfoldable pub exec_adds1 : ℕ → ℕ → ℕ → Core M → Core M
  exec_adds1 imm3 rn rd s = store_result rd (add_update_flags (reg s rn) imm3 s)

  unfoldable pub exec_adds2 : ℕ → ℕ → Core M → Core M
  exec_adds2 imm8 rdn s = store_result rdn (add_update_flags (reg s rdn) imm8 s)

  unfoldable pub exec_adds_reg : ℕ → ℕ → ℕ → Core M → Core M
  exec_adds_reg rm rn rd s = store_result rd (add_update_flags (reg s rn) (reg s rm) s)

  -- The second part of the result is what is added to `deltaCycles`.
  unfoldable pub exec_add_reg : ℕ → ℕ → Core M → Core M × ℕ
  exec_add_reg rm rdn s =
      let left = if rdn == 15 then pc s + 2 else reg s rdn in
      let result = left + reg s rm in
      if rdn == 15
      then (set_reg rdn (clear1 (u32 result)) s, 1)
      else if rdn == 13
      then (set_reg rdn (clear2 (u32 result)) s, 0)
      else (set_reg rdn result s, 0)

  unfoldable pub exec_adr : ℕ → ℕ → ℕ → Core M → Core M
  exec_adr opcode_pc imm8 rd s = set_reg rd (clear2 opcode_pc + 4 + imm8 * 4) s

  unfoldable pub exec_ands : ℕ → ℕ → Core M → Core M
  exec_ands rm rdn s = store_nz rdn (bit_and (reg s rdn) (reg s rm)) s

  unfoldable pub exec_bics : ℕ → ℕ → Core M → Core M
  exec_bics rm rdn s = store_nz rdn (bit_and (reg s rdn) (not32 (reg s rm))) s

  unfoldable pub exec_cmn : ℕ → ℕ → Core M → Core M
  exec_cmn rm rn s = (add_update_flags (reg s rn) (reg s rm) s).1

  unfoldable pub exec_cmp_imm : ℕ → ℕ → Core M → Core M
  exec_cmp_imm rn imm8 s = (subtract_update_flags (reg s rn) imm8 s).1

  -- both encodings of the register form
  unfoldable pub exec_cmp_reg : ℕ → ℕ → Core M → Core M
  exec_cmp_reg rm rn s = (subtract_update_flags (reg s rn) (reg s rm) s).1

  unfoldable pub exec_eors : ℕ → ℕ → Core M → Core M
  exec_eors rm rdn s = store_nz rdn (bit_xor (reg s rm) (reg s rdn)) s

  unfoldable pub exec_mov : ℕ → ℕ → Core M → Core M × ℕ
  exec_mov rm rd s =
      let value = if rm == 15 then pc s + 2 else reg s rm in
      if rd == 15
      then (set_reg rd (clear1 (u32 value)) s, 1)
      else if rd == 13
      then (set_reg rd (clear2 (u32 value)) s, 0)
      else (set_reg rd value s, 0)

  unfoldable pub exec_movs : ℕ → ℕ → Core M → Core M
  exec_movs imm8 rd s = store_nz rd imm8 s

  unfoldable pub exec_muls : ℕ → ℕ → Core M → Core M
  exec_muls rn rdm s = store_nz rdm (u32 (reg s rn * reg s rdm)) s

  unfoldable pub exec_mvns : ℕ → ℕ → Core M → Core M
  exec_mvns rm rd s = store_nz rd (not32 (reg s rm)) s

  unfoldable pub exec_orrs : ℕ → ℕ → Core M → Core M
  exec_orrs rm rdn s = store_nz rdn (bit_or (reg s rdn) (reg s rm)) s

  -- An `|` of bytes in different places is written as a sum.
  unfoldable pub exec_rev : ℕ → ℕ → Core M → Core M
  exec_rev rm rd s =
      let x = reg s rm in
      set_reg rd
        (low_bits x 8 * 2 ^ 24 + field x 8 8 * 2 ^ 16 + field x 16 8 * 2 ^ 8 + field x 24 8) s

  unfoldable pub exec_rev16 : ℕ → ℕ → Core M → Core M
  exec_rev16 rm rd s =
      let x = reg s rm in
      set_reg rd
        (field x 16 8 * 2 ^ 24 + field x 24 8 * 2 ^ 16 + low_bits x 8 * 2 ^ 8 + field x 8 8) s

  unfoldable pub exec_revsh : ℕ → ℕ → Core M → Core M
  exec_revsh rm rd s =
      let x = reg s rm in set_reg rd (sign_extend16 (low_bits x 8 * 2 ^ 8 + field x 8 8)) s

  unfoldable pub exec_negs : ℕ → ℕ → Core M → Core M
  exec_negs rn rd s = store_result rd (subtract_update_flags 0 (reg s rn) s)

  unfoldable pub exec_sbcs : ℕ → ℕ → Core M → Core M
  exec_sbcs rm rdn s =
      store_result rdn (subtract_update_flags (reg s rdn) (reg s rm + (1 - to_num s.c)) s)

  unfoldable pub exec_sub_sp : ℕ → Core M → Core M
  exec_sub_sp imm7 s = set_sp (sub32 (sp s) (imm7 * 4)) s

  unfoldable pub exec_subs1 : ℕ → ℕ → ℕ → Core M → Core M
  exec_subs1 imm3 rn rd s = store_result rd (subtract_update_flags (reg s rn) imm3 s)

  unfoldable pub exec_subs2 : ℕ → ℕ → Core M → Core M
  exec_subs2 imm8 rdn s = store_result rdn (subtract_update_flags (reg s rdn) imm8 s)

  unfoldable pub exec_subs_reg : ℕ → ℕ → ℕ → Core M → Core M
  exec_subs_reg rm rn rd s = store_result rd (subtract_update_flags (reg s rn) (reg s rm) s)

  unfoldable pub exec_sxtb : ℕ → ℕ → Core M → Core M
  exec_sxtb rm rd s = set_reg rd (sign_extend8 (reg s rm)) s

  unfoldable pub exec_sxth : ℕ → ℕ → Core M → Core M
  exec_sxth rm rd s = set_reg rd (sign_extend16 (reg s rm)) s

  unfoldable pub exec_tst : ℕ → ℕ → Core M → Core M
  exec_tst rm rn s = set_nz (bit_and (reg s rn) (reg s rm)) s

  unfoldable pub exec_uxtb : ℕ → ℕ → Core M → Core M
  exec_uxtb rm rd s = set_reg rd (low_bits (reg s rm) 8) s

  unfoldable pub exec_uxth : ℕ → ℕ → Core M → Core M
  exec_uxth rm rd s = set_reg rd (low_bits (reg s rm) 16) s
