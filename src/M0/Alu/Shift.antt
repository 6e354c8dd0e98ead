-- ===== src/M0/Alu/Shift.antt =====
-- cortex-m0-core.ts, `executeInstruction`: the shifts and rotates. JavaScript takes a shift count
-- modulo 32, so that `1 << (n - 1)` is bit 31 at n = 0; the count is written out as `(n + 31) % 32`.
use rp2350js.Base.{ℕ, ◌+◌, ◌-◌, ◌%◌, Bool, false, bit_or, if◌then◌else◌}
use rp2350js.Base.{two32, low_bits, shl, shr, sar, test_bit, is_neg, ltb, leb, ◌==◌}
use rp2350js.M0.State.{Core, reg, set_reg}
use rp2350js.M0.Flags.{set_nz}

-- `(input & 0x80000000) >> 31` is -1 or 0.
abbrev pub asr_result : ℕ → ℕ → ℕ
asr_result input n = if ltb n 32 then sar input n else if is_neg input then two32 - 1 else 0

module _ {M : Type 0} where
  -- the result of a shift, with its N, Z and C
  abbrev pub store_nzc : ℕ → ℕ → Bool → Core M → Core M
  store_nzc rd r carry s = record (set_nz r (set_reg rd r s)) { c = carry }

  unfoldable pub exec_asrs : ℕ → ℕ → ℕ → Core M → Core M
  exec_asrs imm5 rm rd s =
      let input = reg s rm in
      let n = if imm5 == 0 then 32 else imm5 in
      store_nzc rd (asr_result input n) (test_bit input ((n + 31) % 32)) s

  unfoldable pub exec_asrs_reg : ℕ → ℕ → Core M → Core M
  exec_asrs_reg rm rdn s =
      let input = reg s rdn in
      let count = low_bits (reg s rm) 8 in
      let n = if ltb count 32 then count else 32 in
      store_nzc rdn (asr_result input n) (test_bit input ((n + 31) % 32)) s

  unfoldable pub exec_lsls : ℕ → ℕ → ℕ → Core M → Core M
  exec_lsls imm5 rm rd s =
      let input = reg s rm in
      store_nzc rd (shl input imm5) (if imm5 == 0 then s.c else test_bit input (32 - imm5)) s

  unfoldable pub exec_lsls_reg : ℕ → ℕ → Core M → Core M
  exec_lsls_reg rm rdn s =
      let input = reg s rdn in
      let n = low_bits (reg s rm) 8 in
      store_nzc rdn (if leb 32 n then 0 else shl input n)
        (if n == 0 then s.c else test_bit input ((288 - n) % 32)) s

  unfoldable pub exec_lsrs : ℕ → ℕ → ℕ → Core M → Core M
  exec_lsrs imm5 rm rd s =
      let input = reg s rm in
      store_nzc rd (if imm5 == 0 then 0 else shr input imm5)
        (test_bit input (if imm5 == 0 then 31 else imm5 - 1)) s

  unfoldable pub exec_lsrs_reg : ℕ → ℕ → Core M → Core M
  exec_lsrs_reg rm rdn s =
      let input = reg s rdn in
      let n = low_bits (reg s rm) 8 in
      store_nzc rdn (if ltb n 32 then shr input n else 0)
        (if leb n 32 then test_bit input ((n + 31) % 32) else false) s

  unfoldable pub exec_ror : ℕ → ℕ → Core M → Core M
  exec_ror rm rdn s =
      let input = reg s rdn in
      let n = low_bits (reg s rm) 8 % 32 in
      let result = bit_or (shr input n) (shl input ((32 - n) % 32)) in
      store_nzc rdn result (is_neg result) s
