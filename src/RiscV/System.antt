-- ===== src/RiscV/System.antt =====
-- riscv/cpu.ts, `execSystem` and `checkTraceMagic`.
use rp2350js.Base.{ℕ, zero, suc, ◌+◌, true, false, not, bit_and, bit_or, List, [], ◌∷◌}
use rp2350js.Base.{two32, u32, not32, field, low_bits, ◌==◌, if◌then◌else◌}
use rp2350js.M0.State.{Bus}
use rp2350js.RiscV.State.{Core, reg, set_reg, log, on_trace, load16, load8}
use rp2350js.RiscV.Csr.{get_csr, set_csr}
use rp2350js.RiscV.Trap.{trap_entry, exec_mret, exec_wfi}
use rp2350js.RiscV.Tags.{t_mret, t_ecall, t_ebreak, t_wfi, t_csrrw, t_csrrs, t_csrrc}
use rp2350js.RiscV.Tags.{t_csrwi, t_csrrsi}

module _ {M : Type 0} where
  unfoldable pub exec_csrrw : ℕ → ℕ → ℕ → Core M → Core M
  exec_csrrw r s1 csr s =
      let value = reg s s1 in
      let t = if r == 0 then s else (let (old, u) = get_csr csr value s in set_reg r old u) in
      set_csr csr value value t

  unfoldable pub exec_csrrs : ℕ → ℕ → ℕ → Core M → Core M
  exec_csrrs r s1 csr s =
      let value = reg s s1 in
      let (old, t) = get_csr csr value s in
      set_reg r old (if s1 == 0 then t else set_csr csr (bit_or old value) value t)

  unfoldable pub exec_csrrc : ℕ → ℕ → ℕ → Core M → Core M
  exec_csrrc r s1 csr s =
      let value = reg s s1 in
      let (old, t) = get_csr csr value s in
      set_reg r old (if value == 0 then t else set_csr csr (bit_and old (not32 value)) value t)

  unfoldable pub exec_csrrwi : ℕ → ℕ → ℕ → Core M → Core M
  exec_csrrwi r imm5 csr s =
      let t = if r == 0 then s else (let (old, u) = get_csr csr imm5 s in set_reg r old u) in
      set_csr csr imm5 imm5 t

  unfoldable pub exec_csrrsi : ℕ → ℕ → ℕ → Core M → Core M
  exec_csrrsi r imm5 csr s =
      let (old, t) = get_csr csr imm5 s in
      set_reg r old (if imm5 == 0 then t else set_csr csr (bit_or old imm5) imm5 t)

  unfoldable pub exec_csrrci : ℕ → ℕ → ℕ → Core M → Core M
  exec_csrrci r imm5 csr s =
      let (old, t) = get_csr csr imm5 s in
      set_reg r old (if imm5 == 0 then t else set_csr csr (bit_and old (not32 imm5)) imm5 t)

  unfoldable pub exec_system : ℕ → ℕ → ℕ → ℕ → Core M → Core M
  exec_system tag r s1 imm s =
      let csr = low_bits imm 12 in
      let csr_i = field imm 5 12 in
      let imm5 = low_bits imm 5 in
      if tag == t_mret
      then exec_mret s
      else if tag == t_ecall
      then trap_entry 0xb true s
      else if tag == t_ebreak
      then trap_entry 3 true s
      else if tag == t_wfi
      then exec_wfi s
      else if tag == t_csrrw
      then exec_csrrw r s1 csr s
      else if tag == t_csrrs
      then exec_csrrs r s1 csr s
      else if tag == t_csrrc
      then exec_csrrc r s1 csr s
      else if tag == t_csrwi
      then exec_csrrwi r imm5 csr_i s
      else if tag == t_csrrsi
      then exec_csrrsi r imm5 csr_i s
      else exec_csrrci r imm5 csr_i s

-- one byte for each address
unfoldable pub tag_bound : ℕ
tag_bound = two32

module _ {M : Type 0} (bus : Bus M) where
  -- The bytes up to a NUL, among at most n of them; the loop of the source has no end where there is none.
  unfoldable pub read_tag : ℕ → ℕ → Core M → List ℕ × Core M
  read_tag zero a s = ([], s)
  read_tag (suc n) a s =
      let (ch, s1) = load8 bus a s in
      elim (ch == 0) [
        | true ↦ ([], s1)
        | false ↦ let (rest, s2) = read_tag n (u32 (a + 1)) s1 in (ch ∷ rest, s2)
      ]

  unfoldable pub check_trace_magic : ℕ → Core M → Core M
  unfolding read_tag
  check_trace_magic start s =
      let (a, s1) = load16 bus start s in
      if not (a == 0xabcd)
      then s1
      else (let (b, s2) = load16 bus (start + 2) s1 in
          if not (b == 0xffff)
          then s2
          else (let (tag, s3) = read_tag tag_bound (start + 4) s2 in
              log (on_trace s3.mhartid s3.pc tag) s3))
