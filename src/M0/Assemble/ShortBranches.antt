-- ===== src/M0/Assemble/ShortBranches.antt =====
-- The short relative branches, from the byte offset that the assembler takes to the address that
-- the core goes to.
use rp2350js.Base.{
  ℕ, ◌≤◌, ◌-◌, ◌+◌, ◌*◌, ◌/◌, ◌%◌, ◌^◌, ◌<◌, ◌≡◌, ◌⊎◌, refl, ap, ◌∙◌, arith, Bool-cases,
}
use rp2350js.Base.{inl, inr, bit_or, u32, two32, low_bits, if◌then◌else◌, sym}
use rp2350js.M0.State.{Bus, Core, pc, check_condition}
use rp2350js.M0.Instr.{Instr}
use rp2350js.M0.Control.{exec_b, exec_b_cond, offset9, offset12}
use rp2350js.M0.Execute.{execute}
use rp2350js.M0.Execute.Frame.{regs-check_trace_magic}
use rp2350js.Assembler.AtoK.{opcode_bt1, opcode_bt2}
use rp2350js.M0.Assemble.Branches.{or_add}
use rp2350js.M0.Assemble.Check.{decode_word}
use rp2350js.M0.Assemble.RoundTrip.{decode-assemble}

decode-opcode_bt2 :
    (imm : ℕ) → decode_word (opcode_bt2 imm) ≡ Instr.b_always (low_bits (imm / 2 ^ 1) 11)
unfolding opcode_bt2
decode-opcode_bt2 imm =
    ap (λ x. decode_word (bit_or (0b11100 * 2 ^ 11) x)) (omega arith)
    ∙ decode-assemble (Instr.b_always (low_bits (imm / 2 ^ 1) 11)) _ (omega arith) refl

decode-opcode_bt1 :
    (cond imm : ℕ)
    → cond < 14
    → imm < 512
    → decode_word (opcode_bt1 cond imm) ≡ Instr.b_cond cond (imm / 2)
unfolding opcode_bt1
decode-opcode_bt1 cond imm p q =
    ap (λ x. decode_word (bit_or (bit_or (0b1101 * 2 ^ 12) (low_bits cond 4 * 2 ^ 8)) x))
      (omega arith)
    ∙ decode-assemble (Instr.b_cond cond (imm / 2)) _ (p, omega arith) refl

offset12_back :
    (imm : ℕ)
    → imm < two32
    → imm % 2 ≡ 0
    → u32 (imm + 2 ^ 11) < 2 ^ 12
    → offset12 (low_bits (imm / 2 ^ 1) 11) ≡ imm
unfolding offset12
offset12_back imm p q r = ground arith

module _ {M : Type 0} (bus : Bus M) where
  -- `opcodeBT2` of an even byte offset from -2048 to 2046, as a pattern, is an instruction that
  -- puts the sum of the offset and the instruction's address plus 4 in PC, whether a trace marker
  -- follows it or not. PC has been moved on by 2 when it runs.
  pub execute-opcode_bt2 :
      (imm a : ℕ) (s : Core M)
      → imm < two32
      → imm % 2 ≡ 0
      → u32 (imm + 2 ^ 11) < 2 ^ 12
      → pc s ≡ a + 2
      → pc (execute bus a (decode_word (opcode_bt2 imm)) s).0 ≡ u32 (a + 4 + imm)
  unfolding execute exec_b
  execute-opcode_bt2 imm a s p q r e =
      rw (decode-opcode_bt2 imm)
        (ground (arith, offset12_back imm p q r, regs-check_trace_magic bus a s))

  -- `opcodeBT1` of a condition below 14 and an even byte offset below 256 is an instruction that
  -- puts the sum of the offset and the instruction's address plus 4 in PC if `checkCondition`
  -- holds, and else leaves PC on the next instruction.
  pub execute-opcode_bt1 :
      (cond imm a : ℕ) (s : Core M)
      → cond < 14
      → imm < 256
      → imm % 2 ≡ 0
      → pc s ≡ a + 2
      → pc (execute bus a (decode_word (opcode_bt1 cond imm)) s).0
        ≡ (if check_condition s cond then u32 (a + 4 + imm) else a + 2)
  unfolding execute exec_b_cond offset9
  execute-opcode_bt1 cond imm a s p q r e =
      rw (decode-opcode_bt1 cond imm p (omega arith)) (elim (Bool-cases (check_condition s cond)) [
        | inl h ↦ rw h (ground arith)
        | inr h ↦ rw h e
      ])

opcode_bt1_sum :
    (cond imm k : ℕ)
    → cond < 16
    → cond * 2 ^ 8 ≡ k * 2 ^ 9 ⊎ (imm / 2 ^ 1) % 2 ^ 9 < 256
    → opcode_bt1 cond imm ≡ 0b1101 * 2 ^ 12 + cond * 2 ^ 8 + low_bits (imm / 2 ^ 1) 9
unfolding opcode_bt1
opcode_bt1_sum cond imm k p h =
    ap (λ x. bit_or x (low_bits (imm / 2 ^ 1) 9))
      (or_add 12 13 (low_bits cond 4 * 2 ^ 8) _ refl (omega arith))
    ∙ low h
    ∙ omega arith
  where
    top : ℕ
    top = 0b1101 * 2 ^ 12 + low_bits cond 4 * 2 ^ 8

    low :
        cond * 2 ^ 8 ≡ k * 2 ^ 9 ⊎ (imm / 2 ^ 1) % 2 ^ 9 < 256
        → bit_or top (low_bits (imm / 2 ^ 1) 9) ≡ top + low_bits (imm / 2 ^ 1) 9
    low (inl e) = or_add 9 (104 + k) (low_bits (imm / 2 ^ 1) 9) top (omega arith) (omega arith)
    low (inr q) = or_add 8 (208 + cond) (low_bits (imm / 2 ^ 1) 9) top (omega arith) q

-- `opcodeBT1` of an even condition and a negative offset from -256 on is an instruction with
-- the opposite condition: a bit of the offset's sign falls into the condition field.
pub decode-opcode_bt1_back :
    (cond imm : ℕ)
    → cond < 14
    → cond % 2 ≡ 0
    → imm < two32
    → two32 - 256 ≤ imm
    → decode_word (opcode_bt1 cond imm) ≡ Instr.b_cond (cond + 1) (low_bits (imm / 2) 8)
decode-opcode_bt1_back cond imm p e q r =
    ap decode_word (
      opcode_bt1_sum cond imm (cond / 2) (omega arith) (inl (omega arith))
      ∙ omega arith
      ∙ sym (opcode_bt1_sum (cond + 1) (imm % 512) 0 (omega arith) (inr (omega arith))))
    ∙ decode-opcode_bt1 (cond + 1) (imm % 512) (omega arith) (omega arith)
    ∙ ap (Instr.b_cond (cond + 1)) (omega arith)
