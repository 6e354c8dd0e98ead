-- ===== src/Assembler/StoZ.antt =====
-- utils/assembler.ts: the encoders from `opcodeSBCS` to `opcodeYIELD`.
-- An immediate that may be negative is passed as its pattern of 32 bits.
use rp2350js.Base.{ℕ, ◌*◌, ◌/◌, ◌^◌, bit_or, low_bits}

unfoldable pub opcode_sbcs : ℕ → ℕ → ℕ
opcode_sbcs rn rm = bit_or (bit_or (0b0100000110 * 2 ^ 6) (low_bits rm 3 * 2 ^ 3)) (low_bits rn 3)

unfoldable pub opcode_stmia : ℕ → ℕ → ℕ
opcode_stmia rn registers =
    bit_or (bit_or (0b11000 * 2 ^ 11) (low_bits rn 3 * 2 ^ 8)) (low_bits registers 8)

unfoldable pub opcode_str : ℕ → ℕ → ℕ → ℕ
opcode_str rt rm imm5 =
    bit_or
      (bit_or (bit_or (0b01100 * 2 ^ 11) (low_bits (imm5 / 2 ^ 2) 5 * 2 ^ 6))
        (low_bits rm 3 * 2 ^ 3))
      (low_bits rt 3)

unfoldable pub opcode_str_sp : ℕ → ℕ → ℕ
opcode_str_sp rt imm8 =
    bit_or (bit_or (0b10010 * 2 ^ 11) (low_bits rt 3 * 2 ^ 8)) (low_bits (imm8 / 2 ^ 2) 8)

unfoldable pub opcode_str_reg : ℕ → ℕ → ℕ → ℕ
opcode_str_reg rt rn rm =
    bit_or (bit_or (bit_or (0b0101000 * 2 ^ 9) (low_bits rm 3 * 2 ^ 6)) (low_bits rn 3 * 2 ^ 3))
      (low_bits rt 3)

unfoldable pub opcode_strb : ℕ → ℕ → ℕ → ℕ
opcode_strb rt rm imm5 =
    bit_or (bit_or (bit_or (0b01110 * 2 ^ 11) (low_bits imm5 5 * 2 ^ 6)) (low_bits rm 3 * 2 ^ 3))
      (low_bits rt 3)

unfoldable pub opcode_strb_reg : ℕ → ℕ → ℕ → ℕ
opcode_strb_reg rt rn rm =
    bit_or (bit_or (bit_or (0b0101010 * 2 ^ 9) (low_bits rm 3 * 2 ^ 6)) (low_bits rn 3 * 2 ^ 3))
      (low_bits rt 3)

unfoldable pub opcode_strh : ℕ → ℕ → ℕ → ℕ
opcode_strh rt rm imm5 =
    bit_or
      (bit_or (bit_or (0b10000 * 2 ^ 11) (low_bits (imm5 / 2 ^ 1) 5 * 2 ^ 6))
        (low_bits rm 3 * 2 ^ 3))
      (low_bits rt 3)

unfoldable pub opcode_strh_reg : ℕ → ℕ → ℕ → ℕ
opcode_strh_reg rt rn rm =
    bit_or (bit_or (bit_or (0b0101001 * 2 ^ 9) (low_bits rm 3 * 2 ^ 6)) (low_bits rn 3 * 2 ^ 3))
      (low_bits rt 3)

unfoldable pub opcode_subs1 : ℕ → ℕ → ℕ → ℕ
opcode_subs1 rd rn imm3 =
    bit_or (bit_or (bit_or (0b0001111 * 2 ^ 9) (low_bits imm3 3 * 2 ^ 6)) (low_bits rn 3 * 2 ^ 3))
      (low_bits rd 3)

unfoldable pub opcode_subs2 : ℕ → ℕ → ℕ
opcode_subs2 rdn imm8 =
    bit_or (bit_or (0b00111 * 2 ^ 11) (low_bits rdn 3 * 2 ^ 8)) (low_bits imm8 8)

unfoldable pub opcode_subs_reg : ℕ → ℕ → ℕ → ℕ
opcode_subs_reg rd rn rm =
    bit_or (bit_or (bit_or (0b0001101 * 2 ^ 9) (low_bits rm 3 * 2 ^ 6)) (low_bits rn 3 * 2 ^ 3))
      (low_bits rd 3)

unfoldable pub opcode_sub_sp : ℕ → ℕ
opcode_sub_sp imm = bit_or (0b101100001 * 2 ^ 7) (low_bits (imm / 2 ^ 2) 7)

unfoldable pub opcode_svc : ℕ → ℕ
opcode_svc imm8 = bit_or (0b11011111 * 2 ^ 8) (low_bits imm8 8)

unfoldable pub opcode_sxtb : ℕ → ℕ → ℕ
opcode_sxtb rd rm = bit_or (bit_or (0b1011001001 * 2 ^ 6) (low_bits rm 3 * 2 ^ 3)) (low_bits rd 3)

unfoldable pub opcode_sxth : ℕ → ℕ → ℕ
opcode_sxth rd rm = bit_or (bit_or (0b1011001000 * 2 ^ 6) (low_bits rm 3 * 2 ^ 3)) (low_bits rd 3)

unfoldable pub opcode_tst : ℕ → ℕ → ℕ
opcode_tst rm rn = bit_or (bit_or (0b0100001000 * 2 ^ 6) (low_bits rn 3 * 2 ^ 3)) (low_bits rm 3)

unfoldable pub opcode_uxtb : ℕ → ℕ → ℕ
opcode_uxtb rd rm = bit_or (bit_or (0b1011001011 * 2 ^ 6) (low_bits rm 3 * 2 ^ 3)) (low_bits rd 3)

unfoldable pub opcode_udf : ℕ → ℕ
opcode_udf imm8 = bit_or (0b11011110 * 2 ^ 8) (low_bits imm8 8)

unfoldable pub opcode_udf2 : ℕ → ℕ
opcode_udf2 imm16 =
    let imm12 = low_bits imm16 12 in
    let imm4 = low_bits (imm16 / 2 ^ 12) 4 in
    bit_or (bit_or (bit_or (0b111101111111 * 2 ^ 4) imm4) (0b1010 * 2 ^ 28)) (imm12 * 2 ^ 16)

unfoldable pub opcode_uxth : ℕ → ℕ → ℕ
opcode_uxth rd rm = bit_or (bit_or (0b1011001010 * 2 ^ 6) (low_bits rm 3 * 2 ^ 3)) (low_bits rd 3)

abbrev pub opcode_wfi : ℕ
opcode_wfi = 0b1011111100110000

abbrev pub opcode_yield : ℕ
opcode_yield = 0b1011111100010000
