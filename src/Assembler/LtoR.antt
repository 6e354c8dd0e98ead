-- ===== src/Assembler/LtoR.antt =====
-- utils/assembler.ts: the encoders from `opcodeLDMIA` to `opcodeRSBS`.
-- An immediate that may be negative is passed as its pattern of 32 bits.
use rp2350js.Base.{ℕ, ◌*◌, ◌/◌, ◌^◌, Bool, bit_and, bit_or, low_bits}
use rp2350js.Base.{ltb, if◌then◌else◌}

unfoldable pub opcode_ldmia : ℕ → ℕ → ℕ
opcode_ldmia rn registers =
    bit_or (bit_or (0b11001 * 2 ^ 11) (low_bits rn 3 * 2 ^ 8)) (low_bits registers 8)

unfoldable pub opcode_ldr_reg : ℕ → ℕ → ℕ → ℕ
opcode_ldr_reg rt rn rm =
    bit_or (bit_or (bit_or (0b0101100 * 2 ^ 9) (low_bits rm 3 * 2 ^ 6)) (low_bits rn 3 * 2 ^ 3))
      (low_bits rt 3)

unfoldable pub opcode_ldr_imm : ℕ → ℕ → ℕ → ℕ
opcode_ldr_imm rt rn imm5 =
    bit_or
      (bit_or (bit_or (0b01101 * 2 ^ 11) (low_bits (imm5 / 2 ^ 2) 5 * 2 ^ 6))
        (low_bits rn 3 * 2 ^ 3))
      (low_bits rt 3)

unfoldable pub opcode_ldr_lit : ℕ → ℕ → ℕ
opcode_ldr_lit rt imm8 =
    bit_or (bit_or (0b01001 * 2 ^ 11) (low_bits (imm8 / 2 ^ 2) 8)) (low_bits rt 3 * 2 ^ 8)

unfoldable pub opcode_ldrb : ℕ → ℕ → ℕ → ℕ
opcode_ldrb rt rn imm5 =
    bit_or (bit_or (bit_or (0b01111 * 2 ^ 11) (low_bits imm5 5 * 2 ^ 6)) (low_bits rn 3 * 2 ^ 3))
      (low_bits rt 3)

unfoldable pub opcode_ldr_sp : ℕ → ℕ → ℕ
opcode_ldr_sp rt imm8 =
    bit_or (bit_or (0b10011 * 2 ^ 11) (low_bits rt 3 * 2 ^ 8)) (low_bits (imm8 / 2 ^ 2) 8)

unfoldable pub opcode_ldrb_reg : ℕ → ℕ → ℕ → ℕ
opcode_ldrb_reg rt rn rm =
    bit_or (bit_or (bit_or (0b0101110 * 2 ^ 9) (low_bits rm 3 * 2 ^ 6)) (low_bits rn 3 * 2 ^ 3))
      (low_bits rt 3)

unfoldable pub opcode_ldrh : ℕ → ℕ → ℕ → ℕ
opcode_ldrh rt rn imm5 =
    bit_or
      (bit_or (bit_or (0b10001 * 2 ^ 11) (low_bits (imm5 / 2 ^ 1) 4 * 2 ^ 6))
        (low_bits rn 3 * 2 ^ 3))
      (low_bits rt 3)

unfoldable pub opcode_ldrh_reg : ℕ → ℕ → ℕ → ℕ
opcode_ldrh_reg rt rn rm =
    bit_or (bit_or (bit_or (0b0101101 * 2 ^ 9) (low_bits rm 3 * 2 ^ 6)) (low_bits rn 3 * 2 ^ 3))
      (low_bits rt 3)

unfoldable pub opcode_ldrsb : ℕ → ℕ → ℕ → ℕ
opcode_ldrsb rt rn rm =
    bit_or (bit_or (bit_or (0b0101011 * 2 ^ 9) (low_bits rm 3 * 2 ^ 6)) (low_bits rn 3 * 2 ^ 3))
      (low_bits rt 3)

unfoldable pub opcode_ldrsh : ℕ → ℕ → ℕ → ℕ
opcode_ldrsh rt rn rm =
    bit_or (bit_or (bit_or (0b0101111 * 2 ^ 9) (low_bits rm 3 * 2 ^ 6)) (low_bits rn 3 * 2 ^ 3))
      (low_bits rt 3)

unfoldable pub opcode_lsls_reg : ℕ → ℕ → ℕ
opcode_lsls_reg rdn rm =
    bit_or (bit_or (0b0100000010 * 2 ^ 6) (low_bits rm 3 * 2 ^ 3)) (low_bits rdn 3)

unfoldable pub opcode_lsls_imm : ℕ → ℕ → ℕ → ℕ
opcode_lsls_imm rd rm imm5 =
    bit_or (bit_or (bit_or (0b00000 * 2 ^ 11) (low_bits imm5 5 * 2 ^ 6)) (low_bits rm 3 * 2 ^ 3))
      (low_bits rd 3)

unfoldable pub opcode_lsrs : ℕ → ℕ → ℕ → ℕ
opcode_lsrs rd rm imm5 =
    bit_or (bit_or (bit_or (0b00001 * 2 ^ 11) (low_bits imm5 5 * 2 ^ 6)) (low_bits rm 3 * 2 ^ 3))
      (low_bits rd 3)

unfoldable pub opcode_lsrs_reg : ℕ → ℕ → ℕ
opcode_lsrs_reg rdn rm =
    bit_or (bit_or (0b0100000011 * 2 ^ 6) (low_bits rm 3 * 2 ^ 3)) (low_bits rdn 3)

unfoldable pub opcode_mov : ℕ → ℕ → ℕ
opcode_mov rd rm =
    bit_or
      (bit_or (bit_or (0b01000110 * 2 ^ 8) ((if ltb 0 (bit_and rd 0x8) then 1 else 0) * 2 ^ 7))
        (rm * 2 ^ 3))
      (low_bits rd 3)

unfoldable pub opcode_movs : ℕ → ℕ → ℕ
opcode_movs rd imm8 = bit_or (bit_or (0b00100 * 2 ^ 11) (low_bits rd 3 * 2 ^ 8)) (low_bits imm8 8)

unfoldable pub opcode_movs_reg : ℕ → ℕ → ℕ
opcode_movs_reg rd rm =
    bit_or (bit_or (0b000000000 * 2 ^ 6) (low_bits rm 3 * 2 ^ 3)) (low_bits rd 3)

unfoldable pub opcode_mrs : ℕ → ℕ → ℕ
opcode_mrs rd spec_reg =
    bit_or
      (bit_or (bit_or (0b1000 * 2 ^ 28) (low_bits rd 4 * 2 ^ 24)) (low_bits spec_reg 8 * 2 ^ 16))
      0b1111001111101111

unfoldable pub opcode_msr : ℕ → ℕ → ℕ
opcode_msr spec_reg rn =
    bit_or
      (bit_or (bit_or (0b10001000 * 2 ^ 24) (low_bits spec_reg 8 * 2 ^ 16))
        (0b111100111000 * 2 ^ 4))
      (low_bits rn 4)

unfoldable pub opcode_muls : ℕ → ℕ → ℕ
opcode_muls rn rdm = bit_or (bit_or (0b0100001101 * 2 ^ 6) (low_bits rn 3 * 2 ^ 3)) (low_bits rdm 3)

unfoldable pub opcode_mvns : ℕ → ℕ → ℕ
opcode_mvns rd rm = bit_or (bit_or (0b0100001111 * 2 ^ 6) (low_bits rm 3 * 2 ^ 3)) (low_bits rd 3)

abbrev pub opcode_nop : ℕ
opcode_nop = 0b1011111100000000

unfoldable pub opcode_orrs : ℕ → ℕ → ℕ
opcode_orrs rn rm = bit_or (bit_or (0b0100001100 * 2 ^ 6) (low_bits rm 3 * 2 ^ 3)) (low_bits rn 3)

unfoldable pub opcode_pop : Bool → ℕ → ℕ
opcode_pop p register_list =
    bit_or (bit_or (0b1011110 * 2 ^ 9) ((if p then 1 else 0) * 2 ^ 8)) register_list

unfoldable pub opcode_push : Bool → ℕ → ℕ
opcode_push m register_list =
    bit_or (bit_or (0b1011010 * 2 ^ 9) ((if m then 1 else 0) * 2 ^ 8)) register_list

unfoldable pub opcode_rev : ℕ → ℕ → ℕ
opcode_rev rd rn = bit_or (bit_or (0b1011101000 * 2 ^ 6) (low_bits rn 3 * 2 ^ 3)) (low_bits rd 3)

unfoldable pub opcode_rev16 : ℕ → ℕ → ℕ
opcode_rev16 rd rn = bit_or (bit_or (0b1011101001 * 2 ^ 6) (low_bits rn 3 * 2 ^ 3)) (low_bits rd 3)

unfoldable pub opcode_revsh : ℕ → ℕ → ℕ
opcode_revsh rd rn = bit_or (bit_or (0b1011101011 * 2 ^ 6) (low_bits rn 3 * 2 ^ 3)) (low_bits rd 3)

unfoldable pub opcode_ror : ℕ → ℕ → ℕ
opcode_ror rdn rm = bit_or (bit_or (0b0100000111 * 2 ^ 6) (low_bits rm 3 * 2 ^ 3)) (low_bits rdn 3)

unfoldable pub opcode_rsbs : ℕ → ℕ → ℕ
opcode_rsbs rd rn = bit_or (bit_or (0b0100001001 * 2 ^ 6) (low_bits rn 3 * 2 ^ 3)) (low_bits rd 3)
