-- ===== src/Assembler/AtoK.antt =====
-- utils/assembler.ts: the encoders from `opcodeADCS` to `opcodeISBSY`.
-- An immediate that may be negative is passed as its pattern of 32 bits.
use rp2350js.Base.{ℕ, ◌-◌, ◌*◌, ◌/◌, ◌^◌, bit_and, bit_or, bit_xor, low_bits, is_neg}
use rp2350js.Base.{if◌then◌else◌}

unfoldable pub opcode_adcs : ℕ → ℕ → ℕ
opcode_adcs rdn rm = bit_or (bit_or (0b0100000101 * 2 ^ 6) (low_bits rm 3 * 2 ^ 3)) (low_bits rdn 3)

unfoldable pub opcode_adds1 : ℕ → ℕ → ℕ → ℕ
opcode_adds1 rd rn imm3 =
    bit_or (bit_or (bit_or (0b0001110 * 2 ^ 9) (low_bits imm3 3 * 2 ^ 6)) (low_bits rn 3 * 2 ^ 3))
      (low_bits rd 3)

unfoldable pub opcode_adds2 : ℕ → ℕ → ℕ
opcode_adds2 rdn imm8 =
    bit_or (bit_or (0b00110 * 2 ^ 11) (low_bits rdn 3 * 2 ^ 8)) (low_bits imm8 8)

unfoldable pub opcode_add_sp_plus_imm : ℕ → ℕ → ℕ
opcode_add_sp_plus_imm rd imm8 =
    bit_or (bit_or (0b10101 * 2 ^ 11) (low_bits rd 3 * 2 ^ 8)) (low_bits (imm8 / 2 ^ 2) 8)

unfoldable pub opcode_add_sp2 : ℕ → ℕ
opcode_add_sp2 imm = bit_or (0b101100000 * 2 ^ 7) (low_bits (imm / 2 ^ 2) 7)

unfoldable pub opcode_adds_reg : ℕ → ℕ → ℕ → ℕ
opcode_adds_reg rd rn rm =
    bit_or (bit_or (bit_or (0b0001100 * 2 ^ 9) (low_bits rm 3 * 2 ^ 6)) (low_bits rn 3 * 2 ^ 3))
      (low_bits rd 3)

unfoldable pub opcode_add_reg : ℕ → ℕ → ℕ
opcode_add_reg rdn rm =
    bit_or (bit_or (bit_or (0b01000100 * 2 ^ 8) (bit_and rdn 0x8 * 2 ^ 4)) (low_bits rm 4 * 2 ^ 3))
      (low_bits rdn 3)

unfoldable pub opcode_adr : ℕ → ℕ → ℕ
opcode_adr rd imm8 =
    bit_or (bit_or (0b10100 * 2 ^ 11) (low_bits rd 3 * 2 ^ 8)) (low_bits (imm8 / 2 ^ 2) 8)

unfoldable pub opcode_ands : ℕ → ℕ → ℕ
opcode_ands rn rm = bit_or (bit_or (0b0100000000 * 2 ^ 6) (low_bits rm 3 * 2 ^ 3)) (low_bits rn 3)

unfoldable pub opcode_asrs : ℕ → ℕ → ℕ → ℕ
opcode_asrs rd rm imm5 =
    bit_or (bit_or (bit_or (0b00010 * 2 ^ 11) (low_bits imm5 5 * 2 ^ 6)) (low_bits rm 3 * 2 ^ 3))
      (low_bits rd 3)

unfoldable pub opcode_asrs_reg : ℕ → ℕ → ℕ
opcode_asrs_reg rdn rm =
    bit_or (bit_or (bit_or (0b0100000100 * 2 ^ 6) (low_bits rm 3 * 2 ^ 3)) (low_bits rm 3 * 2 ^ 3))
      (low_bits rdn 3)

unfoldable pub opcode_bt1 : ℕ → ℕ → ℕ
opcode_bt1 cond imm8 =
    bit_or (bit_or (0b1101 * 2 ^ 12) (low_bits cond 4 * 2 ^ 8)) (low_bits (imm8 / 2 ^ 1) 9)

unfoldable pub opcode_bt2 : ℕ → ℕ
opcode_bt2 imm11 = bit_or (0b11100 * 2 ^ 11) (low_bits (imm11 / 2 ^ 1) 11)

unfoldable pub opcode_bics : ℕ → ℕ → ℕ
opcode_bics rdn rm = bit_or (bit_or (0b0100001110 * 2 ^ 6) (low_bits rm 3 * 2 ^ 3)) (low_bits rdn 3)

-- `imm` is the byte offset as a pattern of 32 bits: its sign is bit 31.
unfoldable pub opcode_bl : ℕ → ℕ
opcode_bl imm =
    let imm11 = low_bits (imm / 2 ^ 1) 11 in
    let imm10 = low_bits (imm / 2 ^ 12) 10 in
    let s = if is_neg imm then 1 else 0 in
    let j2 = 1 - bit_xor (low_bits (imm / 2 ^ 22) 1) s in
    let j1 = 1 - bit_xor (low_bits (imm / 2 ^ 23) 1) s in
    bit_or
      (bit_or
        (bit_or
          (bit_or (bit_or (bit_or (0b1101 * 2 ^ 28) (j1 * 2 ^ 29)) (j2 * 2 ^ 27)) (imm11 * 2 ^ 16))
          (0b11110 * 2 ^ 11))
        (s * 2 ^ 10))
      imm10

unfoldable pub opcode_blx : ℕ → ℕ
opcode_blx rm = bit_or (0b010001111 * 2 ^ 7) (rm * 2 ^ 3)

unfoldable pub opcode_bx : ℕ → ℕ
opcode_bx rm = bit_or (0b010001110 * 2 ^ 7) (rm * 2 ^ 3)

unfoldable pub opcode_cmn : ℕ → ℕ → ℕ
opcode_cmn rn rm = bit_or (bit_or (0b0100001011 * 2 ^ 6) (low_bits rm 3 * 2 ^ 3)) (low_bits rn 3)

unfoldable pub opcode_cmp_imm : ℕ → ℕ → ℕ
opcode_cmp_imm rn imm8 =
    bit_or (bit_or (0b00101 * 2 ^ 11) (low_bits rn 3 * 2 ^ 8)) (low_bits imm8 8)

unfoldable pub opcode_cmp_reg_t1 : ℕ → ℕ → ℕ
opcode_cmp_reg_t1 rn rm =
    bit_or (bit_or (0b0100001010 * 2 ^ 6) (low_bits rm 3 * 2 ^ 3)) (low_bits rn 3)

unfoldable pub opcode_cmp_reg_t2 : ℕ → ℕ → ℕ
opcode_cmp_reg_t2 rn rm =
    bit_or
      (bit_or (bit_or (0b01000101 * 2 ^ 8) (low_bits (rn / 2 ^ 3) 1 * 2 ^ 7))
        (low_bits rm 4 * 2 ^ 3))
      (low_bits rn 3)

abbrev pub opcode_dmbsy : ℕ
opcode_dmbsy = 0x8f50f3bf

abbrev pub opcode_dsbsy : ℕ
opcode_dsbsy = 0x8f4ff3bf

unfoldable pub opcode_eors : ℕ → ℕ → ℕ
opcode_eors rdn rm = bit_or (bit_or (0b0100000001 * 2 ^ 6) (low_bits rm 3 * 2 ^ 3)) (low_bits rdn 3)

abbrev pub opcode_isbsy : ℕ
opcode_isbsy = 0x8f6ff3bf
