-- ===== src/RiscV/Decode/OpImm.antt =====
-- riscv/decode.ts: the OP-IMM instructions in `decodeStandard`. `none` is a thrown error.
use rp2350js.Base.{Option, bit_and, if◌then◌else◌, none, some, ℕ, ◌==◌}
use rp2350js.RiscV.Decode.Fields.{emit, func3, func7, imm_i, imm_u12, len_32, rd, rs1, shamt}
use rp2350js.RiscV.Tags.{t_addi, t_andi, t_bclri, t_bexti, t_binvi, t_brev8, t_bseti, t_clz}
use rp2350js.RiscV.Tags.{t_cpop, t_ctz, t_orc_b, t_ori, t_rev8, t_rori, t_sext_b, t_sext_h, t_slli}
use rp2350js.RiscV.Tags.{t_slti, t_sltiu, t_srai, t_srli, t_unzip, t_xori, t_zip}

-- OP-IMM with func3 = 1
unfoldable pub decode_op_imm1 : ℕ → Option ℕ
decode_op_imm1 i =
    if func7 i == 0x00
    then some (emit t_slli (rd i) (rs1 i) 0 (shamt i) len_32)
    else if func7 i == 0x14
    then some (emit t_bseti (rd i) (rs1 i) 0 (shamt i) len_32)
    else if func7 i == 0x24
    then some (emit t_bclri (rd i) (rs1 i) 0 (shamt i) len_32)
    else if func7 i == 0x34
    then some (emit t_binvi (rd i) (rs1 i) 0 (shamt i) len_32)
    else if imm_u12 i == 0b011000000001
    then some (emit t_ctz (rd i) (rs1 i) 0 0 len_32)
    else if imm_u12 i == 0b011000000010
    then some (emit t_cpop (rd i) (rs1 i) 0 0 len_32)
    else if imm_u12 i == 0b011000000101
    then some (emit t_sext_h (rd i) (rs1 i) 0 0 len_32)
    else if imm_u12 i == 0b011000000100
    then some (emit t_sext_b (rd i) (rs1 i) 0 0 len_32)
    else if bit_and i 0b11111111111100000111000001111111 == 0b01100000000000000001000000010011
    then some (emit t_clz (rd i) (rs1 i) 0 0 len_32)
    else if imm_u12 i == 0b000010001111
    then some (emit t_zip (rd i) (rs1 i) 0 0 len_32)
    else none

-- OP-IMM with func3 = 5
unfoldable pub decode_op_imm5 : ℕ → Option ℕ
decode_op_imm5 i =
    if func7 i == 0x00
    then some (emit t_srli (rd i) (rs1 i) 0 (shamt i) len_32)
    else if func7 i == 0x20
    then some (emit t_srai (rd i) (rs1 i) 0 (shamt i) len_32)
    else if func7 i == 0x24
    then some (emit t_bexti (rd i) (rs1 i) 0 (shamt i) len_32)
    else if func7 i == 0x30
    then some (emit t_rori (rd i) (rs1 i) 0 (shamt i) len_32)
    else if imm_u12 i == 0x698
    then some (emit t_rev8 (rd i) (rs1 i) 0 0 len_32)
    else if imm_u12 i == 0x687
    then some (emit t_brev8 (rd i) (rs1 i) 0 0 len_32)
    else if imm_u12 i == 0x287
    then some (emit t_orc_b (rd i) (rs1 i) 0 0 len_32)
    else if imm_u12 i == 0b000010001111
    then some (emit t_unzip (rd i) (rs1 i) 0 0 len_32)
    else none

unfoldable pub decode_op_imm : ℕ → Option ℕ
unfolding decode_op_imm1 decode_op_imm5
decode_op_imm i =
    if func3 i == 0
    then some (emit t_addi (rd i) (rs1 i) 0 (imm_i i) len_32)
    else if func3 i == 1
    then decode_op_imm1 i
    else if func3 i == 2
    then some (emit t_slti (rd i) (rs1 i) 0 (imm_i i) len_32)
    else if func3 i == 3
    then some (emit t_sltiu (rd i) (rs1 i) 0 (imm_i i) len_32)
    else if func3 i == 4
    then some (emit t_xori (rd i) (rs1 i) 0 (imm_i i) len_32)
    else if func3 i == 5
    then decode_op_imm5 i
    else if func3 i == 6
    then some (emit t_ori (rd i) (rs1 i) 0 (imm_i i) len_32)
    else if func3 i == 7
    then some (emit t_andi (rd i) (rs1 i) 0 (imm_i i) len_32)
    else none
