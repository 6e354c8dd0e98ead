-- ===== src/RiscV/Decode/Standard.antt =====
-- riscv/decode.ts: branches, system and custom instructions, and `decodeStandard`. `none` is a thrown error.
use rp2350js.Base.{Option, bit_and, field, if◌then◌else◌, none, not, some, ℕ, ◌*◌, ◌+◌, ◌==◌, ◌^◌}
use rp2350js.RiscV.Decode.Fields.{emit, func3, imm_b, imm_i, imm_j, imm_u, imm_u12, len_32, opcode}
use rp2350js.RiscV.Decode.Fields.{rd, rs1, rs2}
use rp2350js.RiscV.Tags.{t_auipc, t_beq, t_bge, t_bgeu, t_blt, t_bltu, t_bne, t_csrrc, t_csrrci}
use rp2350js.RiscV.Tags.{t_csrrs, t_csrrsi, t_csrrw, t_csrwi, t_ebreak, t_ecall, t_fence}
use rp2350js.RiscV.Tags.{t_h3_bextm, t_h3_bextmi, t_jal, t_jalr, t_lui, t_mret, t_wfi}
use rp2350js.RiscV.Decode.Memory.{decode_load, decode_store, decode_amo}
use rp2350js.RiscV.Decode.OpImm.{decode_op_imm}
use rp2350js.RiscV.Decode.Op.{decode_op}

unfoldable pub decode_branch : ℕ → Option ℕ
decode_branch i =
    if func3 i == 0
    then some (emit t_beq 0 (rs1 i) (rs2 i) (imm_b i) len_32)
    else if func3 i == 1
    then some (emit t_bne 0 (rs1 i) (rs2 i) (imm_b i) len_32)
    else if func3 i == 4
    then some (emit t_blt 0 (rs1 i) (rs2 i) (imm_b i) len_32)
    else if func3 i == 5
    then some (emit t_bge 0 (rs1 i) (rs2 i) (imm_b i) len_32)
    else if func3 i == 6
    then some (emit t_bltu 0 (rs1 i) (rs2 i) (imm_b i) len_32)
    else if func3 i == 7
    then some (emit t_bgeu 0 (rs1 i) (rs2 i) (imm_b i) len_32)
    else none

unfoldable pub decode_system : ℕ → Option ℕ
decode_system i =
    if func3 i == 0
    then (if i == 0x30200073
        then some (emit t_mret 0 0 0 0 len_32)
        else if i == 0x73
        then some (emit t_ecall 0 0 0 0 len_32)
        else if i == 0x100073
        then some (emit t_ebreak 0 0 0 0 len_32)
        else if i == 0x10500073
        then some (emit t_wfi 0 0 0 0 len_32)
        else none)
    else if func3 i == 1
    then some (emit t_csrrw (rd i) (rs1 i) 0 (imm_u12 i) len_32)
    else if func3 i == 2
    then some (emit t_csrrs (rd i) (rs1 i) 0 (imm_u12 i) len_32)
    else if func3 i == 3
    then some (emit t_csrrc (rd i) (rs1 i) 0 (imm_u12 i) len_32)
    else if func3 i == 5
    then some (emit t_csrwi (rd i) 0 0 (imm_u12 i * 2 ^ 5 + rs1 i) len_32)
    else if func3 i == 6
    then some (emit t_csrrsi (rd i) 0 0 (imm_u12 i * 2 ^ 5 + rs1 i) len_32)
    else if func3 i == 7
    then some (emit t_csrrci (rd i) 0 0 (imm_u12 i * 2 ^ 5 + rs1 i) len_32)
    else none

unfoldable pub decode_custom0 : ℕ → Option ℕ
decode_custom0 i =
    if bit_and i 0b11100010000000000111000001111111 == 0b00000000000000000000000000001011
    then some (emit t_h3_bextm (rd i) (rs1 i) (rs2 i) (field i 26 3 * 2) len_32)
    else if bit_and i 0b11100010000000000111000001111111 == 0b00000000000000000100000000001011
    then some (emit t_h3_bextmi (rd i) (rs1 i) (rs2 i) (field i 26 3 * 2) len_32)
    else none

unfoldable pub decode_standard : ℕ → Option ℕ
unfolding decode_load decode_op_imm decode_store decode_amo decode_op decode_branch decode_system
    decode_custom0
decode_standard i =
    if opcode i == 0x03
    then decode_load i
    else if opcode i == 0x0f
    then some (emit t_fence 0 0 0 0 len_32)
    else if opcode i == 0x13
    then decode_op_imm i
    else if opcode i == 0x17
    then some (emit t_auipc (rd i) 0 0 (imm_u i) len_32)
    else if opcode i == 0x23
    then decode_store i
    else if opcode i == 0x2f
    then decode_amo i
    else if opcode i == 0x33
    then decode_op i
    else if opcode i == 0x37
    then some (emit t_lui (rd i) 0 0 (imm_u i) len_32)
    else if opcode i == 0x63
    then decode_branch i
    else if opcode i == 0x67
    then (if not (func3 i == 0) then none else some (emit t_jalr (rd i) (rs1 i) 0 (imm_i i) len_32))
    else if opcode i == 0x6f
    then some (emit t_jal (rd i) 0 0 (imm_j i) len_32)
    else if opcode i == 0x73
    then decode_system i
    else if opcode i == 0x0b
    then decode_custom0 i
    else none
