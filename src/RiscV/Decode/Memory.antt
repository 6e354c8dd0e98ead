-- ===== src/RiscV/Decode/Memory.antt =====
-- riscv/decode.ts: loads, stores and atomics in `decodeStandard`. `none` is a thrown error.
use rp2350js.Base.{Option, field, if◌then◌else◌, none, not, some, ℕ, ◌==◌}
use rp2350js.RiscV.Decode.Fields.{emit, func3, imm_i, imm_s, len_32, rd, rs1, rs2}
use rp2350js.RiscV.Tags.{t_amoadd_w, t_amoand_w, t_amomax_w, t_amomaxu_w, t_amomin_w, t_amominu_w}
use rp2350js.RiscV.Tags.{t_amoor_w, t_amoswap_w, t_amoxor_w, t_lb, t_lbu, t_lh, t_lhu, t_lr_w}
use rp2350js.RiscV.Tags.{t_lw, t_sb, t_sc_w, t_sh, t_sw}

-- LOAD
unfoldable pub decode_load : ℕ → Option ℕ
decode_load i =
    if func3 i == 0
    then some (emit t_lb (rd i) (rs1 i) 0 (imm_i i) len_32)
    else if func3 i == 1
    then some (emit t_lh (rd i) (rs1 i) 0 (imm_i i) len_32)
    else if func3 i == 2
    then some (emit t_lw (rd i) (rs1 i) 0 (imm_i i) len_32)
    else if func3 i == 4
    then some (emit t_lbu (rd i) (rs1 i) 0 (imm_i i) len_32)
    else if func3 i == 5
    then some (emit t_lhu (rd i) (rs1 i) 0 (imm_i i) len_32)
    else none

unfoldable pub decode_store : ℕ → Option ℕ
decode_store i =
    if func3 i == 0
    then some (emit t_sb 0 (rs1 i) (rs2 i) (imm_s i) len_32)
    else if func3 i == 1
    then some (emit t_sh 0 (rs1 i) (rs2 i) (imm_s i) len_32)
    else if func3 i == 2
    then some (emit t_sw 0 (rs1 i) (rs2 i) (imm_s i) len_32)
    else none

unfoldable pub decode_amo : ℕ → Option ℕ
decode_amo i =
    if not (func3 i == 2)
    then none
    else if field i 27 5 == 0x02
    then some (emit t_lr_w (rd i) (rs1 i) 0 0 len_32)
    else if field i 27 5 == 0x03
    then some (emit t_sc_w (rd i) (rs1 i) (rs2 i) 0 len_32)
    else if field i 27 5 == 0x00
    then some (emit t_amoadd_w (rd i) (rs1 i) (rs2 i) 0 len_32)
    else if field i 27 5 == 0x01
    then some (emit t_amoswap_w (rd i) (rs1 i) (rs2 i) 0 len_32)
    else if field i 27 5 == 0x04
    then some (emit t_amoxor_w (rd i) (rs1 i) (rs2 i) 0 len_32)
    else if field i 27 5 == 0x08
    then some (emit t_amoor_w (rd i) (rs1 i) (rs2 i) 0 len_32)
    else if field i 27 5 == 0x0c
    then some (emit t_amoand_w (rd i) (rs1 i) (rs2 i) 0 len_32)
    else if field i 27 5 == 0x10
    then some (emit t_amomin_w (rd i) (rs1 i) (rs2 i) 0 len_32)
    else if field i 27 5 == 0x14
    then some (emit t_amomax_w (rd i) (rs1 i) (rs2 i) 0 len_32)
    else if field i 27 5 == 0x18
    then some (emit t_amominu_w (rd i) (rs1 i) (rs2 i) 0 len_32)
    else if field i 27 5 == 0x1c
    then some (emit t_amomaxu_w (rd i) (rs1 i) (rs2 i) 0 len_32)
    else none
