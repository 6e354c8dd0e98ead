-- ===== src/RiscV/Decode/Op.antt =====
-- riscv/decode.ts: the OP instructions in `decodeStandard`. `none` is a thrown error.
use rp2350js.Base.{Option, if◌then◌else◌, none, some, ℕ, ◌&&◌, ◌==◌}
use rp2350js.RiscV.Decode.Fields.{emit, func3, func7, len_32, rd, rs1, rs2}
use rp2350js.RiscV.Tags.{t_add, t_and, t_andn, t_bclr, t_bext, t_binv, t_bset, t_div, t_divu}
use rp2350js.RiscV.Tags.{t_h3_block, t_h3_unblock, t_max, t_maxu, t_min, t_minu, t_mul, t_mulh}
use rp2350js.RiscV.Tags.{t_mulhsu, t_mulhu, t_or, t_orn, t_pack, t_packh, t_rem, t_remu, t_rol}
use rp2350js.RiscV.Tags.{t_ror, t_sh1add, t_sh2add, t_sh3add, t_sll, t_slt, t_sltu, t_sra, t_srl}
use rp2350js.RiscV.Tags.{t_sub, t_xnor, t_xor}

unfoldable pub decode_op0 : ℕ → Option ℕ
decode_op0 i =
    if func7 i == 0x00
    then some (emit t_add (rd i) (rs1 i) (rs2 i) 0 len_32)
    else if func7 i == 0x20
    then some (emit t_sub (rd i) (rs1 i) (rs2 i) 0 len_32)
    else if func7 i == 0x01
    then some (emit t_mul (rd i) (rs1 i) (rs2 i) 0 len_32)
    else none

unfoldable pub decode_op1 : ℕ → Option ℕ
decode_op1 i =
    if func7 i == 0x00
    then some (emit t_sll (rd i) (rs1 i) (rs2 i) 0 len_32)
    else if func7 i == 0x01
    then some (emit t_mulh (rd i) (rs1 i) (rs2 i) 0 len_32)
    else if func7 i == 0x14
    then some (emit t_bset (rd i) (rs1 i) (rs2 i) 0 len_32)
    else if func7 i == 0x24
    then some (emit t_bclr (rd i) (rs1 i) (rs2 i) 0 len_32)
    else if func7 i == 0x30
    then some (emit t_rol (rd i) (rs1 i) (rs2 i) 0 len_32)
    else if func7 i == 0x34
    then some (emit t_binv (rd i) (rs1 i) (rs2 i) 0 len_32)
    else none

unfoldable pub decode_op2 : ℕ → Option ℕ
decode_op2 i =
    if func7 i == 0x00
    then (if (rd i == 0) && (rs1 i == 0) && (rs2 i == 0)
        then some (emit t_h3_block 0 0 0 0 len_32)
        else if (rd i == 0) && (rs1 i == 0) && (rs2 i == 1)
        then some (emit t_h3_unblock 0 0 0 0 len_32)
        else some (emit t_slt (rd i) (rs1 i) (rs2 i) 0 len_32))
    else if func7 i == 0x01
    then some (emit t_mulhsu (rd i) (rs1 i) (rs2 i) 0 len_32)
    else if func7 i == 0x10
    then some (emit t_sh1add (rd i) (rs1 i) (rs2 i) 0 len_32)
    else none

unfoldable pub decode_op3 : ℕ → Option ℕ
decode_op3 i =
    if func7 i == 0x00
    then some (emit t_sltu (rd i) (rs1 i) (rs2 i) 0 len_32)
    else if func7 i == 0x01
    then some (emit t_mulhu (rd i) (rs1 i) (rs2 i) 0 len_32)
    else none

unfoldable pub decode_op4 : ℕ → Option ℕ
decode_op4 i =
    if func7 i == 0x00
    then some (emit t_xor (rd i) (rs1 i) (rs2 i) 0 len_32)
    else if func7 i == 0x01
    then some (emit t_div (rd i) (rs1 i) (rs2 i) 0 len_32)
    else if func7 i == 0x10
    then some (emit t_sh2add (rd i) (rs1 i) (rs2 i) 0 len_32)
    else if func7 i == 0x04
    then some (emit t_pack (rd i) (rs1 i) (rs2 i) 0 len_32)
    else if func7 i == 0x05
    then some (emit t_min (rd i) (rs1 i) (rs2 i) 0 len_32)
    else if func7 i == 0x20
    then some (emit t_xnor (rd i) (rs1 i) (rs2 i) 0 len_32)
    else none

unfoldable pub decode_op5 : ℕ → Option ℕ
decode_op5 i =
    if func7 i == 0x00
    then some (emit t_srl (rd i) (rs1 i) (rs2 i) 0 len_32)
    else if func7 i == 0x05
    then some (emit t_minu (rd i) (rs1 i) (rs2 i) 0 len_32)
    else if func7 i == 0x20
    then some (emit t_sra (rd i) (rs1 i) (rs2 i) 0 len_32)
    else if func7 i == 0x24
    then some (emit t_bext (rd i) (rs1 i) (rs2 i) 0 len_32)
    else if func7 i == 0x30
    then some (emit t_ror (rd i) (rs1 i) (rs2 i) 0 len_32)
    else if func7 i == 0x01
    then some (emit t_divu (rd i) (rs1 i) (rs2 i) 0 len_32)
    else none

unfoldable pub decode_op6 : ℕ → Option ℕ
decode_op6 i =
    if func7 i == 0x00
    then some (emit t_or (rd i) (rs1 i) (rs2 i) 0 len_32)
    else if func7 i == 0x01
    then some (emit t_rem (rd i) (rs1 i) (rs2 i) 0 len_32)
    else if func7 i == 0x05
    then some (emit t_max (rd i) (rs1 i) (rs2 i) 0 len_32)
    else if func7 i == 0x20
    then some (emit t_orn (rd i) (rs1 i) (rs2 i) 0 len_32)
    else if func7 i == 0x10
    then some (emit t_sh3add (rd i) (rs1 i) (rs2 i) 0 len_32)
    else none

unfoldable pub decode_op7 : ℕ → Option ℕ
decode_op7 i =
    if func7 i == 0x00
    then some (emit t_and (rd i) (rs1 i) (rs2 i) 0 len_32)
    else if func7 i == 0x20
    then some (emit t_andn (rd i) (rs1 i) (rs2 i) 0 len_32)
    else if func7 i == 0x04
    then some (emit t_packh (rd i) (rs1 i) (rs2 i) 0 len_32)
    else if func7 i == 0x05
    then some (emit t_maxu (rd i) (rs1 i) (rs2 i) 0 len_32)
    else if func7 i == 0x01
    then some (emit t_remu (rd i) (rs1 i) (rs2 i) 0 len_32)
    else none

-- OP
unfoldable pub decode_op : ℕ → Option ℕ
unfolding decode_op0 decode_op1 decode_op2 decode_op3 decode_op4 decode_op5 decode_op6 decode_op7
decode_op i =
    if func3 i == 0
    then decode_op0 i
    else if func3 i == 1
    then decode_op1 i
    else if func3 i == 2
    then decode_op2 i
    else if func3 i == 3
    then decode_op3 i
    else if func3 i == 4
    then decode_op4 i
    else if func3 i == 5
    then decode_op5 i
    else if func3 i == 6
    then decode_op6 i
    else if func3 i == 7
    then decode_op7 i
    else none
