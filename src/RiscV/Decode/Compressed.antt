-- ===== src/RiscV/Decode/Compressed.antt =====
-- riscv/decode.ts: the compressed instructions. `none` is a thrown error. An `|` of fields in
-- different places is written as a sum.
use rp2350js.Base.{ℕ, ◌+◌, ◌-◌, ◌*◌, ◌^◌, Option, some, none, ◌&&◌, bit_or, bit_and}
use rp2350js.Base.{if◌then◌else◌, ◌==◌, low_bits, field, shr, test_bit, two32}
use rp2350js.RiscV.Decode.Fields.{emit, len_16}
use rp2350js.RiscV.Tags.{t_add, t_addi, t_and, t_andi, t_beq, t_bne, t_cm_mva01s, t_cm_mvsa01}
use rp2350js.RiscV.Tags.{t_cm_pop, t_cm_popret, t_cm_popretz, t_cm_push, t_ebreak, t_invalid, t_jal}
use rp2350js.RiscV.Tags.{t_jalr, t_lbu, t_lh, t_lhu, t_lui, t_lw, t_mul, t_or, t_sb, t_sext_b}
use rp2350js.RiscV.Tags.{t_sext_h, t_sh, t_slli, t_srai, t_srli, t_sub, t_sw, t_xor, t_xori}
use rp2350js.RiscV.Tags.{t_zext_h}

abbrev pub dec_rd : ℕ → ℕ
dec_rd i = field i 7 5

abbrev pub dec_rs2 : ℕ → ℕ
dec_rs2 i = field i 2 5

-- `dec_rd_short` and `dec_rs2_short` read the same three bits.
abbrev pub dec_rd_short : ℕ → ℕ
dec_rd_short i = field i 2 3 + 0b1000

abbrev pub dec_rs1_short : ℕ → ℕ
dec_rs1_short i = field i 7 3 + 0b1000

abbrev pub dec_rs2_short : ℕ → ℕ
dec_rs2_short i = field i 2 3 + 0b1000

-- The loop or-s the sign into every bit above its position.
abbrev pub sign_extend : ℕ → ℕ → ℕ
sign_extend x p = if test_bit x p then bit_or x (two32 - 2 ^ (p + 1)) else x

-- the six bits of CI: 12, and 6 to 2
abbrev pub ci_imm : ℕ → ℕ
ci_imm i = field i 12 1 * 2 ^ 5 + field i 2 5

-- the offset of CL and CS
abbrev pub clsw_imm : ℕ → ℕ
clsw_imm i = field i 5 1 * 2 ^ 6 + field i 10 3 * 2 ^ 3 + field i 6 1 * 2 ^ 2

abbrev pub dec_cj_imm : ℕ → ℕ
dec_cj_imm i =
    sign_extend
      (field i 12 1 * 2 ^ 11
        + field i 8 1 * 2 ^ 10
        + field i 9 2 * 2 ^ 8
        + field i 6 1 * 2 ^ 7
        + field i 7 1 * 2 ^ 6
        + field i 2 1 * 2 ^ 5
        + field i 11 1 * 2 ^ 4
        + field i 3 3 * 2)
      11

abbrev pub dec_branch_imm : ℕ → ℕ
dec_branch_imm i =
    sign_extend
      (field i 12 1 * 2 ^ 8
        + field i 5 2 * 2 ^ 6
        + field i 2 1 * 2 ^ 5
        + field i 10 2 * 2 ^ 3
        + field i 3 2 * 2)
      8

unfoldable pub decode_c0 : ℕ → Option ℕ
decode_c0 i =
    let rd = dec_rd_short i in
    let rs1 = dec_rs1_short i in
    let rs2 = dec_rs2_short i in
    let f3 = field i 13 3 in
    let sub = field i 10 3 in
    if f3 == 0
    then some (
        emit t_addi rd 2 0
          (field i 7 4 * 2 ^ 6 + field i 11 2 * 2 ^ 4 + field i 5 1 * 2 ^ 3 + field i 6 1 * 2 ^ 2)
          len_16)
    else if f3 == 2
    then some (emit t_lw rd rs1 0 (clsw_imm i) len_16)
    else if f3 == 4
    then (if sub == 0b000
        then some (emit t_lbu rd rs1 0 (field i 5 1 * 2 + field i 6 1) len_16)
        else if sub == 0b001
        then some
            (emit (if field i 6 1 == 1 then t_lh else t_lhu) rd rs1 0 (field i 5 1 * 2) len_16)
        else if sub == 0b010
        then some (emit t_sb 0 rs1 rs2 (field i 5 1 * 2 + field i 6 1) len_16)
        else if sub == 0b011
        then (if field i 6 1 == 1
            then none
            else some (emit t_sh 0 rs1 rs2 (field i 5 1 * 2) len_16))
        else none)
    else if f3 == 6
    then some (emit t_sw 0 rs1 rs2 (clsw_imm i) len_16)
    else none

-- case 3 of `decodeC1`: C.ADDI16SP or C.LUI
unfoldable pub decode_c1_lui : ℕ → Option ℕ
decode_c1_lui i =
    if dec_rd i == 2
    then (let imm =
          field i 12 1 * 2 ^ 9
          + field i 3 2 * 2 ^ 7
          + field i 5 1 * 2 ^ 6
          + field i 2 1 * 2 ^ 5
          + field i 6 1 * 2 ^ 4 in
        some (emit t_addi 2 2 0 (low_bits (sign_extend imm 9) 21) len_16))
    else (let imm = sign_extend (field i 12 1 * 2 ^ 17 + field i 2 5 * 2 ^ 12) 17 in
        some (emit t_lui (dec_rd i) 0 0 (low_bits (shr imm 12) 21) len_16))

-- case 4 of `decodeC1`
unfoldable pub decode_c1_misc : ℕ → Option ℕ
decode_c1_misc i =
    let r = dec_rs1_short i in
    let rs2 = dec_rs2_short i in
    let f2 = field i 10 2 in
    let f3 = field i 12 1 * 2 ^ 2 + field i 5 2 in
    let g = field i 2 3 in
    if f2 == 0b00
    then some (emit t_srli r r 0 (ci_imm i) len_16)
    else if f2 == 0b01
    then some (emit t_srai r r 0 (ci_imm i) len_16)
    else if f2 == 0b10
    then some (emit t_andi r r 0 (low_bits (sign_extend (ci_imm i) 5) 21) len_16)
    else if f3 == 0b000
    then some (emit t_sub r r rs2 0 len_16)
    else if f3 == 0b001
    then some (emit t_xor r r rs2 0 len_16)
    else if f3 == 0b010
    then some (emit t_or r r rs2 0 len_16)
    else if f3 == 0b011
    then some (emit t_and r r rs2 0 len_16)
    else if f3 == 0b110
    then some (emit t_mul r r rs2 0 len_16)
    else if f3 == 0b111
    then (if g == 0b000
        then some (emit t_andi r r 0 0xff len_16)
        else if g == 0b001
        then some (emit t_sext_b r r 0 0 len_16)
        else if g == 0b010
        then some (emit t_zext_h r r 0 0 len_16)
        else if g == 0b011
        then some (emit t_sext_h r r 0 0 len_16)
        else if g == 0b101
        then some (emit t_xori r r 0 0x1fffff len_16)
        else some (emit t_invalid 0 0 0 0 len_16))
    else none

unfoldable pub decode_c1 : ℕ → Option ℕ
unfolding decode_c1_lui decode_c1_misc
decode_c1 i =
    let r = dec_rd i in
    let f3 = field i 13 3 in
    if f3 == 0
    then some (emit t_addi r r 0 (low_bits (sign_extend (ci_imm i) 5) 21) len_16)
    else if f3 == 1
    then some (emit t_jal 1 0 0 (low_bits (dec_cj_imm i) 21) len_16)
    else if f3 == 2
    then some (emit t_addi r 0 0 (low_bits (sign_extend (ci_imm i) 5) 21) len_16)
    else if f3 == 3
    then decode_c1_lui i
    else if f3 == 4
    then decode_c1_misc i
    else if f3 == 5
    then some (emit t_jal 0 0 0 (low_bits (dec_cj_imm i) 21) len_16)
    else if f3 == 6
    then some (emit t_beq 0 (dec_rs1_short i) 0 (low_bits (dec_branch_imm i) 21) len_16)
    else some (emit t_bne 0 (dec_rs1_short i) 0 (low_bits (dec_branch_imm i) 21) len_16)

-- case 5 of `decodeC2`: Zcmp
unfoldable pub decode_c2_zcmp : ℕ → Option ℕ
decode_c2_zcmp i =
    let masked = bit_and i 0b1111111100000011 in
    let masked2 = bit_and i 0b1111110001100011 in
    let rlist = field i 4 4 in
    let adj = field i 2 2 * 2 ^ 4 in
    let r1s = 8 + field i 7 1 in
    let r2s = 8 + field i 2 1 in
    if masked == 0b1011100000000010
    then some (emit t_cm_push 0 0 rlist adj len_16)
    else if masked == 0b1011101000000010
    then some (emit t_cm_pop 0 0 rlist adj len_16)
    else if masked == 0b1011110000000010
    then some (emit t_cm_popretz 0 0 rlist adj len_16)
    else if masked == 0b1011111000000010
    then some (emit t_cm_popret 0 0 rlist adj len_16)
    else if masked2 == 0b1010110000100010
    then some (emit t_cm_mvsa01 r1s r2s 10 11 len_16)
    else if masked2 == 0b1010110001100010
    then some (emit t_cm_mva01s 10 11 r1s r2s len_16)
    else none

unfoldable pub decode_c2 : ℕ → Option ℕ
unfolding decode_c2_zcmp
decode_c2 i =
    let r = dec_rd i in
    let rs2 = dec_rs2 i in
    let f3 = field i 13 3 in
    let f4 = field i 12 4 in
    if f3 == 0
    then some (emit t_slli r r 0 (ci_imm i) len_16)
    else if f3 == 2
    then some
        (emit t_lw r 2 0 (field i 12 1 * 2 ^ 5 + field i 4 3 * 2 ^ 2 + field i 2 2 * 2 ^ 6) len_16)
    else if f3 == 4
    then (if f4 == 0b1000
        then (if rs2 == 0
            then some (emit t_jalr 0 r 0 0 len_16)
            else some (emit t_add r 0 rs2 0 len_16))
        else if f4 == 0b1001
        then (if (r == 0) && (rs2 == 0)
            then some (emit t_ebreak 0 0 0 0 len_16)
            else if rs2 == 0
            then some (emit t_jalr 1 r 0 0 len_16)
            else some (emit t_add r r rs2 0 len_16))
        else some (emit t_addi 0 0 0 0 len_16))
    else if f3 == 5
    then decode_c2_zcmp i
    else if f3 == 6
    then some (emit t_sw 0 2 rs2 (field i 7 2 * 2 ^ 6 + field i 9 4 * 2 ^ 2) len_16)
    else none

unfoldable pub decode_compressed : ℕ → Option ℕ
unfolding decode_c0 decode_c1 decode_c2
decode_compressed i =
    let q = low_bits i 2 in
    if i == 0
    then none
    else if q == 0
    then decode_c0 i
    else if q == 1
    then decode_c1 i
    else if q == 2
    then decode_c2 i
    else none
