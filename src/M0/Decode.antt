-- ===== src/M0/Decode.antt =====
-- cortex-m0-core.ts: the tests of the `else if` chain of `executeInstruction`, in its order, and the
-- operand fields that each branch reads from the opcode.
use rp2350js.Base.{ℕ, ◌+◌, ◌*◌, not, ◌&&◌, if◌then◌else◌}
use rp2350js.Base.{◌==◌, shr, low_bits, field}
use rp2350js.M0.Instr.{Instr}

-- An `|` of fields that share no bit is written as a sum. `op2` is the second halfword, which is 0
-- for an instruction of 16 bits. The chain is cut at the instructions after which its parts are
-- named.
unfoldable pub decode_from_svc : ℕ → ℕ → Instr
decode_from_svc op op2 =
    if shr op 8 == 0b11011111
    then Instr.svc
    else if shr op 6 == 0b1011001001
    then Instr.sxtb (field op 3 3) (low_bits op 3)
    else if shr op 6 == 0b1011001000
    then Instr.sxth (field op 3 3) (low_bits op 3)
    else if shr op 6 == 0b0100001000
    then Instr.tst (field op 3 3) (low_bits op 3)
    else if shr op 8 == 0b11011110
    then Instr.udf (low_bits op 8)
    else if (shr op 4 == 0b111101111111) && (shr op2 12 == 0b1010)
    then Instr.udf2 (low_bits op 4) (low_bits op2 12)
    else if shr op 6 == 0b1011001011
    then Instr.uxtb (field op 3 3) (low_bits op 3)
    else if shr op 6 == 0b1011001010
    then Instr.uxth (field op 3 3) (low_bits op 3)
    else if op == 0b1011111100100000
    then Instr.wfe
    else if op == 0b1011111100110000
    then Instr.wfi
    else if op == 0b1011111100010000
    then Instr.yield_hint
    else Instr.unimplemented

unfoldable pub decode_from_stmia : ℕ → ℕ → Instr
unfolding decode_from_svc
decode_from_stmia op op2 =
    if shr op 11 == 0b11000
    then Instr.stmia (field op 8 3) (low_bits op 8)
    else if shr op 11 == 0b01100
    then Instr.str_imm (field op 6 5) (field op 3 3) (low_bits op 3)
    else if shr op 11 == 0b10010
    then Instr.str_sp (field op 8 3) (low_bits op 8)
    else if shr op 9 == 0b0101000
    then Instr.str_reg (field op 6 3) (field op 3 3) (low_bits op 3)
    else if shr op 11 == 0b01110
    then Instr.strb (field op 6 5) (field op 3 3) (low_bits op 3)
    else if shr op 9 == 0b0101010
    then Instr.strb_reg (field op 6 3) (field op 3 3) (low_bits op 3)
    else if shr op 11 == 0b10000
    then Instr.strh (field op 6 5) (field op 3 3) (low_bits op 3)
    else if shr op 9 == 0b0101001
    then Instr.strh_reg (field op 6 3) (field op 3 3) (low_bits op 3)
    else if shr op 7 == 0b101100001
    then Instr.sub_sp (low_bits op 7)
    else if shr op 9 == 0b0001111
    then Instr.subs1 (field op 6 3) (field op 3 3) (low_bits op 3)
    else if shr op 11 == 0b00111
    then Instr.subs2 (low_bits op 8) (field op 8 3)
    else if shr op 9 == 0b0001101
    then Instr.subs_reg (field op 6 3) (field op 3 3) (low_bits op 3)
    else decode_from_svc op op2

unfoldable pub decode_from_pop : ℕ → ℕ → Instr
unfolding decode_from_stmia
decode_from_pop op op2 =
    if shr op 9 == 0b1011110
    then Instr.pop (field op 8 1) (low_bits op 8)
    else if shr op 9 == 0b1011010
    then Instr.push (field op 8 1) (low_bits op 8)
    else if shr op 6 == 0b1011101000
    then Instr.rev (field op 3 3) (low_bits op 3)
    else if shr op 6 == 0b1011101001
    then Instr.rev16 (field op 3 3) (low_bits op 3)
    else if shr op 6 == 0b1011101011
    then Instr.revsh (field op 3 3) (low_bits op 3)
    else if shr op 6 == 0b0100000111
    then Instr.ror (field op 3 3) (low_bits op 3)
    else if shr op 6 == 0b0100001001
    then Instr.negs (field op 3 3) (low_bits op 3)
    else if op == 0b1011111100000000
    then Instr.nop
    else if shr op 6 == 0b0100000110
    then Instr.sbcs (field op 3 3) (low_bits op 3)
    else if op == 0b1011111101000000
    then Instr.sev
    else decode_from_stmia op op2

unfoldable pub decode_from_lsls : ℕ → ℕ → Instr
unfolding decode_from_pop
decode_from_lsls op op2 =
    if shr op 11 == 0b00000
    then Instr.lsls (field op 6 5) (field op 3 3) (low_bits op 3)
    else if shr op 6 == 0b0100000010
    then Instr.lsls_reg (field op 3 3) (low_bits op 3)
    else if shr op 11 == 0b00001
    then Instr.lsrs (field op 6 5) (field op 3 3) (low_bits op 3)
    else if shr op 6 == 0b0100000011
    then Instr.lsrs_reg (field op 3 3) (low_bits op 3)
    else if shr op 8 == 0b01000110
    then Instr.mov (field op 3 4) (field op 7 1 * 8 + low_bits op 3)
    else if shr op 11 == 0b00100
    then Instr.movs (low_bits op 8) (field op 8 3)
    else if (op == 0b1111001111101111) && (shr op2 12 == 0b1000)
    then Instr.mrs (low_bits op2 8) (field op2 8 4)
    else if (shr op 4 == 0b111100111000) && (shr op2 8 == 0b10001000)
    then Instr.msr (low_bits op2 8) (low_bits op 4)
    else if shr op 6 == 0b0100001101
    then Instr.muls (field op 3 3) (low_bits op 3)
    else if shr op 6 == 0b0100001111
    then Instr.mvns (field op 3 3) (low_bits op 3)
    else if shr op 6 == 0b0100001100
    then Instr.orrs (field op 3 3) (low_bits op 3)
    else decode_from_pop op op2

unfoldable pub decode_from_ldmia : ℕ → ℕ → Instr
unfolding decode_from_lsls
decode_from_ldmia op op2 =
    if shr op 11 == 0b11001
    then Instr.ldmia (field op 8 3) (low_bits op 8)
    else if shr op 11 == 0b01101
    then Instr.ldr_imm (field op 6 5) (field op 3 3) (low_bits op 3)
    else if shr op 11 == 0b10011
    then Instr.ldr_sp (field op 8 3) (low_bits op 8)
    else if shr op 11 == 0b01001
    then Instr.ldr_lit (low_bits op 8) (field op 8 3)
    else if shr op 9 == 0b0101100
    then Instr.ldr_reg (field op 6 3) (field op 3 3) (low_bits op 3)
    else if shr op 11 == 0b01111
    then Instr.ldrb (field op 6 5) (field op 3 3) (low_bits op 3)
    else if shr op 9 == 0b0101110
    then Instr.ldrb_reg (field op 6 3) (field op 3 3) (low_bits op 3)
    else if shr op 11 == 0b10001
    then Instr.ldrh (field op 6 5) (field op 3 3) (low_bits op 3)
    else if shr op 9 == 0b0101101
    then Instr.ldrh_reg (field op 6 3) (field op 3 3) (low_bits op 3)
    else if shr op 9 == 0b0101011
    then Instr.ldrsb (field op 6 3) (field op 3 3) (low_bits op 3)
    else if shr op 9 == 0b0101111
    then Instr.ldrsh (field op 6 3) (field op 3 3) (low_bits op 3)
    else decode_from_lsls op op2

unfoldable pub decode_from_bl : ℕ → ℕ → Instr
unfolding decode_from_ldmia
decode_from_bl op op2 =
    if (shr op 11 == 0b11110) && (shr op2 14 == 0b11) && (field op2 12 1 == 1)
    then Instr.bl (field op 10 1) (low_bits op 10) (field op2 13 1) (field op2 11 1)
        (low_bits op2 11)
    else if (shr op 7 == 0b010001111) && (low_bits op 3 == 0)
    then Instr.blx (field op 3 4)
    else if (shr op 7 == 0b010001110) && (low_bits op 3 == 0)
    then Instr.bx (field op 3 4)
    else if shr op 6 == 0b0100001011
    then Instr.cmn (field op 3 3) (low_bits op 3)
    else if shr op 11 == 0b00101
    then Instr.cmp_imm (field op 8 3) (low_bits op 8)
    else if shr op 6 == 0b0100001010
    then Instr.cmp_reg1 (field op 3 3) (low_bits op 3)
    else if shr op 8 == 0b01000101
    then Instr.cmp_reg2 (field op 3 4) (field op 7 1 * 8 + low_bits op 3)
    else if op == 0xb672
    then Instr.cpsid
    else if op == 0xb662
    then Instr.cpsie
    else if (op == 0xf3bf) && (shr op2 4 == 0x8f5)
    then Instr.dmb
    else if (op == 0xf3bf) && (shr op2 4 == 0x8f4)
    then Instr.dsb
    else if shr op 6 == 0b0100000001
    then Instr.eors (field op 3 3) (low_bits op 3)
    else if (op == 0xf3bf) && (shr op2 4 == 0x8f6)
    then Instr.isb
    else decode_from_ldmia op op2

unfoldable pub decode : ℕ → ℕ → Instr
unfolding decode_from_bl
decode op op2 =
    if shr op 6 == 0b0100000101
    then Instr.adcs (field op 3 3) (low_bits op 3)
    else if shr op 11 == 0b10101
    then Instr.add_sp_imm (low_bits op 8) (field op 8 3)
    else if shr op 7 == 0b101100000
    then Instr.add_sp (low_bits op 7)
    else if shr op 9 == 0b0001110
    then Instr.adds1 (field op 6 3) (field op 3 3) (low_bits op 3)
    else if shr op 11 == 0b00110
    then Instr.adds2 (low_bits op 8) (field op 8 3)
    else if shr op 9 == 0b0001100
    then Instr.adds_reg (field op 6 3) (field op 3 3) (low_bits op 3)
    else if shr op 8 == 0b01000100
    then Instr.add_reg (field op 3 4) (field op 7 1 * 8 + low_bits op 3)
    else if shr op 11 == 0b10100
    then Instr.adr (low_bits op 8) (field op 8 3)
    else if shr op 6 == 0b0100000000
    then Instr.ands (field op 3 3) (low_bits op 3)
    else if shr op 11 == 0b00010
    then Instr.asrs (field op 6 5) (field op 3 3) (low_bits op 3)
    else if shr op 6 == 0b0100000100
    then Instr.asrs_reg (field op 3 3) (low_bits op 3)
    else if (shr op 12 == 0b1101) && not (field op 9 3 == 0b111)
    then Instr.b_cond (field op 8 4) (low_bits op 8)
    else if shr op 11 == 0b11100
    then Instr.b_always (low_bits op 11)
    else if shr op 6 == 0b0100001110
    then Instr.bics (field op 3 3) (low_bits op 3)
    else if shr op 8 == 0b10111110
    then Instr.bkpt (low_bits op 8)
    else decode_from_bl op op2
