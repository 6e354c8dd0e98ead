-- ===== src/RiscV/Alu/Imm.antt =====
-- riscv/cpu.ts, `execOpImm`: the value that each instruction stores. `imm` is the sign-extended
-- immediate as a pattern.
use rp2350js.Base.{ℕ, ◌+◌, ◌-◌, ◌%◌, ◌^◌, bit_and, bit_or, bit_xor, Option, some, none}
use rp2350js.Base.{u32, not32, low_bits, shl, shr, sar, to_num, ltb, ◌==◌, if◌then◌else◌}
use rp2350js.Base.Int.{sint, ltb_ℤ}
use rp2350js.RiscV.Tags.{t_ctz, t_cpop, t_sext_h, t_sext_b, t_clz, t_zip, t_unzip, t_rev8}
use rp2350js.RiscV.Tags.{t_brev8, t_orc_b, t_zext_h, t_addi, t_slli, t_bseti, t_bclri}
use rp2350js.RiscV.Tags.{t_binvi, t_slti, t_sltiu, t_xori, t_ori, t_andi, t_srli, t_srai}
use rp2350js.RiscV.Tags.{t_bexti, t_rori}
use rp2350js.RiscV.Alu.Unary.{clz, ctz, cpop, zip, unzip, rev8, brev8, orc_b, sext_h, sext_b}

-- the instructions on one register
unfoldable pub unary_value : ℕ → ℕ → Option ℕ
unfolding clz ctz cpop zip unzip brev8 orc_b
unary_value tag a =
    if tag == t_ctz
    then some (ctz a)
    else if tag == t_cpop
    then some (cpop a)
    else if tag == t_sext_h
    then some (sext_h a)
    else if tag == t_sext_b
    then some (sext_b a)
    else if tag == t_clz
    then some (clz a)
    else if tag == t_zip
    then some (zip a)
    else if tag == t_unzip
    then some (unzip a)
    else if tag == t_rev8
    then some (rev8 a)
    else if tag == t_brev8
    then some (brev8 a)
    else if tag == t_orc_b
    then some (orc_b a)
    else if tag == t_zext_h
    then some (low_bits a 16)
    else none

unfoldable pub op_imm_value : ℕ → ℕ → ℕ → Option ℕ
unfolding unary_value
op_imm_value tag a imm =
    let sh = low_bits imm 5 in
    if tag == t_addi
    then some (u32 (a + imm))
    else if tag == t_slli
    then some (shl a sh)
    else if tag == t_bseti
    then some (bit_or a (2 ^ sh))
    else if tag == t_bclri
    then some (bit_and a (not32 (2 ^ sh)))
    else if tag == t_binvi
    then some (bit_xor a (2 ^ sh))
    else if tag == t_slti
    then some (to_num (ltb_ℤ (sint a) (sint imm)))
    else if tag == t_sltiu
    then some (to_num (ltb a (low_bits imm 12)))
    else if tag == t_xori
    then some (bit_xor a imm)
    else if tag == t_ori
    then some (bit_or a imm)
    else if tag == t_andi
    then some (bit_and a imm)
    else if tag == t_srli
    then some (shr a sh)
    else if tag == t_srai
    then some (sar a sh)
    else if tag == t_bexti
    then some (low_bits (shr a sh) 1)
    else if tag == t_rori
    then some (bit_or (shl a ((32 - sh) % 32)) (shr a sh))
    else unary_value tag a
