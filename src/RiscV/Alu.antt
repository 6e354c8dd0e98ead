-- ===== src/RiscV/Alu.antt =====
-- riscv/cpu.ts: the value that each instruction of `execOp` stores, and `umulh`. Registers are their 32-bit
-- patterns; a shift count is taken modulo 32, as JavaScript does.
pub mod Unary
pub mod Imm
pub mod Multiply
pub mod Divide
use rp2350js.Base.{ℕ, ◌+◌, ◌-◌, ◌*◌, ◌/◌, ◌%◌, ◌^◌, Bool, ◌&&◌, bit_and, bit_or, bit_xor, Option}
use rp2350js.Base.{
  some, none, two32, u32, sub32, not32, low_bits, shl, shr, sar, is_neg, to_num, ltb,
}
use rp2350js.Base.{xor, ◌==◌, if◌then◌else◌}
use rp2350js.Base.Int.{sint, ltb_ℤ}
use rp2350js.RiscV.Tags.{t_add, t_sub, t_mul, t_sll, t_mulh, t_bset, t_bclr, t_rol}
use rp2350js.RiscV.Tags.{t_binv, t_slt, t_mulhsu, t_sh1add, t_sltu, t_mulhu, t_xor, t_div}
use rp2350js.RiscV.Tags.{t_sh2add, t_pack, t_min, t_xnor, t_srl, t_minu, t_sra, t_bext}
use rp2350js.RiscV.Tags.{t_ror, t_divu, t_or, t_rem, t_max, t_orn, t_sh3add, t_and}
use rp2350js.RiscV.Tags.{t_andn, t_packh, t_maxu, t_remu}

unfoldable pub umulh : ℕ → ℕ → ℕ
umulh a b =
    let a_l = low_bits a 16 in
    let a_h = shr a 16 in
    let b_l = low_bits b 16 in
    let b_h = shr b 16 in
    let ll = a_l * b_l in
    let lh = a_l * b_h in
    let hl = a_h * b_l in
    let hh = a_h * b_h in
    let cross = shr ll 16 + low_bits lh 16 + low_bits hl 16 in
    u32 (hh + shr lh 16 + shr hl 16 + shr cross 16)

unfoldable pub mulh : ℕ → ℕ → ℕ
unfolding umulh
mulh a b =
    let hi = umulh a b in
    let hi1 = if is_neg a then sub32 hi b else hi in if is_neg b then sub32 hi1 a else hi1

unfoldable pub mulhsu : ℕ → ℕ → ℕ
unfolding umulh
mulhsu a b = let hi = umulh a b in if is_neg a then sub32 hi b else hi

-- the absolute value of an int32, and its negation
abbrev pub mag : ℕ → ℕ
mag x = if is_neg x then two32 - x else x

abbrev pub neg_if : Bool → ℕ → ℕ
neg_if b x = if b then sub32 0 x else x

-- `(a / b) | 0` rounds towards zero; `%` has the sign of the dividend.
unfoldable pub div : ℕ → ℕ → ℕ
div a b =
    if b == 0
    then 0xffffffff
    else if (a == 0x80000000) && (b == 0xffffffff)
    then 0x80000000
    else neg_if (xor (is_neg a) (is_neg b)) (mag a / mag b)

unfoldable pub rem : ℕ → ℕ → ℕ
rem a b =
    if b == 0
    then a
    else if (a == 0x80000000) && (b == 0xffffffff)
    then 0
    else neg_if (is_neg a) (mag a % mag b)

unfoldable pub divu : ℕ → ℕ → ℕ
divu a b = if b == 0 then 0xffffffff else a / b

unfoldable pub remu : ℕ → ℕ → ℕ
remu a b = if b == 0 then a else a % b

abbrev pub rol : ℕ → ℕ → ℕ
rol a b = let sh = low_bits b 5 in bit_or (shl a sh) (shr a ((32 - sh) % 32))

abbrev pub ror : ℕ → ℕ → ℕ
ror a b = let sh = low_bits b 5 in bit_or (shl a ((32 - sh) % 32)) (shr a sh)

-- `none` for a tag that the switch of `execOp` does not have
unfoldable pub op_value : ℕ → ℕ → ℕ → Option ℕ
unfolding umulh mulh mulhsu div rem divu remu
op_value tag a b =
    let sh = low_bits b 5 in
    if tag == t_add
    then some (u32 (a + b))
    else if tag == t_sub
    then some (sub32 a b)
    else if tag == t_mul
    then some (u32 (a * b))
    else if tag == t_sll
    then some (shl a sh)
    else if tag == t_mulh
    then some (mulh a b)
    else if tag == t_bset
    then some (bit_or a (2 ^ sh))
    else if tag == t_bclr
    then some (bit_and a (not32 (2 ^ sh)))
    else if tag == t_rol
    then some (rol a b)
    else if tag == t_binv
    then some (bit_xor a (2 ^ sh))
    else if tag == t_slt
    then some (to_num (ltb_ℤ (sint a) (sint b)))
    else if tag == t_mulhsu
    then some (mulhsu a b)
    else if tag == t_sh1add
    then some (u32 (shl a 1 + b))
    else if tag == t_sltu
    then some (to_num (ltb a b))
    else if tag == t_mulhu
    then some (umulh a b)
    else if tag == t_xor
    then some (bit_xor a b)
    else if tag == t_div
    then some (div a b)
    else if tag == t_sh2add
    then some (u32 (shl a 2 + b))
    else if tag == t_pack
    then some (low_bits a 16 + low_bits b 16 * 2 ^ 16)
    else if tag == t_min
    then some (if ltb_ℤ (sint a) (sint b) then a else b)
    else if tag == t_xnor
    then some (bit_xor (not32 a) b)
    else if tag == t_srl
    then some (shr a sh)
    else if tag == t_minu
    then some (if ltb a b then a else b)
    else if tag == t_sra
    then some (sar a sh)
    else if tag == t_bext
    then some (low_bits (shr a sh) 1)
    else if tag == t_ror
    then some (ror a b)
    else if tag == t_divu
    then some (divu a b)
    else if tag == t_or
    then some (bit_or a b)
    else if tag == t_rem
    then some (rem a b)
    else if tag == t_max
    then some (if ltb_ℤ (sint b) (sint a) then a else b)
    else if tag == t_orn
    then some (bit_or a (not32 b))
    else if tag == t_sh3add
    then some (u32 (shl a 3 + b))
    else if tag == t_and
    then some (bit_and a b)
    else if tag == t_andn
    then some (bit_and a (not32 b))
    else if tag == t_packh
    then some (low_bits a 8 + low_bits b 8 * 2 ^ 8)
    else if tag == t_maxu
    then some (if ltb b a then a else b)
    else if tag == t_remu
    then some (remu a b)
    else none

-- what the four division branches add to `cycles`
abbrev pub op_cycles : ℕ → ℕ
op_cycles tag =
    if tag == t_div
    then 17
    else if tag == t_divu
    then 17
    else if tag == t_rem
    then 17
    else if tag == t_remu
    then 17
    else 0
