-- ===== src/Sio/Core/Division.antt =====
-- The divider registers of `RPSIOCore` and `updateHardwareDivider`.
use rp2350js.Base.{ℕ, ◌/◌, ◌%◌, Bool, true, false, Option, some, none, if◌then◌else◌}
use rp2350js.Base.{u32, ◌==◌, ltb, xor, is_neg, bit_and, not32}
use rp2350js.RiscV.Alu.{mag, neg_if}

-- A number of the source: its sign, and a numerator and a denominator of its absolute value. The
-- source divides without rounding.
pub data Number : Type 0 where
  ratio : Bool → ℕ → ℕ → Number

-- the word that a Uint32Array makes of a number: rounded towards zero, modulo 2 ^ 32
abbrev pub to_word : Number → ℕ
to_word (ratio negative n d) = neg_if negative (u32 (n / d))

pub record Divider : Type 0 where
  pub dividend : ℕ
  pub divisor : ℕ
  pub quotient : Number
  pub remainder : Number
  pub csr : ℕ

-- `divQuotient` and `divRemainder` after `updateHardwareDivider(signed)`
unfoldable pub quotient_of : Bool → ℕ → ℕ → Number
quotient_of signed a b =
    if b == 0
    then ratio (ltb 0 a) 1 1
    else if signed
    then ratio (xor (is_neg (u32 a)) (is_neg (u32 b))) (mag (u32 a)) (mag (u32 b))
    else ratio false (u32 a) (u32 b)

unfoldable pub remainder_of : Bool → ℕ → ℕ → Number
remainder_of signed a b =
    if b == 0
    then ratio false a 1
    else if signed
    then ratio (is_neg (u32 a)) (mag (u32 a) % mag (u32 b)) 1
    else ratio false (u32 a % u32 b) 1

unfoldable pub update_hardware_divider : Bool → Divider → Divider
update_hardware_divider signed d = record d {
  quotient = quotient_of signed d.dividend d.divisor;
  remainder = remainder_of signed d.dividend d.divisor;
  csr = 3;
}

-- The cases of `readUint32` for the divider.
unfoldable pub read_divider : ℕ → Divider → Option (ℕ × Divider)
read_divider offset d =
    if offset == 0x60
    then some (d.dividend, d)
    else if offset == 0x68
    then some (d.dividend, d)
    else if offset == 0x64
    then some (d.divisor, d)
    else if offset == 0x6c
    then some (d.divisor, d)
    else if offset == 0x70
    then some (to_word d.quotient, record d { csr = bit_and d.csr (not32 2) })
    else if offset == 0x74
    then some (to_word d.remainder, d)
    else if offset == 0x78
    then some (d.csr, d)
    else none

-- The cases of `writeUint32` for the divider, and whether `updateHardwareDivider` has run.
unfoldable pub write_divider : ℕ → ℕ → Divider → Option (Bool × Divider)
write_divider offset value d =
    if offset == 0x60
    then some (true, update_hardware_divider false (record d { dividend = value }))
    else if offset == 0x68
    then some (true, update_hardware_divider true (record d { dividend = value }))
    else if offset == 0x64
    then some (true, update_hardware_divider false (record d { divisor = value }))
    else if offset == 0x6c
    then some (true, update_hardware_divider true (record d { divisor = value }))
    else if offset == 0x70
    then some (false, record d { quotient = ratio false value 1; csr = 3 })
    else if offset == 0x74
    then some (false, record d { remainder = ratio false value 1; csr = 3 })
    else none
