-- ===== src/Pio/Shift.antt =====
-- The shift registers of a state machine, the pin masks and `bitReverse`.
use rp2350js.Base.{ℕ, ◌+◌, ◌-◌, ◌^◌, Bool, if◌then◌else◌}
use rp2350js.Base.{low_bits, shl, shr, bit_or, bit_and, not32, ltb, test_bit, ◌==◌}
use rp2350js.Pio.State.{Machine}

-- IN of the bits of a source, fewer than 32, on the input shift register: to the right or to the left
unfoldable pub shift_in : Bool → ℕ → ℕ → ℕ → ℕ
shift_in to_right bit_count source reg =
    if to_right
    then bit_or (shr reg bit_count) (shl (low_bits source bit_count) (32 - bit_count))
    else bit_or (shl reg bit_count) (low_bits source bit_count)

-- OUT of some bits, fewer than 32: their value, and what is left of the output shift register
unfoldable pub shift_out : Bool → ℕ → ℕ → ℕ × ℕ
shift_out to_right bit_count reg =
    if to_right
    then (low_bits reg bit_count, shr reg bit_count)
    else (shr reg (32 - bit_count), shl reg bit_count)

-- a shift counter stops at 32
abbrev pub count_up : ℕ → ℕ → ℕ
count_up count bits = if ltb 32 (count + bits) then 32 else count + bits

-- the first part of IN
unfoldable pub in_bits : ℕ → ℕ → Machine → Machine
in_bits bit_count source m =
    if bit_count == 0
    then record m { input_shift_reg = source; input_shift_count = 32 }
    else record m {
      input_shift_reg = shift_in (test_bit m.shift_ctrl 18) bit_count source m.input_shift_reg;
      input_shift_count = count_up m.input_shift_count bit_count;
    }

-- `bitReverse`, one line each
unfoldable pub swap_bits : ℕ → ℕ → ℕ → ℕ → ℕ
swap_bits k low high x = bit_or (shl (bit_and x low) k) (shr (bit_and x high) k)

unfoldable pub bit_reverse : ℕ → ℕ
bit_reverse x =
    let x1 = swap_bits 1 0x55555555 0xaaaaaaaa x in
    let x2 = swap_bits 2 0x33333333 0xcccccccc x1 in
    let x4 = swap_bits 4 0x0f0f0f0f 0xf0f0f0f0 x2 in
    let x8 = swap_bits 8 0x00ff00ff 0xff00ff00 x4 in swap_bits 16 0x0000ffff 0xffff0000 x8

-- `transformMovValue(value, op) >>> 0`
unfoldable pub transform_mov_value : ℕ → ℕ → ℕ
transform_mov_value value op =
    if op == 1 then not32 value else if op == 2 then bit_reverse value else value

-- the common part of `pinValuesChanged` and `pinDirectionsChanged`
unfoldable pub masked_pins : Bool → ℕ → ℕ → ℕ → ℕ → ℕ
masked_pins is_rp2040 old value first_pin count =
    let mask = if ltb 31 count then 0xffffffff else shl (2 ^ count - 1) first_pin in
    bit_and (bit_or (bit_and old (not32 mask)) (bit_and (shl value first_pin) mask))
      (if is_rp2040 then 0x3fffffff else 0xffffffff)
