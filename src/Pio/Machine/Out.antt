-- ===== src/Pio/Machine/Out.antt =====
-- `writeOutValue`, `setMovDestination` and `outInstruction`.
use rp2350js.Base.{ℕ, true, if◌then◌else◌, test_bit, low_bits, shr, ◌==◌}
use rp2350js.Pio.State.{System, machine, on_machine}
use rp2350js.Pio.Shift.{shift_out, count_up}
use rp2350js.Pio.Machine.{set_out_pins, set_out_pin_dirs}

-- `writeOutValue`, of the three bits of a destination
unfoldable pub write_out_value : ℕ → ℕ → ℕ → ℕ → ℕ → System → System
write_out_value p i destination value bit_count s =
    if destination == 0
    then set_out_pins p i value s
    else if destination == 1
    then on_machine p i (λ m. record m { x = value }) s
    else if destination == 2
    then on_machine p i (λ m. record m { y = value }) s
    else if destination == 3
    then s
    else if destination == 4
    then set_out_pin_dirs p i value s
    else if destination == 5
    then on_machine p i (λ m. record m { next_pc = low_bits value 5 }) s
    else if destination == 6
    then on_machine p i (λ m. record m { input_shift_reg = value; input_shift_count = bit_count }) s
    else on_machine p i (λ m. record m { exec_opcode = value; exec_valid = true }) s

-- `setMovDestination`
unfoldable pub set_mov_destination : ℕ → ℕ → ℕ → ℕ → System → System
set_mov_destination p i destination value s =
    if destination == 0
    then set_out_pins p i value s
    else if destination == 1
    then on_machine p i (λ m. record m { x = value }) s
    else if destination == 2
    then on_machine p i (λ m. record m { y = value }) s
    else if destination == 3
    then s
    else if destination == 4
    then on_machine p i (λ m. record m { exec_opcode = value; exec_valid = true }) s
    else if destination == 5
    then on_machine p i (λ m. record m { next_pc = low_bits value 5 }) s
    else if destination == 6
    then on_machine p i (λ m. record m { input_shift_reg = value; input_shift_count = 0 }) s
    else on_machine p i (λ m. record m { output_shift_reg = value; output_shift_count = 0 }) s

-- `outInstruction`, of the eight bits below the opcode
unfoldable pub out_instruction : ℕ → ℕ → ℕ → System → System
out_instruction p i arg s =
    let bit_count = low_bits arg 5 in
    let destination = shr arg 5 in
    let m = machine p i s in
    if bit_count == 0
    then on_machine p i (λ n. record n { output_shift_count = 32 })
        (write_out_value p i destination m.output_shift_reg 32 s)
    else let (value, rest) = shift_out (test_bit m.shift_ctrl 19) bit_count m.output_shift_reg in
      on_machine p i
        (λ n. record n { output_shift_count = count_up n.output_shift_count bit_count })
        (write_out_value p i destination value bit_count
          (on_machine p i (λ n. record n { output_shift_reg = rest }) s))
