-- ===== src/Pio/Tests.antt =====
-- Machines at which the theorems are applied.
use rp2350js.Base.{◌+◌, ◌*◌, ◌/◌, ◌≡◌, refl, arith, true, false, [], ◌∷◌}
use rp2350js.Fifo.{fresh, is_empty}
use rp2350js.Fifo.Inv.{fresh-IsValid}
use rp2350js.Pio.State.{Pio, System, machine, new_machine}
use rp2350js.Pio.Shift.{bit_reverse, swap_bits}
use rp2350js.Pio.Execute.{execute_instruction}
use rp2350js.Pio.Clock.{clock_steps, clock_steps-divides}
use rp2350js.Pio.Assembler.{pio_pull}
use rp2350js.Pio.Registers.{write_fifo}
use rp2350js.Pio.Serial.{serial, none, piece, serial_lem}
use rp2350js.Pio.Wake.{IsWoken, pull-write_fifo}

abbrev block : Pio
block = record {
  instructions = λ k. 0;
  machines = λ i. new_machine 0;
  machines_running = 0;
  fdebug = 0;
  input_sync_bypass = 0;
  irq = 0;
  gpiobase = 0;
  pin_values = 0;
  pin_directions = 0;
  old_pin_values = 0;
  old_pin_directions = 0;
  irq0_int_enable = 0;
  irq0_int_force = 0;
  irq1_int_enable = 0;
  irq1_int_force = 0;
  first_irq = 7;
  dreq_rx_base = 4;
  dreq_tx_base = 0;
  irq_reg_offset = 0;
  raw_write_value = 0;
}

abbrev chip : System
chip = record {
  pio = λ p. block;
  pio_count = 2;
  is_rp2040 = true;
  gpio_count = 30;
  input = λ k. false;
  gpio_values = λ k. 0;
  calls = [];
}

reversed : bit_reverse 0x80000001 ≡ 0x80000001
unfolding bit_reverse swap_bits
reversed = refl

reversed_byte : bit_reverse 0x16 ≡ 0x68000000
unfolding bit_reverse swap_bits
reversed_byte = refl

-- Five cycles in twelve and a half steps.
clock_steps-divides_example : (clock_steps 640 0 13).0 ≡ (0 + 13 * 256) / 640
clock_steps-divides_example = clock_steps-divides 640 0 13 (omega arith) (omega arith)

pull-write_fifo_example :
    let t = execute_instruction 1 0 2 (pio_pull false true 3) chip in
    ((machine 0 2 t).waiting ≡ true) × IsWoken 0 2 77 (write_fifo 0 2 77 t)
unfolding machine new_machine fresh is_empty
pull-write_fifo_example = pull-write_fifo 0 2 77 0 3 chip refl (fresh-IsValid 4 (omega arith)) refl

serial_lem_example : (serial false (8 ∷ 24 ∷ []) 0xdeadbeef 5).1 ≡ 0xdeadbeef
serial_lem_example =
    serial_lem false (8 ∷ 24 ∷ []) 0xdeadbeef 5
      (piece (omega arith) (omega arith) (piece (omega arith) (omega arith) none)) (omega arith)
      (omega arith)
