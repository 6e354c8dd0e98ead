-- ===== src/Gpio/Banks.antt =====
-- The methods of `GPIOPin` that change a pin, and what they call: the output sources and the interrupt
-- line of rp2040.ts, the registers of peripherals/io.ts and those of bank 0 of peripherals/pads.ts.
use rp2350js.Base.{
  ℕ, zero, suc, ◌+◌, ◌-◌, ◌*◌, ◌/◌, ◌%◌, ◌^◌, Bool, true, false, ◌&&◌, ◌||◌, if◌then◌else◌, xor,
  List, [], ◌∷◌,
}
use rp2350js.Base.{
  ◌==◌, leb, field, low_bits, test_bit, bit_and, bit_or, not32, shl, Option, some, none,
}
use rp2350js.Gpio.{
  PinState, Outputs, Pin, new_pin, pin_state, irq_value, input_enable, put_level, status,
}

abbrev pub state_index : PinState → ℕ
state_index PinState.low = 0
state_index PinState.high = 1
state_index PinState.input = 2
state_index PinState.input_pull_up = 3
state_index PinState.input_pull_down = 4

-- what the blocks drive: `pwm.gpioValue`, `pwm.gpioDirection`, `sio.gpioValue`,
-- `sio.gpioOutputEnable`, and `getPinValue` and `getPinOutputEnabled` of a PIO block for a pin
pub record Sources : Type 0 where
  pub pwm_value : ℕ
  pub pwm_direction : ℕ
  pub sio_value : ℕ
  pub sio_output_enable : ℕ
  pub pio_value : ℕ → ℕ → Bool
  pub pio_output_enabled : ℕ → ℕ → Bool

-- calls that leave the pins: `setInterrupt(IRQ.IO_BANK0, value)`, `gpioInputValueHasBeenSet(index)`,
-- the listeners of a pin with the new and the old state, and an access that the base class reports
pub data Call : Type 0 where
  set_interrupt : Bool → Call
  input_value_has_been_set : ℕ → Call
  listened : ℕ → PinState → PinState → Call
  reported : ℕ → Call

-- `interrupt` is the value that `setInterrupt` got last for IO_BANK0.
pub record Io : Type 0 where
  pub gpio : ℕ → Pin
  pub gpio_count : ℕ
  pub sources : Sources
  pub voltage_select : ℕ
  pub interrupt : Bool
  pub calls : List Call

abbrev pub call : Call → Io → Io
call c s = record s { calls = c ∷ s.calls }

unfoldable pub on_pin : ℕ → Pin → Io → Io
on_pin i p s = record s { gpio = λ k. if k == i then p else s.gpio k }

-- `gpioRawOutputValue` and `gpioRawOutputEnable`
unfoldable pub raw_outputs : Sources → ℕ → Pin → Outputs
raw_outputs c i p =
    let select = field p.ctrl 0 5 in
    if select == 4
    then record { enable = test_bit c.pwm_direction i; value = test_bit c.pwm_value i }
    else if select == 5
    then record { enable = test_bit c.sio_output_enable i; value = test_bit c.sio_value i }
    else if select == 6
    then record { enable = c.pio_output_enabled 0 i; value = c.pio_value 0 i }
    else if select == 7
    then record { enable = c.pio_output_enabled 1 i; value = c.pio_value 1 i }
    else record { enable = false; value = false }

-- some pin below n asks for an interrupt
unfoldable pub some_irq : ℕ → (ℕ → Pin) → Bool
some_irq zero gpio = false
some_irq (suc n) gpio = some_irq n gpio || irq_value (gpio n)

unfoldable pub update_io_interrupt : Io → Io
update_io_interrupt s =
    let asks = some_irq s.gpio_count s.gpio in
    call (set_interrupt asks) (record s { interrupt = asks })

-- `updateIOInterrupt()` where the test holds
unfoldable pub update_if : Bool → Io → Io
update_if true s = update_io_interrupt s
update_if false s = s

unfoldable pub set_input_value : ℕ → Bool → Io → Io
set_input_value i value s =
    let p = s.gpio i in
    let q = record p {
      raw_input_value = value;
      irq_status = put_level (value && input_enable p) p.irq_status;
    } in
    call (input_value_has_been_set i) (update_if (xor (irq_value q) (irq_value p)) (on_pin i q s))

unfoldable pub check_for_updates : ℕ → Io → Io
check_for_updates i s =
    let p = s.gpio i in
    let now = pin_state (raw_outputs s.sources i p) p in
    if state_index now == state_index p.last_value
    then s
    else call (listened i now p.last_value) (on_pin i (record p { last_value = now }) s)

unfoldable pub refresh_input : ℕ → Io → Io
refresh_input i s = set_input_value i (s.gpio i).raw_input_value s

-- an edge bit, 2 or 3, that is written with 1 and is set
unfoldable pub clear_edge : ℕ → ℕ → ℕ → Io → Io
clear_edge i k value s =
    let p = s.gpio i in
    if test_bit value k && test_bit p.irq_status k
    then update_io_interrupt
        (on_pin i (record p { irq_status = bit_and p.irq_status (not32 (2 ^ k)) }) s)
    else s

unfoldable pub update_irq_value : ℕ → ℕ → Io → Io
update_irq_value i value s = clear_edge i 3 value (clear_edge i 2 value s)

unfoldable pub write_enable_mask : ℕ → ℕ → Io → Io
write_enable_mask i value s =
    let p = s.gpio i in
    if p.irq_enable_mask == value
    then s
    else update_io_interrupt (on_pin i (record p { irq_enable_mask = value }) s)

unfoldable pub write_force_mask : ℕ → ℕ → Io → Io
write_force_mask i value s =
    let p = s.gpio i in
    if p.irq_force_mask == value
    then s
    else update_io_interrupt (on_pin i (record p { irq_force_mask = value }) s)

-- one pin of an interrupt register: its four bits of the value and of the value as it was written
unfoldable pub write_pin : ℕ → ℕ → ℕ → ℕ → Io → Io
write_pin register i value raw_write_value s =
    if leb s.gpio_count i
    then s
    else if register == 0xf0
    then update_irq_value i raw_write_value s
    else if register == 0x100
    then write_enable_mask i value s
    else if register == 0x110
    then write_force_mask i value s
    else s

unfoldable pub write_pins : ℕ → ℕ → ℕ → ℕ → ℕ → Io → Io
write_pins zero register start value raw_write_value s = s
write_pins (suc n) register start value raw_write_value s =
    write_pin register (n + start) (field value (n * 4) 4) (field raw_write_value (n * 4) 4)
      (write_pins n register start value raw_write_value s)

unfoldable pub write_ctrl : ℕ → ℕ → Io → Io
write_ctrl i value s = check_for_updates i (on_pin i (record (s.gpio i) { ctrl = value }) s)

-- `writeUint32` of the class `RPIO`
unfoldable pub write_io : ℕ → ℕ → ℕ → Io → Io
write_io offset value raw_write_value s =
    if leb offset 0xec
    then if test_bit offset 2 then write_ctrl (offset / 8) value s else s
    else if leb 0xf0 offset && leb offset 0x12c
    then write_pins 8 (offset / 16 * 16) (offset % 16 * 2) value raw_write_value s
    else call (reported offset) s

-- the bits of a pin in an interrupt register
unfoldable pub read_pin : ℕ → Pin → ℕ
read_pin register p =
    if register == 0xf0
    then p.irq_status
    else if register == 0x100
    then p.irq_enable_mask
    else if register == 0x110
    then p.irq_force_mask
    else if register == 0x120
    then bit_or (bit_and p.irq_status p.irq_enable_mask) p.irq_force_mask
    else 0

-- The loop runs from pin 7 down to pin 0: the pins k, k - 1, ... are read after those above them.
unfoldable pub read_pins : ℕ → ℕ → ℕ → Io → ℕ → ℕ
read_pins zero register start s result = result
read_pins (suc n) register start s result =
    let next =
      if leb s.gpio_count (n + start)
      then result
      else bit_or (shl result 4) (read_pin register (s.gpio (n + start))) in
    read_pins n register start s next

-- `readUint32` of the class `RPIO`; `none` is the base class's answer
unfoldable pub read_io : ℕ → Io → Option ℕ
read_io offset s =
    let p = s.gpio (offset / 8) in
    if leb offset 0xec
    then some
        (if test_bit offset 2 then p.ctrl else status (raw_outputs s.sources (offset / 8) p) p)
    else if leb 0xf0 offset && leb offset 0x12c
    then some (read_pins 8 (offset / 16 * 16) (offset % 16 * 2) s 0)
    else none

unfoldable pub write_pad : ℕ → ℕ → Io → Io
write_pad i value s =
    let t = check_for_updates i (on_pin i (record (s.gpio i) { pad_value = value }) s) in
    if xor (input_enable (s.gpio i)) (input_enable (t.gpio i)) then refresh_input i t else t

-- `writeUint32` and `readUint32` of the class `RPPADS` on bank 0
unfoldable pub write_pads : ℕ → ℕ → Io → Io
write_pads offset value s =
    if leb 4 offset && leb offset 0x78
    then write_pad ((offset - 4) / 4) value s
    else if offset == 0
    then record s { voltage_select = low_bits value 1 }
    else call (reported offset) s

unfoldable pub read_pads : ℕ → Io → Option ℕ
read_pads offset s =
    if leb 4 offset && leb offset 0x78
    then some (s.gpio ((offset - 4) / 4)).pad_value
    else if offset == 0
    then some s.voltage_select
    else none

unfoldable pub new_io : ℕ → Sources → Io
new_io count c = record {
  gpio = λ i. new_pin;
  gpio_count = count;
  sources = c;
  voltage_select = 0;
  interrupt = false;
  calls = [];
}
