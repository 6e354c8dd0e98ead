-- ===== src/Gpio.antt =====
-- gpio-pin.ts: the fields and the getters of the class `GPIOPin`. What the chip gives to a pin is the
-- record `Outputs`.
pub mod Access
pub mod Asked
pub mod Banks
pub mod Line
mod Tests
use rp2350js.Base.{ℕ, ◌+◌, ◌*◌, Bool, true, false, not, ◌&&◌, ◌||◌, if◌then◌else◌}
use rp2350js.Base.{◌==◌, ltb, field, test_bit, bit_and, bit_or, not32, to_num}

-- `GPIOPinState`
pub data PinState : Type 0 where
  low : PinState
  high : PinState
  input : PinState
  input_pull_up : PinState
  input_pull_down : PinState

abbrev pub state_index : PinState → ℕ
state_index PinState.low = 0
state_index PinState.high = 1
state_index PinState.input = 2
state_index PinState.input_pull_up = 3
state_index PinState.input_pull_down = 4

-- `gpioRawOutputEnable(index)` and `gpioRawOutputValue(index)`
pub record Outputs : Type 0 where
  pub enable : Bool
  pub value : Bool

pub record Pin : Type 0 where
  pub raw_input_value : Bool
  pub last_value : PinState
  pub ctrl : ℕ
  pub pad_value : ℕ
  pub irq_enable_mask : ℕ
  pub irq_force_mask : ℕ
  pub irq_status : ℕ

unfoldable pub new_pin : Pin
new_pin = record {
  raw_input_value = false;
  last_value = PinState.input;
  ctrl = 0x1f;
  pad_value = 0x36;
  irq_enable_mask = 0;
  irq_force_mask = 0;
  irq_status = 0;
}

-- The types are two bits, so the error of `applyOverride` does not occur.
unfoldable pub apply_override : Bool → ℕ → Bool
apply_override value type =
    if type == 0 then value else if type == 1 then not value else if type == 2 then false else true

unfoldable pub raw_interrupt : Pin → Bool
raw_interrupt p = ltb 0 (bit_or (bit_and p.irq_status p.irq_enable_mask) p.irq_force_mask)

unfoldable pub input_enable : Pin → Bool
input_enable p = test_bit p.pad_value 6

unfoldable pub input_value : Pin → Bool
input_value p = apply_override (p.raw_input_value && input_enable p) (field p.ctrl 16 2)

unfoldable pub irq_value : Pin → Bool
irq_value p = apply_override (raw_interrupt p) (field p.ctrl 28 2)

unfoldable pub output_enable : Outputs → Pin → Bool
output_enable o p = apply_override o.enable (field p.ctrl 12 2)

unfoldable pub output_value : Outputs → Pin → Bool
output_value o p = apply_override o.value (field p.ctrl 8 2)

unfoldable pub status : Outputs → Pin → ℕ
status o p =
    to_num (irq_value p) * 0x4000000
    + to_num (raw_interrupt p) * 0x1000000
    + to_num (input_value p) * 0x80000
    + to_num p.raw_input_value * 0x20000
    + to_num (output_enable o p) * 0x2000
    + to_num o.enable * 0x1000
    + to_num (output_value o p) * 0x200
    + to_num o.value * 0x100

unfoldable pub pin_state : Outputs → Pin → PinState
pin_state o p =
    if output_enable o p
    then if output_value o p then PinState.high else PinState.low
    else if test_bit p.pad_value 2
    then PinState.input_pull_down
    else if test_bit p.pad_value 3
    then PinState.input_pull_up
    else PinState.input

-- the bits of `irqStatus` after an input that the pad lets through, or not
unfoldable pub put_level : Bool → ℕ → ℕ
put_level seen irq =
    if seen then bit_and (bit_or irq 0xa) (not32 1) else bit_and (bit_or irq 5) (not32 2)
