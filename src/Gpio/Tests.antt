-- ===== src/Gpio/Tests.antt =====
-- A bank of 30 pins at which the theorems are applied.
use rp2350js.Base.{true, false, List, [], ◌∷◌, ◌≡◌, ◌↔◌, refl}
use rp2350js.Gpio.{new_pin, irq_value, raw_interrupt, apply_override, put_level, input_enable}
use rp2350js.Gpio.{pin_state, output_enable, output_value}
use rp2350js.Gpio.Banks.{
  Sources, new_io, some_irq, on_pin, raw_outputs, set_input_value, check_for_updates, refresh_input,
  update_io_interrupt, update_if, write_enable_mask, write_pin, write_pins, write_ctrl, write_io,
  write_pad, write_pads,
}
use rp2350js.Gpio.Access.{Access, access, accesses}
use rp2350js.Gpio.Asked.{IsAsked, interrupt-accesses}

abbrev quiet : Sources
quiet = record {
  pwm_value = 0;
  pwm_direction = 0;
  sio_value = 0;
  sio_output_enable = 0;
  pio_value = λ p i. false;
  pio_output_enabled = λ p i. false;
}

-- Pin 9 is enabled for a rising edge and gets one.
abbrev edge : List Access
edge = Access.pads 0x28 0x56 ∷ Access.io 0x104 0x80 0x80 ∷ Access.input 9 true ∷ []

interrupt-accesses_example :
    let s = accesses edge (new_io 30 quiet) in (s.interrupt ≡ true) ↔ IsAsked s.gpio_count s.gpio
interrupt-accesses_example = interrupt-accesses edge 30 quiet refl

edge_shown : (accesses edge (new_io 30 quiet)).interrupt ≡ true
unfolding accesses access new_io new_pin on_pin some_irq raw_outputs set_input_value
    check_for_updates refresh_input update_io_interrupt update_if write_enable_mask write_pin
    write_pins write_io write_pad write_pads irq_value raw_interrupt apply_override put_level
    input_enable pin_state output_enable output_value
edge_shown = refl

-- An override of the interrupt changes what a pin asks for, and the line stays.
override_unseen :
    let s = write_io 4 0x3000001f 0x3000001f (new_io 30 quiet) in
    (s.interrupt ≡ false) × (some_irq 30 s.gpio ≡ true)
unfolding new_io new_pin on_pin some_irq raw_outputs check_for_updates write_ctrl write_io irq_value
    raw_interrupt apply_override pin_state output_enable output_value
override_unseen = (refl, refl)
