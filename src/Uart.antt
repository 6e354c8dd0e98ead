-- ===== src/Uart.antt =====
-- peripherals/uart.ts: the class `RPUART`, with a receive queue of utils/fifo.ts and none for sending.
-- Calls on the chip and of the callbacks are a log; `baudRate` is what `onBaudRateChange` gets, and
-- stands in the log as the divisors that it is computed from.
pub mod Received
use rp2350js.Base.{
  ℕ, ◌+◌, ◌*◌, Bool, true, false, not, if◌then◌else◌, Option, some, none, List, [], ◌∷◌,
}
use rp2350js.Base.{◌==◌, ltb, field, low_bits, test_bit, bit_and, bit_or, not32, to_num}
use rp2350js.Fifo.{Fifo, fresh, push, pull, is_empty, is_full}

pub data Call : Type 0 where
  set_interrupt : Bool → Call
  on_byte : ℕ → Call
  on_baud_rate_change : ℕ → ℕ → Call
  dma_set_dreq : Call
  dma_clear_dreq : Call

pub record Uart : Type 0 where
  pub ctrl_register : ℕ
  pub line_ctrl_register : ℕ
  pub rx_fifo : Fifo
  pub interrupt_mask : ℕ
  pub interrupt_status : ℕ
  pub int_divisor : ℕ
  pub frac_divisor : ℕ
  pub calls : List Call

unfoldable pub new_uart : Uart
new_uart = record {
  ctrl_register = 0x300;
  line_ctrl_register = 0;
  rx_fifo = fresh 32;
  interrupt_mask = 0;
  interrupt_status = 0;
  int_divisor = 0;
  frac_divisor = 0;
  calls = [];
}

abbrev call : Call → Uart → Uart
call c u = record u { calls = c ∷ u.calls }

unfoldable pub enabled : Uart → Bool
enabled u = test_bit u.ctrl_register 0

-- bits in a character
word_length : Uart → ℕ
word_length u = 5 + field u.line_ctrl_register 5 2

unfoldable pub flags : Uart → ℕ
flags u = to_num (is_full u.rx_fifo) * 0x40 + to_num (is_empty u.rx_fifo) * 0x10 + 0x80

unfoldable pub check_interrupts : Uart → Uart
check_interrupts u =
    let status = bit_or u.interrupt_status 0x20 in
    call (set_interrupt (ltb 0 (bit_and status u.interrupt_mask)))
      (record u { interrupt_status = status })

unfoldable pub feed_byte : ℕ → Uart → Uart
feed_byte value u =
    check_interrupts (record u {
      rx_fifo = push u.rx_fifo value;
      interrupt_status = bit_or u.interrupt_status 0x10;
    })

-- a read of UARTDR
unfoldable pub read_data : Uart → ℕ × Uart
read_data u =
    let (value, rest) = pull u.rx_fifo in
    (
      value,
      check_interrupts (record u {
        rx_fifo = rest;
        interrupt_status =
            if is_empty rest
            then bit_and u.interrupt_status (not32 0x10)
            else bit_or u.interrupt_status 0x10;
      }),
    )

-- the registers of the peripheral's identity
unfoldable pub identity : ℕ → Option ℕ
identity offset =
    if offset == 0xfe0
    then some 0x11
    else if offset == 0xfe4
    then some 0x10
    else if offset == 0xfe8
    then some 0x34
    else if offset == 0xfec
    then some 0
    else if offset == 0xff0
    then some 0x0d
    else if offset == 0xff4
    then some 0xf0
    else if offset == 0xff8
    then some 0x05
    else if offset == 0xffc
    then some 0xb1
    else none

-- the registers that a read leaves alone; `none` is an access of the base class
unfoldable pub read_register : ℕ → Uart → Option ℕ
read_register offset u =
    if offset == 0x18
    then some (flags u)
    else if offset == 0x24
    then some u.int_divisor
    else if offset == 0x28
    then some u.frac_divisor
    else if offset == 0x2c
    then some u.line_ctrl_register
    else if offset == 0x30
    then some u.ctrl_register
    else if offset == 0x38
    then some u.interrupt_mask
    else if offset == 0x3c
    then some u.interrupt_status
    else if offset == 0x40
    then some (bit_and u.interrupt_status u.interrupt_mask)
    else identity offset

unfoldable pub with_uart : Uart → Option ℕ → Option (ℕ × Uart)
with_uart u (some value) = some (value, u)
with_uart u none = none

unfoldable pub read_uint32 : ℕ → Uart → Option (ℕ × Uart)
read_uint32 offset u =
    if offset == 0 then some (read_data u) else with_uart u (read_register offset u)

unfoldable pub baud_changed : Uart → Uart
baud_changed u = call (on_baud_rate_change u.int_divisor u.frac_divisor) u

unfoldable pub write_ctrl : ℕ → Uart → Uart
write_ctrl value u =
    let v = record u { ctrl_register = value } in
    call (if enabled v then dma_set_dreq else dma_clear_dreq) v

unfoldable pub write_uint32 : ℕ → ℕ → ℕ → Uart → Option Uart
write_uint32 offset value raw_write_value u =
    if offset == 0
    then some (call (on_byte (low_bits value 8)) u)
    else if offset == 0x24
    then some (baud_changed (record u { int_divisor = low_bits value 16 }))
    else if offset == 0x28
    then some (baud_changed (record u { frac_divisor = low_bits value 6 }))
    else if offset == 0x2c
    then some (record u { line_ctrl_register = value })
    else if offset == 0x30
    then some (write_ctrl value u)
    else if offset == 0x38
    then some (check_interrupts (record u { interrupt_mask = low_bits value 11 }))
    else if offset == 0x44
    then some (
        check_interrupts
          (record u { interrupt_status = bit_and u.interrupt_status (not32 raw_write_value) }))
    else none
