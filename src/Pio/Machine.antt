-- ===== src/Pio/Machine.antt =====
-- What a state machine does to its block and to the chip: queues, pins, interrupts and waiting.
pub mod Out
pub mod Wait
use rp2350js.Base.{ℕ, ◌+◌, ◌-◌, ◌*◌, ◌^◌, ◌%◌, Bool, true, false, if◌then◌else◌, not}
use rp2350js.Base.Int.{negsuc}
use rp2350js.Base.{
  field, test_bit, low_bits, ◌==◌, ltb, shl, shr, sub32, bit_and, bit_or, not32, to_num, two32,
}
use rp2350js.Fifo.{Fifo, push, pull, is_empty, is_full}
use rp2350js.Pio.State.{Machine, Pio, System, WaitType, set_interrupt, dma_set, dma_clear, error}
use rp2350js.Pio.State.{call, machine, on_pio, on_machine, update_fifo_stat, pull_threshold, status}
use rp2350js.Pio.State.{in_base, out_base, out_count, jmp_pin, sideset_base, set_base, set_count}
use rp2350js.Pio.Shift.{masked_pins}

-- `updateDMATx` and `updateDMARx`
unfoldable pub update_dma_tx : ℕ → ℕ → System → System
update_dma_tx p i s =
    let t = on_machine p i (update_fifo_stat i) s in
    let dreq = (s.pio p).dreq_tx_base + i in
    call (if is_full (machine p i s).tx_fifo then dma_clear dreq else dma_set dreq) t

unfoldable pub update_dma_rx : ℕ → ℕ → System → System
update_dma_rx p i s =
    let t = on_machine p i (update_fifo_stat i) s in
    let dreq = (s.pio p).dreq_rx_base + i in
    call (if is_empty (machine p i s).rx_fifo then dma_clear dreq else dma_set dreq) t

-- `intRaw`
unfoldable pub int_raw : Pio → ℕ
int_raw b =
    field b.irq 0 4 * 2 ^ 8
    + to_num (not (is_full (b.machines 3).tx_fifo)) * 0x80
    + to_num (not (is_full (b.machines 2).tx_fifo)) * 0x40
    + to_num (not (is_full (b.machines 1).tx_fifo)) * 0x20
    + to_num (not (is_full (b.machines 0).tx_fifo)) * 0x10
    + to_num (not (is_empty (b.machines 3).rx_fifo)) * 0x08
    + to_num (not (is_empty (b.machines 2).rx_fifo)) * 0x04
    + to_num (not (is_empty (b.machines 1).rx_fifo)) * 0x02
    + to_num (not (is_empty (b.machines 0).rx_fifo))

-- `irq0IntStatus` and `irq1IntStatus`
unfoldable pub irq0_int_status : Pio → ℕ
irq0_int_status b = bit_or (bit_and (int_raw b) b.irq0_int_enable) b.irq0_int_force

unfoldable pub irq1_int_status : Pio → ℕ
irq1_int_status b = bit_or (bit_and (int_raw b) b.irq1_int_enable) b.irq1_int_force

-- `checkInterrupts`
unfoldable pub check_interrupts : ℕ → System → System
check_interrupts p s =
    let b = s.pio p in
    call (set_interrupt (b.first_irq + 1) (ltb 0 (irq1_int_status b)))
      (call (set_interrupt b.first_irq (ltb 0 (irq0_int_status b))) s)

-- a flag of FDEBUG
unfoldable pub flag_fdebug : ℕ → ℕ → System → System
flag_fdebug p bit s = on_pio p (λ b. record b { fdebug = bit_or b.fdebug (2 ^ bit) }) s

-- `pinValuesChanged` and `pinDirectionsChanged`
unfoldable pub pin_values_changed : ℕ → ℕ → ℕ → ℕ → System → System
pin_values_changed p value first count s =
    on_pio p (λ b. record b { pin_values = masked_pins s.is_rp2040 b.pin_values value first count })
      s

unfoldable pub pin_directions_changed : ℕ → ℕ → ℕ → ℕ → System → System
pin_directions_changed p value first count s =
    on_pio p
      (λ b. record b {
        pin_directions = masked_pins s.is_rp2040 b.pin_directions value first count;
      })
      s

-- `setOutPins` and `setOutPinDirs`
unfoldable pub set_out_pins : ℕ → ℕ → ℕ → System → System
set_out_pins p i value s =
    let m = machine p i s in
    pin_values_changed p value (out_base m) (out_count m)
      (on_machine p i (λ n. record n { out_pin_values = value }) s)

unfoldable pub set_out_pin_dirs : ℕ → ℕ → ℕ → System → System
set_out_pin_dirs p i value s =
    let m = machine p i s in
    pin_directions_changed p value (out_base m) (out_count m)
      (on_machine p i (λ n. record n { out_pin_direction = value }) s)

-- `setSetPins`, `setSetPinDirs` and `setSideset`
unfoldable pub set_set_pins : ℕ → ℕ → ℕ → System → System
set_set_pins p i value s =
    let m = machine p i s in pin_values_changed p value (set_base m) (set_count m) s

unfoldable pub set_set_pin_dirs : ℕ → ℕ → ℕ → System → System
set_set_pin_dirs p i value s =
    let m = machine p i s in pin_directions_changed p value (set_base m) (set_count m) s

unfoldable pub set_sideset : ℕ → ℕ → ℕ → ℕ → System → System
set_sideset p i value count s =
    let m = machine p i s in
    if test_bit m.exec_ctrl 29
    then pin_directions_changed p value (sideset_base m) count s
    else pin_values_changed p value (sideset_base m) count s

-- `jmpCondition`, of the three bits of a condition
unfoldable pub jmp_condition : ℕ → ℕ → ℕ → System → Bool × System
jmp_condition p i condition s =
    let m = machine p i s in
    if condition == 0
    then (true, s)
    else if condition == 1
    then (m.x == 0, s)
    else if condition == 2
    then (not (m.x == 0), on_machine p i (λ n. record n { x = sub32 n.x 1 }) s)
    else if condition == 3
    then (m.y == 0, s)
    else if condition == 4
    then (not (m.y == 0), on_machine p i (λ n. record n { y = sub32 n.y 1 }) s)
    else if condition == 5
    then (not (m.x == m.y), s)
    else if condition == 6
    then (if ltb (jmp_pin m) s.gpio_count then s.input (jmp_pin m) else false, s)
    else (ltb m.output_shift_count (pull_threshold m), s)

-- `inCountMask` and `inPins`
unfoldable pub in_count_mask : Bool → Machine → ℕ
in_count_mask is_rp2040 m =
    let value = low_bits m.shift_ctrl 5 in
    if is_rp2040 then 0xffffffff else if value == 0 then 0xffffffff else 2 ^ value - 1

unfoldable pub in_pins : ℕ → ℕ → System → ℕ
in_pins p i s =
    let values = s.gpio_values (s.pio p).gpiobase in
    let base = in_base (machine p i s) in
    if base == 0 then values else bit_or (shl values (32 - base)) (shr values base)

-- `inSourceValue`, of the three bits of a source
unfoldable pub in_source_value : ℕ → ℕ → ℕ → System → ℕ
in_source_value p i source s =
    let m = machine p i s in
    if source == 0
    then bit_and (in_pins p i s) (in_count_mask s.is_rp2040 m)
    else if source == 1
    then m.x
    else if source == 2
    then m.y
    else if source == 5
    then status m
    else if source == 6
    then m.input_shift_reg
    else if source == 7
    then m.output_shift_reg
    else 0

-- `resolveIrqTarget`: the block and the flag
unfoldable pub resolve_irq_target : ℕ → ℕ → ℕ → System → ℕ × ℕ
resolve_irq_target p i irq_field s =
    if s.is_rp2040
    then (
      p,
      if test_bit irq_field 4
          then field irq_field 2 1 * 4 + low_bits (low_bits irq_field 2 + i) 2
          else low_bits irq_field 3,
    )
    else let mode = field irq_field 3 2 in
      let num = low_bits irq_field 3 in
      if mode == 1
      then ((p + s.pio_count - 1) % s.pio_count, num)
      else if mode == 2
      then (p, field num 2 1 * 4 + low_bits (num + i) 2)
      else if mode == 3
      then ((p + 1) % s.pio_count, num)
      else (p, num)

-- `wait`
unfoldable pub wait : ℕ → ℕ → WaitType → Bool → ℕ → ℕ → System → System
wait p i type polarity index target s =
    on_machine p i
      (λ m. record m {
        waiting = true;
        wait_type = type;
        wait_polarity = polarity;
        wait_index = index;
        wait_delay = negsuc 0;
        wait_target_pio = target;
      })
      s
