-- ===== src/Pio/Registers.antt =====
-- `readUint32` and `writeUint32` of a machine, its two queues, and what CTRL does to it.
pub mod Block
use rp2350js.Base.{
  ℕ, ◌+◌, ◌*◌, ◌-◌, ◌^◌, Bool, true, false, if◌then◌else◌, field, test_bit, low_bits, shr, u32,
}
use rp2350js.Base.{◌==◌, ltb, shl, bit_and, bit_or, bit_xor, not32, not}
use rp2350js.Base.Int.{pos}
use rp2350js.Fifo.{Fifo, fresh, push, pull, is_empty, is_full}
use rp2350js.Pio.State.{
  Machine, System, machine, on_pio, on_machine, call, error, update_active_lists,
}
use rp2350js.Pio.Machine.{update_dma_tx, update_dma_rx, check_interrupts, flag_fdebug}
use rp2350js.Pio.Machine.Wait.{check_machine}
use rp2350js.Pio.Execute.{execute_instruction}

-- `writeFIFO`
unfoldable pub write_fifo : ℕ → ℕ → ℕ → System → System
write_fifo p i value s =
    if is_full (machine p i s).tx_fifo
    then flag_fdebug p (16 + i) s
    else let t =
        check_machine p i (
          update_dma_tx p i
            (on_machine p i (λ m. record m { tx_fifo = push m.tx_fifo value }) s)) in
      if is_full (machine p i t).tx_fifo then check_interrupts p t else t

-- `readFIFO`
unfoldable pub read_fifo : ℕ → ℕ → System → ℕ × System
read_fifo p i s =
    if is_empty (machine p i s).rx_fifo
    then (0, flag_fdebug p (8 + i) s)
    else let (x, f) = pull (machine p i s).rx_fifo in
      let t =
        check_machine p i (update_dma_rx p i (on_machine p i (λ m. record m { rx_fifo = f }) s)) in
      (x, if is_empty (machine p i t).rx_fifo then check_interrupts p t else t)

-- the setter `enabled`
unfoldable pub set_enabled : ℕ → ℕ → Bool → System → System
set_enabled p i value s =
    let t = on_machine p i (λ m. record m { enabled = value }) s in
    call update_active_lists (
      on_pio p
        (λ b. record b {
          machines_running =
              if value
              then bit_or b.machines_running (2 ^ i)
              else bit_and b.machines_running (not32 (2 ^ i));
        })
        t)

-- `restart` and `clkDivRestart`
unfoldable pub restart : Machine → Machine
restart m = record m {
  cycles = 0;
  cur_clock_phase = 0;
  remaining_delay = pos 0;
  input_shift_count = 0;
  output_shift_count = 32;
  input_shift_reg = 0;
  waiting = false;
}

unfoldable pub clk_div_restart : Machine → Machine
clk_div_restart m = record m { cur_clock_phase = 0 }

-- `readUint32` of a machine, at an offset from its first register
unfoldable pub read_machine : ℕ → ℕ → ℕ → System → ℕ × System
read_machine p i offset s =
    let m = machine p i s in
    if offset == 0x00
    then (bit_or (shl (shr m.clock_div 8) 16) (shl (low_bits m.clock_div 8) 8), s)
    else if offset == 0x04
    then (m.exec_ctrl, s)
    else if offset == 0x08
    then (m.shift_ctrl, s)
    else if offset == 0x0c
    then (m.pc, s)
    else if offset == 0x10
    then ((s.pio p).instructions m.pc, s)
    else if offset == 0x14
    then (m.pin_ctrl, s)
    else (0, call (error offset) s)

-- the queues that a write to SHIFTCTRL makes anew
unfoldable pub join_fifos : ℕ → Machine → Machine
join_fifos value m =
    if test_bit value 31
    then record m { rx_fifo = fresh 8; tx_fifo = fresh 0 }
    else if test_bit value 30
    then record m { rx_fifo = fresh 0; tx_fifo = fresh 8 }
    else record m { rx_fifo = fresh 4; tx_fifo = fresh 4 }

unfoldable pub write_shiftctrl : ℕ → ℕ → ℕ → System → System
write_shiftctrl p i value s =
    let m = machine p i s in
    on_machine p i (λ n. record n { shift_ctrl = value })
      (if bit_xor (shr value 30) (shr m.shift_ctrl 30) == 0
        then s
        else update_dma_rx p i (update_dma_tx p i (on_machine p i (join_fifos value) s)))

-- SM_INSTR: an instruction at once, with the fuel of `execute_instruction`
unfoldable pub write_instr : ℕ → ℕ → ℕ → ℕ → System → System
write_instr fuel p i value s =
    let t = execute_instruction fuel p i (low_bits value 16) s in
    if (machine p i t).waiting
    then on_machine p i (λ m. record m { exec_ctrl = bit_or m.exec_ctrl (2 ^ 31) }) t
    else t

-- `writeUint32` of a machine
unfoldable pub write_machine : ℕ → ℕ → ℕ → ℕ → ℕ → System → System
write_machine fuel p i offset value s =
    if offset == 0x00
    then on_machine p i (λ m. record m { clock_div = shr value 16 * 256 + field value 8 8 }) s
    else if offset == 0x04
    then on_machine p i
        (λ m. record m {
          exec_ctrl = bit_or (bit_and value 0x7fffffff) (bit_and m.exec_ctrl 0x80000000);
        })
        s
    else if offset == 0x08
    then write_shiftctrl p i value s
    else if offset == 0x0c
    then s
    else if offset == 0x10
    then write_instr fuel p i value s
    else if offset == 0x14
    then on_machine p i (λ m. record m { pin_ctrl = value }) s
    else call (error offset) s
