-- ===== src/Pio/Machine/Wait.antt =====
-- `checkWait` and `irqUpdated`, which call each other when a machine clears a flag of another block.
use rp2350js.Base.{ℕ, zero, suc, ◌+◌, ◌^◌, Bool, true, false, xor, not, if◌then◌else◌, ◌&&◌}
use rp2350js.Base.{test_bit, bit_and, not32, ltb, ◌==◌}
use rp2350js.Base.Int.{◌+ℤ◌}
use rp2350js.Fifo.{push, pull, is_empty, is_full}
use rp2350js.Pio.State.{
  System, WaitType, wait_none, wait_pin, wait_rx_fifo, wait_tx_fifo, wait_irq, wait_out, machine,
  on_pio, on_machine,
}
use rp2350js.Pio.Machine.{update_dma_tx, update_dma_rx, check_interrupts}
use rp2350js.Pio.Machine.Out.{out_instruction}

unfoldable pub stop_waiting : ℕ → ℕ → System → System
stop_waiting p i s = on_machine p i (λ m. record m { waiting = false }) s

unfoldable pub clear_irq : ℕ → ℕ → System → System
clear_irq q k s = on_pio q (λ b. record b { irq = bit_and b.irq (not32 (2 ^ k)) }) s

-- the cases of the two queues and of OUT
unfoldable pub push_late : ℕ → ℕ → System → System
push_late p i s =
    if is_full (machine p i s).rx_fifo
    then s
    else check_interrupts p (
        update_dma_rx p i (
          on_machine p i (λ n. record n { rx_fifo = push n.rx_fifo n.wait_index; waiting = false })
            s))

unfoldable pub pull_late : ℕ → ℕ → System → System
pull_late p i s =
    if is_empty (machine p i s).tx_fifo
    then s
    else let (x, f) = pull (machine p i s).tx_fifo in
      check_interrupts p (
        update_dma_tx p i
          (on_machine p i (λ n. record n { tx_fifo = f; output_shift_reg = x; waiting = false }) s))

unfoldable pub out_late : ℕ → ℕ → System → System
out_late p i s =
    if is_empty (machine p i s).tx_fifo
    then s
    else let (x, f) = pull (machine p i s).tx_fifo in
      check_interrupts p (
        update_dma_tx p i (
          stop_waiting p i (
            out_instruction p i (machine p i s).wait_index
              (on_machine p i (λ n. record n { tx_fifo = f; output_shift_reg = x }) s))))

-- the case of a pin
unfoldable pub wait_on_pin : ℕ → ℕ → System → System
wait_on_pin p i s =
    let m = machine p i s in
    if ltb m.wait_index s.gpio_count
      && not (xor (s.input (m.wait_index + (s.pio p).gpiobase)) m.wait_polarity)
    then stop_waiting p i s
    else s

-- what follows the switch
unfoldable pub end_wait : ℕ → ℕ → System → System
end_wait p i s =
    if (machine p i s).waiting
    then s
    else on_machine p i
        (λ m. record m {
          remaining_delay = m.remaining_delay +ℤ m.wait_delay;
          exec_ctrl = bit_and m.exec_ctrl (not32 (2 ^ 31));
        })
        s

-- the case of a flag, with `irqUpdated` of a block
unfoldable pub wait_on_irq : (ℕ → System → System) → ℕ → ℕ → System → System
wait_on_irq updated p i s =
    let m = machine p i s in
    let q = m.wait_target_pio in
    let value = test_bit (s.pio q).irq m.wait_index in
    elim (xor value m.wait_polarity) [
      | true ↦ s
      | false ↦
          let t = stop_waiting p i s in
          let u = if value then clear_irq q m.wait_index t else t in
          elim (q == p) [ true ↦ u | false ↦ updated q u ]
    ]

-- the switch
unfoldable pub try_wait : (ℕ → System → System) → WaitType → ℕ → ℕ → System → System
try_wait updated wait_irq p i s = wait_on_irq updated p i s
try_wait updated wait_pin p i s = wait_on_pin p i s
try_wait updated wait_rx_fifo p i s = push_late p i s
try_wait updated wait_tx_fifo p i s = pull_late p i s
try_wait updated wait_out p i s = out_late p i s
try_wait updated wait_none p i s = s

unfoldable pub when : Bool → (System → System) → System → System
when true f s = f s
when false f s = s

-- The fuel counts the calls inside each other. Each of them follows the end of a wait, so there are no
-- more than machines.
unfoldable pub check_wait : ℕ → ℕ → ℕ → System → System
check_wait zero p i s = s
check_wait (suc n) p i s =
    when (machine p i s).waiting
      (λ t. end_wait p i (
        try_wait
          (λ q u.
            check_interrupts q
              (check_wait n q 3 (check_wait n q 2 (check_wait n q 1 (check_wait n q 0 u)))))
          (machine p i t).wait_type p i t))
      s

-- one call more than the machines of three blocks
unfoldable pub nesting : ℕ
nesting = 13

unfoldable pub check_machine : ℕ → ℕ → System → System
check_machine p i s = check_wait nesting p i s

unfoldable pub irq_updated : ℕ → System → System
irq_updated p s =
    check_interrupts p
      (check_machine p 3 (check_machine p 2 (check_machine p 1 (check_machine p 0 s))))
