-- ===== src/Pio/Execute.antt =====
-- `executeInstruction` and the steps of a state machine.
pub mod Step
use rp2350js.Base.{
  ℕ, zero, suc, ◌+◌, ◌-◌, ◌%◌, ◌^◌, Bool, true, false, if◌then◌else◌, ◌&&◌, ◌||◌, not,
}
use rp2350js.Base.{field, test_bit, low_bits, ◌==◌, ltb, leb, shr, bit_and, bit_or, not32}
use rp2350js.Base.Int.{pos, negsuc, ltb_ℤ, ◌+ℤ◌}
use rp2350js.Fifo.{push, pull, is_empty, is_full}
use rp2350js.Pio.State.{
  Machine, System, wait_pin, wait_rx_fifo, wait_tx_fifo, wait_irq, wait_out, machine, on_pio,
  on_machine, push_threshold, pull_threshold, sideset_count, in_base,
}
use rp2350js.Pio.Shift.{in_bits, transform_mov_value}
use rp2350js.Pio.Machine.{
  update_dma_tx, update_dma_rx, check_interrupts, flag_fdebug, set_set_pins, set_set_pin_dirs,
  set_sideset, jmp_condition, in_source_value, resolve_irq_target, wait,
}
use rp2350js.Pio.Machine.Out.{set_mov_destination, out_instruction}
use rp2350js.Pio.Machine.Wait.{check_machine, irq_updated, clear_irq}

unfoldable pub exec_jmp : ℕ → ℕ → ℕ → System → System
exec_jmp p i arg s =
    let (b, t) = jmp_condition p i (shr arg 5) s in
    if b then on_machine p i (λ m. record m { next_pc = low_bits arg 5 }) t else t

unfoldable pub exec_wait : ℕ → ℕ → ℕ → System → System
exec_wait p i arg s =
    let polarity = test_bit arg 7 in
    let source = field arg 5 2 in
    let index = low_bits arg 5 in
    if source == 0
    then wait p i wait_pin polarity index p s
    else if source == 1
    then wait p i wait_pin polarity ((index + in_base (machine p i s)) % 32) p s
    else if source == 2
    then (let (q, bit) = resolve_irq_target p i index s in wait p i wait_irq polarity bit q s)
    else s

-- A word goes into the RX queue, or the machine stalls when it is full: IN with autopush and PUSH.
unfoldable pub push_word : ℕ → ℕ → Bool → System → System
push_word p i block s =
    let m = machine p i s in
    if is_full m.rx_fifo
    then (let t = flag_fdebug p i s in
        if block then wait p i wait_rx_fifo false m.input_shift_reg p t else t)
    else check_interrupts p (
        update_dma_rx p i
          (on_machine p i (λ n. record n { rx_fifo = push n.rx_fifo n.input_shift_reg }) s))

unfoldable pub clear_isr : ℕ → ℕ → System → System
clear_isr p i s = on_machine p i (λ m. record m { input_shift_reg = 0; input_shift_count = 0 }) s

unfoldable pub exec_in : ℕ → ℕ → ℕ → System → System
exec_in p i arg s =
    let t = on_machine p i (in_bits (low_bits arg 5) (in_source_value p i (shr arg 5) s)) s in
    let m = machine p i t in
    if test_bit m.shift_ctrl 16 && leb (push_threshold m) m.input_shift_count
    then clear_isr p i (push_word p i true t)
    else t

-- a word out of the TX queue into the output shift register
unfoldable pub pull_word : ℕ → ℕ → System → System
pull_word p i s =
    let (x, f) = pull (machine p i s).tx_fifo in
    check_interrupts p
      (update_dma_tx p i (on_machine p i (λ m. record m { tx_fifo = f; output_shift_reg = x }) s))

unfoldable pub exec_out : ℕ → ℕ → ℕ → System → System
exec_out p i arg s =
    let m = machine p i s in
    let t =
      if test_bit m.shift_ctrl 17 && leb (pull_threshold m) m.output_shift_count
      then (let u = on_machine p i (λ n. record n { output_shift_count = 0 }) s in
          if is_empty m.tx_fifo
          then wait p i wait_out false arg p (flag_fdebug p (24 + i) u)
          else pull_word p i u)
      else s in
    if (machine p i t).waiting then t else out_instruction p i arg t

unfoldable pub exec_pull : ℕ → ℕ → ℕ → System → System
exec_pull p i arg s =
    let m = machine p i s in
    if test_bit arg 6 && test_bit m.shift_ctrl 17 && ltb m.output_shift_count (pull_threshold m)
    then s
    else on_machine p i (λ n. record n { output_shift_count = 0 })
        (if is_empty m.tx_fifo
          then (let t = flag_fdebug p (24 + i) s in
              if test_bit arg 5
              then wait p i wait_tx_fifo false 0 p t
              else on_machine p i (λ n. record n { output_shift_reg = n.x }) t)
          else pull_word p i s)

unfoldable pub exec_push : ℕ → ℕ → ℕ → System → System
exec_push p i arg s =
    let m = machine p i s in
    if test_bit arg 6 && test_bit m.shift_ctrl 16 && ltb m.input_shift_count (push_threshold m)
    then s
    else clear_isr p i (push_word p i (test_bit arg 5) s)

unfoldable pub exec_push_pull : ℕ → ℕ → ℕ → System → System
exec_push_pull p i arg s =
    if low_bits arg 5 == 0
    then (if test_bit arg 7 then exec_pull p i arg s else exec_push p i arg s)
    else s

unfoldable pub exec_mov : ℕ → ℕ → ℕ → System → System
exec_mov p i arg s =
    set_mov_destination p i (field arg 5 3)
      (transform_mov_value (in_source_value p i (low_bits arg 3) s) (field arg 3 2)) s

unfoldable pub exec_irq : ℕ → ℕ → ℕ → System → System
exec_irq p i arg s =
    let (q, bit) = resolve_irq_target p i (low_bits arg 5) s in
    if test_bit arg 7
    then s
    else if test_bit arg 6
    then irq_updated q (clear_irq q bit s)
    else let t = irq_updated q (on_pio q (λ b. record b { irq = bit_or b.irq (2 ^ bit) }) s) in
      if test_bit arg 5 then wait p i wait_irq false bit q t else t

unfoldable pub exec_set : ℕ → ℕ → ℕ → System → System
exec_set p i arg s =
    let value = low_bits arg 5 in
    let destination = shr arg 5 in
    if destination == 0
    then set_set_pins p i value s
    else if destination == 1
    then on_machine p i (λ m. record m { x = value }) s
    else if destination == 2
    then on_machine p i (λ m. record m { y = value }) s
    else if destination == 4
    then set_set_pin_dirs p i value s
    else s

-- the switch
unfoldable pub perform : ℕ → ℕ → ℕ → System → System
perform p i opcode s =
    let arg = low_bits opcode 8 in
    let kind = field opcode 13 3 in
    if kind == 0
    then exec_jmp p i arg s
    else if kind == 1
    then exec_wait p i arg s
    else if kind == 2
    then exec_in p i arg s
    else if kind == 3
    then exec_out p i arg s
    else if kind == 4
    then exec_push_pull p i arg s
    else if kind == 5
    then exec_mov p i arg s
    else if kind == 6
    then exec_irq p i arg s
    else exec_set p i arg s

-- 5 - count as a shift takes it, modulo 32
abbrev side_shift : ℕ → ℕ
side_shift count = (37 - count) % 32

-- The side-set bits above the delay; `count` of five are side-set.
unfoldable pub side_set : ℕ → ℕ → ℕ → System → System
side_set p i opcode s =
    let m = machine p i s in
    let count = sideset_count m in
    let bits = field opcode 8 5 in
    let enabled = test_bit m.exec_ctrl 30 in
    if ltb 0 count && (not enabled || test_bit bits 4)
    then set_sideset p i (shr bits (side_shift count)) (if enabled then count - 1 else count) s
    else s

unfoldable pub delay_of : ℕ → Machine → ℕ
delay_of opcode m = low_bits (field opcode 8 5) (side_shift (sideset_count m))

-- The waiting and the delay at the end, when no EXEC follows.
unfoldable pub finish : ℕ → ℕ → ℕ → System → System
finish p i delay s =
    let m = machine p i s in
    if m.waiting
    then check_machine p i (
        if ltb_ℤ m.wait_delay (pos 0)
        then on_machine p i (λ n. record n { wait_delay = pos delay }) s
        else s)
    else on_machine p i (λ n. record n { remaining_delay = n.remaining_delay +ℤ pos delay }) s

-- The fuel bounds the instructions that are executed by EXEC one after the other; the source has no
-- bound, and an EXEC of an instruction that executes itself does not end.
unfoldable pub execute_instruction : ℕ → ℕ → ℕ → ℕ → System → System
execute_instruction zero p i opcode s = s
execute_instruction (suc n) p i opcode s =
    let t = perform p i opcode s in
    let delay = delay_of opcode (machine p i t) in
    let u = side_set p i opcode t in
    elim (machine p i u).exec_valid [
      | true ↦ execute_instruction n p i (machine p i u).exec_opcode (
          on_machine p i
            (λ m. record m { exec_valid = false; remaining_delay = m.remaining_delay +ℤ pos 1 }) u)
      | false ↦ finish p i delay u
    ]
