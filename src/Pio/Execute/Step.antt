-- ===== src/Pio/Execute/Step.antt =====
-- `stepUnchecked`, and the steps of a block.
use rp2350js.Base.{ℕ, zero, suc, ◌+◌, ◌-◌, Bool, true, false, if◌then◌else◌}
use rp2350js.Base.{test_bit, low_bits, ◌==◌, ltb, bit_or, bit_xor}
use rp2350js.Base.Int.{pos, negsuc, ltb_ℤ, ◌+ℤ◌}
use rp2350js.Pio.State.{
  Machine, System, machine, on_pio, on_machine, wrap_top, wrap_bottom, call, check_for_updates,
}
use rp2350js.Pio.Machine.Wait.{check_machine}
use rp2350js.Pio.Execute.{execute_instruction}

-- The clock divider: whether the machine has a cycle in this step, and its phase afterwards.
unfoldable pub clock_gate : ℕ → ℕ → Bool × ℕ
clock_gate div phase =
    if div == 256
    then (true, phase)
    else if ltb (phase + 256) div
    then (false, phase + 256)
    else (true, phase + 256 - div)

unfoldable pub delayed : Machine → Bool
delayed m = ltb_ℤ (pos 0) m.remaining_delay

unfoldable pub count_down : ℕ → ℕ → System → System
count_down p i s =
    on_machine p i (λ m. record m { remaining_delay = m.remaining_delay +ℤ negsuc 0 }) s

unfoldable pub count_cycle : ℕ → ℕ → System → System
count_cycle p i s = on_machine p i (λ m. record m { cycles = m.cycles + 1 }) s

-- the address of the next instruction, and the one that follows by default
unfoldable pub advance : Machine → Machine
advance m =
    let a = low_bits m.next_pc 5 in
    record m { pc = a; next_pc = if a == wrap_top m then wrap_bottom m else a + 1 }

unfoldable pub fetch_execute : ℕ → ℕ → ℕ → System → System
fetch_execute fuel p i s =
    let t = on_machine p i advance s in
    execute_instruction fuel p i ((t.pio p).instructions (machine p i t).pc) t

-- what a machine does in a cycle of its clock
unfoldable pub machine_cycle : ℕ → ℕ → ℕ → System → System
machine_cycle fuel p i s =
    let s1 = count_cycle p i s in
    if delayed (machine p i s1)
    then count_down p i s1
    else if (machine p i s1).waiting
    then (let s2 = check_machine p i s1 in
        if (machine p i s2).waiting
        then count_cycle p i s2
        else if delayed (machine p i s2)
        then count_down p i s2
        else fetch_execute fuel p i s2)
    else fetch_execute fuel p i s1

unfoldable pub step_unchecked : ℕ → ℕ → ℕ → System → System
step_unchecked fuel p i s =
    let m = machine p i s in
    let (runs, phase) = clock_gate m.clock_div m.cur_clock_phase in
    let t = on_machine p i (λ n. record n { cur_clock_phase = phase }) s in
    if runs then machine_cycle fuel p i t else t

-- `step` of a machine
unfoldable pub step_machine : ℕ → ℕ → ℕ → System → System
step_machine fuel p i s = if (machine p i s).enabled then step_unchecked fuel p i s else s

-- the loop of `checkChangedPins`, from the lowest bit on, with n bits left
unfoldable pub notify_pins : ℕ → ℕ → ℕ → ℕ → System → System
notify_pins changed base k zero s = s
notify_pins changed base k (suc n) s =
    notify_pins changed base (k + 1) n
      (if test_bit changed k then call (check_for_updates (k + base)) s else s)

unfoldable pub check_changed_pins : ℕ → System → System
check_changed_pins p s =
    let b = s.pio p in
    let changed =
      bit_or (bit_xor b.old_pin_directions b.pin_directions)
        (bit_xor b.old_pin_values b.pin_values) in
    if ltb 0 changed
    then notify_pins changed b.gpiobase 0 32 (
        on_pio p
          (λ c. record c { old_pin_directions = c.pin_directions; old_pin_values = c.pin_values })
          s)
    else s

-- a machine that is running, in the loop of `step`
unfoldable pub step_running : ℕ → ℕ → ℕ → System → System
step_running fuel p i s =
    if test_bit (s.pio p).machines_running i then step_unchecked fuel p i s else s

-- `step` of a block
unfoldable pub step : ℕ → ℕ → System → System
step fuel p s =
    if (s.pio p).machines_running == 0
    then s
    else check_changed_pins p (
        step_running fuel p 3
          (step_running fuel p 2 (step_running fuel p 1 (step_running fuel p 0 s))))
