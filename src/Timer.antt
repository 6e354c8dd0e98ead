-- ===== src/Timer.antt =====
-- peripherals/timer.ts: the class `RPTimer` with its four alarms, on the clock of clock/simulation-clock.ts.
-- Times in microseconds are quotients of whole nanoseconds and not rounded, as a division in Float64
-- would round them from 2 ^ 53 on.
pub mod Due
pub mod Rings
mod Tests
use rp2350js.Base.{
  ℕ, zero, suc, ◌+◌, ◌-◌, ◌*◌, ◌/◌, ◌%◌, ◌^◌, Bool, true, false, ◌&&◌, if◌then◌else◌, Option, some,
  none,
}
use rp2350js.Base.{◌==◌, leb, field, test_bit, low_bits, bit_and, bit_or, not32, to_num, two32}
use rp2350js.Clock.{Clock, cancel, schedule}

-- The alarm k is the object `clock_alarm k` on the clock. `interrupts k` is what `setInterrupt` got last
-- for `timer_irq_base + k`.
pub record Timer : Type 0 where
  pub latched_time_high : ℕ
  pub armed : ℕ → Bool
  pub target_micros : ℕ → ℕ
  pub clock_alarm : ℕ → ℕ
  pub int_raw : ℕ
  pub int_enable : ℕ
  pub int_force : ℕ
  pub paused : Bool
  pub int_reg_base : ℕ
  pub interrupts : ℕ → Bool

-- Before any call of `setInterrupt` the lines are low.
unfoldable pub new_timer : Bool → (ℕ → ℕ) → Timer
new_timer is_rp2040 clock_alarm = record {
  latched_time_high = 0;
  armed = λ k. false;
  target_micros = λ k. 0;
  clock_alarm = clock_alarm;
  int_raw = 0;
  int_enable = 0;
  int_force = 0;
  paused = false;
  int_reg_base = if is_rp2040 then 0x34 else 0x3c;
  interrupts = λ k. false;
}

unfoldable pub int_status : Timer → ℕ
int_status t = bit_or (bit_and t.int_raw t.int_enable) t.int_force

unfoldable pub check_interrupts : Timer → Timer
check_interrupts t = record t {
  interrupts = λ k. if leb 4 k then t.interrupts k else test_bit (int_status t) k;
}

unfoldable pub disarm_alarm : ℕ → Timer × Clock → Timer × Clock
disarm_alarm k (t, c) =
    (record t { armed = λ j. if j == k then false else t.armed j }, cancel (t.clock_alarm k) c)

unfoldable pub fire_alarm : ℕ → Timer × Clock → Timer × Clock
fire_alarm k s =
    let (t, c) = disarm_alarm k s in
    (check_interrupts (record t { int_raw = bit_or t.int_raw (2 ^ k) }), c)

-- `fire` of the alarm object with this number
unfoldable pub fire : ℕ → Timer × Clock → Timer × Clock
fire id s =
    if id == s.0.clock_alarm 0
    then fire_alarm 0 s
    else if id == s.0.clock_alarm 1
    then fire_alarm 1 s
    else if id == s.0.clock_alarm 2
    then fire_alarm 2 s
    else if id == s.0.clock_alarm 3
    then fire_alarm 3 s
    else s

-- `(value - getNanos() / 1000) >>> 0`: towards zero, and then modulo 2 ^ 32
unfoldable pub delta_micros : ℕ → ℕ → ℕ
delta_micros value nanos =
    if leb nanos (value * 1000)
    then (value * 1000 - nanos) / 1000 % two32
    else (two32 - (nanos - value * 1000) / 1000 % two32) % two32

unfoldable pub write_alarm : ℕ → ℕ → Timer × Clock → Timer × Clock
write_alarm k value (t, c) = (
  record t {
    armed = λ j. if j == k then true else t.armed j;
    target_micros = λ j. if j == k then value else t.target_micros j;
  },
  schedule (delta_micros value c.nanos_counter * 1000) (t.clock_alarm k) c,
)

unfoldable pub disarm_if : Bool → ℕ → Timer × Clock → Timer × Clock
disarm_if true k s = disarm_alarm k s
disarm_if false k s = s

unfoldable pub write_armed : ℕ → Timer × Clock → Timer × Clock
write_armed raw s =
    disarm_if (test_bit raw 3) 3
      (disarm_if (test_bit raw 2) 2 (disarm_if (test_bit raw 1) 1 (disarm_if (test_bit raw 0) 0 s)))

-- the registers of the interrupt, by the offset from their base; `none` is an access of the base class
unfoldable pub write_interrupt : ℕ → ℕ → ℕ → Timer → Option Timer
write_interrupt offset value raw_write_value t =
    if offset == t.int_reg_base
    then some (check_interrupts (record t { int_raw = bit_and t.int_raw (not32 raw_write_value) }))
    else if offset == t.int_reg_base + 4
    then some (check_interrupts (record t { int_enable = low_bits value 4 }))
    else if offset == t.int_reg_base + 8
    then some (check_interrupts (record t { int_force = low_bits value 4 }))
    else none

unfoldable pub with_clock : Clock → Option Timer → Option (Timer × Clock)
with_clock c (some t) = some (t, c)
with_clock c none = none

unfoldable pub write_uint32 : ℕ → ℕ → ℕ → Timer × Clock → Option (Timer × Clock)
write_uint32 offset value raw_write_value (t, c) =
    if leb 0x10 offset && leb offset 0x1c && (offset % 4 == 0)
    then some (write_alarm ((offset - 0x10) / 4) value (t, c))
    else if offset == 0x20
    then some (write_armed raw_write_value (t, c))
    else if offset == 0x30
    then some (record t { paused = test_bit value 0 }, c)
    else with_clock c (write_interrupt offset value raw_write_value t)

-- the value that is read, and the timer, whose latch a read of TIMELR sets
unfoldable pub read_uint32 : ℕ → Timer × Clock → Option (ℕ × Timer)
read_uint32 offset (t, c) =
    let micros = c.nanos_counter / 1000 in
    if offset == 0x08
    then some (t.latched_time_high, t)
    else if offset == 0x0c
    then some (micros % two32, record t { latched_time_high = micros / two32 })
    else if offset == 0x24
    then some (micros / two32, t)
    else if offset == 0x28
    then some (micros % two32, t)
    else if leb 0x10 offset && leb offset 0x1c && (offset % 4 == 0)
    then some (t.target_micros ((offset - 0x10) / 4), t)
    else if offset == 0x30
    then some (to_num t.paused, t)
    else if offset == 0x20
    then some (
      to_num (t.armed 0) + to_num (t.armed 1) * 2 + to_num (t.armed 2) * 4 + to_num (t.armed 3) * 8,
      t,
    )
    else if offset == t.int_reg_base
    then some (t.int_raw, t)
    else if offset == t.int_reg_base + 4
    then some (t.int_enable, t)
    else if offset == t.int_reg_base + 8
    then some (t.int_force, t)
    else if offset == t.int_reg_base + 12
    then some (int_status t, t)
    else none
