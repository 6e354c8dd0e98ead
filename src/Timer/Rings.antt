-- ===== src/Timer/Rings.antt =====
-- From the write of an alarm register to its interrupt.
use rp2350js.Base.{
  ℕ, zero, suc, ◌+◌, ◌-◌, ◌*◌, ◌/◌, ◌^◌, ◌%◌, ◌<◌, ◌≤◌, Bool, true, false, [], ◌∷◌, some,
}
use rp2350js.Base.{
  ◌≡◌, refl, sym, ap, ◌∙◌, subst, arith, Bool-cases, inl, inr, leb, ◌==◌, test_bit, bit_or, bit_and,
  two32, if◌then◌else◌,
}
use rp2350js.Base.Bits.{bit_or-bit, bit_and-bit}
use native.Mathlib.Nat.{mul-div_cancel, one-le-pow}
use rp2350js.Clock.{
  Clock, tick_loop, tick, schedule, link_alarm, cancel, unlink_alarm, remove, insert,
}
use rp2350js.Timer.{
  Timer, fire, fire_alarm, disarm_alarm, check_interrupts, int_status, write_alarm, write_uint32,
  delta_micros,
}
use rp2350js.Timer.Due.{delta_ahead, equal_self, alarm_written}

-- a clock on which nothing is linked
abbrev pub idle : ℕ → (ℕ → Bool) → Clock
idle now scheduled = record { alarms = []; nanos_counter = now; scheduled = scheduled }

-- the alarms are objects in a row
abbrev pub AreInRow : ℕ → Timer → Type 0
AreInRow base t = (j : ℕ) → t.clock_alarm j ≡ base + j

-- Alarm k has rung at the given time.
pub record HasRung (k now : ℕ) (s : Timer × Clock) : Type 0 where
  pub disarmed : s.0.armed k ≡ false
  pub raised : test_bit s.0.int_raw k ≡ true
  pub interrupts : s.0.interrupts k ≡ true
  pub reached : s.1.nanos_counter ≡ now
  pub unlinked : s.1.alarms ≡ []

others_differ :
    (base i j : ℕ) (t : Timer)
    → AreInRow base t
    → (i == j) ≡ false
    → (t.clock_alarm i == t.clock_alarm j) ≡ false
others_differ base i j t row e = ground (arith, row i, row j, e)

fire_own :
    (base k : ℕ) (t : Timer) (c : Clock)
    → k < 4
    → AreInRow base t
    → fire (t.clock_alarm k) (t, c) ≡ fire_alarm k (t, c)
unfolding fire
fire_own base zero t c lt row = rw (equal_self (t.clock_alarm 0)) refl
fire_own base (suc zero) t c lt row =
    rw (others_differ base 1 0 t row refl, equal_self (t.clock_alarm 1)) refl
fire_own base (suc (suc zero)) t c lt row =
    rw
      (
        others_differ base 2 0 t row refl,
        others_differ base 2 1 t row refl,
        equal_self (t.clock_alarm 2),
      )
      refl
fire_own base (suc (suc (suc zero))) t c lt row =
    rw
      (
        others_differ base 3 0 t row refl,
        others_differ base 3 1 t row refl,
        others_differ base 3 2 t row refl,
        equal_self (t.clock_alarm 3),
      )
      refl
fire_own base (suc (suc (suc (suc k)))) t c lt row = absurd (omega arith)

loop_idle :
    (fuel target : ℕ) (t : Timer) (now : ℕ) (f : ℕ → Bool)
    → ◌≡◌ {A = Timer × Clock} (tick_loop fire fuel target (t, idle now f)) (t, idle now f)
unfolding tick_loop
loop_idle zero target t now f = refl
loop_idle (suc fuel) target t now f = refl

own_bit : (k : ℕ) → 2 ^ k / 2 ^ k % 2 ≡ 1
own_bit k =
    let p : 0 < 2 ^ k = omega (arith, one-le-pow k 2 (omega arith)) in
    let e : 1 * 2 ^ k ≡ 2 ^ k = omega arith in
    ap (λ x. x / 2 ^ k % 2) (sym e) ∙ ap (λ x. x % 2) (mul-div_cancel 1 p)

raised_bit : (x k : ℕ) → bit_or x (2 ^ k) / 2 ^ k % 2 ≡ 1
raised_bit x k = omega (arith, bit_or-bit k x (2 ^ k), own_bit k)

status_bit :
    (x enable force k : ℕ)
    → x / 2 ^ k % 2 ≡ 1
    → test_bit enable k ≡ true
    → test_bit (bit_or (bit_and x enable) force) k ≡ true
status_bit x enable force k a e =
    let b : 0 < enable / 2 ^ k % 2 = ground (arith, e) in
    let d : bit_or (bit_and x enable) force / 2 ^ k % 2 ≡ 1 =
      omega (arith, bit_or-bit k (bit_and x enable) force, bit_and-bit k x enable, a, b) in
    rw d refl

fire_alarm-HasRung :
    (k due now : ℕ) (t : Timer) (f : ℕ → Bool)
    → k < 4
    → test_bit t.int_enable k ≡ true
    → let s = fire_alarm k (t, idle due f) in
      HasRung k now (s.0, record s.1 { nanos_counter = now })
unfolding fire_alarm disarm_alarm check_interrupts int_status cancel unlink_alarm remove
fire_alarm-HasRung k due now t f lt e = record {
  disarmed = rw (equal_self k) refl;
  raised = rw (raised_bit t.int_raw k) refl;
  interrupts =
      let b : leb 4 k ≡ false = ground arith in
      rw b (
        status_bit (bit_or t.int_raw (2 ^ k)) t.int_enable t.int_force k (raised_bit t.int_raw k)
          e);
  reached = refl;
  unlinked = refl;
}

loop_fired :
    (fuel target k due : ℕ) (t : Timer) (f : ℕ → Bool)
    → tick_loop fire fuel target (fire_alarm k (t, idle due f)) ≡ fire_alarm k (t, idle due f)
unfolding fire_alarm disarm_alarm cancel unlink_alarm remove
loop_fired fuel target k due t f = loop_idle fuel target _ due _

-- a clock with one alarm
abbrev pub alone : ℕ → ℕ → ℕ → (ℕ → Bool) → Clock
alone id due now scheduled = record {
  alarms = record { id = id; nanos = due } ∷ [];
  nanos_counter = now;
  scheduled = scheduled;
}

loop_alone :
    (fuel target base k due now : ℕ) (t : Timer) (f : ℕ → Bool)
    → k < 4
    → AreInRow base t
    → due ≤ target
    → tick_loop fire (suc fuel) target (t, alone (t.clock_alarm k) due now f)
      ≡ fire_alarm k (t, idle due f)
unfolding tick_loop
loop_alone fuel target base k due now t f lt row le =
    let a : leb due target ≡ true = ground arith in
    rw (a, fire_own base k t (idle due f) lt row) (loop_fired fuel target k due t f)

-- a tick that goes to where the alarm is due or further
tick-HasRung :
    (fuel base k due delta now : ℕ) (t : Timer) (f : ℕ → Bool)
    → k < 4
    → AreInRow base t
    → due ≤ now + delta
    → test_bit t.int_enable k ≡ true
    → HasRung k (now + delta) (tick fire (suc fuel) delta (t, alone (t.clock_alarm k) due now f))
unfolding tick
tick-HasRung fuel base k due delta now t f lt row le e =
    rw (loop_alone fuel (now + delta) base k due now t f lt row le)
      (fire_alarm-HasRung k due (now + delta) t f lt e)

-- as it is after the write, whatever objects have been scheduled before
alone-HasRung :
    (fuel base k value now : ℕ) (t : Timer) (f : ℕ → Bool)
    → k < 4
    → AreInRow base t
    → now ≤ value * 1000
    → value * 1000 < now + two32 * 1000
    → test_bit t.int_enable k ≡ true
    → HasRung k (value * 1000) (
        tick fire
          (suc fuel)
          (value * 1000 - now)
          (t, alone (t.clock_alarm k) (now + delta_micros value now * 1000) now f))
alone-HasRung fuel base k value now t f lt row p q e =
    let d = delta_ahead value now p q in
    let due = now + delta_micros value now * 1000 in
    let delta = value * 1000 - now in
    let at : now + delta ≡ value * 1000 = omega (arith, p) in
    subst (λ x. HasRung k x (tick fire (suc fuel) delta (t, alone (t.clock_alarm k) due now f))) at
      (tick-HasRung fuel base k due delta now t f lt row (omega (arith, d, p)) e)

written-HasRung :
    (fuel base k value now : ℕ) (t : Timer) (f : ℕ → Bool)
    → k < 4
    → AreInRow base t
    → now ≤ value * 1000
    → value * 1000 < now + two32 * 1000
    → test_bit t.int_enable k ≡ true
    → HasRung k
        (value * 1000)
        (tick fire (suc fuel) (value * 1000 - now) (write_alarm k value (t, idle now f)))
unfolding write_alarm schedule link_alarm cancel unlink_alarm remove insert
written-HasRung fuel base k value now t f lt row p q e =
    let set : Timer = record t {
      armed = λ j. if j == k then true else t.armed j;
      target_micros = λ j. if j == k then value else t.target_micros j;
    } in
    elim (Bool-cases (f (t.clock_alarm k))) [
      | inl b ↦ rw b (alone-HasRung fuel base k value now set _ lt row p q e)
      | inr b ↦ rw b (alone-HasRung fuel base k value now set _ lt row p q e)
    ]

-- On a timer whose four alarm objects are in a row, with nothing linked on its
-- clock, a value is written to the register of one of the alarms that has its
-- interrupt enabled, where the microsecond `value` begins now or later and
-- less than 2 ^ 32 microseconds from now: the write succeeds, and when the
-- clock has been advanced to that microsecond the alarm is disarmed and no
-- longer linked, its bit of INTR is set and its interrupt line is high.
pub write_uint32-HasRung :
    (fuel base k value raw now : ℕ) (t : Timer) (f : ℕ → Bool)
    → k < 4
    → AreInRow base t
    → now ≤ value * 1000
    → value * 1000 < now + two32 * 1000
    → test_bit t.int_enable k ≡ true
    → (s : Timer × Clock) × (write_uint32 (0x10 + k * 4) value raw (t, idle now f) ≡ some s)
      × HasRung k (value * 1000) (tick fire (suc fuel) (value * 1000 - now) s)
write_uint32-HasRung fuel base k value raw now t f lt row p q e = (
  write_alarm k value (t, idle now f),
  alarm_written k value raw t (idle now f) lt,
  written-HasRung fuel base k value now t f lt row p q e,
)
