-- ===== src/Timer/Due.antt =====
-- When an alarm that a program sets is due on the clock.
use rp2350js.Base.{ℕ, ◌+◌, ◌-◌, ◌*◌, ◌/◌, ◌%◌, ◌<◌, ◌≤◌, true, List, [], ◌∷◌, some}
use rp2350js.Base.{◌≡◌, refl, arith, Bool-cases, inl, inr, ltb, leb, ◌==◌, ==_iff, two32}
use mathlib.Core.List.{Memᴰ}
use rp2350js.Clock.{Alarm, Clock, insert, link_alarm, cancel, unlink_alarm, schedule}
use rp2350js.Timer.{Timer, delta_micros, write_alarm, write_uint32}

-- Alarm k is armed and is on the clock, at a time that is not past, not after the microsecond
-- `value` begins and less than a microsecond before that.
record IsDue (k value now : ℕ) (s : Timer × Clock) : Type 0 where
  pub due : ℕ
  pub linked : Memᴰ (record { id = s.0.clock_alarm k; nanos = due }) s.1.alarms
  pub not_past : now ≤ due
  pub not_late : due ≤ value * 1000
  pub not_early : value * 1000 < due + 1000
  pub armed : s.0.armed k ≡ true
  pub target : s.0.target_micros k ≡ value

insert-Mem : (a : Alarm) (bs : List Alarm) → Memᴰ a (insert a bs)
unfolding insert
insert-Mem a [] = Memᴰ.head refl
insert-Mem a (b ∷ bs) = elim (Bool-cases (ltb b.nanos a.nanos)) [
  | inl e ↦ rw e (Memᴰ.tail (insert-Mem a bs))
  | inr e ↦ rw e (Memᴰ.head refl)
]

schedule-Mem :
    (delta id : ℕ) (c : Clock)
    → Memᴰ (record { id = id; nanos = c.nanos_counter + delta }) (schedule delta id c).alarms
unfolding schedule link_alarm cancel unlink_alarm
schedule-Mem delta id c = elim (Bool-cases (c.scheduled id)) [
  | inl e ↦ rw e (insert-Mem _ _)
  | inr e ↦ rw e (insert-Mem _ _)
]

pub delta_ahead :
    (value now : ℕ)
    → now ≤ value * 1000
    → value * 1000 < now + two32 * 1000
    → delta_micros value now ≡ (value * 1000 - now) / 1000
unfolding delta_micros
delta_ahead value now p q =
    let e : leb now (value * 1000) ≡ true = ground arith in rw e (omega (arith, p, q))

pub equal_self : (k : ℕ) → (k == k) ≡ true
equal_self k = (==_iff k k).1 refl

write_alarm-IsDue :
    (k value : ℕ) (t : Timer) (c : Clock)
    → c.nanos_counter ≤ value * 1000
    → value * 1000 < c.nanos_counter + two32 * 1000
    → IsDue k value c.nanos_counter (write_alarm k value (t, c))
unfolding write_alarm
write_alarm-IsDue k value t c p q =
    let now = c.nanos_counter in
    let d = delta_micros value now in
    let e = delta_ahead value now p q in
    record {
      due = now + d * 1000;
      linked = schedule-Mem (d * 1000) (t.clock_alarm k) c;
      not_past = omega arith;
      not_late = omega (arith, e, p);
      not_early = omega (arith, e, p);
      armed = rw (equal_self k) refl;
      target = rw (equal_self k) refl;
    }

pub alarm_written :
    (k value raw : ℕ) (t : Timer) (c : Clock)
    → k < 4
    → write_uint32 (0x10 + k * 4) value raw (t, c) ≡ some (write_alarm k value (t, c))
unfolding write_uint32
alarm_written k value raw t c lt =
    let a : leb 0x10 (0x10 + k * 4) ≡ true = ground arith in
    let b : leb (0x10 + k * 4) 0x1c ≡ true = ground arith in
    let d : ((0x10 + k * 4) % 4 == 0) ≡ true = ground arith in
    let i : (0x10 + k * 4 - 0x10) / 4 ≡ k = omega arith in rw (a, b, d, i) refl

-- A write of a value to the register of one of the four alarms, where the
-- microsecond `value` begins now or later, and less than 2 ^ 32 microseconds
-- from now: it succeeds, the alarm is armed with this target, and it is linked on the clock at a time that
-- is not past, not after the beginning of that microsecond and less than a
-- microsecond before it.
write_uint32-IsDue :
    (k value raw : ℕ) (t : Timer) (c : Clock)
    → k < 4
    → c.nanos_counter ≤ value * 1000
    → value * 1000 < c.nanos_counter + two32 * 1000
    → (s : Timer × Clock) × (write_uint32 (0x10 + k * 4) value raw (t, c) ≡ some s)
      × IsDue k value c.nanos_counter s
write_uint32-IsDue k value raw t c lt p q = (
  write_alarm k value (t, c),
  alarm_written k value raw t c lt,
  write_alarm-IsDue k value t c p q,
)
