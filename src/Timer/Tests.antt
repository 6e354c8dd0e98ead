-- ===== src/Timer/Tests.antt =====
-- A timer at which the theorems are applied.
use rp2350js.Base.{ℕ, ◌+◌, ◌-◌, ◌*◌, ◌≡◌, refl, arith, true, false, some}
use rp2350js.Clock.{Clock, tick}
use rp2350js.Timer.{Timer, new_timer, fire, write_uint32, read_uint32, delta_micros}
use rp2350js.Timer.Rings.{idle, HasRung, write_uint32-HasRung}

abbrev ready : Timer
ready = record (new_timer true (λ j. 5 + j)) { int_enable = 4 }

write_uint32-HasRung_example :
    (s : Timer × Clock) × (write_uint32 (0x10 + 2 * 4) 3 3 (ready, idle 1500 (λ j. false)) ≡ some s)
    × HasRung 2 (3 * 1000) (tick fire 4 (3 * 1000 - 1500) s)
unfolding new_timer
write_uint32-HasRung_example =
    write_uint32-HasRung 3 5 2 3 3 1500 ready (λ j. false) (omega arith) (λ j. refl) (omega arith)
      (omega arith) refl

-- Half a microsecond before the target the delay is 0: the alarm rings while TIMELR reads 2.
rings_early : delta_micros 3 2500 ≡ 0
unfolding delta_micros
rings_early = refl

reads_before :
    (s : ℕ × Timer) × (read_uint32 0x28 (ready, idle 2500 (λ j. false)) ≡ some s) × (s.0 ≡ 2)
unfolding read_uint32 new_timer
reads_before = ((2, ready), refl, refl)
