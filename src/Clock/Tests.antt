-- ===== src/Clock/Tests.antt =====
-- Runs of a clock on concrete inputs.
use rp2350js.Base.{ℕ, ◌+◌, ◌≡◌, refl, arith, true, List, [], ◌∷◌}
use rp2350js.Clock.{Clock, schedule, cancel, tick, tick_loop}
use rp2350js.Clock.Order.{IsOrdered, schedule-IsOrdered}
use rp2350js.Clock.Tick.{due, later, recording, replay, tick_fires}

-- At time 100, with alarm 7 at 105 and alarm 9 at 120.
abbrev two_alarms : Clock
two_alarms = record {
  alarms = record { id = 7; nanos = 105 } ∷ record { id = 9; nanos = 120 } ∷ [];
  nanos_counter = 100;
  scheduled = λ _. true;
}

abbrev note_id : ℕ → ℕ → List ℕ → List ℕ
note_id id time ids = id ∷ ids

tick-two_alarms : (tick (recording note_id) 2 10 ([], two_alarms)).0 ≡ 7 ∷ []
unfolding tick tick_loop
tick-two_alarms = refl

schedule-IsOrdered_example : IsOrdered (schedule 3 9 two_alarms) × IsOrdered (cancel 9 two_alarms)
schedule-IsOrdered_example = schedule-IsOrdered 3 9 two_alarms (omega arith, (omega arith, tt))

tick_fires_example : ◌≡◌ {A = List ℕ × Clock} (tick (recording note_id) 2 10 ([], two_alarms)) (
  replay note_id (due (100 + 10) two_alarms.alarms) [],
  record two_alarms { alarms = later (100 + 10) two_alarms.alarms; nanos_counter = 100 + 10 },
)
tick_fires_example =
    tick_fires note_id 2 10 [] two_alarms (omega arith, (omega arith, tt)) (omega arith)
