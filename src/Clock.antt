-- ===== src/Clock.antt =====
-- clock/simulation-clock.ts: `SimulationClock` and `ClockAlarm`. The linked list of alarms is a
-- list, in the order of its `next` pointers; an alarm object is a number. `Float64` nanoseconds are
-- whole numbers here: sums of whole numbers below 2 ^ 53 are exact.
pub mod Order
pub mod Tick
mod Tests
use rp2350js.Base.{ℕ, zero, suc, ◌+◌, ◌-◌, Bool, true, false, List, [], ◌∷◌}
use rp2350js.Base.{leb, ltb, ◌==◌, if◌then◌else◌}

-- `id` is the identity of the object.
pub record Alarm : Type 0 where
  pub id : ℕ
  pub nanos : ℕ

-- `scheduled` is the field of each alarm, linked or not.
pub record Clock : Type 0 where
  pub alarms : List Alarm
  pub nanos_counter : ℕ
  pub scheduled : ℕ → Bool

abbrev pub set_scheduled : ℕ → Bool → Clock → Clock
set_scheduled id b c = record c { scheduled = λ j. if j == id then b else c.scheduled j }

-- The walk of `linkAlarm`: past the alarms that are due strictly before the new one.
unfoldable pub insert : Alarm → List Alarm → List Alarm
insert a [] = a ∷ []
insert a (b ∷ bs) = let rest = insert a bs in if ltb b.nanos a.nanos then b ∷ rest else a ∷ b ∷ bs

unfoldable pub link_alarm : ℕ → ℕ → Clock → Clock
link_alarm delta id c =
    set_scheduled id true
      (record c { alarms = insert (record { id = id; nanos = c.nanos_counter + delta }) c.alarms })

-- The walk of `unlinkAlarm`, with what it returns.
unfoldable pub remove : ℕ → List Alarm → Bool × List Alarm
remove id [] = (false, [])
remove id (b ∷ bs) =
    let (found, rest) = remove id bs in if b.id == id then (true, bs) else (found, b ∷ rest)

unfoldable pub unlink_alarm : ℕ → Clock → Bool × Clock
unlink_alarm id c = let (found, rest) = remove id c.alarms in (found, record c { alarms = rest })

unfoldable pub cancel : ℕ → Clock → Clock
unfolding unlink_alarm
cancel id c = set_scheduled id false (unlink_alarm id c).1

unfoldable pub schedule : ℕ → ℕ → Clock → Clock
schedule delta id c = link_alarm delta id (if c.scheduled id then cancel id c else c)

abbrev pub nanos_to_next_alarm : Clock → ℕ
nanos_to_next_alarm c = elim c.alarms [ [] ↦ 0 | (a ∷ others) ↦ a.nanos - c.nanos_counter ]

-- The callbacks act on a world `W` and may call the clock again.
module _ {W : Type 0} (fire : ℕ → W × Clock → W × Clock) where
  -- the loop of `tick`, with fuel
  unfoldable pub tick_loop : ℕ → ℕ → W × Clock → W × Clock
  tick_loop zero target s = s
  tick_loop (suc fuel) target (w, c) = elim c.alarms [
    | [] ↦ (w, c)
    | (a ∷ others) ↦
        let rest =
          tick_loop fuel target
            (fire a.id (w, record c { alarms = others; nanos_counter = a.nanos })) in
        if leb a.nanos target then rest else (w, c)
  ]

  unfoldable pub tick : ℕ → ℕ → W × Clock → W × Clock
  tick fuel delta s =
      let target = s.1.nanos_counter + delta in
      let (w, c) = tick_loop fuel target s in (w, record c { nanos_counter = target })
