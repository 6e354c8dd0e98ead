-- ===== src/Clock/Tick.antt =====
-- clock/simulation-clock.ts: what `tick` fires.
use rp2350js.Base.{ℕ, zero, suc, ◌+◌, ◌≤◌, ◌<◌, ◌≡◌, refl, arith, List, [], ◌∷◌, length, inl, inr}
use rp2350js.Base.{Bool, leb, if◌then◌else◌, Bool-cases}
use rp2350js.Clock.{Alarm, Clock, tick_loop, tick}
use rp2350js.Clock.Order.{IsFrom, IsOrdered}

-- the alarms up to a time, and those after it
abbrev pub due : ℕ → List Alarm → List Alarm
due t [] = []
due t (a ∷ others) = if leb a.nanos t then a ∷ due t others else due t others

abbrev pub later : ℕ → List Alarm → List Alarm
later t [] = []
later t (a ∷ others) = if leb a.nanos t then later t others else a ∷ later t others

none_due :
    (t lo : ℕ) (others : List Alarm)
    → t < lo
    → IsFrom lo others
    → (due t others ≡ []) × (later t others ≡ others)
none_due t lo [] h v = (refl, refl)
none_due t lo (a ∷ others) h v = ground (arith, none_due t a.nanos others)

module _ {W : Type 0} (log : ℕ → ℕ → W → W) where
  -- a callback that acts by its alarm's number and the clock's time
  abbrev pub recording : ℕ → W × Clock → W × Clock
  recording id (w, c) = (log id c.nanos_counter w, c)

  abbrev pub replay : List Alarm → W → W
  replay [] w = w
  replay (a ∷ others) w = replay others (log a.id a.nanos w)

  loop_fires :
      (fuel target t lo now : ℕ) (sch : ℕ → Bool) (w : W) (others : List Alarm)
      → IsFrom lo others
      → length others ≤ fuel
      → let c : Clock = record { alarms = others; nanos_counter = now; scheduled = sch } in
        let r = tick_loop recording fuel target (w, c) in
        ◌≡◌ {A = W × Clock}
          (r.0, record (r.1) { nanos_counter = t })
          (
            replay (due target others) w,
            record { alarms = later target others; nanos_counter = t; scheduled = sch },
          )
  unfolding tick_loop
  loop_fires zero target t lo now sch w [] v h = refl
  loop_fires zero target t lo now sch w (a ∷ others) v h = absurd (omega arith)
  loop_fires (suc fuel) target t lo now sch w [] v h = refl
  loop_fires (suc fuel) target t lo now sch w (a ∷ others) v h =
      elim (Bool-cases (leb a.nanos target)) [
        | inl e ↦ rw e (
            loop_fires fuel target t a.nanos a.nanos sch (log a.id a.nanos w) others v.1
              (omega arith))
        | inr e ↦
            let quiet = none_due target a.nanos others (ground arith) v.1 in
            rw (e, quiet.0, quiet.1) refl
      ]

  -- On a clock whose alarms are in order, with callbacks that leave the clock alone, `tick` fires
  -- every alarm that is due, once, in the order of the times and each at its time, keeps the others,
  -- and ends at the time it was asked for. As many rounds as there are alarms are enough.
  pub tick_fires :
      (fuel delta : ℕ) (w : W) (c : Clock)
      → IsOrdered c
      → length c.alarms ≤ fuel
      → let target = c.nanos_counter + delta in
        ◌≡◌ {A = W × Clock} (tick recording fuel delta (w, c)) (
          replay (due target c.alarms) w,
          record c { alarms = later target c.alarms; nanos_counter = target },
        )
  unfolding tick
  tick_fires fuel delta w c v h =
      loop_fires fuel (c.nanos_counter + delta) (c.nanos_counter + delta) c.nanos_counter
        c.nanos_counter c.scheduled w c.alarms v h
