-- ===== src/Clock/Order.antt =====
-- clock/simulation-clock.ts: the order of the linked alarms.
use rp2350js.Base.{ℕ, ◌≤◌, arith, Bool-cases, inl, inr, List, [], ◌∷◌}
use rp2350js.Base.{ltb, ◌==◌}
use rp2350js.Clock.{Alarm, Clock, insert, remove, link_alarm, unlink_alarm, cancel, schedule}

-- The times do not fall, from `lo` on.
abbrev pub IsFrom : ℕ → List Alarm → Type 0
IsFrom lo [] = Unit
IsFrom lo (a ∷ others) = (lo ≤ a.nanos) × IsFrom a.nanos others

abbrev pub IsOrdered : Clock → Type 0
IsOrdered c = IsFrom c.nanos_counter c.alarms

IsFrom-le : (lo hi : ℕ) (others : List Alarm) → lo ≤ hi → IsFrom hi others → IsFrom lo others
IsFrom-le lo hi [] h v = v
IsFrom-le lo hi (a ∷ others) h v = (omega (arith, v.0), v.1)

insert-IsFrom :
    (lo : ℕ) (a : Alarm) (bs : List Alarm) → lo ≤ a.nanos → IsFrom lo bs → IsFrom lo (insert a bs)
unfolding insert
insert-IsFrom lo a [] h v = (h, v)
insert-IsFrom lo a (b ∷ bs) h v = elim (Bool-cases (ltb b.nanos a.nanos)) [
  | inl e ↦ rw e (v.0, insert-IsFrom b.nanos a bs (ground arith) v.1)
  | inr e ↦ rw e (h, (ground arith, v.1))
]

remove-IsFrom : (lo id : ℕ) (bs : List Alarm) → IsFrom lo bs → IsFrom lo (remove id bs).1
unfolding remove
remove-IsFrom lo id [] v = v
remove-IsFrom lo id (b ∷ bs) v = elim (Bool-cases (b.id == id)) [
  | inl e ↦ rw e (IsFrom-le lo b.nanos bs v.0 v.1)
  | inr e ↦ rw e (v.0, remove-IsFrom b.nanos id bs v.1)
]

cancel-IsOrdered : (id : ℕ) (c : Clock) → IsOrdered c → IsOrdered (cancel id c)
unfolding cancel unlink_alarm
cancel-IsOrdered id c v = remove-IsFrom c.nanos_counter id c.alarms v

link_alarm-IsOrdered : (delta id : ℕ) (c : Clock) → IsOrdered c → IsOrdered (link_alarm delta id c)
unfolding link_alarm
link_alarm-IsOrdered delta id c v = insert-IsFrom c.nanos_counter _ c.alarms (omega arith) v

-- `schedule`, of an alarm that is linked or not, and `cancel` keep the alarms of a clock in the order
-- of their times, none before the current time.
pub schedule-IsOrdered :
    (delta id : ℕ) (c : Clock)
    → IsOrdered c
    → IsOrdered (schedule delta id c) × IsOrdered (cancel id c)
unfolding schedule
schedule-IsOrdered delta id c v = (
  elim (Bool-cases (c.scheduled id)) [
    | inl e ↦ rw e (link_alarm-IsOrdered delta id (cancel id c) (cancel-IsOrdered id c v))
    | inr e ↦ rw e (link_alarm-IsOrdered delta id c v)
  ],
  cancel-IsOrdered id c v,
)
