-- ===== src/M0/Exception/Select.antt =====
-- cortex-m0-core.ts: the priorities of exceptions, `vectPending`, `checkForInterrupts` and
-- `setInterrupt`.
mod Pick
pub mod Level
pub mod Least
use rp2350js.Base.{ℕ, zero, suc, ◌+◌, ◌-◌, ◌%◌, ◌^◌, Bool, true, false, ◌&&◌}
use rp2350js.Base.{Option, some, none, bit_and, if◌then◌else◌, low_bits, shr, test_bit}
use rp2350js.Base.{ltb, leb, ◌==◌}
use rp2350js.Base.Int.{ℤ, pos, negsuc, pos_part, neg_part}
use rp2350js.M0.State.{Bus, Core}
use rp2350js.M0.Exception.Entry.{exception_entry}

abbrev pub lowest_priority : ℕ
lowest_priority = 4

-- IRQ.RTC of irq.ts
abbrev pub max_hardware_irq : ℕ
max_hardware_irq = 25

-- x & ~(1 << k), for a pattern x and k below 32
abbrev pub clear_bit : ℕ → ℕ → ℕ
clear_bit x k = if test_bit x k then x - 2 ^ k else x

-- the lowest bit of x among the n from bit i on
unfoldable pub lowest_bit : ℕ → ℕ → ℕ → Option ℕ
lowest_bit zero i x = none
lowest_bit (suc n) i x = let rest = lowest_bit n (i + 1) x in if test_bit x i then some i else rest

-- What `checkForInterrupts` may take.
pub data Pending : Type 0 where
  sv_call pend_sv systick : Pending
  irq : ℕ → Pending

-- the exception number
abbrev pub number : Pending → ℕ
number sv_call = 11
number pend_sv = 14
number systick = 15
number (irq n) = 16 + n

abbrev pub min_level : ℤ → ℤ → ℤ
min_level x y = if leb (pos_part x + neg_part y) (pos_part y + neg_part x) then x else y

abbrev pub to_irq : Option ℕ → Option Pending
to_irq none = none
to_irq (some n) = some (irq n)

module _ {M : Type 0} where
  abbrev pub pend_sv_priority : Core M → ℕ
  pend_sv_priority s = low_bits (shr s.shpr3 22) 2

  abbrev pub sv_call_priority : Core M → ℕ
  sv_call_priority s = shr s.shpr2 30

  abbrev pub systick_priority : Core M → ℕ
  systick_priority s = shr s.shpr3 30

  -- The loop of `exceptionPriority`, over the n levels from p on.
  unfoldable pub irq_priority : Core M → ℕ → ℕ → ℕ → ℕ
  irq_priority s zero p n = lowest_priority
  irq_priority s (suc k) p n =
      let rest = irq_priority s k (p + 1) n in
      if test_bit (s.interrupt_priorities p) (n % 32) then p else rest

  unfoldable pub exception_priority : Core M → ℕ → ℤ
  unfolding irq_priority
  exception_priority s n =
      if n == 1
      then negsuc 2
      else if n == 2
      then negsuc 1
      else if n == 3
      then negsuc 0
      else if n == 11
      then pos (sv_call_priority s)
      else if n == 14
      then pos (pend_sv_priority s)
      else if n == 15
      then pos (systick_priority s)
      else if ltb n 16
      then pos lowest_priority
      else pos (irq_priority s 4 0 (n - 16))

  -- What one priority level offers, in the order of the tests, of the interrupts in `set`.
  unfoldable pub level_pending : Core M → ℕ → ℕ → Option Pending
  unfolding lowest_bit
  level_pending s set p =
      if s.pending_sv_call && (p == sv_call_priority s)
      then some sv_call
      else if s.pending_pend_sv && (p == pend_sv_priority s)
      then some pend_sv
      else if s.pending_systick && (p == systick_priority s)
      then some systick
      else to_irq (lowest_bit 32 0 (bit_and set (s.interrupt_priorities p)))

  -- the first level with something pending, among the k levels from p on
  unfoldable pub first_pending : Core M → ℕ → ℕ → ℕ → Option Pending
  first_pending s set zero p = none
  first_pending s set (suc k) p = elim (level_pending s set p) [
    | none ↦ first_pending s set k (p + 1)
    | some x ↦ some x
  ]

  -- 0 if nothing is pending; masks and enables are not looked at.
  unfoldable pub vect_pending : Core M → ℕ
  unfolding first_pending
  vect_pending s =
      if s.pending_nmi
      then 2
      else elim (first_pending s s.pending_interrupts 4 0) [ none ↦ 0 | some x ↦ number x ]

  abbrev pub current_priority : Core M → ℤ
  current_priority s =
      let active = exception_priority s s.ipsr in
      if s.waiting
      then (if s.pm then active else pos lowest_priority)
      else min_level active (if s.pm then pos 0 else pos lowest_priority)

  -- The pending state that taking an exception clears. A hardware interrupt stays pending until
  -- its peripheral takes the request back.
  unfoldable pub acknowledge : Pending → Core M → Core M
  acknowledge sv_call s = record s { pending_sv_call = false }
  acknowledge pend_sv s = record s { pending_pend_sv = false }
  acknowledge systick s = record s { pending_systick = false }
  acknowledge (irq n) s = record s {
    pending_interrupts =
        if ltb max_hardware_irq n then clear_bit s.pending_interrupts n else s.pending_interrupts;
  }

module _ {M : Type 0} (bus : Bus M) where
  unfoldable pub take_pending : Option Pending → Core M → Bool × Core M
  unfolding acknowledge
  take_pending none s = (false, record s { interrupts_updated = false })
  take_pending (some x) s = (true, exception_entry bus (number x) (acknowledge x s))

  -- A negative priority leaves no level to look at.
  unfoldable pub check_for_interrupts : Core M → Bool × Core M
  check_for_interrupts s =
      let set = bit_and s.pending_interrupts s.enabled_interrupts in
      if s.pending_nmi
      then (true, exception_entry bus 2 (record s { pending_nmi = false }))
      else take_pending (first_pending s set (pos_part (current_priority s)) 0) s

  -- A sleeping core looks for an interrupt to take at once, and wakes if there is one.
  abbrev pub wake_up : Core M → Core M
  wake_up t =
      if t.waiting
      then (let (taken, t') = check_for_interrupts t in
          if taken then record t' { waiting = false } else t')
      else t

  unfoldable pub set_interrupt : ℕ → Bool → Core M → Core M
  set_interrupt n value s =
      if value
      then (if test_bit s.pending_interrupts n
          then s
          else wake_up (record s {
            pending_interrupts = s.pending_interrupts + 2 ^ n;
            interrupts_updated = true;
          }))
      else record s { pending_interrupts = clear_bit s.pending_interrupts n }
