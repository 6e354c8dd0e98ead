-- ===== src/Gpio/Asked.antt =====
-- The interrupt of the bank and the pins that ask for it.
use rp2350js.Base.{
  ℕ, zero, suc, ◌<◌, Bool, true, false, ◌||◌, List, ◌≡◌, ◌↔◌, ◌∙◌, sym, ap, refl, arith, ◌==◌,
  ==_iff, inl, inr, Bool-cases,
}
use rp2350js.Gpio.{Pin, irq_value}
use rp2350js.Gpio.Banks.{Sources, some_irq, new_io}
use rp2350js.Gpio.Access.{Access, accesses, all_plain}
use rp2350js.Gpio.Line.{accesses-IsShown, new_io-IsShown}

-- One of the first pins, as many as given, has `irqValue`.
pub record IsAsked (count : ℕ) (gpio : ℕ → Pin) : Type 0 where
  pub index : ℕ
  pub below : index < count
  pub asks : irq_value (gpio index) ≡ true

some_irq-IsAsked : (n : ℕ) (gpio : ℕ → Pin) → some_irq n gpio ≡ true → IsAsked n gpio
unfolding some_irq
some_irq-IsAsked zero gpio h = absurd (ground arith)
some_irq-IsAsked (suc n) gpio h = elim (Bool-cases (irq_value (gpio n))) [
  | inl a ↦ record { index = n; below = omega arith; asks = a }
  | inr a ↦
      let k = some_irq-IsAsked n gpio (ground (arith, a, h)) in
      record { index = k.index; below = omega (arith, k.below); asks = k.asks }
]

or_left : (a b : Bool) → a ≡ true → (a || b) ≡ true
or_left true b h = refl
or_left false b h = absurd (ground arith)

or_right : (a b : Bool) → b ≡ true → (a || b) ≡ true
or_right true b h = refl
or_right false b h = h

asked_some : (n i : ℕ) (gpio : ℕ → Pin) → i < n → irq_value (gpio i) ≡ true → some_irq n gpio ≡ true
unfolding some_irq
asked_some zero i gpio lt h = absurd (omega arith)
asked_some (suc n) i gpio lt h = elim (Bool-cases (i == n)) [
  | inl e ↦
      let a : irq_value (gpio n) ≡ true =
        ap (λ j. irq_value (gpio j)) (sym ((==_iff i n).0 e)) ∙ h in
      or_right (some_irq n gpio) (irq_value (gpio n)) a
  | inr e ↦
      let less : i < n = ground (arith, e, lt) in
      or_left (some_irq n gpio) (irq_value (gpio n)) (asked_some n i gpio less h)
]

-- After any inputs, register and pad writes and changes of the outputs, in any
-- order, from the reset of a bank of pins on, the last value that the chip
-- has set for the interrupt of the bank is true exactly where a pin has
-- `irqValue`, provided that no write to a control register overrides the
-- interrupt of its pin.
pub interrupt-accesses :
    (list : List Access) (count : ℕ) (c : Sources)
    → all_plain list ≡ true
    → let s = accesses list (new_io count c) in (s.interrupt ≡ true) ↔ IsAsked s.gpio_count s.gpio
interrupt-accesses list count c p =
    let s = accesses list (new_io count c) in
    let shown = accesses-IsShown list (new_io count c) p (new_io-IsShown count c) in
    (
      λ h. some_irq-IsAsked s.gpio_count s.gpio (sym shown.line ∙ h),
      λ k. shown.line ∙ asked_some s.gpio_count k.index s.gpio k.below k.asks,
    )
