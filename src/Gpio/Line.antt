-- ===== src/Gpio/Line.antt =====
-- The line that `updateIOInterrupt` drives, and the pins that ask for it.
use rp2350js.Base.{
  ℕ, zero, suc, ◌*◌, ◌/◌, ◌%◌, ◌<◌, Bool, true, false, ◌&&◌, ◌||◌, if◌then◌else◌, xor, List, [],
  ◌∷◌,
}
use rp2350js.Base.{
  ◌≡◌, refl, sym, ap, ap₂, ◌∙◌, arith, ◌==◌, ==_iff, leb, inl, inr, ◌⊎◌, Bool-cases,
}
use rp2350js.Gpio.{Pin, new_pin, irq_value, raw_interrupt, apply_override}
use rp2350js.Gpio.Access.{irq_override, Access, access, accesses, is_plain, all_plain}
use rp2350js.Gpio.Banks.{
  Io, Call, reported, Sources, call, on_pin, some_irq, update_io_interrupt, update_if,
  set_input_value, check_for_updates, refresh_input, clear_edge, update_irq_value,
  write_enable_mask, write_force_mask, write_pin, write_pins, write_ctrl, write_io, write_pad,
  write_pads, new_io,
}

-- The line is what the pins ask for, and no pin overrides its interrupt.
pub record IsShown (s : Io) : Type 0 where
  pub line : s.interrupt ≡ some_irq s.gpio_count s.gpio
  pub plain : (i : ℕ) → irq_override (s.gpio i).ctrl ≡ 0

some_irq-same :
    (n : ℕ) (f g : ℕ → Pin)
    → ((i : ℕ) → irq_value (f i) ≡ irq_value (g i))
    → some_irq n f ≡ some_irq n g
unfolding some_irq
some_irq-same zero f g same = refl
some_irq-same (suc n) f g same = ap₂ (λ a b. a || b) (some_irq-same n f g same) (same n)

call-IsShown : (c : Call) (s : Io) → IsShown s → IsShown (call c s)
call-IsShown c s h = record { line = h.line; plain = h.plain }

plain-on_pin :
    (i k : ℕ) (p : Pin) (s : Io)
    → irq_override p.ctrl ≡ 0
    → IsShown s
    → irq_override ((on_pin i p s).gpio k).ctrl ≡ 0
unfolding on_pin
plain-on_pin i k p s e h = elim (Bool-cases (k == i)) [ inl a ↦ rw a e | inr a ↦ rw a (h.plain k) ]

irq-on_pin :
    (i k : ℕ) (p : Pin) (s : Io)
    → irq_value p ≡ irq_value (s.gpio i)
    → irq_value (s.gpio k) ≡ irq_value ((on_pin i p s).gpio k)
unfolding on_pin
irq-on_pin i k p s e = elim (Bool-cases (k == i)) [
  | inl a ↦ rw a (ap (λ j. irq_value (s.gpio j)) ((==_iff k i).0 a) ∙ sym e)
  | inr a ↦ rw a refl
]

-- a pin that asks for what it asked for before
same-IsShown :
    (i : ℕ) (p : Pin) (s : Io)
    → irq_value p ≡ irq_value (s.gpio i)
    → irq_override p.ctrl ≡ 0
    → IsShown s
    → IsShown (on_pin i p s)
unfolding on_pin
same-IsShown i p s e o h = record {
  line = h.line ∙ some_irq-same s.gpio_count s.gpio (on_pin i p s).gpio (λ k. irq-on_pin i k p s e);
  plain = λ k. plain-on_pin i k p s o h;
}

-- any pin, where the line is driven next
moved-IsShown :
    (i : ℕ) (p : Pin) (s : Io)
    → irq_override p.ctrl ≡ 0
    → IsShown s
    → IsShown (update_io_interrupt (on_pin i p s))
unfolding on_pin update_io_interrupt
moved-IsShown i p s o h = record { line = refl; plain = λ k. plain-on_pin i k p s o h }

update_if-IsShown :
    (i : ℕ) (p : Pin) (s : Io)
    → irq_override p.ctrl ≡ 0
    → IsShown s
    → IsShown (update_if (xor (irq_value p) (irq_value (s.gpio i))) (on_pin i p s))
unfolding update_if
update_if-IsShown i p s o h =
    let same = same-IsShown i p s in
    let moved = moved-IsShown i p s o h in
    elim (Bool-cases (irq_value p)) [
      | inl a ↦ elim (Bool-cases (irq_value (s.gpio i))) [
        | inl b ↦ rw (a, b) (same (a ∙ sym b) o h)
        | inr b ↦ rw (a, b) moved
      ]
      | inr a ↦ elim (Bool-cases (irq_value (s.gpio i))) [
        | inl b ↦ rw (a, b) moved
        | inr b ↦ rw (a, b) (same (a ∙ sym b) o h)
      ]
    ]

set_input_value-IsShown :
    (i : ℕ) (value : Bool) (s : Io) → IsShown s → IsShown (set_input_value i value s)
unfolding set_input_value
set_input_value-IsShown i value s h = call-IsShown _ _ (update_if-IsShown i _ s (h.plain i) h)

if-IsShown : (b : Bool) (s t : Io) → IsShown s → IsShown t → IsShown (if b then s else t)
if-IsShown true s t h k = h
if-IsShown false s t h k = k

check_for_updates-IsShown : (i : ℕ) (s : Io) → IsShown s → IsShown (check_for_updates i s)
unfolding check_for_updates irq_value raw_interrupt
check_for_updates-IsShown i s h =
    if-IsShown _ _ _ h (call-IsShown _ _ (same-IsShown i _ s refl (h.plain i) h))

clear_edge-IsShown : (i k value : ℕ) (s : Io) → IsShown s → IsShown (clear_edge i k value s)
unfolding clear_edge
clear_edge-IsShown i k value s h = if-IsShown _ _ _ (moved-IsShown i _ s (h.plain i) h) h

write_enable_mask-IsShown :
    (i value : ℕ) (s : Io) → IsShown s → IsShown (write_enable_mask i value s)
unfolding write_enable_mask
write_enable_mask-IsShown i value s h = if-IsShown _ _ _ h (moved-IsShown i _ s (h.plain i) h)

write_force_mask-IsShown : (i value : ℕ) (s : Io) → IsShown s → IsShown (write_force_mask i value s)
unfolding write_force_mask
write_force_mask-IsShown i value s h = if-IsShown _ _ _ h (moved-IsShown i _ s (h.plain i) h)

write_pin-IsShown :
    (register i value raw : ℕ) (s : Io) → IsShown s → IsShown (write_pin register i value raw s)
unfolding write_pin update_irq_value
write_pin-IsShown register i value raw s h = if-IsShown _ _ _ h (
    if-IsShown _ _ _ (clear_edge-IsShown i 3 raw _ (clear_edge-IsShown i 2 raw s h)) (
      if-IsShown _ _ _ (write_enable_mask-IsShown i value s h)
        (if-IsShown _ _ _ (write_force_mask-IsShown i value s h) h)))

write_pins-IsShown :
    (n register start value raw : ℕ) (s : Io)
    → IsShown s
    → IsShown (write_pins n register start value raw s)
unfolding write_pins
write_pins-IsShown zero register start value raw s h = h
write_pins-IsShown (suc n) register start value raw s h =
    write_pin-IsShown register _ _ _ _ (write_pins-IsShown n register start value raw s h)

write_ctrl-IsShown :
    (i value : ℕ) (s : Io) → irq_override value ≡ 0 → IsShown s → IsShown (write_ctrl i value s)
unfolding write_ctrl irq_value raw_interrupt apply_override
write_ctrl-IsShown i value s o h =
    check_for_updates-IsShown i _
      (same-IsShown i (record (s.gpio i) { ctrl = value }) s (rw (o, h.plain i) refl) o h)

write_io-IsShown :
    (offset value raw : ℕ) (s : Io)
    → irq_override value ≡ 0 ⊎ 0xec < offset
    → IsShown s
    → IsShown (write_io offset value raw s)
unfolding write_io
write_io-IsShown offset value raw s o h =
    let other =
      if-IsShown (leb 0xf0 offset && leb offset 0x12c) _ _
        (write_pins-IsShown 8 (offset / 16 * 16) (offset % 16 * 2) value raw s h)
        (call-IsShown (reported offset) s h) in
    elim o [
      | inl e ↦ if-IsShown _ _ _ (if-IsShown _ _ _ (write_ctrl-IsShown _ value s e h) h) other
      | inr lt ↦ let e : leb offset 0xec ≡ false = ground arith in rw e other
    ]

write_pad-IsShown : (i value : ℕ) (s : Io) → IsShown s → IsShown (write_pad i value s)
unfolding write_pad refresh_input irq_value raw_interrupt
write_pad-IsShown i value s h =
    let t =
      check_for_updates-IsShown i _
        (same-IsShown i (record (s.gpio i) { pad_value = value }) s refl (h.plain i) h) in
    if-IsShown _ _ _ (set_input_value-IsShown i _ _ t) t

write_pads-IsShown : (offset value : ℕ) (s : Io) → IsShown s → IsShown (write_pads offset value s)
unfolding write_pads
write_pads-IsShown offset value s h =
    if-IsShown _ _ _ (write_pad-IsShown _ value s h)
      (if-IsShown _ _ _ (record { line = h.line; plain = h.plain }) (call-IsShown _ _ h))

access-IsShown : (a : Access) (s : Io) → is_plain a ≡ true → IsShown s → IsShown (access a s)
unfolding access
access-IsShown (Access.input i value) s p h = set_input_value-IsShown i value s h
access-IsShown (Access.io offset value raw) s p h =
    write_io-IsShown offset value raw s (ground arith) h
access-IsShown (Access.pads offset value) s p h = write_pads-IsShown offset value s h
access-IsShown (Access.drive i c) s p h =
    check_for_updates-IsShown i (record s { sources = c })
      (record { line = h.line; plain = h.plain })

and_left : (a b : Bool) → (a && b) ≡ true → a ≡ true
and_left true b h = refl
and_left false b h = h

and_right : (a b : Bool) → (a && b) ≡ true → b ≡ true
and_right true b h = h
and_right false b h = absurd (ground arith)

pub accesses-IsShown :
    (list : List Access) (s : Io) → all_plain list ≡ true → IsShown s → IsShown (accesses list s)
unfolding accesses
accesses-IsShown [] s p h = h
accesses-IsShown (a ∷ rest) s p h =
    accesses-IsShown rest (access a s) (and_right (is_plain a) (all_plain rest) p)
      (access-IsShown a s (and_left (is_plain a) (all_plain rest) p) h)

none_asks : (n : ℕ) → some_irq n (λ i. new_pin) ≡ false
unfolding some_irq new_pin irq_value raw_interrupt apply_override
none_asks zero = refl
none_asks (suc n) = rw (none_asks n) refl

pub new_io-IsShown : (count : ℕ) (c : Sources) → IsShown (new_io count c)
unfolding new_io new_pin
new_io-IsShown count c = record { line = sym (none_asks count); plain = λ i. refl }
