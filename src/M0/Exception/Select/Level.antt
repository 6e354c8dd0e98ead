-- ===== src/M0/Exception/Select/Level.antt =====
-- What one priority level offers, against the priority that `exceptionPriority` gives.
use native.Mathlib.Nat.{mod-eq_of_lt}
use rp2350js.Base.{ℕ, zero, suc, ◌+◌, ◌%◌, ◌<◌, ◌≤◌, ◌≡◌, ◌≢◌, refl, ◌∙◌, ap, sym}
use rp2350js.Base.{arith, Bool, true, false, ◌&&◌, Option, some, none, bit_and, Bool-cases}
use rp2350js.Base.{test_bit, ◌==◌, inl, inr}
use rp2350js.Base.Int.{pos_part}
use rp2350js.M0.State.{Core}
use rp2350js.M0.Exception.Select.{lowest_bit, Pending, sv_call, pend_sv, systick, irq, number}
use rp2350js.M0.Exception.Select.{irq_priority, exception_priority, level_pending}
use rp2350js.M0.Exception.Select.{sv_call_priority, pend_sv_priority}
use rp2350js.M0.Exception.Select.{systick_priority}
use rp2350js.M0.Exception.Select.Pick.{
  test_bit-and, both_bits, lowest_bit-some, lowest_bit-none, pick-irq, pick-sv_call, pick-pend_sv,
  pick-systick, pick-none,
}

module _ {M : Type 0} (s : Core M) where
  irq_priority-le :
      (k p q n : ℕ)
      → p ≤ q
      → q < p + k
      → test_bit (s.interrupt_priorities q) (n % 32) ≡ true
      → irq_priority s k p n ≤ q
  unfolding irq_priority
  irq_priority-le zero p q n a b h = absurd (omega arith)
  irq_priority-le (suc k) p q n a b h =
      elim (Bool-cases (test_bit (s.interrupt_priorities p) (n % 32))) [
        | inl e ↦ rw e a
        | inr e ↦ rw e (irq_priority-le k (p + 1) q n (ground arith) (omega arith) h)
      ]

  irq_priority-bit :
      (k p n : ℕ)
      → irq_priority s k p n ≢ 4
      → test_bit (s.interrupt_priorities (irq_priority s k p n)) (n % 32) ≡ true
  unfolding irq_priority
  irq_priority-bit zero p n h = absurd (h refl)
  irq_priority-bit (suc k) p n h =
      elim (Bool-cases (test_bit (s.interrupt_priorities p) (n % 32))) [
        | inl e ↦ ground (arith, irq_priority-bit k (p + 1) n)
        | inr e ↦ ground (arith, irq_priority-bit k (p + 1) n)
      ]

  -- What is pending, of the interrupts in `set`, and its priority as a number.
  abbrev pub IsPending : ℕ → Pending → Type 0
  IsPending set sv_call = s.pending_sv_call ≡ true
  IsPending set pend_sv = s.pending_pend_sv ≡ true
  IsPending set systick = s.pending_systick ≡ true
  IsPending set (irq n) = (n < 32) × (test_bit set n ≡ true)

  abbrev pub level : Pending → ℕ
  level x = pos_part (exception_priority s (number x))

  level_sv_call : level sv_call ≡ sv_call_priority s
  unfolding exception_priority
  level_sv_call = refl

  level_pend_sv : level pend_sv ≡ pend_sv_priority s
  unfolding exception_priority
  level_pend_sv = refl

  level_systick : level systick ≡ systick_priority s
  unfolding exception_priority
  level_systick = refl

  level_irq : (n : ℕ) → level (irq n) ≡ irq_priority s 4 0 n
  unfolding exception_priority
  level_irq n = ground arith

  abbrev choices : ℕ → ℕ → Option ℕ
  choices set p = lowest_bit 32 0 (bit_and set (s.interrupt_priorities p))

  level_pending-irq :
      (set p n : ℕ)
      → p < 4
      → level_pending s set p ≡ some (irq n)
      → IsPending set (irq n) × (level (irq n) ≤ p)
  unfolding level_pending
  level_pending-irq set p n a e =
      ((bit.1, bits.0), rw (level_irq n) (irq_priority-le 4 0 p n (omega arith) a mine))
    where
      bit : (test_bit (bit_and set (s.interrupt_priorities p)) n ≡ true) × (n < 0 + 32)
      bit = lowest_bit-some 32 0 _ n (pick-irq _ _ _ (choices set p) n e)

      bits : (test_bit set n ≡ true) × (test_bit (s.interrupt_priorities p) n ≡ true)
      bits = both_bits set (s.interrupt_priorities p) n bit.0

      mine : test_bit (s.interrupt_priorities p) (n % 32) ≡ true
      mine = rw (mod-eq_of_lt (bit.1)) (bits.1)

  of_level : {b : Bool} {p q l : ℕ} → l ≡ q → (b && (p == q)) ≡ true → (b ≡ true) × (l ≤ p)
  of_level e h = ground arith

  pub level_pending-some :
      (set p : ℕ) (x : Pending)
      → p < 4
      → level_pending s set p ≡ some x
      → IsPending set x × (level x ≤ p)
  unfolding level_pending
  level_pending-some set p sv_call a e =
      of_level level_sv_call (pick-sv_call _ _ _ (choices set p) e)
  level_pending-some set p pend_sv a e =
      of_level level_pend_sv (pick-pend_sv _ _ _ (choices set p) e)
  level_pending-some set p systick a e =
      of_level level_systick (pick-systick _ _ _ (choices set p) e)
  level_pending-some set p (irq n) a e = level_pending-irq set p n a e

  irq_level-none :
      (set p n : ℕ)
      → p < 4
      → choices set p ≡ none
      → n < 32
      → test_bit set n ≡ true
      → level (irq n) ≢ p
  irq_level-none set p n a e b h l = ground (arith, mine, both_false)
    where
      mine : test_bit (s.interrupt_priorities p) n ≡ true
      mine =
          ap (λ k. test_bit (s.interrupt_priorities k) n) (sym l ∙ level_irq n)
          ∙ ap (test_bit _) (sym (mod-eq_of_lt b))
          ∙ irq_priority-bit 4 0 n (λ q. ground (arith, level_irq n))

      both_false : (test_bit set n && test_bit (s.interrupt_priorities p) n) ≡ false
      both_false = sym (test_bit-and _ _ n) ∙ lowest_bit-none 32 0 _ n e (omega arith) b

  pub level_pending-none :
      (set p : ℕ) (x : Pending)
      → p < 4
      → level_pending s set p ≡ none
      → IsPending set x
      → level x ≢ p
  unfolding level_pending
  level_pending-none set p sv_call a e h = ground (arith, level_sv_call)
  level_pending-none set p pend_sv a e h = ground (arith, level_pend_sv)
  level_pending-none set p systick a e h = ground (arith, level_systick)
  level_pending-none set p (irq n) a e h =
      irq_level-none set p n a (pick-none _ _ _ (choices set p) e).3 h.0 h.1
