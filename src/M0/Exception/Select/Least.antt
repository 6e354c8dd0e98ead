-- ===== src/M0/Exception/Select/Least.antt =====
-- What `checkForInterrupts` takes, against everything that is pending.
use rp2350js.Base.{ℕ, zero, suc, ◌+◌, ◌<◌, ◌≤◌, ◌≡◌, refl, ◌∙◌, ap, sym}
use rp2350js.Base.{arith, true, false, Option, some, none, bit_and, two32}
use rp2350js.Base.Int.{pos_part}
use rp2350js.M0.State.{Bus, Core}
use rp2350js.M0.Exception.Entry.{exception_entry}
use rp2350js.M0.Exception.Select.{Pending, number}
use rp2350js.M0.Exception.Select.{exception_priority, level_pending, first_pending}
use rp2350js.M0.Exception.Select.{current_priority, acknowledge, take_pending}
use rp2350js.M0.Exception.Select.{check_for_interrupts}
use rp2350js.M0.Exception.Select.Level.{IsPending, level, level_pending-some, level_pending-none}

module _ {M : Type 0} (s : Core M) where
  first_pending-some :
      (set k p : ℕ) (x y : Pending)
      → p + k ≤ 4
      → first_pending s set k p ≡ some x
      → IsPending s set y
      → p ≤ level s y
      → IsPending s set x × (level s x < p + k) × (level s x ≤ level s y)
  unfolding first_pending
  first_pending-some set zero p x y a e h b = absurd (ground arith)
  first_pending-some set (suc k) p x y a e h b =
      go (λ g l. first_pending-some set k (p + 1) x y (omega arith) g h l) (level_pending s set p)
        refl e
    where
      next : level_pending s set p ≡ none → p + 1 ≤ level s y
      next f = omega (arith, level_pending-none s set p y (omega arith) f h)

      go :
          (first_pending s set k (p + 1) ≡ some x
            → p + 1 ≤ level s y
            → IsPending s set x × (level s x < p + 1 + k) × (level s x ≤ level s y))
          → (o : Option Pending) → level_pending s set p ≡ o
          → (elim o [ none ↦ first_pending s set k (p + 1) | some x ↦ some x ]) ≡ some x
          → IsPending s set x × (level s x < p + suc k) × (level s x ≤ level s y)
      go rest none f g = let r = rest g (next f) in (r.0, omega (arith, r.1), r.2)
      go rest (some z) f g =
          let r = level_pending-some s set p x (omega arith) (f ∙ g) in
          (r.0, omega (arith, r.1), omega (arith, r.1))

  first_pending-none :
      (set k p : ℕ) (y : Pending)
      → p + k ≤ 4
      → first_pending s set k p ≡ none
      → IsPending s set y
      → p ≤ level s y
      → p + k ≤ level s y
  unfolding first_pending
  first_pending-none set zero p y a e h b = omega arith
  first_pending-none set (suc k) p y a e h b =
      go (λ g l. first_pending-none set k (p + 1) y (omega arith) g h l) (level_pending s set p)
        refl e
    where
      next : level_pending s set p ≡ none → p + 1 ≤ level s y
      next f = omega (arith, level_pending-none s set p y (omega arith) f h)

      go :
          (first_pending s set k (p + 1) ≡ none → p + 1 ≤ level s y → p + 1 + k ≤ level s y)
          → (o : Option Pending) → level_pending s set p ≡ o
          → (elim o [ none ↦ first_pending s set k (p + 1) | some x ↦ some x ]) ≡ none
          → p + suc k ≤ level s y
      go rest none f g = omega (arith, rest g (next f))
      go rest (some z) f g = absurd (ground arith)

module _ {M : Type 0} where
  -- the enabled interrupts that are pending, and the first level that may not interrupt
  abbrev pub enabled : Core M → ℕ
  enabled s = bit_and s.pending_interrupts s.enabled_interrupts

  abbrev pub ceiling : Core M → ℕ
  ceiling s = pos_part (current_priority s)

  exception_priority-le :
      (s : Core M) (n : ℕ)
      → s.shpr2 < two32
      → s.shpr3 < two32
      → pos_part (exception_priority s n) ≤ 4
  unfolding exception_priority
  exception_priority-le s n p q = ground arith

  ceiling-le : (s : Core M) → s.shpr2 < two32 → s.shpr3 < two32 → ceiling s ≤ 4
  ceiling-le s p q = ground (arith, exception_priority-le s s.ipsr p q)

module _ {M : Type 0} (bus : Bus M) where
  by_level :
      (s : Core M)
      → s.pending_nmi ≡ false
      → check_for_interrupts bus s ≡ take_pending bus (first_pending s (enabled s) (ceiling s) 0) s
  unfolding check_for_interrupts
  by_level s nmi = simp nmi refl

  -- With no NMI pending and a word in each of SHPR2 and SHPR3: when `checkForInterrupts` takes an
  -- exception and `y` is pending (a hardware interrupt: pending and enabled), it enters some `x` that
  -- is pending, has a priority above the current one, and has no lower priority than `y`.
  pub check_for_interrupts-takes_least :
      (s : Core M) (y : Pending)
      → s.pending_nmi ≡ false
      → s.shpr2 < two32
      → s.shpr3 < two32
      → (check_for_interrupts bus s).0 ≡ true
      → IsPending s (enabled s) y
      → (x : Pending) × ((check_for_interrupts bus s).1
          ≡ exception_entry bus (number x) (acknowledge x s))
        × IsPending s (enabled s) x
        × (level s x < ceiling s)
        × (level s x ≤ level s y)
  unfolding take_pending
  check_for_interrupts-takes_least s y nmi p q t h =
      go _ refl (ap (λ r. r.0) (sym (by_level s nmi)) ∙ t)
    where
      go :
          (o : Option Pending)
          → first_pending s (enabled s) (ceiling s) 0 ≡ o
          → (take_pending bus o s).0 ≡ true
          → (x : Pending) × ((check_for_interrupts bus s).1
              ≡ exception_entry bus (number x) (acknowledge x s))
            × IsPending s (enabled s) x
            × (level s x < ceiling s)
            × (level s x ≤ level s y)
      go none e r = absurd (ground arith)
      go (some x) e r =
          let least =
            first_pending-some s (enabled s) (ceiling s) 0 x y (omega (arith, ceiling-le s p q)) e h
              (omega arith) in
          (
            x,
            ap (λ w. w.1) (by_level s nmi ∙ ap (λ o. take_pending bus o s) e),
            least.0,
            omega (arith, least.1),
            least.2,
          )

  -- With no NMI pending and a word in each of SHPR2 and SHPR3: when `checkForInterrupts` takes
  -- nothing, whatever is pending has no priority above the current one.
  pub check_for_interrupts-none_above :
      (s : Core M) (y : Pending)
      → s.pending_nmi ≡ false
      → s.shpr2 < two32
      → s.shpr3 < two32
      → (check_for_interrupts bus s).0 ≡ false
      → IsPending s (enabled s) y
      → ceiling s ≤ level s y
  unfolding take_pending
  check_for_interrupts-none_above s y nmi p q t h =
      go _ refl (ap (λ r. r.0) (sym (by_level s nmi)) ∙ t)
    where
      go :
          (o : Option Pending)
          → first_pending s (enabled s) (ceiling s) 0 ≡ o
          → (take_pending bus o s).0 ≡ false
          → ceiling s ≤ level s y
      go none e r = omega (
        arith,
        first_pending-none s (enabled s) (ceiling s) 0 y (omega (arith, ceiling-le s p q)) e h
            (omega arith),
      )
      go (some x) e r = absurd (ground arith)
