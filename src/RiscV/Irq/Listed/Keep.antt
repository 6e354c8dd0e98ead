-- ===== src/RiscV/Irq/Listed/Keep.antt =====
-- Every operation on the interrupts keeps the candidate list in step with their arrays.
use rp2350js.Base.{ℕ, ◌≡◌, refl, sym, subst, ◌∙◌, ap, arith, Bool, true, false, not, ◌&&◌}
use rp2350js.Base.{leb, Bool-cases, inl, inr}
use rp2350js.RiscV.State.{Core, put}
use rp2350js.RiscV.Irq.{remove_candidate, set_interrupt, set_interrupt_enabled}
use rp2350js.RiscV.Irq.{set_priority, set_forced}
use rp2350js.RiscV.Irq.Listed.{
  IsListed, IsWellFormed, IsListed-change, IsListed-reset, IsListed-unset, same_at,
}
use rp2350js.RiscV.Irq.Listed.{meiea-update_meinext, set_interrupt_on}
use rp2350js.RiscV.Irq.Listed.{set_interrupt_off}
use rp2350js.RiscV.Irq.Listed.{update_meinext-IsWellFormed}

-- What an interrupt that is enabled or disabled leaves of the enabled and pending ones.
module _ (ea pa : ℕ → Bool) (i j : ℕ) where
  enabled_pending :
      (not (ea i) && pa i) ≡ true → (ea j && pa j) ≡ (put ea i true j && put pa i false j)
  enabled_pending e = ground (arith, same_at ea j i, same_at pa j i)

  still_enabled : ea i ≡ true → (ea j && pa j) ≡ (put ea i true j && pa j)
  still_enabled e = ground (arith, same_at ea j i, same_at pa j i)

  enabled_quiet : (not (ea i) && pa i) ≡ false → (ea j && pa j) ≡ (put ea i true j && pa j)
  enabled_quiet e = ground (arith, same_at ea j i, same_at pa j i)

  disabled_pending : pa i ≡ false → (ea j && pa j) ≡ (put ea i false j && put pa i true j)
  disabled_pending e = ground (arith, same_at ea j i, same_at pa j i)

  disabled_quiet : (ea i && pa i) ≡ false → (ea j && pa j) ≡ (put ea i false j && pa j)
  disabled_quiet e = ground (arith, same_at ea j i, same_at pa j i)

module _ {M : Type 0} where
  pub set_interrupt-IsWellFormed :
      (i : ℕ) (v : Bool) (s : Core M) → IsWellFormed s → IsWellFormed (set_interrupt i v s)
  unfolding set_interrupt
  set_interrupt-IsWellFormed i true s h = elim (Bool-cases (s.meipa i)) [
    | inl e ↦ simp e h
    | inr e ↦ set_interrupt_on i s e h
  ]
  set_interrupt-IsWellFormed i false s h = elim (Bool-cases (s.meipa i)) [
    | inl e ↦ set_interrupt_off i s e h
    | inr e ↦ simp e h
  ]

  -- The enabled interrupts stay; one that is cleared is not pending.
  set_interrupt-meiea : (i : ℕ) (v : Bool) (s : Core M) → (set_interrupt i v s).meiea ≡ s.meiea
  unfolding set_interrupt
  set_interrupt-meiea i true s = elim (Bool-cases (s.meipa i)) [
    | inl e ↦ simp e refl
    | inr e ↦ elim (Bool-cases (s.meiea i)) [
      | inl k ↦ simp (e, k, meiea-update_meinext) refl
      | inr k ↦ simp (e, k) refl
    ]
  ]
  set_interrupt-meiea i false s = elim (Bool-cases (s.meipa i)) [
    | inl e ↦ simp (e, meiea-update_meinext) refl
    | inr e ↦ simp e refl
  ]

  set_interrupt-meipa : (i : ℕ) (s : Core M) → (set_interrupt i false s).meipa i ≡ false
  unfolding set_interrupt
  set_interrupt-meipa i s = elim (Bool-cases (s.meipa i)) [
    | inl e ↦ simp e (ground arith)
    | inr e ↦ simp e refl
  ]

  set_interrupt_enabled-IsWellFormed :
      (i : ℕ) (v : Bool) (s : Core M) → IsWellFormed s → IsWellFormed (set_interrupt_enabled i v s)
  unfolding set_interrupt_enabled IsWellFormed IsListed
  set_interrupt_enabled-IsWellFormed i true s h = elim (Bool-cases (not (s.meiea i) && s.meipa i)) [
    | inl e ↦
        let u : Core M = record s { meiea = put s.meiea i true; meipa = put s.meipa i false } in
        let w : IsWellFormed u =
          IsListed-change s.meiea s.meipa u.meiea u.meipa s.meipra s.candidates
            (λ j. enabled_pending s.meiea s.meipa i j e) h in
        let t : Core M = set_interrupt i true u in
        simp e (
          IsListed-change t.meiea t.meipa (put t.meiea i true) t.meipa t.meipra t.candidates
            (λ j.
              still_enabled t.meiea t.meipa i j
                (ap (λ f. f i) (set_interrupt-meiea i true u) ∙ ground arith))
            (set_interrupt-IsWellFormed i true u w))
    | inr e ↦ simp e (
        IsListed-change s.meiea s.meipa (put s.meiea i true) s.meipa s.meipra s.candidates
          (λ j. enabled_quiet s.meiea s.meipa i j e) h)
  ]
  set_interrupt_enabled-IsWellFormed i false s h = elim (Bool-cases (s.meiea i && s.meipa i)) [
    | inl e ↦
        let t : Core M = set_interrupt i false s in
        simp e (
          IsListed-change t.meiea t.meipa (put t.meiea i false) (put t.meipa i true) t.meipra
            t.candidates (λ j. disabled_pending t.meiea t.meipa i j (set_interrupt-meipa i s))
            (set_interrupt-IsWellFormed i false s h))
    | inr e ↦ simp e (
        IsListed-change s.meiea s.meipa (put s.meiea i false) s.meipa s.meipra s.candidates
          (λ j. disabled_quiet s.meiea s.meipa i j e) h)
  ]

  -- A pending interrupt with a new priority is first taken off the list.
  reset-IsWellFormed :
      (i p : ℕ) (s : Core M)
      → s.meipa i ≡ true
      → IsWellFormed s
      → IsWellFormed (set_interrupt i false (record s { meipra = put s.meipra i p }))
  unfolding set_interrupt IsWellFormed IsListed
  reset-IsWellFormed i p s e h = simp e (
      update_meinext-IsWellFormed
        (record s {
          meipra = put s.meipra i p;
          meipa = put s.meipa i false;
          candidates = remove_candidate i s.candidates;
        })
        (IsListed-reset s.meiea s.meipa s.meipra i p s.candidates h))

  set_priority_pending :
      (i p : ℕ) (s : Core M)
      → s.meipa i ≡ true
      → set_priority i p s
        ≡ set_interrupt i true (set_interrupt i false (record s { meipra = put s.meipra i p }))
  unfolding set_priority
  set_priority_pending i p s e = simp e refl

  set_priority_quiet :
      (i p : ℕ) (s : Core M)
      → s.meipa i ≡ false
      → set_priority i p s ≡ record s { meipra = put s.meipra i p }
  unfolding set_priority
  set_priority_quiet i p s e = simp e refl

  unset-IsWellFormed :
      (i p : ℕ) (s : Core M)
      → s.meipa i ≡ false
      → IsWellFormed s
      → IsWellFormed (record s { meipra = put s.meipra i p })
  unfolding IsWellFormed IsListed
  unset-IsWellFormed i p s e h = IsListed-unset s.meiea s.meipa s.meipra i p s.candidates e h

  set_priority-IsWellFormed :
      (i p : ℕ) (s : Core M) → IsWellFormed s → IsWellFormed (set_priority i p s)
  set_priority-IsWellFormed i p s h = elim (Bool-cases (s.meipa i)) [
    | inl e ↦
        subst IsWellFormed (sym (set_priority_pending i p s e))
          (set_interrupt-IsWellFormed i true _ (reset-IsWellFormed i p s e h))
    | inr e ↦ subst IsWellFormed (sym (set_priority_quiet i p s e)) (unset-IsWellFormed i p s e h)
  ]

  set_forced-IsWellFormed :
      (i : ℕ) (b : Bool) (s : Core M) → IsWellFormed s → IsWellFormed (set_forced i b s)
  unfolding set_forced IsWellFormed IsListed
  set_forced-IsWellFormed i true s h =
      set_interrupt-IsWellFormed i true (record s { meifa = put s.meifa i true }) h
  set_forced-IsWellFormed i false s h = elim (Bool-cases (leb 46 i)) [
    | inl e ↦
        simp e (set_interrupt-IsWellFormed i false (record s { meifa = put s.meifa i false }) h)
    | inr e ↦ simp e h
  ]

  -- Where the candidates are the interrupts that are enabled and pending, with their priorities, the
  -- most urgent last and none twice, they are so after any interrupt is set or cleared, enabled or
  -- disabled, given a priority, or forced.
  pub interrupts-IsWellFormed :
      (s : Core M) (i : ℕ)
      → IsWellFormed s
      → ((v : Bool) → IsWellFormed (set_interrupt i v s))
        × ((v : Bool) → IsWellFormed (set_interrupt_enabled i v s))
        × ((p : ℕ) → IsWellFormed (set_priority i p s))
        × ((b : Bool) → IsWellFormed (set_forced i b s))
  interrupts-IsWellFormed s i h = (
    (λ v. set_interrupt-IsWellFormed i v s h),
    (λ v. set_interrupt_enabled-IsWellFormed i v s h),
    (λ p. set_priority-IsWellFormed i p s h),
    (λ b. set_forced-IsWellFormed i b s h),
  )
