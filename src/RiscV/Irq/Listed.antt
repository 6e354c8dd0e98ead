-- ===== src/RiscV/Irq/Listed.antt =====
-- The candidates are the interrupts that are enabled and pending, with their priorities.
pub mod Keep
use rp2350js.Base.{
  ℕ, zero, suc, ◌+◌, ◌≡◌, refl, sym, ◌∙◌, ap, arith, Bool, true, false, not, ◌&&◌, ◌||◌, List, [],
  ◌∷◌,
}
use rp2350js.Base.{
  Option, some, none, ltb, leb, ◌==◌, ==_iff, if◌then◌else◌, Bool-cases, inl, inr, field,
}
use rp2350js.RiscV.State.{Candidate, Core, candidate, put}
use rp2350js.RiscV.Irq.{insert_candidate, has_irq, remove_candidate, front, update_meinext}
use rp2350js.RiscV.Irq.{set_interrupt, set_interrupt_enabled, set_priority, set_forced}
use rp2350js.RiscV.Irq.Ordered.{is_ordered, has_priorities, is_ordered-insert, has_irq-insert}
use rp2350js.RiscV.Irq.Ordered.{is_ordered-remove, has_irq-remove}

has_priorities-insert :
    (f : ℕ → ℕ) (i : ℕ) (xs : List Candidate)
    → has_priorities f xs ≡ true
    → has_priorities f (insert_candidate i (f i) xs) ≡ true
unfolding has_priorities insert_candidate
has_priorities-insert f i [] h = ground arith
has_priorities-insert f i (x ∷ xs) h = ground (arith, has_priorities-insert f i xs)

has_priorities-remove :
    (f : ℕ → ℕ) (i : ℕ) (xs : List Candidate)
    → has_priorities f xs ≡ true
    → has_priorities f (remove_candidate i xs) ≡ true
unfolding has_priorities remove_candidate
has_priorities-remove f i [] h = refl
has_priorities-remove f i (x ∷ xs) h = ground (arith, has_priorities-remove f i xs)

has_priorities-put :
    (f : ℕ → ℕ) (i p : ℕ) (xs : List Candidate)
    → has_irq i xs ≡ false
    → has_priorities f xs ≡ true
    → has_priorities (put f i p) xs ≡ true
unfolding has_priorities has_irq
has_priorities-put f i p [] n h = refl
has_priorities-put f i p (x ∷ xs) n h = ground (arith, has_priorities-put f i p xs)

pub same_at : (f : ℕ → Bool) (j i : ℕ) → (j == i) ≡ true → f j ≡ f i
same_at f j i e = ap f ((==_iff j i).0 e)

-- The candidates against the arrays of enabled and pending interrupts and of priorities.
unfoldable pub IsListed : (ℕ → Bool) → (ℕ → Bool) → (ℕ → ℕ) → List Candidate → Type 0
IsListed ea pa pra xs =
    (is_ordered xs ≡ true)
    × ((j : ℕ) → has_irq j xs ≡ (ea j && pa j))
    × (has_priorities pra xs ≡ true)

unfoldable pub IsWellFormed : {M : Type 0} → Core M → Type 0
unfolding IsListed
IsWellFormed s = IsListed s.meiea s.meipa s.meipra s.candidates

-- Setting an interrupt that is not pending.
IsListed-insert :
    (ea pa : ℕ → Bool) (pra : ℕ → ℕ) (i : ℕ) (xs : List Candidate)
    → pa i ≡ false
    → ea i ≡ true
    → IsListed ea pa pra xs
    → IsListed ea (put pa i true) pra (insert_candidate i (pra i) xs)
unfolding IsListed
IsListed-insert ea pa pra i xs n e (o, h, f) = (
  is_ordered-insert i (pra i) xs (ground (arith, h i)) o,
  (λ j. ground (arith, has_irq-insert j i (pra i) xs, h j, same_at ea j i)),
  has_priorities-insert pra i xs f,
)

pub IsListed-change :
    (ea pa ea' pa' : ℕ → Bool) (pra : ℕ → ℕ) (xs : List Candidate)
    → ((j : ℕ) → (ea j && pa j) ≡ (ea' j && pa' j))
    → IsListed ea pa pra xs
    → IsListed ea' pa' pra xs
unfolding IsListed
IsListed-change ea pa ea' pa' pra xs e (o, h, f) = (o, (λ j. h j ∙ e j), f)

-- A new priority of an interrupt, which is taken off the list.
pub IsListed-reset :
    (ea pa : ℕ → Bool) (pra : ℕ → ℕ) (i p : ℕ) (xs : List Candidate)
    → IsListed ea pa pra xs
    → IsListed ea (put pa i false) (put pra i p) (remove_candidate i xs)
unfolding IsListed
IsListed-reset ea pa pra i p xs (o, h, f) = (
  is_ordered-remove i xs o,
  (λ j. ground (arith, has_irq-remove j i xs o, h j)),
  has_priorities-put pra i p (remove_candidate i xs) (ground (arith, has_irq-remove i i xs o))
      (has_priorities-remove pra i xs f),
)

pub IsListed-unset :
    (ea pa : ℕ → Bool) (pra : ℕ → ℕ) (i p : ℕ) (xs : List Candidate)
    → pa i ≡ false
    → IsListed ea pa pra xs
    → IsListed ea pa (put pra i p) xs
unfolding IsListed
IsListed-unset ea pa pra i p xs n (o, h, f) =
    (o, h, has_priorities-put pra i p xs (ground (arith, h i)) f)

IsListed-same :
    (ea pa : ℕ → Bool) (pra : ℕ → ℕ) (i : ℕ) (b : Bool) (xs : List Candidate)
    → ea i ≡ false
    → IsListed ea pa pra xs
    → IsListed ea (put pa i b) pra xs
unfolding IsListed
IsListed-same ea pa pra i b xs n (o, h, f) = (o, (λ j. ground (arith, h j, same_at ea j i)), f)

IsListed-remove :
    (ea pa : ℕ → Bool) (pra : ℕ → ℕ) (i : ℕ) (xs : List Candidate)
    → IsListed ea pa pra xs
    → IsListed ea (put pa i false) pra (remove_candidate i xs)
unfolding IsListed
IsListed-remove ea pa pra i xs (o, h, f) = (
  is_ordered-remove i xs o,
  (λ j. ground (arith, has_irq-remove j i xs o, h j)),
  has_priorities-remove pra i xs f,
)

-- `updateMEINEXT` changes CSRs only.
module _ {M : Type 0} where
  pub meiea-update_meinext : (s : Core M) → (update_meinext s).meiea ≡ s.meiea
  unfolding update_meinext
  meiea-update_meinext s = ground arith

  pub meipa-update_meinext : (s : Core M) → (update_meinext s).meipa ≡ s.meipa
  unfolding update_meinext
  meipa-update_meinext s = ground arith

  pub meipra-update_meinext : (s : Core M) → (update_meinext s).meipra ≡ s.meipra
  unfolding update_meinext
  meipra-update_meinext s = ground arith

  pub candidates-update_meinext : (s : Core M) → (update_meinext s).candidates ≡ s.candidates
  unfolding update_meinext
  candidates-update_meinext s = ground arith

  pub update_meinext-IsWellFormed : (s : Core M) → IsWellFormed s → IsWellFormed (update_meinext s)
  unfolding IsWellFormed
  update_meinext-IsWellFormed s h =
      rw
        (
          meiea-update_meinext s,
          meipa-update_meinext s,
          meipra-update_meinext s,
          candidates-update_meinext s,
        )
        h

  pub set_interrupt_on :
      (i : ℕ) (s : Core M)
      → s.meipa i ≡ false
      → IsWellFormed s
      → IsWellFormed (set_interrupt i true s)
  unfolding IsWellFormed IsListed set_interrupt
  set_interrupt_on i s n h = elim (Bool-cases (s.meiea i)) [
    | inl e ↦
        simp (n, e)
          (update_meinext-IsWellFormed
            (record s {
              meipa = put s.meipa i true;
              candidates = insert_candidate i (s.meipra i) s.candidates;
            })
            (IsListed-insert s.meiea s.meipa s.meipra i s.candidates n e h))
    | inr e ↦ simp (n, e) (IsListed-same s.meiea s.meipa s.meipra i true s.candidates e h)
  ]

  pub set_interrupt_off :
      (i : ℕ) (s : Core M)
      → s.meipa i ≡ true
      → IsWellFormed s
      → IsWellFormed (set_interrupt i false s)
  unfolding IsWellFormed IsListed set_interrupt
  set_interrupt_off i s n h = simp n (
      update_meinext-IsWellFormed
        (record s { meipa = put s.meipa i false; candidates = remove_candidate i s.candidates })
        (IsListed-remove s.meiea s.meipa s.meipra i s.candidates h))
