-- ===== src/RiscV/Irq/Highest.antt =====
-- The interrupt that MEINEXT shows.
use rp2350js.Base.{
  ℕ, ◌*◌, ◌<◌, ◌≡◌, ◌≢◌, ◌≤◌, refl, sym, ◌∙◌, ap, arith, Bool, true, false, ◌&&◌, ◌||◌, List, [],
  ◌∷◌, ◌==◌, ==_iff,
}
use rp2350js.Base.{Option, some, none, leb, ltb, Bool-cases, inl, inr, ◌⊎◌, field, u32}
use rp2350js.RiscV.State.{Candidate, Core}
use rp2350js.RiscV.Irq.{goes_before, has_irq, front, no_irq, update_meinext}
use rp2350js.RiscV.Irq.Ordered.{all_before, is_ordered, has_priorities}
use rp2350js.RiscV.Irq.Listed.{IsListed, IsWellFormed}

all_before-front :
    (x : Candidate) (y : Candidate) (ys : List Candidate) (b : Candidate)
    → front (y ∷ ys) ≡ some b
    → all_before x (y ∷ ys) ≡ true
    → goes_before b.irq b.priority x ≡ true
unfolding front all_before
all_before-front x y [] b e h = ground arith
all_before-front x y (z ∷ zs) b e h = all_before-front x z zs b e (ground arith)

front-has_irq : (xs : List Candidate) (b : Candidate) → front xs ≡ some b → has_irq b.irq xs ≡ true
unfolding front has_irq
front-has_irq [] b e = absurd (cc e)
front-has_irq (x ∷ []) b e = ground arith
front-has_irq (x ∷ y ∷ ys) b e = ground (arith, front-has_irq (y ∷ ys) b e)

front-priority :
    (f : ℕ → ℕ) (xs : List Candidate) (b : Candidate)
    → front xs ≡ some b
    → has_priorities f xs ≡ true
    → b.priority ≡ f b.irq
unfolding front has_priorities
front-priority f [] b e h = absurd (cc e)
front-priority f (x ∷ []) b e h = ground arith
front-priority f (x ∷ y ∷ ys) b e h = front-priority f (y ∷ ys) b e (ground arith)

same_priority : (f : ℕ → ℕ) (i j : ℕ) → (i == j) ≡ true → f j ≡ f i
same_priority f i j e = ap f (sym ((==_iff i j).0 e))

-- no listed interrupt is more urgent than that of b
not_after : (ℕ → ℕ) → Candidate → ℕ → Bool
not_after f b j = ltb (f j) b.priority || ((f j == b.priority) && leb b.irq j)

front-first :
    (f : ℕ → ℕ) (xs : List Candidate) (b : Candidate) (j : ℕ)
    → front xs ≡ some b
    → is_ordered xs ≡ true
    → has_priorities f xs ≡ true
    → has_irq j xs ≡ true
    → not_after f b j ≡ true
unfolding front has_priorities is_ordered has_irq not_after
front-first f [] b j e o h k = absurd (cc e)
front-first f (x ∷ []) b j e o h k = ground (arith, same_priority f x.irq j)
front-first f (x ∷ y ∷ ys) b j e o h k =
    ground
      (arith, same_priority f x.irq j, all_before-front x y ys b e, front-first f (y ∷ ys) b j e)

front-some : (x : Candidate) (xs : List Candidate) → front (x ∷ xs) ≢ none
unfolding front
front-some x [] e = absurd (cc e)
front-some x (y ∷ ys) e = front-some y ys e

front-none : (xs : List Candidate) (j : ℕ) → front xs ≡ none → has_irq j xs ≡ false
unfolding has_irq
front-none [] j e = refl
front-none (x ∷ xs) j e = absurd (front-some x xs e)

-- MEINEXT shows no interrupt, and no listed one has the priority PPREEMPT.
pub ShowsNone : {M : Type 0} → Core M → Core M → Type 0
ShowsNone s t =
    (t.csrs 0xbe4 ≡ no_irq)
    × ((j : ℕ) → (s.meiea j && s.meipa j) ≡ true → s.meipra j < field (s.csrs 0xbe5) 24 4)

-- MEINEXT shows i, which is enabled, pending and of at least the priority PPREEMPT. No other has a
-- higher priority, and none of the same priority a smaller number.
pub ShowsMostUrgent : {M : Type 0} → Core M → Core M → ℕ → Type 0
ShowsMostUrgent s t i =
    (t.csrs 0xbe4 ≡ u32 (i * 4))
    × ((s.meiea i && s.meipa i) ≡ true)
    × (field (s.csrs 0xbe5) 24 4 ≤ s.meipra i)
    × ((j : ℕ)
        → (s.meiea j && s.meipa j) ≡ true
        → (s.meipra j < s.meipra i) ⊎ ((s.meipra j ≡ s.meipra i) × (i ≤ j)))

more_urgent :
    (f : ℕ → ℕ) (b : Candidate) (j : ℕ)
    → b.priority ≡ f b.irq
    → not_after f b j ≡ true
    → (f j < f b.irq) ⊎ ((f j ≡ f b.irq) × (b.irq ≤ j))
unfolding not_after
more_urgent f b j p h = elim (Bool-cases (ltb (f j) b.priority)) [
  | inl k ↦ inl (ground arith)
  | inr k ↦ inr (ground arith, ground arith)
]

module _ {M : Type 0} (s : Core M) where
  -- The value of MEINEXT on each branch.
  meinext_none : front s.candidates ≡ none → (update_meinext s).csrs 0xbe4 ≡ no_irq
  unfolding update_meinext
  meinext_none e = ground (arith, e)

  meinext_low :
      (b : Candidate)
      → front s.candidates ≡ some b
      → leb (field (s.csrs 0xbe5) 24 4) b.priority ≡ false
      → (update_meinext s).csrs 0xbe4 ≡ no_irq
  unfolding update_meinext
  meinext_low b e k = ground (arith, e, k)

  meinext_some :
      (b : Candidate)
      → front s.candidates ≡ some b
      → leb (field (s.csrs 0xbe5) 24 4) b.priority ≡ true
      → (update_meinext s).csrs 0xbe4 ≡ u32 (b.irq * 4)
  unfolding update_meinext
  meinext_some b e k = ground (arith, e, k)

  front_shows :
      (o : Option Candidate)
      → front s.candidates ≡ o
      → IsWellFormed s
      → ShowsNone s (update_meinext s) ⊎ ((i : ℕ) × ShowsMostUrgent s (update_meinext s) i)
  unfolding IsWellFormed IsListed ShowsNone ShowsMostUrgent
  front_shows none e (o, h, f) =
      inl (meinext_none e, λ j k. absurd (cc (h j, k, front-none s.candidates j e)))
  front_shows (some b) e (o, h, f) =
      let p = front-priority s.meipra s.candidates b e f in
      let first : (j : ℕ)
          → (s.meiea j && s.meipa j) ≡ true
          → (s.meipra j < s.meipra b.irq) ⊎ ((s.meipra j ≡ s.meipra b.irq) × (b.irq ≤ j)) =
        λ j m. more_urgent s.meipra b j p (front-first s.meipra s.candidates b j e o f (h j ∙ m)) in
      elim (Bool-cases (leb (field (s.csrs 0xbe5) 24 4) b.priority)) [
        | inl k ↦ inr (
          b.irq,
          (
            meinext_some b e k,
            sym (h b.irq) ∙ front-has_irq s.candidates b e,
            ground (arith, p, k),
            first,
          ),
        )
        | inr k ↦ inl (meinext_low b e k, λ j m. ground (arith, p, k, first j m))
      ]

-- After `updateMEINEXT` on a core whose candidates are the enabled and pending interrupts, MEINEXT shows
-- the most urgent of these where its priority is at least PPREEMPT, the smallest number of those of equal
-- priority; and otherwise none, and each of these is below PPREEMPT.
pub update_meinext-shows :
    {M : Type 0} (s : Core M)
    → IsWellFormed s
    → ShowsNone s (update_meinext s) ⊎ ((i : ℕ) × ShowsMostUrgent s (update_meinext s) i)
update_meinext-shows s h = front_shows s (front s.candidates) refl h
