-- ===== src/RiscV/Irq/Ordered.antt =====
-- The order of the candidate list: the last candidate first, by priority and then by number, with no interrupt twice.
use rp2350js.Base.{ℕ, ◌≡◌, refl, arith, Bool, true, false, not, ◌&&◌, ◌||◌, List, [], ◌∷◌}
use rp2350js.Base.{◌==◌}
use rp2350js.RiscV.State.{Candidate, candidate}
use rp2350js.RiscV.Irq.{goes_before, insert_candidate, has_irq, remove_candidate}

-- every candidate of the list goes before x, and is not x
unfoldable pub all_before : Candidate → List Candidate → Bool
all_before x [] = true
all_before x (y ∷ ys) = goes_before y.irq y.priority x && not (y.irq == x.irq) && all_before x ys

unfoldable pub is_ordered : List Candidate → Bool
unfolding all_before
is_ordered [] = true
is_ordered (x ∷ xs) = all_before x xs && is_ordered xs

unfoldable pub has_priorities : (ℕ → ℕ) → List Candidate → Bool
has_priorities f [] = true
has_priorities f (x ∷ xs) = (x.priority == f x.irq) && has_priorities f xs

all_before_trans :
    (x y : Candidate) (ys : List Candidate)
    → goes_before x.irq x.priority y ≡ true
    → all_before x ys ≡ true
    → has_irq y.irq ys ≡ false
    → all_before y ys ≡ true
unfolding all_before has_irq
all_before_trans x y [] h k n = refl
all_before_trans x y (z ∷ zs) h k n = ground (arith, all_before_trans x y zs h)

all_before-insert :
    (x : Candidate) (i p : ℕ) (xs : List Candidate)
    → goes_before i p x ≡ true
    → (i == x.irq) ≡ false
    → all_before x xs ≡ true
    → all_before x (insert_candidate i p xs) ≡ true
unfolding all_before insert_candidate
all_before-insert x i p [] h k a = ground arith
all_before-insert x i p (y ∷ ys) h k a = ground (arith, all_before-insert x i p ys h k)

pub is_ordered-insert :
    (i p : ℕ) (xs : List Candidate)
    → has_irq i xs ≡ false
    → is_ordered xs ≡ true
    → is_ordered (insert_candidate i p xs) ≡ true
unfolding is_ordered insert_candidate has_irq all_before
is_ordered-insert i p [] n o = refl
is_ordered-insert i p (x ∷ xs) n o = ground (
  arith,
  is_ordered-insert i p xs,
  all_before-insert x i p xs,
  all_before_trans x (candidate i p) xs,
)

pub has_irq-insert :
    (j i p : ℕ) (xs : List Candidate)
    → has_irq j (insert_candidate i p xs) ≡ ((i == j) || has_irq j xs)
unfolding has_irq insert_candidate
has_irq-insert j i p [] = refl
has_irq-insert j i p (x ∷ xs) = ground (arith, has_irq-insert j i p xs)

all_before-remove :
    (x : Candidate) (i : ℕ) (xs : List Candidate)
    → all_before x xs ≡ true
    → all_before x (remove_candidate i xs) ≡ true
unfolding all_before remove_candidate
all_before-remove x i [] h = refl
all_before-remove x i (y ∷ ys) h = ground (arith, all_before-remove x i ys)

pub is_ordered-remove :
    (i : ℕ) (xs : List Candidate) → is_ordered xs ≡ true → is_ordered (remove_candidate i xs) ≡ true
unfolding is_ordered remove_candidate
is_ordered-remove i [] h = refl
is_ordered-remove i (x ∷ xs) h = ground (arith, is_ordered-remove i xs, all_before-remove x i xs)

-- An interrupt is not among candidates that go before it.
all_before-absent :
    (x : Candidate) (xs : List Candidate) → all_before x xs ≡ true → has_irq x.irq xs ≡ false
unfolding all_before has_irq
all_before-absent x [] h = refl
all_before-absent x (y ∷ ys) h = ground (arith, all_before-absent x ys)

pub has_irq-remove :
    (j i : ℕ) (xs : List Candidate)
    → is_ordered xs ≡ true
    → has_irq j (remove_candidate i xs) ≡ (has_irq j xs && not (j == i))
unfolding has_irq remove_candidate is_ordered
has_irq-remove j i [] h = refl
has_irq-remove j i (x ∷ xs) h = ground (arith, has_irq-remove j i xs, all_before-absent x xs)
