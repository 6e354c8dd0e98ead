-- ===== src/M0/Exception/Select/Pick.antt =====
-- The lowest bit that `checkForInterrupts` looks for, and the order of its tests at one level.
use rp2350js.Base.{ℕ, zero, suc, ◌+◌, ◌/◌, ◌^◌, ◌<◌, ◌≤◌, ◌≡◌, refl, ◌∙◌, sym}
use rp2350js.Base.{arith, Bool, true, false, ◌&&◌, Option, some, none, bit_and, Bool-cases}
use rp2350js.Base.{test_bit, if◌then◌else◌, inl, inr}
use rp2350js.Base.Bits.{bit_and-shr, bit_and_step}
use rp2350js.M0.Exception.Select.{lowest_bit, Pending, sv_call, pend_sv, systick, irq}
use rp2350js.M0.Exception.Select.{to_irq}

pub test_bit-and : (a b k : ℕ) → test_bit (bit_and a b) k ≡ (test_bit a k && test_bit b k)
test_bit-and a b k =
    rw (bit_and-shr k a b) (rw (bit_and_step (a / 2 ^ k) (b / 2 ^ k)) (ground arith))

pub both_bits :
    (a b k : ℕ) → test_bit (bit_and a b) k ≡ true → (test_bit a k ≡ true) × (test_bit b k ≡ true)
both_bits a b k h = both (sym (test_bit-and a b k) ∙ h)
  where
    both : {x y : Bool} → (x && y) ≡ true → (x ≡ true) × (y ≡ true)
    both e = ground arith

pub lowest_bit-some :
    (n i x j : ℕ) → lowest_bit n i x ≡ some j → (test_bit x j ≡ true) × (j < i + n)
unfolding lowest_bit
lowest_bit-some zero i x j e = absurd (ground arith)
lowest_bit-some (suc n) i x j e = elim (Bool-cases (test_bit x i)) [
  | inl h ↦ ground (arith, lowest_bit-some n (i + 1) x j)
  | inr h ↦ ground (arith, lowest_bit-some n (i + 1) x j)
]

pub lowest_bit-none :
    (n i x j : ℕ) → lowest_bit n i x ≡ none → i ≤ j → j < i + n → test_bit x j ≡ false
unfolding lowest_bit
lowest_bit-none zero i x j e p q = absurd (omega arith)
lowest_bit-none (suc n) i x j e p q = elim (Bool-cases (test_bit x i)) [
  | inl h ↦ absurd (ground arith)
  | inr h ↦ ground (arith, lowest_bit-none n (i + 1) x j)
]

-- the tests of one level
abbrev pub pick : Bool → Bool → Bool → Option ℕ → Option Pending
pick a b c o =
    if a then some sv_call else if b then some pend_sv else if c then some systick else to_irq o

pub pick-irq : (a b c : Bool) (o : Option ℕ) (n : ℕ) → pick a b c o ≡ some (irq n) → o ≡ some n
pick-irq true b c o n e = absurd (ground arith)
pick-irq false true c o n e = absurd (ground arith)
pick-irq false false true o n e = absurd (ground arith)
pick-irq false false false none n e = absurd (ground arith)
pick-irq false false false (some m) n e = ground arith

pub pick-sv_call : (a b c : Bool) (o : Option ℕ) → pick a b c o ≡ some sv_call → a ≡ true
pick-sv_call true b c o e = refl
pick-sv_call false true c o e = absurd (ground arith)
pick-sv_call false false true o e = absurd (ground arith)
pick-sv_call false false false none e = absurd (ground arith)
pick-sv_call false false false (some m) e = absurd (ground arith)

pub pick-pend_sv : (a b c : Bool) (o : Option ℕ) → pick a b c o ≡ some pend_sv → b ≡ true
pick-pend_sv true b c o e = absurd (ground arith)
pick-pend_sv false true c o e = refl
pick-pend_sv false false true o e = absurd (ground arith)
pick-pend_sv false false false none e = absurd (ground arith)
pick-pend_sv false false false (some m) e = absurd (ground arith)

pub pick-systick : (a b c : Bool) (o : Option ℕ) → pick a b c o ≡ some systick → c ≡ true
pick-systick true b c o e = absurd (ground arith)
pick-systick false true c o e = absurd (ground arith)
pick-systick false false true o e = refl
pick-systick false false false none e = absurd (ground arith)
pick-systick false false false (some m) e = absurd (ground arith)

pub pick-none :
    (a b c : Bool) (o : Option ℕ)
    → pick a b c o ≡ none
    → (a ≡ false) × (b ≡ false) × (c ≡ false) × (o ≡ none)
pick-none true b c o e = absurd (ground arith)
pick-none false true c o e = absurd (ground arith)
pick-none false false true o e = absurd (ground arith)
pick-none false false false none e = (refl, refl, refl, refl)
pick-none false false false (some m) e = absurd (ground arith)
