-- ===== src/Base/Int.antt =====
-- Signed integers over the native numbers, and the int32 that a 32-bit pattern stands for.
use Prim.Native.Nat.{ℕ, suc, ◌+◌, ◌-◌, ◌≤◌, ◌<◌}
use mathlib.Core.Path.{◌≡◌, refl}
use mathlib.Core.Bool.{Bool, true, false}
use mathlib.Core.Logic.{◌↔◌, ◌⊎◌, inl, inr}
use native.Mathlib.Omega.{arith}
use rp2350js.Base.Tests.{leb, ltb, if◌then◌else◌, Bool-cases}
use rp2350js.Base.Word.{two32, is_neg}

-- `negsuc n` is -(n + 1).
pub data ℤ : Type 0 where
  pos : ℕ → ℤ
  negsuc : ℕ → ℤ

abbrev pub pos_part : ℤ → ℕ
pos_part (pos n) = n
pos_part (negsuc n) = 0

abbrev pub neg_part : ℤ → ℕ
neg_part (pos n) = 0
neg_part (negsuc n) = suc n

-- a - b, as an integer.
abbrev pub sub_ℕ : ℕ → ℕ → ℤ
sub_ℕ a b = if leb b a then pos (a - b) else negsuc (b - a - 1)

infixl 65 ◌+ℤ◌ ◌-ℤ◌
unfoldable pub ◌+ℤ◌ : ℤ → ℤ → ℤ
a +ℤ b = sub_ℕ (pos_part a + pos_part b) (neg_part a + neg_part b)

unfoldable pub ◌-ℤ◌ : ℤ → ℤ → ℤ
a -ℤ b = sub_ℕ (pos_part a + neg_part b) (neg_part a + pos_part b)

infix 50 ◌≤ℤ◌
abbrev pub ◌≤ℤ◌ : ℤ → ℤ → Type 0
a ≤ℤ b = pos_part a + neg_part b ≤ pos_part b + neg_part a

abbrev pub leb_ℤ : ℤ → ℤ → Bool
leb_ℤ a b = leb (pos_part a + neg_part b) (pos_part b + neg_part a)

abbrev pub ltb_ℤ : ℤ → ℤ → Bool
ltb_ℤ a b = ltb (pos_part a + neg_part b) (pos_part b + neg_part a)

-- the integer that a 32-bit pattern stands for in two's complement
unfoldable pub sint : ℕ → ℤ
sint x = if is_neg x then negsuc (two32 - x - 1) else pos x

pub +ℤ_parts :
    (a b : ℤ)
    → pos_part (a +ℤ b) + neg_part a + neg_part b ≡ neg_part (a +ℤ b) + pos_part a + pos_part b
unfolding ◌+ℤ◌
+ℤ_parts a b = ground arith

-- Two integers are equal exactly when their differences are.
pub ℤ_eq_iff : (a b : ℤ) → (a ≡ b) ↔ (pos_part a + neg_part b ≡ pos_part b + neg_part a)
ℤ_eq_iff a b = (λ e. rw e refl, λ e. ground arith)

pub sint_parts :
    (x : ℕ)
    → x < two32
    → ((is_neg x ≡ true) × (pos_part (sint x) ≡ 0) × (neg_part (sint x) + x ≡ two32))
      ⊎ ((is_neg x ≡ false) × (pos_part (sint x) ≡ x) × (neg_part (sint x) ≡ 0))
unfolding sint
sint_parts x p = elim (Bool-cases (is_neg x)) [
  | inl h ↦ inl (h, rw h refl, rw h (omega arith))
  | inr h ↦ inr (h, rw h refl, rw h refl)
]
