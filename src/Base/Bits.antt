-- ===== src/Base/Bits.antt =====
-- `|` and `&` of bit fields as arithmetic.
use Prim.Native.Nat.{ℕ, zero, suc, ◌+◌, ◌*◌, ◌/◌, ◌%◌, ◌^◌, ◌≤◌, ◌<◌, min, max}
use Prim.Native.Nat.{
  bit_and, bit_or, digits, bitwise, bit_and-bitwise, bit_or-bitwise, bit_xor, bit_xor-bitwise,
  differ,
}
use mathlib.Core.Path.{◌≡◌, refl, ap, ◌∙◌}
use native.Mathlib.Nat.{add-mul-mod_self_right, mod-eq_of_lt, mod-lt, one-le-pow, div-add-mod'}
use native.Mathlib.Nat.{le_refl, pow-suc, pow-succ', div-div-eq-div-mul}
use mathlib.Core.Bool.{◌&&◌}
use rp2350js.Base.Tests.{xor, leb, Bool-cases}
use mathlib.Core.Logic.{inl, inr}
use rp2350js.Base.Word.{two32, is_neg}
use native.Mathlib.Omega.{arith}

-- A native operation on bits is `bitwise z f`: `z` gives the result for a left operand 0, and `f`
-- that of one digit. One round more than the left operand needs changes nothing.
module _ (z : ℕ → ℕ) (f : ℕ → ℕ → ℕ) where
  one_more : (n a b : ℕ) → a ≤ n → digits z f (suc n) a b ≡ digits z f n a b
  one_more zero zero b h = refl
  one_more (suc n) zero b h = refl
  one_more (suc n) (suc a) b h = rw (one_more n (suc a / 2) (b / 2) (omega arith)) refl
  one_more zero (suc a) b h = absurd (omega arith)

  just_enough : {n a : ℕ} (b : ℕ) → a ≡ suc n → digits z f (suc n) a b ≡ bitwise z f a b
  just_enough b e = rw e refl

  settled : (n a b : ℕ) → a ≤ n → digits z f n a b ≡ bitwise z f a b
  settled zero zero b h = refl
  settled zero (suc a) b h = absurd (omega arith)
  settled (suc n) a b h = elim (Bool-cases (leb a n)) [
    | inl e ↦ one_more n a b (ground arith) ∙ settled n a b (ground arith)
    | inr e ↦ just_enough b (ground arith)
  ]

  -- The lowest digit apart, where `z` has that form too.
  lowest_digit :
      ((b : ℕ) → z b ≡ z (b / 2) * 2 + f 0 (b % 2))
      → (a b : ℕ) → bitwise z f a b ≡ bitwise z f (a / 2) (b / 2) * 2 + f (a % 2) (b % 2)
  lowest_digit base zero b = base b
  lowest_digit base (suc a) b = omega (arith, settled a (suc a / 2) (b / 2) (omega arith))

pub bit_or_step : (a b : ℕ) → bit_or a b ≡ bit_or (a / 2) (b / 2) * 2 + max (a % 2) (b % 2)
bit_or_step a b = simp bit_or-bitwise (lowest_digit (λ y. y) max (λ y. omega arith) a b)

pub bit_and_step : (a b : ℕ) → bit_and a b ≡ bit_and (a / 2) (b / 2) * 2 + min (a % 2) (b % 2)
bit_and_step a b = simp bit_and-bitwise (lowest_digit (λ y. 0) min (λ y. omega arith) a b)

or_zero_fuel : (n a : ℕ) → a ≤ n → bit_or a 0 ≡ a
or_zero_fuel n zero h = refl
or_zero_fuel zero (suc a) h = absurd (omega arith)
or_zero_fuel (suc n) (suc a) h =
    omega (arith, bit_or_step (suc a) 0, or_zero_fuel n (suc a / 2) (omega arith))

pub bit_or-zero : (a : ℕ) → bit_or a 0 ≡ a
bit_or-zero a = or_zero_fuel a a (le_refl a)

mul-pow-suc : (q k : ℕ) → q * 2 ^ suc k ≡ 2 * (q * 2 ^ k)
mul-pow-suc q k = omega (arith, ap (λ (t : ℕ). q * t) (pow-suc 2 k))

-- `(q << k) | r` is a sum when `r` fits in `k` bits.
pub bit_or_sum : (k q r : ℕ) → r < 2 ^ k → bit_or (q * 2 ^ k) r ≡ q * 2 ^ k + r
bit_or_sum zero q r h = ground (arith, bit_or-zero q)
bit_or_sum (suc k) q r h =
    ground
      (arith, bit_or_step (q * 2 ^ suc k) r, mul-pow-suc q k, bit_or_sum k q (r / 2) (omega arith))

pub bit_xor_step : (a b : ℕ) → bit_xor a b ≡ bit_xor (a / 2) (b / 2) * 2 + differ (a % 2) (b % 2)
bit_xor_step a b = simp bit_xor-bitwise (lowest_digit (λ y. y) differ (λ y. omega arith) a b)

differ-lt : (a b : ℕ) → a < 2 → b < 2 → differ a b < 2
differ-lt zero b p q = q
differ-lt (suc zero) zero p q = omega arith
differ-lt (suc zero) (suc b) p q = omega arith
differ-lt (suc (suc a)) b p q = absurd (omega arith)

bit_xor-half : (a b : ℕ) → bit_xor a b / 2 ≡ bit_xor (a / 2) (b / 2)
bit_xor-half a b =
    omega (arith, bit_xor_step a b, differ-lt (a % 2) (b % 2) (omega arith) (omega arith))

bit_and-half : (a b : ℕ) → bit_and a b / 2 ≡ bit_and (a / 2) (b / 2)
bit_and-half a b = omega (arith, bit_and_step a b)

bit_or-half : (a b : ℕ) → bit_or a b / 2 ≡ bit_or (a / 2) (b / 2)
bit_or-half a b = omega (arith, bit_or_step a b)

div-pow-suc : (x k : ℕ) → x / 2 ^ suc k ≡ x / 2 / 2 ^ k
div-pow-suc x k = rw (pow-succ', div-div-eq-div-mul) refl

div_one : (x : ℕ) → x / 2 ^ 0 ≡ x
div_one x = omega arith

-- The bits from the k-th on.
pub bit_xor-shr : (k a b : ℕ) → bit_xor a b / 2 ^ k ≡ bit_xor (a / 2 ^ k) (b / 2 ^ k)
bit_xor-shr zero a b = rw (div_one a, div_one b) (div_one _)
bit_xor-shr (suc k) a b =
    rw (div-pow-suc (bit_xor a b) k, div-pow-suc a k, div-pow-suc b k, bit_xor-half)
      (bit_xor-shr k (a / 2) (b / 2))

pub bit_and-shr : (k a b : ℕ) → bit_and a b / 2 ^ k ≡ bit_and (a / 2 ^ k) (b / 2 ^ k)
bit_and-shr zero a b = rw (div_one a, div_one b) (div_one _)
bit_and-shr (suc k) a b =
    rw (div-pow-suc (bit_and a b) k, div-pow-suc a k, div-pow-suc b k, bit_and-half)
      (bit_and-shr k (a / 2) (b / 2))

pub bit_or-shr : (k a b : ℕ) → bit_or a b / 2 ^ k ≡ bit_or (a / 2 ^ k) (b / 2 ^ k)
bit_or-shr zero a b = rw (div_one a, div_one b) (div_one _)
bit_or-shr (suc k) a b =
    rw (div-pow-suc (bit_or a b) k, div-pow-suc a k, div-pow-suc b k, bit_or-half)
      (bit_or-shr k (a / 2) (b / 2))

-- On one bit `^` and `&` are the exclusive or and the conjunction of the signs.
bit_xor_of_bits : (a b : ℕ) → a < 2 → b < 2 → bit_xor a b ≡ (a + b) % 2
bit_xor_of_bits zero zero p q = refl
bit_xor_of_bits zero (suc zero) p q = refl
bit_xor_of_bits (suc zero) zero p q = refl
bit_xor_of_bits (suc zero) (suc zero) p q = refl
bit_xor_of_bits zero (suc (suc b)) p q = absurd (omega arith)
bit_xor_of_bits (suc zero) (suc (suc b)) p q = absurd (omega arith)
bit_xor_of_bits (suc (suc a)) b p q = absurd (omega arith)

bit_and_of_bits : (a b : ℕ) → a < 2 → b < 2 → bit_and a b ≡ min a b
bit_and_of_bits zero zero p q = refl
bit_and_of_bits zero (suc zero) p q = refl
bit_and_of_bits zero (suc (suc b)) p q = absurd (omega arith)
bit_and_of_bits (suc zero) zero p q = refl
bit_and_of_bits (suc zero) (suc zero) p q = refl
bit_and_of_bits (suc zero) (suc (suc b)) p q = absurd (omega arith)
bit_and_of_bits (suc (suc a)) b p q = absurd (omega arith)

pub top_of_xor :
    (a b : ℕ) → a < 2 ^ 32 → b < 2 ^ 32 → bit_xor a b / 2 ^ 31 ≡ (a / 2 ^ 31 + b / 2 ^ 31) % 2
top_of_xor a b p q = rw (bit_xor-shr 31 a b) (bit_xor_of_bits _ _ (omega arith) (omega arith))

pub top_of_and :
    (a b : ℕ) → a < 2 ^ 32 → b < 2 ^ 32 → bit_and a b / 2 ^ 31 ≡ min (a / 2 ^ 31) (b / 2 ^ 31)
top_of_and a b p q = rw (bit_and-shr 31 a b) (bit_and_of_bits _ _ (omega arith) (omega arith))

pub bit_xor-lt : (a b : ℕ) → a < 2 ^ 32 → b < 2 ^ 32 → bit_xor a b < 2 ^ 32
bit_xor-lt a b p q = omega (arith, top_of_xor a b p q)

-- The sign of `^` and of `&`.
pub neg_xor : (a b : ℕ) → a < two32 → b < two32 → is_neg (bit_xor a b) ≡ xor (is_neg a) (is_neg b)
neg_xor a b p q = ground (arith, top_of_xor a b p q)

pub neg_and : (a b : ℕ) → a < two32 → b < two32 → is_neg (bit_and a b) ≡ (is_neg a && is_neg b)
neg_and a b p q = ground (arith, top_of_and a b p q)

mod-pow-suc : (x k : ℕ) → x % 2 ^ suc k ≡ x / 2 % 2 ^ k * 2 + x % 2
mod-pow-suc x k =
    ap (λ y. y % 2 ^ suc k) regroup
    ∙ add-mul-mod_self_right (x / 2 % 2 ^ k * 2 + x % 2) (x / 2 / 2 ^ k) (2 ^ suc k)
    ∙ mod-eq_of_lt (omega (arith, pow-suc 2 k, mod-lt (x / 2) (one-le-pow k 2 (omega arith))))
  where
    regroup : x ≡ x / 2 % 2 ^ k * 2 + x % 2 + x / 2 / 2 ^ k * 2 ^ suc k
    regroup = omega (arith, mul-pow-suc (x / 2 / 2 ^ k) k, div-add-mod' (x / 2) (2 ^ k))

half_of_twice : (x b : ℕ) → b < 2 → ((x * 2 + b) / 2 ≡ x) × ((x * 2 + b) % 2 ≡ b)
half_of_twice x b h = omega arith

-- `|` works on the bits above and below any place apart.
pub bit_or_split :
    (k a b : ℕ)
    → bit_or a b ≡ bit_or (a / 2 ^ k) (b / 2 ^ k) * 2 ^ k + bit_or (a % 2 ^ k) (b % 2 ^ k)
bit_or_split zero a b = rw (div_one a, div_one b) (ground (arith))
bit_or_split (suc k) a b = omega (
  arith,
  bit_or_step a b,
  bit_or_split k (a / 2) (b / 2),
  low,
  high,
  mul-pow-suc (bit_or (a / 2 / 2 ^ k) (b / 2 / 2 ^ k)) k,
)
  where
    high :
        bit_or (a / 2 ^ suc k) (b / 2 ^ suc k) * 2 ^ suc k
        ≡ bit_or (a / 2 / 2 ^ k) (b / 2 / 2 ^ k) * 2 ^ suc k
    high = rw (div-pow-suc a k, div-pow-suc b k) refl

    low :
        bit_or (a % 2 ^ suc k) (b % 2 ^ suc k)
        ≡ bit_or (a / 2 % 2 ^ k) (b / 2 % 2 ^ k) * 2 + max (a % 2) (b % 2)
    low = rw (
      mod-pow-suc a k,
      mod-pow-suc b k,
      bit_or_step (a / 2 % 2 ^ k * 2 + a % 2) (b / 2 % 2 ^ k * 2 + b % 2),
      (half_of_twice (a / 2 % 2 ^ k) (a % 2) (omega arith)).0,
      (half_of_twice (a / 2 % 2 ^ k) (a % 2) (omega arith)).1,
      (half_of_twice (b / 2 % 2 ^ k) (b % 2) (omega arith)).0,
      (half_of_twice (b / 2 % 2 ^ k) (b % 2) (omega arith)).1,
    )

-- One bit of `&` and of `|`.
pub bit_and-bit : (k a b : ℕ) → bit_and a b / 2 ^ k % 2 ≡ min (a / 2 ^ k % 2) (b / 2 ^ k % 2)
bit_and-bit k a b = rw (bit_and-shr k a b) (omega (arith, bit_and_step (a / 2 ^ k) (b / 2 ^ k)))

pub bit_or-bit : (k a b : ℕ) → bit_or a b / 2 ^ k % 2 ≡ max (a / 2 ^ k % 2) (b / 2 ^ k % 2)
bit_or-bit k a b = rw (bit_or-shr k a b) (omega (arith, bit_or_step (a / 2 ^ k) (b / 2 ^ k)))
