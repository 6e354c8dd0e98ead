-- ===== src/RiscV/Alu/Multiply.antt =====
-- The 64-bit products behind MUL, MULH, MULHSU and MULHU.
use rp2350js.Base.{ℕ, ◌+◌, ◌-◌, ◌*◌, ◌/◌, ◌%◌, ◌<◌, ◌≡◌, refl, ◌∙◌, ap₂, arith, some}
use rp2350js.Base.{two32, u32, is_neg, if◌then◌else◌, Bool-cases, inl, inr}
use native.Mathlib.Nat.{mul-le-mul}
use rp2350js.RiscV.Tags.{t_mul, t_mulh, t_mulhsu, t_mulhu}
use rp2350js.RiscV.Alu.{umulh, mulh, mulhsu, op_value}

-- The parts of a product of two-digit numbers.
digits_product :
    (p q r s : ℕ)
    → (p * 65536 + q) * (r * 65536 + s) ≡ p * r * 4294967296 + (p * s + q * r) * 65536 + q * s
digits_product p q r s = omega arith

-- The partial products of the digits of a and b.
product_split :
    (a b : ℕ)
    → a * b
      ≡ a / 65536 * (b / 65536) * two32
        + (a / 65536 * (b % 65536) + a % 65536 * (b / 65536)) * 65536
        + a % 65536 * (b % 65536)
product_split a b =
    let e : a ≡ a / 65536 * 65536 + a % 65536 = omega arith in
    let f : b ≡ b / 65536 * 65536 + b % 65536 = omega arith in
    ap₂ (λ x y. x * y) e f ∙ digits_product (a / 65536) (a % 65536) (b / 65536) (b % 65536)

carry_sum :
    (hh lh hl ll n : ℕ)
    → n ≡ hh * two32 + (hl + lh) * 65536 + ll
    → n < two32 * two32
    → (hh + lh / 65536 + hl / 65536 + (ll / 65536 + lh % 65536 + hl % 65536) / 65536) % two32
      ≡ n / two32
carry_sum hh lh hl ll n e h = omega arith

mul-lt-two64 : (a b : ℕ) → a < two32 → b < two32 → a * b < two32 * two32
mul-lt-two64 a b h k = omega (
  arith,
  mul-le-mul {n₁ = a} {m₁ = b} {n₂ = two32 - 1} {m₂ = two32 - 1} (omega arith) (omega arith),
)

pub umulh-high : (a b : ℕ) → a < two32 → b < two32 → umulh a b ≡ a * b / two32
unfolding umulh
umulh-high a b p q =
    carry_sum _ (a % 65536 * (b / 65536)) _ _ (a * b) (product_split a b) (mul-lt-two64 a b p q)

-- the 64-bit pattern of the int32 with this pattern
abbrev pub sext64 : ℕ → ℕ
sext64 x = if is_neg x then x + two32 * (two32 - 1) else x

-- The two words of a product of 64-bit patterns: the low one and the high one.
abbrev pub Words : ℕ → ℕ → ℕ → Type 0
Words p lo hi = hi * two32 + lo ≡ p % (two32 * two32)

mulhsu-Words : (a b : ℕ) → a < two32 → b < two32 → Words (sext64 a * b) (u32 (a * b)) (mulhsu a b)
unfolding mulhsu
mulhsu-Words a b p q =
    let m = mul-lt-two64 a b p q in
    elim (Bool-cases (is_neg a)) [
      | inl h ↦ rw (umulh-high a b p q, h) (omega arith)
      | inr h ↦ rw (umulh-high a b p q, h) (omega arith)
    ]

mulh-Words :
    (a b : ℕ) → a < two32 → b < two32 → Words (sext64 a * sext64 b) (u32 (a * b)) (mulh a b)
unfolding mulh
mulh-Words a b p q =
    let m = mul-lt-two64 a b p q in
    elim (Bool-cases (is_neg a)) [
      | inl h ↦ elim (Bool-cases (is_neg b)) [
        | inl k ↦ rw (umulh-high a b p q, h, k) (omega arith)
        | inr k ↦ rw (umulh-high a b p q, h, k) (omega arith)
      ]
      | inr h ↦ elim (Bool-cases (is_neg b)) [
        | inl k ↦ rw (umulh-high a b p q, h, k) (omega arith)
        | inr k ↦ rw (umulh-high a b p q, h, k) (omega arith)
      ]
    ]

mulhu-Words : (a b : ℕ) → a < two32 → b < two32 → Words (a * b) (u32 (a * b)) (umulh a b)
mulhu-Words a b p q = let m = mul-lt-two64 a b p q in rw (umulh-high a b p q) (omega arith)

-- MUL, MULH, MULHSU and MULHU store the low and the high words of one 64-bit product, whose operands are
-- taken as signed, the first as signed, and neither.
pub op_value-product :
    (a b : ℕ)
    → a < two32
    → b < two32
    → (lo ss su uu : ℕ) × (op_value t_mul a b ≡ some lo)
      × (op_value t_mulh a b ≡ some ss)
      × (op_value t_mulhsu a b ≡ some su)
      × (op_value t_mulhu a b ≡ some uu)
      × Words (sext64 a * sext64 b) lo ss
      × Words (sext64 a * b) lo su
      × Words (a * b) lo uu
unfolding op_value
op_value-product a b p q = (
  u32 (a * b),
  mulh a b,
  mulhsu a b,
  umulh a b,
  refl,
  refl,
  refl,
  refl,
  mulh-Words a b p q,
  mulhsu-Words a b p q,
  mulhu-Words a b p q,
)
