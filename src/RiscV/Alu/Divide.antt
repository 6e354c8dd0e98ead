-- ===== src/RiscV/Alu/Divide.antt =====
-- The quotients and remainders of DIV, REM, DIVU and REMU.
use rp2350js.Base.{
  ℕ, zero, suc, ◌+◌, ◌-◌, ◌*◌, ◌/◌, ◌%◌, ◌^◌, ◌<◌, ◌≤◌, ◌≡◌, ◌≢◌, ◌⊎◌, refl, ◌∙◌, sym, ap, subst,
  arith, some, Bool, true, false,
}
use rp2350js.Base.{two32, u32, sub32, is_neg, Bool-cases, inl, inr, xor, ◌==◌, ◌&&◌, ==_iff}
use native.Mathlib.Nat.{div-add-mod', mod-lt, mod-le, div-le_self}
use rp2350js.RiscV.Tags.{t_div, t_rem, t_divu, t_remu}
use rp2350js.RiscV.Alu.{mag, neg_if, div, rem, divu, remu, op_value}

-- The product with a complement, modulo 2 ^ 32.
neg-mul_right : (n y b : ℕ) → b + y ≡ two32 → n * b + n * y ≡ two32 * n
neg-mul_right n y b e = omega (arith, ap (λ t. n * t) e)

neg-mul_left : (n y : ℕ) → n < two32 → (sub32 0 n * y + n * y) % two32 ≡ 0
neg-mul_left n y h = elim (Bool-cases (n == 0)) [
  | inl e ↦ let z : n ≡ 0 = (==_iff n 0).0 e in rw z (omega arith)
  | inr e ↦ let s : sub32 0 n + n ≡ two32 = ground arith in omega (arith, ap (λ t. t * y) s)
]

module _ (n r x y : ℕ) (e : n * y + r ≡ x) (small : x ≤ 2 ^ 31) (pos : 0 < x) where
  both_negative : (b : ℕ) → b + y ≡ two32 → u32 (n * b + sub32 0 r) ≡ two32 - x
  both_negative b f = omega (arith, neg-mul_right n y b f)

  left_negative : n < two32 → u32 (sub32 0 n * y + sub32 0 r) ≡ two32 - x
  left_negative h = omega (arith, neg-mul_left n y h)

right_negative :
    (n r x y b : ℕ)
    → n * y + r ≡ x
    → x < 2 ^ 31
    → b + y ≡ two32
    → n < two32
    → u32 (sub32 0 n * b + r) ≡ x
right_negative n r x y b e small f h = elim (Bool-cases (n == 0)) [
  | inl k ↦
      let z : n ≡ 0 = (==_iff n 0).0 k in
      let w : r ≡ x = omega (arith, e, ap (λ t. t * y) z) in rw (z, w) (omega arith)
  | inr k ↦
      let s : sub32 0 n + n ≡ two32 = ground arith in
      omega (arith, ap (λ t. t * b) s, neg-mul_right n y b f)
]

-- A pattern a of the sign s and the absolute value x.
Signed : Bool → ℕ → ℕ → Type 0
Signed true x a = (a + x ≡ two32) × (0 < x) × (x ≤ 2 ^ 31)
Signed false x a = (a ≡ x) × (x < 2 ^ 31)

mag-Signed : (a : ℕ) → a < two32 → (s : Bool) → is_neg a ≡ s → Signed s (mag a) a
unfolding Signed
mag-Signed a h true e = (ground arith, ground arith, ground arith)
mag-Signed a h false e = (ground arith, ground arith)

quotient_identity :
    (sa sb : Bool) (n r x y a b : ℕ)
    → n * y + r ≡ x
    → n ≤ x
    → Signed sa x a
    → Signed sb y b
    → u32 (neg_if (xor sa sb) n * b + neg_if sa r) ≡ a
unfolding Signed
quotient_identity true true n r x y a b e l (f, pos, le) (g, _, _) =
    both_negative n r x y e le pos b g ∙ omega arith
quotient_identity true false n r x y a b e l (f, pos, le) (g, _) =
    ap (λ t. u32 (sub32 0 n * t + sub32 0 r)) g
    ∙ left_negative n r x y e le pos (omega arith)
    ∙ omega arith
quotient_identity false true n r x y a b e l (f, lt) (g, _, _) =
    right_negative n r x y b e lt g (omega arith) ∙ sym f
quotient_identity false false n r x y a b e l (f, lt) (g, _) =
    ap (λ t. u32 (n * t + r)) g ∙ omega arith

-- The remainder is below the divisor, with the sign of the dividend.
remainder :
    (sa : Bool) (r x y a : ℕ)
    → r < y
    → r ≤ x
    → Signed sa x a
    → (mag (neg_if sa r) ≡ r) × ((neg_if sa r ≡ 0) ⊎ (is_neg (neg_if sa r) ≡ sa))
unfolding Signed
remainder true zero x y a h k (f, pos, le) = (refl, inl refl)
remainder true (suc r) x y a h k (f, pos, le) = (ground arith, inr (ground arith))
remainder false r x y a h k (f, lt) = (ground arith, inr (ground arith))

-- The branch for the most negative number by -1 has the value of the general one.
pub div-general : (a b : ℕ) → b ≢ 0 → div a b ≡ neg_if (xor (is_neg a) (is_neg b)) (mag a / mag b)
unfolding div
div-general a b nz = elim (Bool-cases (b == 0)) [
  | inl e ↦ absurd (nz ((==_iff b 0).0 e))
  | inr e ↦ elim (Bool-cases ((a == 0x80000000) && (b == 0xffffffff))) [
    | inl k ↦
        let f : a ≡ 0x80000000 = ground arith in
        let g : b ≡ 0xffffffff = ground arith in rw (f, g) refl
    | inr k ↦ simp (e, k) refl
  ]
]

pub rem-general : (a b : ℕ) → b ≢ 0 → rem a b ≡ neg_if (is_neg a) (mag a % mag b)
unfolding rem
rem-general a b nz = elim (Bool-cases (b == 0)) [
  | inl e ↦ absurd (nz ((==_iff b 0).0 e))
  | inr e ↦ elim (Bool-cases ((a == 0x80000000) && (b == 0xffffffff))) [
    | inl k ↦
        let f : a ≡ 0x80000000 = ground arith in
        let g : b ≡ 0xffffffff = ground arith in rw (f, g) refl
    | inr k ↦ simp (e, k) refl
  ]
]

-- What RISC-V promises of a quotient and a remainder of signed numbers.
abbrev pub IsSignedDivision : ℕ → ℕ → ℕ → ℕ → Type 0
IsSignedDivision a b q r =
    (u32 (q * b + r) ≡ a)
    × (b ≡ 0 → q ≡ two32 - 1)
    × (b ≢ 0 → mag r < mag b)
    × ((r ≡ 0) ⊎ (is_neg r ≡ is_neg a))

abbrev pub IsDivision : ℕ → ℕ → ℕ → ℕ → Type 0
IsDivision a b q r = (u32 (q * b + r) ≡ a) × (b ≡ 0 → q ≡ two32 - 1) × (b ≢ 0 → r < b)

division_by_zero : (a b : ℕ) → a < two32 → b ≡ 0 → IsSignedDivision a b (div a b) (rem a b)
unfolding div rem
division_by_zero a b p z = rw z (omega arith, λ _. refl, λ nz. absurd (nz refl), inr refl)

mag-pos : (b : ℕ) → b < two32 → b ≢ 0 → 0 < mag b
mag-pos b p nz = ground arith

division : (a b : ℕ) → a < two32 → b < two32 → b ≢ 0 → IsSignedDivision a b (div a b) (rem a b)
division a b p q nz =
    let s = mag-Signed a p (is_neg a) refl in
    let lt = mod-lt (mag a) (mag-pos b q nz) in
    let (m, d) =
      remainder (is_neg a) (mag a % mag b) (mag a) (mag b) a lt (mod-le (mag a) (mag b)) s in
    rw (div-general a b nz, rem-general a b nz)
      (
        quotient_identity (is_neg a) (is_neg b) (mag a / mag b) (mag a % mag b) (mag a) (mag b) a b
            (div-add-mod' (mag a) (mag b)) (div-le_self (mag a) (mag b)) s
            (mag-Signed b q (is_neg b) refl),
        λ z. absurd (nz z),
        λ _. subst (λ t. t < mag b) (sym m) lt,
        d,
      )

signed_division : (a b : ℕ) → a < two32 → b < two32 → IsSignedDivision a b (div a b) (rem a b)
signed_division a b p q = elim (Bool-cases (b == 0)) [
  | inl e ↦ division_by_zero a b p ((==_iff b 0).0 e)
  | inr e ↦ division a b p q (λ z. absurd (cc (e, (==_iff b 0).1 z)))
]

unsigned-IsDivision : (a b : ℕ) → a < two32 → b < two32 → IsDivision a b (divu a b) (remu a b)
unfolding divu remu
unsigned-IsDivision a b p q = elim (Bool-cases (b == 0)) [
  | inl e ↦
      let z : b ≡ 0 = (==_iff b 0).0 e in rw z (omega arith, λ _. refl, λ nz. absurd (nz refl))
  | inr e ↦
      let pos : 0 < b = ground arith in
      let low : a / b * b + a % b ≡ a = div-add-mod' a b in
      simp e (ap u32 low ∙ omega arith, λ z. absurd (cc (e, (==_iff b 0).1 z)), λ _. mod-lt a pos)
]

-- DIV and REM, and DIVU and REMU, store a quotient and a remainder that give the dividend back, modulo
-- 2 ^ 32. The remainder is smaller than the divisor, and that of REM is 0 or has the sign of the
-- dividend. By a zero divisor the quotient is 2 ^ 32 - 1.
pub op_value-IsDivision :
    (a b : ℕ)
    → a < two32
    → b < two32
    → (q r qu ru : ℕ) × (op_value t_div a b ≡ some q)
      × (op_value t_rem a b ≡ some r)
      × (op_value t_divu a b ≡ some qu)
      × (op_value t_remu a b ≡ some ru)
      × IsSignedDivision a b q r
      × IsDivision a b qu ru
unfolding op_value
op_value-IsDivision a b p q = (
  div a b,
  rem a b,
  divu a b,
  remu a b,
  refl,
  refl,
  refl,
  refl,
  signed_division a b p q,
  unsigned-IsDivision a b p q,
)
