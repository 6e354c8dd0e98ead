-- ===== src/Sio/Core/Quotient.antt =====
-- The words that firmware reads from the divider.
use rp2350js.Base.{
  ℕ, ◌/◌, ◌%◌, ◌<◌, ◌≡◌, ◌≢◌, refl, sym, ap, ◌∙◌, arith, Bool, true, false, ◌==◌, if◌then◌else◌,
}
use rp2350js.Base.{two32, u32, xor, is_neg}
use native.Mathlib.Nat.{mod-eq_of_lt, mod-le, div-le_self}
use rp2350js.RiscV.Alu.{mag, neg_if, div, rem, divu, remu}
use rp2350js.RiscV.Alu.Divide.{div-general, rem-general}
use rp2350js.Sio.Core.{Side, set_divider, tell, read_uint32, write_uint32}
use rp2350js.Sio.Core.Division.{
  Divider, to_word, quotient_of, remainder_of, update_hardware_divider, write_divider, read_divider,
}

-- The two writes that start a division, in either order.
unfoldable pub divide : Bool → Bool → ℕ → ℕ → Side → Side
divide signed dividend_first a b s =
    let x = if signed then 0x68 else 0x60 in
    let y = if signed then 0x6c else 0x64 in
    if dividend_first
    then write_uint32 y b (write_uint32 x a s)
    else write_uint32 x a (write_uint32 y b s)

abbrev loaded : ℕ → ℕ → Side → Divider
loaded a b s = let d = s.core.divider in record d { dividend = a; divisor = b }

divided :
    (signed first : Bool) (a b : ℕ) (s : Side)
    → (divide signed first a b s).core.divider ≡ update_hardware_divider signed (loaded a b s)
unfolding divide write_uint32 write_divider update_hardware_divider set_divider tell
divided true true a b s = refl
divided true false a b s = refl
divided false true a b s = refl
divided false false a b s = refl

results :
    (s : Side)
    → ((read_uint32 0x70 s).0 ≡ to_word s.core.divider.quotient)
      × ((read_uint32 0x74 s).0 ≡ to_word s.core.divider.remainder)
unfolding read_uint32 read_divider
results s = (refl, refl)

small_quotient : (x y : ℕ) → x < two32 → u32 (x / y) ≡ x / y
small_quotient x y p = mod-eq_of_lt (omega (arith, div-le_self x y))

mag-lt : (a : ℕ) → a < two32 → mag a < two32
mag-lt a p = ground arith

nonzero : (b : ℕ) → b ≢ 0 → (b == 0) ≡ false
nonzero b nz = ground (arith, nz)

quotient_word :
    (signed : Bool) (a b : ℕ)
    → a < two32
    → b < two32
    → b ≢ 0
    → to_word (quotient_of signed a b) ≡ (if signed then div a b else divu a b)
unfolding quotient_of divu
quotient_word true a b p q nz =
    simp (nonzero b nz, mod-eq_of_lt p, mod-eq_of_lt q)
      (ap (neg_if (xor (is_neg a) (is_neg b))) (small_quotient (mag a) (mag b) (mag-lt a p))
        ∙ sym (div-general a b nz))
quotient_word false a b p q nz =
    simp (nonzero b nz, mod-eq_of_lt p, mod-eq_of_lt q) (small_quotient a b p)

whole : (x : ℕ) → x < two32 → u32 (x / 1) ≡ x
whole x p = omega arith

remainder_word :
    (signed : Bool) (a b : ℕ)
    → a < two32
    → b < two32
    → b ≢ 0
    → to_word (remainder_of signed a b) ≡ (if signed then rem a b else remu a b)
unfolding remainder_of remu
remainder_word true a b p q nz =
    simp (nonzero b nz, mod-eq_of_lt p, mod-eq_of_lt q)
      (ap (neg_if (is_neg a))
          (whole (mag a % mag b) (omega (arith, mod-le (mag a) (mag b), mag-lt a p)))
        ∙ sym (rem-general a b nz))
remainder_word false a b p q nz =
    simp (nonzero b nz, mod-eq_of_lt p, mod-eq_of_lt q)
      (whole (a % b) (omega (arith, mod-le a b, p)))

quotient_word_of :
    (signed : Bool) (a b : ℕ) (s : Side)
    → a < two32
    → b < two32
    → b ≢ 0
    → to_word (update_hardware_divider signed (loaded a b s)).quotient
      ≡ (if signed then div a b else divu a b)
unfolding update_hardware_divider
quotient_word_of signed a b s p q nz = quotient_word signed a b p q nz

remainder_word_of :
    (signed : Bool) (a b : ℕ) (s : Side)
    → a < two32
    → b < two32
    → b ≢ 0
    → to_word (update_hardware_divider signed (loaded a b s)).remainder
      ≡ (if signed then rem a b else remu a b)
unfolding update_hardware_divider
remainder_word_of signed a b s p q nz = remainder_word signed a b p q nz

-- For words and a divisor that is not 0: after the two writes of a division, in either order, the
-- words that a core reads from DIV_QUOTIENT and DIV_REMAINDER are those that the RISC-V core
-- computes for DIVU and REMU, or for DIV and REM when the signed registers were written, although
-- the block keeps the quotient unrounded.
pub divide-agrees :
    (signed dividend_first : Bool) (a b : ℕ) (s : Side)
    → a < two32
    → b < two32
    → b ≢ 0
    → let t = divide signed dividend_first a b s in
      ((read_uint32 0x70 t).0 ≡ (if signed then div a b else divu a b))
      × ((read_uint32 0x74 t).0 ≡ (if signed then rem a b else remu a b))
divide-agrees signed first a b s p q nz =
    let t = divide signed first a b s in
    let (x, y) = results t in
    let e = divided signed first a b s in
    (
      x ∙ ap (λ d. to_word d.quotient) e ∙ quotient_word_of signed a b s p q nz,
      y ∙ ap (λ d. to_word d.remainder) e ∙ remainder_word_of signed a b s p q nz,
    )
