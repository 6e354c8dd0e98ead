-- ===== src/M0/Flags/Laws.antt =====
-- The flags against the `AddWithCarry` of the Arm manual: N and Z describe the result, C is the
-- carry out of the unsigned sum, V says that the signed sum does not fit in an int32.
use native.Mathlib.Nat.{mod-eq_of_lt}
use rp2350js.Base.{ℕ, ◌+◌, ◌<◌, ◌≤◌, ◌≡◌, refl, ◌↔◌, false, not, ◌&&◌, arith}
use rp2350js.Base.{bit_and, bit_xor, u32, sub32, not32, two32, is_neg, xor, leb, ◌==◌}
use rp2350js.Base.Bits.{neg_xor, neg_and, bit_xor-lt}
use rp2350js.Base.Int.{pos, ◌+ℤ◌, sint, +ℤ_parts, ℤ_eq_iff, sint_parts}
use rp2350js.M0.State.{Core}
use rp2350js.M0.Flags.{add_update_flags, subtract_update_flags}

neg_not : (a : ℕ) → a < two32 → is_neg (not32 a) ≡ not (is_neg a)
neg_not a p = ground arith

-- `a - b` is `a + ~b + 1`: the signs of `a` and `b` differ where those of `a` and `~b` agree.
xor_neg_not :
    (a b : ℕ) → b < two32 → xor (is_neg a) (is_neg b) ≡ not (xor (is_neg a) (is_neg (not32 b)))
xor_neg_not a b q = ground (arith, neg_not b q)

-- The overflow term of an addition, by signs.
add_overflow :
    (a b r : ℕ)
    → a < two32
    → b < two32
    → r < two32
    → is_neg (bit_and (not32 (bit_xor a b)) (bit_xor a r))
      ≡ (not (xor (is_neg a) (is_neg b)) && xor (is_neg a) (is_neg r))
add_overflow a b r p q t =
    rw
      (
        neg_and (not32 (bit_xor a b)) (bit_xor a r) (omega arith) (bit_xor-lt a r p t),
        neg_not (bit_xor a b) (bit_xor-lt a b p q),
        neg_xor a b p q,
        neg_xor a r p t,
      )
      refl

pub sub_overflow :
    (a b r : ℕ)
    → a < two32
    → b < two32
    → r < two32
    → is_neg (bit_and (bit_xor a b) (bit_xor a r))
      ≡ (xor (is_neg a) (is_neg b) && xor (is_neg a) (is_neg r))
sub_overflow a b r p q t =
    rw
      (
        neg_and (bit_xor a b) (bit_xor a r) (bit_xor-lt a b p q) (bit_xor-lt a r p t),
        neg_xor a b p q,
        neg_xor a r p t,
      )
      refl

-- The signed sum fits exactly when the signs do not show an overflow.
overflow_iff :
    (a b k r : ℕ)
    → a < two32
    → b < two32
    → k ≤ 1
    → r ≡ u32 (a + b + k)
    → ((not (xor (is_neg a) (is_neg b)) && xor (is_neg a) (is_neg r)) ≡ false)
      ↔ (sint r ≡ sint a +ℤ sint b +ℤ pos k)
overflow_iff a b k r p q h e = ground (
  arith,
  sint_parts a p,
  sint_parts b q,
  sint_parts r (omega arith),
  +ℤ_parts (sint a) (sint b),
  +ℤ_parts (sint a +ℤ sint b) (pos k),
  ℤ_eq_iff (sint r) (sint a +ℤ sint b +ℤ pos k),
)

-- `AddWithCarry`: what an addition of `a`, `b` and a carry `k` gives, and the flags it sets.
pub record IsSum {M : Type 0} (a b k : ℕ) (result : ℕ) (s : Core M) : Type 0 where
  pub value : result ≡ u32 (a + b + k)
  pub negative : s.n ≡ is_neg result
  pub zero_flag : s.z ≡ (result == 0)
  pub carry : s.c ≡ leb two32 (a + b + k)
  pub overflow : (s.v ≡ false) ↔ (sint result ≡ sint a +ℤ sint b +ℤ pos k)

module _ {M : Type 0} where
  -- On words, `addUpdateFlags` returns the sum modulo 2 ^ 32 and sets N, Z, C and V as
  -- `AddWithCarry` does without a carry in.
  pub add_update_flags-IsSum :
      (a b : ℕ) (s : Core M)
      → a < two32
      → b < two32
      → let (r, s') = add_update_flags a b s in IsSum a b 0 r s'
  unfolding add_update_flags
  add_update_flags-IsSum a b s p q = record {
    value = omega arith;
    negative = refl;
    zero_flag = refl;
    carry = ground arith;
    overflow =
        rw (mod-eq_of_lt p, mod-eq_of_lt q, add_overflow a b (u32 (a + b)) p q (omega arith))
          (overflow_iff a b 0 (u32 (a + b)) p q (omega arith) (omega arith));
  }

  -- On words, `substractUpdateFlags` returns the difference modulo 2 ^ 32 and sets N, Z, C and V
  -- as `AddWithCarry` does on the complement of the subtrahend with a carry in of 1: C means that
  -- nothing was borrowed.
  pub subtract_update_flags-IsSum :
      (a b : ℕ) (s : Core M)
      → a < two32
      → b < two32
      → let (r, s') = subtract_update_flags a b s in IsSum a (not32 b) 1 r s'
  unfolding subtract_update_flags
  subtract_update_flags-IsSum a b s p q = record {
    value = omega arith;
    negative = refl;
    zero_flag = refl;
    carry = ground arith;
    overflow =
        rw (mod-eq_of_lt p, mod-eq_of_lt q, sub_overflow a b (sub32 a b) p q (omega arith))
          (rw (xor_neg_not a b q)
            (overflow_iff a (not32 b) 1 (sub32 a b) p (omega arith) (omega arith) (omega arith)));
  }
