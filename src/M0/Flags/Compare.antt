-- ===== src/M0/Flags/Compare.antt =====
-- The conditions of a branch after a comparison: `CMP` and `checkCondition` together.
use native.Mathlib.Nat.{mod-eq_of_lt}
use rp2350js.Base.{ℕ, ◌<◌, ◌≡◌, refl, ap, ◌∙◌, not, ◌&&◌, arith}
use rp2350js.Base.{bit_and, bit_xor, u32, sub32, two32, is_neg, xor, leb, ltb, ◌==◌}
use rp2350js.Base.Int.{sint, leb_ℤ, ltb_ℤ, sint_parts}
use rp2350js.M0.State.{Core, reg, check_condition, same_flag}
use rp2350js.M0.Flags.{subtract_update_flags}
use rp2350js.M0.Flags.Laws.{sub_overflow}
use rp2350js.M0.Alu.{exec_cmp_reg}

-- What the ten conditions for comparisons say in `s` of the words `a` and `b`.
pub record Compares {M : Type 0} (s : Core M) (a b : ℕ) : Type 0 where
  pub eq : check_condition s 0 ≡ (a == b)
  pub ne : check_condition s 1 ≡ not (a == b)
  pub hs : check_condition s 2 ≡ leb b a
  pub lo : check_condition s 3 ≡ ltb a b
  pub hi : check_condition s 8 ≡ ltb b a
  pub ls : check_condition s 9 ≡ leb a b
  pub ge : check_condition s 10 ≡ leb_ℤ (sint b) (sint a)
  pub lt : check_condition s 11 ≡ ltb_ℤ (sint a) (sint b)
  pub gt : check_condition s 12 ≡ ltb_ℤ (sint b) (sint a)
  pub le : check_condition s 13 ≡ leb_ℤ (sint a) (sint b)

-- The difference as a test of the operands.
zero_difference : (a b : ℕ) → a < two32 → b < two32 → (sub32 a b == 0) ≡ (a == b)
zero_difference a b p q = ground arith

-- `N == V` says that the signed difference is not negative.
signed_order :
    (a b : ℕ)
    → a < two32
    → b < two32
    → same_flag
        (is_neg (sub32 a b))
        (xor (is_neg a) (is_neg b) && xor (is_neg a) (is_neg (sub32 a b)))
      ≡ leb_ℤ (sint b) (sint a)
signed_order a b p q = ground (arith, sint_parts a p, sint_parts b q)

module _ {M : Type 0} where
  of_flags :
      (s : Core M) (a b : ℕ)
      → a < two32
      → b < two32
      → s.z ≡ (a == b)
      → s.c ≡ leb b a
      → same_flag s.n s.v ≡ leb_ℤ (sint b) (sint a)
      → Compares s a b
  unfolding check_condition
  of_flags s a b p q z c g = record {
    eq = z;
    ne = rw z refl;
    hs = c;
    lo = rw c (ground arith);
    hi = rw (c, z) (ground arith);
    ls = rw (c, z) (ground arith);
    ge = g;
    lt = rw g (ground arith);
    gt = rw (g, z) (ground (arith, sint_parts a p, sint_parts b q));
    le = rw (g, z) (ground (arith, sint_parts a p, sint_parts b q));
  }

  -- After `CMP` of two words, each condition of a branch says what its name says: EQ and NE compare
  -- them, HS, LO, HI and LS order them as unsigned numbers, GE, LT, GT and LE as int32 numbers.
  pub exec_cmp_reg-Compares :
      (rm rn : ℕ) (s : Core M)
      → reg s rn < two32
      → reg s rm < two32
      → Compares (exec_cmp_reg rm rn s) (reg s rn) (reg s rm)
  unfolding exec_cmp_reg subtract_update_flags
  exec_cmp_reg-Compares rm rn s p q =
      of_flags (exec_cmp_reg rm rn s) a b p q (zero_difference a b p q) refl
        (ap (λ v. same_flag (is_neg r) v) overflow ∙ signed_order a b p q)
    where
      a : ℕ
      a = reg s rn

      b : ℕ
      b = reg s rm

      r : ℕ
      r = sub32 a b

      overflow :
          is_neg (bit_and (bit_xor (u32 a) (u32 b)) (bit_xor (u32 a) r))
          ≡ (xor (is_neg a) (is_neg b) && xor (is_neg a) (is_neg r))
      overflow = rw (mod-eq_of_lt p, mod-eq_of_lt q) (sub_overflow a b r p q (omega arith))
