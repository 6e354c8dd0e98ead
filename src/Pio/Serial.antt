-- ===== src/Pio/Serial.antt =====
-- What OUT takes out of one shift register and IN puts into another.
use rp2350js.Base.{
  ℕ, zero, suc, ◌+◌, ◌-◌, ◌*◌, ◌/◌, ◌%◌, ◌^◌, ◌<◌, ◌≤◌, ◌≡◌, refl, sym, ap, ◌∙◌, subst, arith, Bool,
  true, false, List, [], ◌∷◌, two32,
}
use rp2350js.Base.{low_bits, shl, shr, bit_or}
use rp2350js.Base.Bits.{bit_or_sum, bit_or_step}
use native.Mathlib.Nat.{
  mul_comm, pow-suc, one-le-pow, div-eq_of_lt, mul-div_cancel, mod-lt, div-lt_iff_lt-mul,
  mul-le-mul_right, add-mul-mod_self_left, mod-eq_of_lt, mul-add-div_right, div-div-eq-div-mul,
  div-add-mod',
}
use rp2350js.Pio.Shift.{shift_in, shift_out}
mod Pieces
use rp2350js.Pio.Serial.Pieces.{bit_or_comm, mod-mul_common, right_piece, left_value, left_piece}

-- Bits go from the one register to the other, in pieces of the given sizes.
unfoldable pub serial : Bool → List ℕ → ℕ → ℕ → ℕ × ℕ
serial to_right [] out in_ = (out, in_)
serial to_right (n ∷ rest) out in_ =
    let (value, out') = shift_out to_right n out in
    serial to_right rest out' (shift_in to_right n value in_)

pow_sum : (a b : ℕ) → 2 ^ (a + b) ≡ 2 ^ a * 2 ^ b
pow_sum a zero = let e : a + 0 ≡ a = omega arith in ap (λ t. 2 ^ t) e ∙ omega arith
pow_sum a (suc b) =
    let e : a + suc b ≡ suc (a + b) = omega arith in
    ap (λ t. 2 ^ t) e
    ∙ omega (arith, pow-suc 2 (a + b), pow_sum a b, ap (λ t. 2 ^ a * t) (pow-suc 2 b))

pow_pos : (k : ℕ) → 0 < 2 ^ k
pow_pos k = omega (arith, one-le-pow k 2 (omega arith))

pow_three : (t n e : ℕ) → t + n + e ≡ 32 → 2 ^ t * 2 ^ n * 2 ^ e ≡ two32
pow_three t n e h =
    let a : 2 ^ (t + n + e) ≡ two32 = ap (λ k. 2 ^ k) h in
    ap (λ x. x * 2 ^ e) (sym (pow_sum t n)) ∙ sym (pow_sum (t + n) e) ∙ a

-- the exponent that is left
pow_rest : (n e k : ℕ) → n + e ≡ k → 2 ^ k ≡ 2 ^ n * 2 ^ e
pow_rest n e k h = ap (λ x. 2 ^ x) (sym h) ∙ pow_sum n e

right_rest : (n i : ℕ) → n ≤ 32 → i < two32 → i / 2 ^ n < 2 ^ (32 - n)
right_rest n i p lt =
    let k : 2 ^ n * 2 ^ (32 - n) ≡ two32 = sym (pow_rest n (32 - n) 32 (omega arith)) in
    (div-lt_iff_lt-mul (pow_pos n)).1 (omega (arith, k, lt))

in_right :
    (n v i : ℕ)
    → n ≤ 32
    → v < 2 ^ n
    → i < two32
    → shift_in true n v i ≡ v * 2 ^ (32 - n) + i / 2 ^ n
unfolding shift_in
in_right n v i p q lt =
    let k : 2 ^ n * 2 ^ (32 - n) ≡ two32 = sym (pow_rest n (32 - n) 32 (omega arith)) in
    let a : v * 2 ^ (32 - n) < two32 =
      omega (arith, k, mul-le-mul_right (2 ^ (32 - n)) q, pow_pos (32 - n)) in
    let b = right_rest n i p lt in
    ap (λ x. bit_or (i / 2 ^ n) (x * 2 ^ (32 - n) % two32)) (mod-eq_of_lt q)
    ∙ ap (λ x. bit_or (i / 2 ^ n) x) (mod-eq_of_lt a)
    ∙ bit_or_comm (i / 2 ^ n) (v * 2 ^ (32 - n))
    ∙ bit_or_sum (32 - n) v (i / 2 ^ n) b

in_left : (n v i : ℕ) → n ≤ 32 → v < 2 ^ n → shift_in false n v i ≡ i % 2 ^ (32 - n) * 2 ^ n + v
unfolding shift_in
in_left n v i p q =
    let k : 2 ^ (32 - n) * 2 ^ n ≡ two32 = sym (pow_rest (32 - n) n 32 (omega arith)) in
    ap (λ x. bit_or x (v % 2 ^ n))
      (ap (λ x. i * 2 ^ n % x) (sym k)
        ∙ mod-mul_common i (2 ^ (32 - n)) (2 ^ n) (pow_pos (32 - n)) (pow_pos n))
    ∙ ap (λ x. bit_or (i % 2 ^ (32 - n) * 2 ^ n) x) (mod-eq_of_lt q)
    ∙ bit_or_sum n (i % 2 ^ (32 - n)) v q

-- Sizes of pieces that a register can be taken in, each from 1 to 31 bits, with their sum.
pub data IsPieces : List ℕ → ℕ → Type 0 where
  none : IsPieces [] 0
  piece : {n k : ℕ} {rest : List ℕ} → 1 ≤ n → n ≤ 31 → IsPieces rest k → IsPieces (n ∷ rest) (n + k)

mod-mul_mod : (x m : ℕ) → x % two32 * m % two32 ≡ x * m % two32
mod-mul_mod x m =
    let e : x % two32 * m + two32 * (x / two32 * m) ≡ x * m =
      omega (arith, ap (λ t. t * m) (div-add-mod' x two32)) in
    sym (add-mul-mod_self_left (x % two32 * m) two32 (x / two32 * m)) ∙ ap (λ t. t % two32) e

sum_below : (a b v m : ℕ) → v < a → b < m → v * m + b < a * m
sum_below a b v m q r = omega (arith, r, mul-le-mul_right m q)

in_right_small : (n v i : ℕ) → n ≤ 32 → v < 2 ^ n → i < two32 → shift_in true n v i < two32
in_right_small n v i p q lt =
    let k : 2 ^ n * 2 ^ (32 - n) ≡ two32 = sym (pow_rest n (32 - n) 32 (omega arith)) in
    omega (
      arith,
      in_right n v i p q lt,
      sum_below (2 ^ n) (i / 2 ^ n) v (2 ^ (32 - n)) q (right_rest n i p lt),
      k,
    )

in_left_small : (n v i : ℕ) → n ≤ 32 → v < 2 ^ n → shift_in false n v i < two32
in_left_small n v i p q =
    let k : 2 ^ (32 - n) * 2 ^ n ≡ two32 = sym (pow_rest (32 - n) n 32 (omega arith)) in
    let a = sum_below (2 ^ (32 - n)) v (i % 2 ^ (32 - n)) (2 ^ n) (mod-lt i (pow_pos (32 - n))) q in
    omega (arith, in_left n v i p q, a, k)

right_moved :
    {ns : List ℕ} {k : ℕ}
    → IsPieces ns k
    → (w t o i : ℕ) → t + k ≡ 32
    → o ≡ w / 2 ^ t
    → w < two32
    → i < two32
    → i / 2 ^ k ≡ w % 2 ^ t
    → (serial true ns o i).1 ≡ w
unfolding serial shift_out
right_moved none w t o i s p lw li e =
    let h : t ≡ 32 = omega arith in
    let f : i / 1 ≡ w % two32 = e ∙ ap (λ x. w % 2 ^ x) h in omega (arith, f)
right_moved (piece {n} {k} a b rest) w t o i s p lw li e =
    let v = o % 2 ^ n in
    let below = mod-lt o (pow_pos n) in
    let small : n ≤ 32 = omega arith in
    let split = pow_rest t k (32 - n) (omega arith) in
    let put =
      in_right n v i small below li
      ∙ ap (λ x. v * x + i / 2 ^ n) split
      ∙ ap (λ x. x % 2 ^ n * (2 ^ t * 2 ^ k) + i / 2 ^ n) p in
    let full = pow_three t n k (omega arith) in
    let one =
      right_piece w (2 ^ t) (2 ^ n) (2 ^ k) full (pow_pos t) (pow_pos n) (pow_pos k) i
        (ap (λ x. i / x) (sym (pow_sum n k)) ∙ e) in
    let left : o / 2 ^ n ≡ w / 2 ^ (t + n) =
      ap (λ x. x / 2 ^ n) p
      ∙ div-div-eq-div-mul w (2 ^ t) (2 ^ n)
      ∙ ap (λ x. w / x) (sym (pow_sum t n)) in
    right_moved rest w (t + n) (o / 2 ^ n) (shift_in true n v i) (omega arith) left lw
      (in_right_small n v i small below li)
      (ap (λ x. x / 2 ^ k) put ∙ one ∙ ap (λ x. w % x) (sym (pow_sum t n)))

left_moved :
    {ns : List ℕ} {k : ℕ}
    → IsPieces ns k
    → (w t o i : ℕ) → t + k ≡ 32
    → o ≡ w * 2 ^ t % two32
    → i < two32
    → i % 2 ^ t ≡ w / 2 ^ k
    → (serial false ns o i).1 ≡ w
unfolding serial shift_out
left_moved none w t o i s p li e =
    let h : t ≡ 32 = omega arith in
    let f : i % two32 ≡ w / 1 = ap (λ x. i % 2 ^ x) (sym h) ∙ e in omega (arith, f)
left_moved (piece {n} {k} a b rest) w t o i s p li e =
    let v = o / 2 ^ (32 - n) in
    let small : n ≤ 32 = omega arith in
    let split = pow_rest t k (32 - n) (omega arith) in
    let full = pow_three t n k (omega arith) in
    let value : v ≡ w / 2 ^ k % 2 ^ n =
      ap (λ x. x / 2 ^ (32 - n)) p
      ∙ ap (λ x. w * 2 ^ t % two32 / x) split
      ∙ left_value w (2 ^ t) (2 ^ n) (2 ^ k) full (pow_pos t) (pow_pos n) (pow_pos k) in
    let below : v < 2 ^ n = omega (arith, value, mod-lt (w / 2 ^ k) (pow_pos n)) in
    let put =
      in_left n v i small below
      ∙ ap (λ x. i % x * 2 ^ n + v) split
      ∙ ap (λ x. i % (2 ^ t * 2 ^ k) * 2 ^ n + x) value in
    let one =
      left_piece w (2 ^ t) (2 ^ n) (2 ^ k) full (pow_pos t) (pow_pos n) (pow_pos k) i
        (e ∙ ap (λ x. w / x) (pow_sum n k)) in
    let left : o * 2 ^ n % two32 ≡ w * 2 ^ (t + n) % two32 =
      ap (λ x. x * 2 ^ n % two32) p
      ∙ mod-mul_mod (w * 2 ^ t) (2 ^ n)
      ∙ ap (λ x. x % two32) (omega (arith, ap (λ x. w * x) (pow_sum t n))) in
    left_moved rest w (t + n) (o * 2 ^ n % two32) (shift_in false n v i) (omega arith) left
      (in_left_small n v i small below)
      (ap (λ x. shift_in false n v i % x) (pow_sum t n) ∙ ap (λ x. x % (2 ^ t * 2 ^ n)) put ∙ one)

-- A word that OUT takes out of one shift register in pieces, each of 1 to 31
-- bits and together of 32, and that IN puts into another register in the same
-- pieces and the same direction, to the right or to the left, is the other
-- register's value at the end, whatever that register held.
pub serial_lem :
    (to_right : Bool) (ns : List ℕ) (w i : ℕ)
    → IsPieces ns 32
    → w < two32
    → i < two32
    → (serial to_right ns w i).1 ≡ w
serial_lem true ns w i p lw li = right_moved p w 0 w i refl (omega arith) lw li (omega arith)
serial_lem false ns w i p lw li = left_moved p w 0 w i refl (omega arith) li (omega arith)
