-- ===== src/Pio/Serial/Pieces.antt =====
-- What a piece of a word adds to the bits that went before it.
use rp2350js.Base.{
  ℕ, zero, suc, ◌+◌, ◌*◌, ◌/◌, ◌%◌, ◌<◌, ◌≤◌, ◌≡◌, refl, sym, ap, ◌∙◌, arith, two32,
}
use rp2350js.Base.{bit_or}
use rp2350js.Base.Bits.{bit_or_step}
use native.Mathlib.Nat.{
  mul_comm, div-eq_of_lt, mul-div_cancel, mod-lt, mul-le-mul_right, add-mul-mod_self_left,
  mod-eq_of_lt, mul-add-div_right, div-div-eq-div-mul, div-add-mod',
}

or_comm_fuel : (n a b : ℕ) → a ≤ n → b ≤ n → bit_or a b ≡ bit_or b a
or_comm_fuel zero a b p q =
    let x : a ≡ 0 = omega arith in let y : b ≡ 0 = omega arith in rw (x, y) refl
or_comm_fuel (suc n) a b p q = omega (
  arith,
  bit_or_step a b,
  bit_or_step b a,
  or_comm_fuel n (a / 2) (b / 2) (omega arith) (omega arith),
)

pub bit_or_comm : (a b : ℕ) → bit_or a b ≡ bit_or b a
bit_or_comm a b = or_comm_fuel (a + b) a b (omega arith) (omega arith)

-- the bits below U, and the next ones up to U * N
mod-mul_split : (w u n : ℕ) → 0 < u → 0 < n → w % (u * n) ≡ w / u % n * u + w % u
mod-mul_split w u n p q =
    let r = w / u % n * u + w % u in
    let k = w / u / n in
    let a = mod-lt (w / u) q in
    let b = mod-lt w p in
    let c : r < u * n = omega (arith, b, mul-le-mul_right u a) in
    let e : r + u * n * k ≡ w =
      omega (arith, div-add-mod' w u, ap (λ t. t * u) (div-add-mod' (w / u) n)) in
    ap (λ t. t % (u * n)) (sym e) ∙ add-mul-mod_self_left r (u * n) k ∙ mod-eq_of_lt c

module _ (w u n r : ℕ) (full : u * n * r ≡ two32) (pu : 0 < u) (pn : 0 < n) (pr : 0 < r) where
  -- one piece to the right, with u the bits that have gone
  pub right_piece : (i : ℕ) → i / (n * r) ≡ w % u → (w / u % n * (u * r) + i / n) / r ≡ w % (u * n)
  right_piece i e =
      let d = mul-add-div_right pr (w / u % n * u) (i / n) in
      let f : w / u % n * (u * r) + i / n ≡ w / u % n * u * r + i / n = omega arith in
      ap (λ t. t / r) f ∙ d ∙ omega (arith, div-div-eq-div-mul i n r, e, mod-mul_split w u n pu pn)

pub mod-mul_common : (x m c : ℕ) → 0 < m → 0 < c → x * c % (m * c) ≡ x % m * c
mod-mul_common x m c p q =
    let a = mod-lt x p in
    let b : x % m * c < m * c = omega (arith, mul-le-mul_right c a) in
    let e : x % m * c + m * c * (x / m) ≡ x * c =
      omega (arith, ap (λ t. t * c) (div-add-mod' x m)) in
    ap (λ t. t % (m * c)) (sym e)
    ∙ add-mul-mod_self_left (x % m * c) (m * c) (x / m)
    ∙ mod-eq_of_lt b

module _ (w u n r : ℕ) (full : u * n * r ≡ two32) (pu : 0 < u) (pn : 0 < n) (pr : 0 < r) where
  -- the piece that leaves to the left
  pub left_value : w * u % two32 / (u * r) ≡ w / r % n
  left_value =
      let nr : 0 < n * r = omega (arith, mul-le-mul_right r pn) in
      let e : n * r * u ≡ two32 = omega (arith, full) in
      let a : w * u % two32 ≡ w % (n * r) * u =
        ap (λ t. w * u % t) (sym e) ∙ mod-mul_common w (n * r) u nr pu in
      let b : w % (n * r) ≡ w / r % n * r + w % r =
        ap (λ t. w % t) (mul_comm n r) ∙ mod-mul_split w r n pr pn in
      let c : w % (n * r) * u / (u * r) ≡ w % (n * r) / r =
        sym (div-div-eq-div-mul (w % (n * r) * u) u r)
        ∙ ap (λ t. t / r) (mul-div_cancel (w % (n * r)) pu) in
      ap (λ t. t / (u * r)) a
      ∙ c
      ∙ ap (λ t. t / r) b
      ∙ mul-add-div_right pr (w / r % n) (w % r)
      ∙ omega (arith, div-eq_of_lt (mod-lt w pr))

  -- one piece to the left
  pub left_piece : (i : ℕ) → i % u ≡ w / (n * r) → (i % (u * r) * n + w / r % n) % (u * n) ≡ w / r
  left_piece i e =
      let v = w / r % n in
      let b = mod-lt (w / r) pn in
      let a = mod-lt i pu in
      let c : i % (u * r) * n + v ≡ i % u * n + v + u * n * (i / u % r) =
        omega (arith, ap (λ t. t * n) (mod-mul_split i u r pu pr)) in
      let d : i % u * n + v < u * n = omega (arith, b, mul-le-mul_right n a) in
      let k : w / (n * r) ≡ w / r / n =
        ap (λ t. w / t) (mul_comm n r) ∙ sym (div-div-eq-div-mul w r n) in
      ap (λ t. t % (u * n)) c
      ∙ add-mul-mod_self_left (i % u * n + v) (u * n) (i / u % r)
      ∙ mod-eq_of_lt d
      ∙ ap (λ t. t * n + v) (e ∙ k)
      ∙ div-add-mod' (w / r) n
