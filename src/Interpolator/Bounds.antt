-- ===== src/Interpolator/Bounds.antt =====
-- The results of the clamp mode and of the blend mode.
use rp2350js.Base.{ℕ, ◌+◌, ◌-◌, ◌^◌, ◌<◌, ◌≤◌, ◌≡◌, sym, subst, arith, Bool, true, false}
use rp2350js.Base.{two32, u32, low_bits, shl, bit_or}
use rp2350js.Base.Bits.{bit_or-zero}
use rp2350js.Base.Int.{◌≤ℤ◌, sint}
use native.Mathlib.Nat.{mul-le-mul_right}
use rp2350js.Interpolator.Config.{InterpolatorConfig, decode}
use rp2350js.Interpolator.{
  Interpolator, update, clamp0, biased, clamps, blends, blend1, blend_step, full0, full1,
}

-- x lies between two words, as unsigned numbers or as int32 numbers
unfoldable pub Between : Bool → ℕ → ℕ → ℕ → Type 0
Between true low high x = (sint low ≤ℤ sint x) × (sint x ≤ℤ sint high)
Between false low high x = (low ≤ x) × (x ≤ high)

-- the order of two words
unfoldable pub Ordered : Bool → ℕ → ℕ → Type 0
Ordered true a b = sint a ≤ℤ sint b
Ordered false a b = a ≤ b

biased_iff : (a b : ℕ) → a < two32 → b < two32 → biased a ≤ biased b → sint a ≤ℤ sint b
unfolding biased sint
biased_iff a b p q h = ground arith

biased_back : (a b : ℕ) → a < two32 → b < two32 → sint a ≤ℤ sint b → biased a ≤ biased b
unfolding biased sint
biased_back a b p q h = ground arith

Ordered-biased : (a b : ℕ) → a < two32 → b < two32 → Ordered true a b → biased a ≤ biased b
unfolding Ordered
Ordered-biased a b p q h = biased_back a b p q h

biased-u32 : (x : ℕ) → biased (u32 x) ≡ biased x
unfolding biased
biased-u32 x = omega arith

clamp_signed :
    (low high x : ℕ)
    → biased low ≤ biased high
    → (biased low ≤ biased (u32 (clamp0 true low high x)))
      × (biased (u32 (clamp0 true low high x)) ≤ biased high)
unfolding clamp0
clamp_signed low high x h = simp biased-u32 (ground arith)

clamp_unsigned :
    (low high x : ℕ)
    → low < two32
    → high < two32
    → Ordered false low high
    → (low ≤ u32 (clamp0 false low high x)) × (u32 (clamp0 false low high x) ≤ high)
unfolding clamp0 Ordered
clamp_unsigned low high x p q h = ground arith

-- What `clamp0` chooses, as a word.
clamp0-Between :
    (signed : Bool) (low high x : ℕ)
    → low < two32
    → high < two32
    → Ordered signed low high
    → Between signed low high (u32 (clamp0 signed low high x))
unfolding Between
clamp0-Between true low high x p q h =
    let b = clamp_signed low high x (Ordered-biased low high p q h) in
    let w : u32 (clamp0 true low high x) < two32 = omega arith in
    (biased_iff low _ p w b.0, biased_iff _ high w q b.1)
clamp0-Between false low high x p q h = clamp_unsigned low high x p q h

step_small : (alpha a b : ℕ) → a ≤ b → b < two32 → alpha < 2 ^ 8 → a + blend_step alpha a b ≤ b
unfolding blend_step
step_small alpha a b h q l =
    let e : alpha ≤ 255 = omega arith in ground (arith, mul-le-mul_right (b - a) e)

blend_signed :
    (alpha a b : ℕ)
    → biased a ≤ biased b
    → alpha < 2 ^ 8
    → (biased a ≤ biased (u32 (blend1 true alpha a b)))
      × (biased (u32 (blend1 true alpha a b)) ≤ biased b)
unfolding blend1 biased
blend_signed alpha a b h l = ground (arith, step_small alpha (biased a) (biased b) h)

blend_unsigned :
    (alpha a b : ℕ)
    → a < two32
    → b < two32
    → alpha < 2 ^ 8
    → Ordered false a b
    → (a ≤ u32 (blend1 false alpha a b)) × (u32 (blend1 false alpha a b) ≤ b)
unfolding blend1 Ordered
blend_unsigned alpha a b p q l h = ground (arith, step_small alpha a b)

blend1-Between :
    (signed : Bool) (alpha a b : ℕ)
    → a < two32
    → b < two32
    → alpha < 2 ^ 8
    → Ordered signed a b
    → Between signed a b (u32 (blend1 signed alpha a b))
unfolding Between
blend1-Between true alpha a b p q l h =
    let s = blend_signed alpha a b (Ordered-biased a b p q h) l in
    let w : u32 (blend1 true alpha a b) < two32 = omega arith in
    (biased_iff a _ p w s.0, biased_iff _ b w q s.1)
blend1-Between false alpha a b p q l h = blend_unsigned alpha a b p q l h

unforced : (x : ℕ) → bit_or x (shl 0 28) ≡ x
unforced x = bit_or-zero x

full0_clamped :
    (n : ℕ) (c : InterpolatorConfig) (x y z u v : ℕ)
    → n ≡ 1
    → c.clamp ≡ true
    → c.force_msb ≡ 0
    → full0 n c x y z u v ≡ u32 (clamp0 c.signed x y u)
unfolding full0 clamps blends
full0_clamped n c x y z u v e f g = ground (arith, e, f, g, unforced (u32 (clamp0 c.signed x y u)))

full1_blended :
    (n : ℕ) (c d : InterpolatorConfig) (x y z u : ℕ)
    → n ≡ 0
    → c.blend ≡ true
    → c.force_msb ≡ 0
    → full1 n c d x y z u ≡ u32 (blend1 d.signed (low_bits u 8) x y)
unfolding full1 blends
full1_blended n c d x y z u e f g =
    ground (arith, e, f, g, unforced (u32 (blend1 d.signed (low_bits u 8) x y)))

module _ (s : Interpolator) (low : s.base0 < two32) (high : s.base1 < two32) where
  -- With the words BASE0 and BASE1 in order (as int32 numbers when SIGNED of lane 0 is set): after
  -- an update of INTERP1 in clamp mode, without forced MSBs, RESULT0 lies from BASE0 to BASE1,
  -- whatever the accumulators, the shift and the mask.
  pub update-Between_clamped :
      s.index ≡ 1
      → (decode s.ctrl0).clamp ≡ true
      → (decode s.ctrl0).force_msb ≡ 0
      → Ordered (decode s.ctrl0).signed s.base0 s.base1
      → Between (decode s.ctrl0).signed s.base0 s.base1 (update s).result0
  unfolding update
  update-Between_clamped e f g h =
      let c = decode s.ctrl0 in
      subst (Between c.signed s.base0 s.base1)
        (sym (full0_clamped s.index c s.base0 s.base1 _ _ _ e f g))
        (clamp0-Between c.signed s.base0 s.base1 _ low high h)

  -- With the words BASE0 and BASE1 in order (as int32 numbers when SIGNED of lane 1 is set): after
  -- an update of INTERP0 in blend mode, without forced MSBs, RESULT1 lies from BASE0 to BASE1,
  -- whatever the accumulators, the shift and the mask.
  update-Between_blended :
      s.index ≡ 0
      → (decode s.ctrl0).blend ≡ true
      → (decode s.ctrl0).force_msb ≡ 0
      → Ordered (decode s.ctrl1).signed s.base0 s.base1
      → Between (decode s.ctrl1).signed s.base0 s.base1 (update s).result1
  unfolding update
  update-Between_blended e f g h =
      let c = decode s.ctrl0 in
      let d = decode s.ctrl1 in
      subst (Between d.signed s.base0 s.base1)
        (sym (full1_blended s.index c d s.base0 s.base1 _ _ e f g))
        (blend1-Between d.signed _ s.base0 s.base1 low high (omega arith) h)
