-- ===== src/Interpolator/Again.antt =====
-- `update` has settled when it has run once.
use rp2350js.Base.{ℕ, ◌≡◌, refl, ap₂, arith, Bool, ◌||◌}
use rp2350js.Interpolator.Config.{
  InterpolatorConfig, decode, to_uint32, Fits, decode-Fits, decode-to_uint32,
}
use rp2350js.Interpolator.{
  Interpolator, update, shown0, shown1, clamps, blends, lane, uresult, mask, msbmask, overflows,
  full0, full1,
}

shown0-Fits : (n : ℕ) (c : InterpolatorConfig) (a b : Bool) → Fits c → Fits (shown0 n c a b)
unfolding shown0
shown0-Fits n c a b f = record {
  shift_fits = f.shift_fits;
  lsb_fits = f.lsb_fits;
  msb_fits = f.msb_fits;
  force_fits = f.force_fits;
}

shown1-Fits : (c : InterpolatorConfig) → Fits c → Fits (shown1 c)
unfolding shown1
shown1-Fits c f = record {
  shift_fits = f.shift_fits;
  lsb_fits = f.lsb_fits;
  msb_fits = f.msb_fits;
  force_fits = f.force_fits;
}

-- A control register that `update` has written reads back as what was written.
shown0_back :
    (n v : ℕ) (a b : Bool) → decode (to_uint32 (shown0 n (decode v) a b)) ≡ shown0 n (decode v) a b
shown0_back n v a b = decode-to_uint32 _ (shown0-Fits n (decode v) a b (decode-Fits v))

shown1_back : (v : ℕ) → decode (to_uint32 (shown1 (decode v))) ≡ shown1 (decode v)
shown1_back v = decode-to_uint32 _ (shown1-Fits (decode v) (decode-Fits v))

clamps_again :
    (n : ℕ) (c : InterpolatorConfig) (a b : Bool) → clamps n (shown0 n c a b) ≡ clamps n c
unfolding clamps shown0
clamps_again n c a b = ground arith

blends_again :
    (n : ℕ) (c : InterpolatorConfig) (a b : Bool) → blends n (shown0 n c a b) ≡ blends n c
unfolding blends shown0
blends_again n c a b = ground arith

lane0_again :
    (n : ℕ) (c : InterpolatorConfig) (a b : Bool) (x : ℕ) → lane (shown0 n c a b) x ≡ lane c x
unfolding lane uresult mask msbmask shown0
lane0_again n c a b x = refl

lane1_again : (c : InterpolatorConfig) (x : ℕ) → lane (shown1 c) x ≡ lane c x
unfolding lane uresult mask msbmask shown1
lane1_again c x = refl

module _ (n : ℕ) (c : InterpolatorConfig) (a b : Bool) where
  input0_again : (shown0 n c a b).cross_input ≡ c.cross_input
  unfolding shown0
  input0_again = refl

  overflows0_again : (x : ℕ) → overflows (shown0 n c a b) x ≡ overflows c x
  unfolding overflows msbmask shown0
  overflows0_again x = refl

  shown0_again : (p q : Bool) → shown0 n (shown0 n c a b) p q ≡ shown0 n c p q
  unfolding shown0
  shown0_again p q =
      ap₂
        (λ x y.
          let d : InterpolatorConfig = record c {
            clamp = x;
            blend = y;
            overf0 = p;
            overf1 = q;
            overf = p || q;
          } in
          d)
        (clamps_again n c a b) (blends_again n c a b)

input1_again : (c : InterpolatorConfig) → (shown1 c).cross_input ≡ c.cross_input
unfolding shown1
input1_again c = refl

overflows1_again : (c : InterpolatorConfig) (x : ℕ) → overflows (shown1 c) x ≡ overflows c x
unfolding overflows msbmask shown1
overflows1_again c x = refl

shown1_again : (c : InterpolatorConfig) → shown1 (shown1 c) ≡ shown1 c
unfolding shown1
shown1_again c = refl

full0_again :
    (n : ℕ) (c : InterpolatorConfig) (a b : Bool) (x y z u v : ℕ)
    → full0 n (shown0 n c a b) x y z u v ≡ full0 n c x y z u v
unfolding full0 blends clamps shown0
full0_again n c a b x y z u v = ground arith

full1_again :
    (n : ℕ) (c d : InterpolatorConfig) (a b : Bool) (x y z u : ℕ)
    → full1 n (shown0 n c a b) (shown1 d) x y z u ≡ full1 n c d x y z u
unfolding full1 blends shown0 shown1
full1_again n c d a b x y z u = ground arith

-- `update` changes nothing when nothing has been written since it ran last.
update-update : (s : Interpolator) → update (update s) ≡ update s
unfolding update
update-update s =
    rw (shown0_back, shown1_back) simp
      (
        input0_again, input1_again, overflows0_again, overflows1_again, lane0_again, lane1_again,
        blends_again, full0_again, full1_again, shown0_again, shown1_again,
      )
      refl
