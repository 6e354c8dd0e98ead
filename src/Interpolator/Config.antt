-- ===== src/Interpolator/Config.antt =====
-- The class `InterpolatorConfig`: the fields of a control register.
use rp2350js.Base.{
  ℕ, ◌+◌, ◌*◌, ◌/◌, ◌%◌, ◌^◌, ◌<◌, ◌≡◌, refl, arith, Bool, to_num, test_bit, field, low_bits,
}

pub record InterpolatorConfig : Type 0 where
  pub shift : ℕ
  pub mask_lsb : ℕ
  pub mask_msb : ℕ
  pub signed : Bool
  pub cross_input : Bool
  pub cross_result : Bool
  pub add_raw : Bool
  pub force_msb : ℕ
  pub blend : Bool
  pub clamp : Bool
  pub overf0 : Bool
  pub overf1 : Bool
  pub overf : Bool

unfoldable pub decode : ℕ → InterpolatorConfig
decode value = record {
  shift = field value 0 5;
  mask_lsb = field value 5 5;
  mask_msb = field value 10 5;
  signed = test_bit value 15;
  cross_input = test_bit value 16;
  cross_result = test_bit value 17;
  add_raw = test_bit value 18;
  force_msb = field value 19 2;
  blend = test_bit value 21;
  clamp = test_bit value 22;
  overf0 = test_bit value 23;
  overf1 = test_bit value 24;
  overf = test_bit value 25;
}

-- The fields do not overlap: their `|` is their sum.
unfoldable pub to_uint32 : InterpolatorConfig → ℕ
to_uint32 c =
    low_bits c.shift 5
    + low_bits c.mask_lsb 5 * 2 ^ 5
    + low_bits c.mask_msb 5 * 2 ^ 10
    + to_num c.signed * 2 ^ 15
    + to_num c.cross_input * 2 ^ 16
    + to_num c.cross_result * 2 ^ 17
    + to_num c.add_raw * 2 ^ 18
    + low_bits c.force_msb 2 * 2 ^ 19
    + to_num c.blend * 2 ^ 21
    + to_num c.clamp * 2 ^ 22
    + to_num c.overf0 * 2 ^ 23
    + to_num c.overf1 * 2 ^ 24
    + to_num c.overf * 2 ^ 25

to_num-test_bit : (v k : ℕ) → to_num (test_bit v k) ≡ v / 2 ^ k % 2
to_num-test_bit v k = ground arith

-- The register that is written for the fields of a register is its low 26 bits.
pub to_uint32-decode : (value : ℕ) → to_uint32 (decode value) ≡ value % 2 ^ 26
unfolding to_uint32 decode
to_uint32-decode value = omega (
  arith,
  to_num-test_bit value 15,
  to_num-test_bit value 16,
  to_num-test_bit value 17,
  to_num-test_bit value 18,
  to_num-test_bit value 21,
  to_num-test_bit value 22,
  to_num-test_bit value 23,
  to_num-test_bit value 24,
  to_num-test_bit value 25,
)

-- a configuration whose numbers fit their fields
pub record Fits (c : InterpolatorConfig) : Type 0 where
  pub shift_fits : c.shift < 2 ^ 5
  pub lsb_fits : c.mask_lsb < 2 ^ 5
  pub msb_fits : c.mask_msb < 2 ^ 5
  pub force_fits : c.force_msb < 2 ^ 2

pub decode-Fits : (value : ℕ) → Fits (decode value)
unfolding decode
decode-Fits value = record {
  shift_fits = omega arith;
  lsb_fits = omega arith;
  msb_fits = omega arith;
  force_fits = omega arith;
}

to_num_bit : (b : Bool) → to_num b < 2
to_num_bit b = ground arith

bit_of : (v k : ℕ) (b : Bool) → v / 2 ^ k % 2 ≡ to_num b → test_bit v k ≡ b
bit_of v k b e = ground (arith, e)

module _ (c : InterpolatorConfig) (fits : Fits c) where
  field0 : field (to_uint32 c) 0 5 ≡ c.shift
  unfolding to_uint32
  field0 = omega (arith, fits.shift_fits)

  field5 : field (to_uint32 c) 5 5 ≡ c.mask_lsb
  unfolding to_uint32
  field5 = omega (arith, fits.shift_fits, fits.lsb_fits)

  field10 : field (to_uint32 c) 10 5 ≡ c.mask_msb
  unfolding to_uint32
  field10 = omega (arith, fits.shift_fits, fits.lsb_fits, fits.msb_fits)

  field19 : field (to_uint32 c) 19 2 ≡ c.force_msb
  unfolding to_uint32
  field19 = omega (
    arith,
    to_num_bit c.signed,
    to_num_bit c.cross_input,
    to_num_bit c.cross_result,
    to_num_bit c.add_raw,
    fits.force_fits,
  )

  flag15 : test_bit (to_uint32 c) 15 ≡ c.signed
  unfolding to_uint32
  flag15 = bit_of _ 15 c.signed (omega (arith, to_num_bit c.signed))

  flag16 : test_bit (to_uint32 c) 16 ≡ c.cross_input
  unfolding to_uint32
  flag16 =
      bit_of _ 16 c.cross_input
        (omega (arith, fits.force_fits, to_num_bit c.signed, to_num_bit c.cross_input))

  flag17 : test_bit (to_uint32 c) 17 ≡ c.cross_result
  unfolding to_uint32
  flag17 = bit_of _ 17 c.cross_result (
      omega (
        arith,
        fits.force_fits,
        to_num_bit c.signed,
        to_num_bit c.cross_input,
        to_num_bit c.cross_result,
      ))

  flag18 : test_bit (to_uint32 c) 18 ≡ c.add_raw
  unfolding to_uint32
  flag18 = bit_of _ 18 c.add_raw (
      omega (
        arith,
        fits.force_fits,
        to_num_bit c.signed,
        to_num_bit c.cross_input,
        to_num_bit c.cross_result,
        to_num_bit c.add_raw,
      ))

  flag21 : test_bit (to_uint32 c) 21 ≡ c.blend
  unfolding to_uint32
  flag21 = bit_of _ 21 c.blend (
      omega (
        arith,
        fits.force_fits,
        to_num_bit c.signed,
        to_num_bit c.cross_input,
        to_num_bit c.cross_result,
        to_num_bit c.add_raw,
        to_num_bit c.blend,
      ))

  flag22 : test_bit (to_uint32 c) 22 ≡ c.clamp
  unfolding to_uint32
  flag22 = bit_of _ 22 c.clamp (
      omega (
        arith,
        fits.force_fits,
        to_num_bit c.signed,
        to_num_bit c.cross_input,
        to_num_bit c.cross_result,
        to_num_bit c.add_raw,
        to_num_bit c.blend,
        to_num_bit c.clamp,
      ))

  flag23 : test_bit (to_uint32 c) 23 ≡ c.overf0
  unfolding to_uint32
  flag23 = bit_of _ 23 c.overf0 (
      omega (
        arith,
        fits.force_fits,
        to_num_bit c.signed,
        to_num_bit c.cross_input,
        to_num_bit c.cross_result,
        to_num_bit c.add_raw,
        to_num_bit c.blend,
        to_num_bit c.clamp,
        to_num_bit c.overf0,
      ))

  flag24 : test_bit (to_uint32 c) 24 ≡ c.overf1
  unfolding to_uint32
  flag24 = bit_of _ 24 c.overf1 (
      omega (
        arith,
        fits.force_fits,
        to_num_bit c.signed,
        to_num_bit c.cross_input,
        to_num_bit c.cross_result,
        to_num_bit c.add_raw,
        to_num_bit c.blend,
        to_num_bit c.clamp,
        to_num_bit c.overf0,
        to_num_bit c.overf1,
      ))

  flag25 : test_bit (to_uint32 c) 25 ≡ c.overf
  unfolding to_uint32
  flag25 = bit_of _ 25 c.overf (
      omega (
        arith,
        fits.force_fits,
        to_num_bit c.signed,
        to_num_bit c.cross_input,
        to_num_bit c.cross_result,
        to_num_bit c.add_raw,
        to_num_bit c.blend,
        to_num_bit c.clamp,
        to_num_bit c.overf0,
        to_num_bit c.overf1,
        to_num_bit c.overf,
      ))

  -- The fields come back from the register.
  pub decode-to_uint32 : decode (to_uint32 c) ≡ c
  unfolding decode
  decode-to_uint32 =
      rw
        (
          field0, field5, field10, field19, flag15, flag16, flag17, flag18, flag21, flag22, flag23,
          flag24, flag25,
        )
        refl
