-- ===== src/Interpolator.antt =====
-- interpolator.ts: the classes `InterpolatorConfig` and `Interpolator`. A register that the source
-- keeps as a number is that number; an int32 in a computation stands for its pattern.
pub mod Config
pub mod Bounds
pub mod Again
mod Tests
use rp2350js.Base.{ℕ, ◌+◌, ◌-◌, ◌*◌, ◌/◌, ◌^◌, Bool, true, false, ◌&&◌, ◌||◌, if◌then◌else◌}
use rp2350js.Base.{
  two31, two32, u32, ltb, leb, ◌==◌, test_bit, low_bits, field, shl, shr, not32, bit_and, bit_or,
}
use rp2350js.Interpolator.Config.{InterpolatorConfig, decode, to_uint32}

pub record Interpolator : Type 0 where
  pub accum0 : ℕ
  pub accum1 : ℕ
  pub base0 : ℕ
  pub base1 : ℕ
  pub base2 : ℕ
  pub ctrl0 : ℕ
  pub ctrl1 : ℕ
  pub result0 : ℕ
  pub result1 : ℕ
  pub result2 : ℕ
  pub smresult0 : ℕ
  pub smresult1 : ℕ
  pub index : ℕ

-- `msbmask0` and `msbmask1`, as patterns
unfoldable pub msbmask : InterpolatorConfig → ℕ
msbmask c = 2 ^ (c.mask_msb + 1) - 1

-- `mask0` and `mask1`
unfoldable pub mask : InterpolatorConfig → ℕ
mask c = bit_and (msbmask c) (not32 (2 ^ c.mask_lsb - 1))

-- `uresult0` and `uresult1`, of an input pattern
unfoldable pub uresult : InterpolatorConfig → ℕ → ℕ
uresult c input = bit_and (shr input c.shift) (mask c)

-- the flags `overf0` and `overf1`
unfoldable pub overflows : InterpolatorConfig → ℕ → Bool
overflows c input = ltb 0 (bit_and (shr input c.shift) (not32 (msbmask c)))

-- `result0` and `result1` of the lanes, with the sign extension where the lane is signed
unfoldable pub lane : InterpolatorConfig → ℕ → ℕ
lane c input =
    let r = uresult c input in
    if c.signed then bit_or r (if test_bit r c.mask_msb then two32 - 2 ^ c.mask_msb else 0) else r

-- The int32 order is the order of the patterns with the sign bit turned over.
unfoldable pub biased : ℕ → ℕ
biased x = u32 (x + two31)

-- `uclamp0` and `sclamp0`; the key is the number that the source compares
abbrev pub clamp_by : (ℕ → ℕ) → ℕ → ℕ → ℕ → ℕ
clamp_by key low high x =
    if ltb (key x) (key low) then low else if ltb (key high) (key x) then high else x

unfoldable pub clamp0 : Bool → ℕ → ℕ → ℕ → ℕ
clamp0 signed low high x = if signed then clamp_by biased low high x else clamp_by u32 low high x

-- Math.floor((alpha * (b - a)) / 256) | 0
unfoldable pub blend_step : ℕ → ℕ → ℕ → ℕ
blend_step alpha a b =
    if leb a b then u32 (alpha * (b - a) / 2 ^ 8) else u32 (two32 - (alpha * (a - b) + 255) / 2 ^ 8)

-- `ublend1` and `sblend1`
unfoldable pub blend1 : Bool → ℕ → ℕ → ℕ → ℕ
blend1 signed alpha a b =
    if signed
    then u32 a + blend_step alpha (biased a) (biased b)
    else u32 a + blend_step alpha (u32 a) (u32 b)

-- `do_clamp` and `do_blend`
unfoldable pub clamps : ℕ → InterpolatorConfig → Bool
clamps n c = c.clamp && n == 1

unfoldable pub blends : ℕ → InterpolatorConfig → Bool
blends n c = c.blend && n == 0

-- what `update` writes back to the two control registers
unfoldable pub shown0 : ℕ → InterpolatorConfig → Bool → Bool → InterpolatorConfig
shown0 n c over0 over1 = record c {
  clamp = clamps n c;
  blend = blends n c;
  overf0 = over0;
  overf1 = over1;
  overf = over0 || over1;
}

unfoldable pub shown1 : InterpolatorConfig → InterpolatorConfig
shown1 c = record c { clamp = false; blend = false; overf0 = false; overf1 = false; overf = false }

-- `this.result0` and `this.result1` of `update`, from the lanes and the inputs
unfoldable pub full0 : ℕ → InterpolatorConfig → ℕ → ℕ → ℕ → ℕ → ℕ → ℕ
full0 n c base0 base1 input0 r0 r1 =
    if blends n c
    then low_bits r1 8
    else bit_or
        (if clamps n c
          then u32 (clamp0 c.signed base0 base1 r0)
          else u32 (base0 + (if c.add_raw then input0 else r0)))
        (shl c.force_msb 28)

unfoldable pub full1 : ℕ → InterpolatorConfig → InterpolatorConfig → ℕ → ℕ → ℕ → ℕ → ℕ
full1 n c d base0 base1 input1 r1 =
    bit_or
      (u32 (
        if blends n c
        then blend1 d.signed (low_bits r1 8) base0 base1
        else base1 + (if d.add_raw then input1 else r1)))
      (shl c.force_msb 28)

unfoldable pub update : Interpolator → Interpolator
update s =
    let c = decode s.ctrl0 in
    let d = decode s.ctrl1 in
    let input0 = u32 (if c.cross_input then s.accum1 else s.accum0) in
    let input1 = u32 (if d.cross_input then s.accum0 else s.accum1) in
    let r0 = lane c input0 in
    let r1 = lane d input1 in
    record s {
      smresult0 = r0;
      smresult1 = r1;
      result0 = full0 s.index c s.base0 s.base1 input0 r0 r1;
      result1 = full1 s.index c d s.base0 s.base1 input1 r1;
      result2 = u32 (s.base2 + r0 + (if blends s.index c then 0 else r1));
      ctrl0 = to_uint32 (shown0 s.index c (overflows c input0) (overflows d input1));
      ctrl1 = to_uint32 (shown1 d);
    }

unfoldable pub writeback : Interpolator → Interpolator
writeback s = update (record s {
  accum0 = u32 (if (decode s.ctrl0).cross_result then s.result1 else s.result0);
  accum1 = u32 (if (decode s.ctrl1).cross_result then s.result0 else s.result1);
})

-- the sign extension of 16 bits in `setBase01`
unfoldable pub sext_half : Bool → ℕ → ℕ
sext_half signed x = if signed && test_bit x 15 then bit_or x (two32 - 2 ^ 15) else x

unfoldable pub set_base01 : ℕ → Interpolator → Interpolator
set_base01 value s =
    let c = decode s.ctrl0 in
    let d = decode s.ctrl1 in
    update (record s {
      base0 = sext_half (if blends s.index c then d.signed else c.signed) (low_bits value 16);
      base1 = sext_half d.signed (field value 16 16);
    })

-- the constructor
unfoldable pub interpolator : ℕ → Interpolator
interpolator index = update (record {
  accum0 = 0;
  accum1 = 0;
  base0 = 0;
  base1 = 0;
  base2 = 0;
  ctrl0 = 0;
  ctrl1 = 0;
  result0 = 0;
  result1 = 0;
  result2 = 0;
  smresult0 = 0;
  smresult1 = 0;
  index = index;
})
