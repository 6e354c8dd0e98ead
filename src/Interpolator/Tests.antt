-- ===== src/Interpolator/Tests.antt =====
-- Interpolators at which the theorems are applied.
use rp2350js.Base.{◌+◌, ◌*◌, ◌^◌, ◌≡◌, refl, arith}
use rp2350js.Interpolator.Config.{decode}
use rp2350js.Interpolator.{
  Interpolator, update, full0, full1, blends, clamps, clamp0, blend1, blend_step, biased, lane,
  uresult, mask, msbmask,
}
use rp2350js.Interpolator.Bounds.{Between, Ordered, update-Between_clamped}

-- all bits of the lanes, and CLAMP or BLEND
abbrev clamping : Interpolator
clamping = record {
  accum0 = 25;
  accum1 = 0;
  base0 = 10;
  base1 = 20;
  base2 = 0;
  ctrl0 = 2 ^ 22 + 31 * 2 ^ 10;
  ctrl1 = 0;
  result0 = 0;
  result1 = 0;
  result2 = 0;
  smresult0 = 0;
  smresult1 = 0;
  index = 1;
}

-- half way from -2 to 20
abbrev blending : Interpolator
blending = record clamping {
  accum1 = 128;
  base0 = 0xfffffffe;
  ctrl0 = 2 ^ 21;
  ctrl1 = 31 * 2 ^ 10 + 2 ^ 15;
  index = 0;
}

clamped : (update clamping).result0 ≡ 20
unfolding update full0 blends decode clamps clamp0 lane uresult mask msbmask
clamped = refl

blended : (update blending).result1 ≡ 9
unfolding update full1 blends decode blend1 blend_step biased lane uresult mask msbmask
blended = refl

update-Between_clamped_example :
    Between (decode clamping.ctrl0).signed 10 20 (update clamping).result0
unfolding decode Ordered
update-Between_clamped_example =
    update-Between_clamped clamping (omega arith) (omega arith) refl refl refl (omega arith)
