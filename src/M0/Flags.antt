-- ===== src/M0/Flags.antt =====
-- cortex-m0-core.ts: `addUpdateFlags` and `substractUpdateFlags`.
pub mod Laws
pub mod Compare
use rp2350js.Base.{ℕ, ◌+◌, ◌-◌, ◌%◌, Bool, not, bit_and, bit_xor}
use rp2350js.Base.{u32, sub32, not32, two32, is_neg, test_bit, ltb, leb, ◌==◌}
use rp2350js.M0.State.{Core}

module _ {M : Type 0} where
  -- `subtrahend` may be 2 ^ 32: `SBCS` passes a register plus one.
  unfoldable pub subtract_update_flags : ℕ → ℕ → Core M → ℕ × Core M
  subtract_update_flags minuend subtrahend s =
      let result = sub32 minuend subtrahend in
      (
        result,
        record s {
          n = is_neg result;
          z = result == 0;
          c = leb subtrahend minuend;
          v =
              is_neg
                (bit_and (bit_xor (u32 minuend) (u32 subtrahend)) (bit_xor (u32 minuend) result));
        },
      )

  -- `addend2` may be 2 ^ 32: `ADCS` passes a register plus one.
  unfoldable pub add_update_flags : ℕ → ℕ → Core M → ℕ × Core M
  add_update_flags addend1 addend2 s =
      let result = u32 (addend1 + addend2) in
      (
        result,
        record s {
          n = is_neg result;
          z = result == 0;
          c = ltb (two32 - 1 - u32 addend2) (u32 addend1);
          v = is_neg (
              bit_and (not32 (bit_xor (u32 addend1) (u32 addend2))) (bit_xor (u32 addend1) result));
        },
      )

  -- N and Z of the logical and shift instructions
  unfoldable pub set_nz : ℕ → Core M → Core M
  set_nz result s = record s { n = is_neg result; z = result == 0 }
