-- ===== src/RiscV/Execute/Packed.antt =====
-- The packed entry between the decoder and the core.
use rp2350js.Base.{ℕ, ◌^◌, ◌<◌, ◌≡◌, refl, arith, Bool, true, false}
use rp2350js.Base.{low_bits, if◌then◌else◌}
use rp2350js.RiscV.Decode.Fields.{emit, len_32, len_16}
use rp2350js.RiscV.Execute.{tag_field, rd_field, rs1_field, rs2_field, is_long, imm_field}

-- An entry that the decoder packs is a number below 2 ^ 53, and the core reads from it the tag, the
-- registers, the length and the low 21 bits of the immediate that were packed.
pub emit-fields :
    (tag rd rs1 rs2 imm : ℕ) (long : Bool)
    → tag < 256
    → rd < 32
    → rs1 < 32
    → rs2 < 32
    → (p : ℕ) × (p ≡ emit tag rd rs1 rs2 imm (if long then len_32 else len_16))
      × (p < 2 ^ 53)
      × (tag_field p ≡ tag)
      × (rd_field p ≡ rd)
      × (rs1_field p ≡ rs1)
      × (rs2_field p ≡ rs2)
      × (is_long p ≡ long)
      × (imm_field p ≡ low_bits imm 21)
unfolding emit
emit-fields tag rd rs1 rs2 imm true a b c d = (
  emit tag rd rs1 rs2 imm len_32,
  refl,
  omega arith,
  omega arith,
  omega arith,
  omega arith,
  omega arith,
  ground arith,
  omega arith,
)
emit-fields tag rd rs1 rs2 imm false a b c d = (
  emit tag rd rs1 rs2 imm len_16,
  refl,
  omega arith,
  omega arith,
  omega arith,
  omega arith,
  omega arith,
  ground arith,
  omega arith,
)
