-- ===== src/RiscV/Alu/Unary.antt =====
-- riscv/cpu.ts, `execOpImm`: the branches that compute on the bits of one register. An `|` of parts in different places is written as a sum.
use rp2350js.Base.{ℕ, zero, suc, ◌+◌, ◌-◌, ◌*◌, ◌/◌, ◌^◌, bit_and, u32, sub32}
use rp2350js.Base.{low_bits, field, shl, sar, test_bit, ◌==◌, if◌then◌else◌}

-- `Math.clz32`, over the bits below n
unfoldable pub leading_zeros : ℕ → ℕ → ℕ
leading_zeros zero x = 0
leading_zeros (suc n) x = let rest = leading_zeros n x in if test_bit x n then 0 else rest + 1

unfoldable pub clz : ℕ → ℕ
unfolding leading_zeros
clz x = leading_zeros 32 x

unfoldable pub ctz : ℕ → ℕ
unfolding clz
ctz t = if t == 0 then 32 else 31 - clz (bit_and t (sub32 0 t))

unfoldable pub cpop : ℕ → ℕ
cpop t0 =
    let t1 = t0 - bit_and (sar t0 1) 0x55555555 in
    let t2 = bit_and t1 0x33333333 + bit_and (sar t1 2) 0x33333333 in
    sar (u32 (bit_and (u32 (t2 + sar t2 4)) 0xf0f0f0f * 0x1010101)) 24

-- The rounds of the two loops from i on.
unfoldable pub zip_loop : ℕ → ℕ → ℕ → ℕ
zip_loop zero i u = 0
zip_loop (suc n) i u =
    field u (16 + i) 1 * 2 ^ (2 * i) + field u i 1 * 2 ^ (2 * i + 1) + zip_loop n (i + 1) u

unfoldable pub zip : ℕ → ℕ
unfolding zip_loop
zip u = zip_loop 16 0 u

unfoldable pub unzip_loop : ℕ → ℕ → ℕ → ℕ
unzip_loop zero i u = 0
unzip_loop (suc n) i u =
    field u (2 * i + 1) 1 * 2 ^ i + field u (2 * i) 1 * 2 ^ (16 + i) + unzip_loop n (i + 1) u

unfoldable pub unzip : ℕ → ℕ
unfolding unzip_loop
unzip u = unzip_loop 16 0 u

abbrev pub rev8 : ℕ → ℕ
rev8 v = field v 24 8 + field v 16 8 * 2 ^ 8 + field v 8 8 * 2 ^ 16 + low_bits v 8 * 2 ^ 24

-- one round of the loop of `brev8`, on a byte
abbrev pub swap_bits : ℕ → ℕ
swap_bits b0 =
    let b1 = bit_and b0 0xf0 / 2 ^ 4 + bit_and b0 0x0f * 2 ^ 4 in
    let b2 = bit_and b1 0xcc / 2 ^ 2 + bit_and b1 0x33 * 2 ^ 2 in
    bit_and b2 0xaa / 2 + bit_and b2 0x55 * 2

unfoldable pub brev8 : ℕ → ℕ
brev8 u =
    swap_bits (field u 0 8)
    + swap_bits (field u 8 8) * 2 ^ 8
    + swap_bits (field u 16 8) * 2 ^ 16
    + swap_bits (field u 24 8) * 2 ^ 24

unfoldable pub orc_b : ℕ → ℕ
orc_b u =
    (if test_bit u 7 then 0xff else 0)
    + (if test_bit u 15 then 0xff * 2 ^ 8 else 0)
    + (if test_bit u 23 then 0xff * 2 ^ 16 else 0)
    + (if test_bit u 31 then 0xff * 2 ^ 24 else 0)

abbrev pub sext_h : ℕ → ℕ
sext_h x = sar (shl (low_bits x 16) 16) 16

abbrev pub sext_b : ℕ → ℕ
sext_b x = sar (shl (low_bits x 8) 24) 24
