-- ===== src/Base/Word.antt =====
-- JavaScript's 32-bit operators. The operands and the result of `& | ^ ~ << >> >>>` stand for
-- their bit pattern, a number below 2 ^ 32: an int32 result and its `>>> 0` are one pattern.
use Prim.Native.Nat.{ℕ, ◌+◌, ◌-◌, ◌*◌, ◌/◌, ◌%◌, ◌^◌}
use mathlib.Core.Bool.{Bool}
use rp2350js.Base.Tests.{ltb, leb, if◌then◌else◌}

abbrev pub two32 : ℕ
two32 = 2 ^ 32

abbrev pub two31 : ℕ
two31 = 2 ^ 31

-- x >>> 0, and a store into a Uint32Array
abbrev pub u32 : ℕ → ℕ
u32 x = x % two32

-- (a - b) >>> 0, for operands below 2 ^ 32
abbrev pub sub32 : ℕ → ℕ → ℕ
sub32 a b = (a + two32 - b) % two32

-- ~x, for a pattern below 2 ^ 32
abbrev pub not32 : ℕ → ℕ
not32 x = two32 - 1 - x

-- x & (2 ^ k - 1), x >>> k, and (x << k) >>> 0
abbrev pub low_bits : ℕ → ℕ → ℕ
low_bits x k = x % 2 ^ k

abbrev pub shr : ℕ → ℕ → ℕ
shr x k = x / 2 ^ k

abbrev pub shl : ℕ → ℕ → ℕ
shl x k = (x * 2 ^ k) % two32

-- (x >>> lo) & (2 ^ w - 1)
abbrev pub field : ℕ → ℕ → ℕ → ℕ
field x lo w = x / 2 ^ lo % 2 ^ w

-- !!(x & (1 << k))
abbrev pub test_bit : ℕ → ℕ → Bool
test_bit x k = ltb 0 (x / 2 ^ k % 2)

-- the sign of the int32 with this pattern
abbrev pub is_neg : ℕ → Bool
is_neg x = leb two31 x

-- x >> k on the int32 with this pattern: the sign is copied into the k upper bits
abbrev pub sar : ℕ → ℕ → ℕ
sar x k = if is_neg x then (x + (2 ^ k - 1) * two32) / 2 ^ k else x / 2 ^ k
