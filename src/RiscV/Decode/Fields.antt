-- ===== src/RiscV/Decode/Fields.antt =====
-- riscv/decode.ts: the packed entry and the fields of a 32-bit instruction. An `|` of fields in different places is written as a sum.
use rp2350js.Base.{ℕ, ◌+◌, ◌*◌, ◌^◌}
use rp2350js.Base.{u32, low_bits, field, sar, shl}

abbrev pub len_32 : ℕ
len_32 = 2 ^ 8

abbrev pub len_16 : ℕ
len_16 = 0

-- `emit`: the low word, and the low 21 bits of the immediate above it
unfoldable pub emit : ℕ → ℕ → ℕ → ℕ → ℕ → ℕ → ℕ
emit tag rd rs1 rs2 imm length =
    u32 (tag * 2 ^ 24 + rs2 * 2 ^ 19 + rs1 * 2 ^ 14 + rd * 2 ^ 9 + length)
    + low_bits imm 21 * 2 ^ 32

abbrev pub opcode : ℕ → ℕ
opcode i = low_bits i 7

abbrev pub rd : ℕ → ℕ
rd i = field i 7 5

abbrev pub func3 : ℕ → ℕ
func3 i = field i 12 3

abbrev pub rs1 : ℕ → ℕ
rs1 i = field i 15 5

abbrev pub rs2 : ℕ → ℕ
rs2 i = field i 20 5

abbrev pub func7 : ℕ → ℕ
func7 i = field i 25 7

abbrev pub shamt : ℕ → ℕ
shamt i = field i 20 5

abbrev pub imm_i : ℕ → ℕ
imm_i i = low_bits (sar i 20) 21

-- `immU_i`
abbrev pub imm_u12 : ℕ → ℕ
imm_u12 i = field i 20 12

abbrev pub imm_s : ℕ → ℕ
imm_s i = low_bits (shl (sar i 25) 5 + field i 7 5) 21

abbrev pub imm_b : ℕ → ℕ
imm_b i =
    low_bits (shl (sar i 31) 12 + field i 7 1 * 2 ^ 11 + field i 25 6 * 2 ^ 5 + field i 8 4 * 2) 21

abbrev pub imm_u : ℕ → ℕ
imm_u i = field i 12 20

abbrev pub imm_j : ℕ → ℕ
imm_j i =
    low_bits (shl (sar i 31) 20 + field i 12 8 * 2 ^ 12 + field i 20 1 * 2 ^ 11 + field i 21 10 * 2)
      21
