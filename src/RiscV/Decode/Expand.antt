-- ===== src/RiscV/Decode/Expand.antt =====
-- The C and Zcb extensions as the RISC-V manual gives them: each compressed instruction by the 32-bit
-- instruction that it stands for. Reserved encodings, Zcmp, and C.ZEXT.H, whose long form is a PACK,
-- are left out.
pub mod Table
pub mod Same
use rp2350js.Base.{ℕ, ◌+◌, ◌-◌, ◌*◌, ◌/◌, ◌%◌, ◌^◌, Option, some, none, ◌||◌, ◌&&◌, not}
use rp2350js.Base.{if◌then◌else◌, ◌==◌, ltb, low_bits, field}

-- The formats, over an immediate as a pattern.
abbrev pub r_type : ℕ → ℕ → ℕ → ℕ → ℕ → ℕ
r_type f7 rs2 rs1 f3 rd =
    f7 * 2 ^ 25 + rs2 * 2 ^ 20 + rs1 * 2 ^ 15 + f3 * 2 ^ 12 + rd * 2 ^ 7 + 0x33

abbrev pub i_type : ℕ → ℕ → ℕ → ℕ → ℕ → ℕ
i_type imm rs1 f3 rd op = low_bits imm 12 * 2 ^ 20 + rs1 * 2 ^ 15 + f3 * 2 ^ 12 + rd * 2 ^ 7 + op

abbrev pub s_type : ℕ → ℕ → ℕ → ℕ → ℕ
s_type imm rs2 rs1 f3 =
    field imm 5 7 * 2 ^ 25
    + rs2 * 2 ^ 20
    + rs1 * 2 ^ 15
    + f3 * 2 ^ 12
    + low_bits imm 5 * 2 ^ 7
    + 0x23

abbrev pub b_type : ℕ → ℕ → ℕ → ℕ → ℕ
b_type imm rs2 rs1 f3 =
    field imm 12 1 * 2 ^ 31
    + field imm 5 6 * 2 ^ 25
    + rs2 * 2 ^ 20
    + rs1 * 2 ^ 15
    + f3 * 2 ^ 12
    + field imm 1 4 * 2 ^ 8
    + field imm 11 1 * 2 ^ 7
    + 0x63

abbrev pub j_type : ℕ → ℕ → ℕ
j_type imm rd =
    field imm 20 1 * 2 ^ 31
    + field imm 1 10 * 2 ^ 21
    + field imm 11 1 * 2 ^ 20
    + field imm 12 8 * 2 ^ 12
    + rd * 2 ^ 7
    + 0x6f

-- a signed field of w bits as one of k bits
abbrev pub widen : ℕ → ℕ → ℕ → ℕ
widen w k x = if ltb x (2 ^ (w - 1)) then x else x + 2 ^ k - 2 ^ w

-- The bits of `h` in the order in which the manual lists them, the highest first.
abbrev pub bits : ℕ → ℕ → ℕ
bits h k = field h k 1

abbrev pub ci : ℕ → ℕ
ci h = bits h 12 * 32 + field h 2 5

abbrev pub cl_word : ℕ → ℕ
cl_word h = bits h 5 * 64 + field h 10 3 * 8 + bits h 6 * 4

abbrev pub cj : ℕ → ℕ
cj h =
    bits h 12 * 2048
    + bits h 8 * 1024
    + field h 9 2 * 256
    + bits h 6 * 128
    + bits h 7 * 64
    + bits h 2 * 32
    + bits h 11 * 16
    + field h 3 3 * 2

abbrev pub cb : ℕ → ℕ
cb h = bits h 12 * 256 + field h 5 2 * 64 + bits h 2 * 32 + field h 10 2 * 8 + field h 3 2 * 2

unfoldable pub expand0 : ℕ → Option ℕ
expand0 h =
    let rd' = field h 2 3 + 8 in
    let rs1' = field h 7 3 + 8 in
    let f = field h 13 3 in
    let g = field h 10 3 in
    let wide = field h 7 4 * 64 + field h 11 2 * 16 + bits h 5 * 8 + bits h 6 * 4 in
    if f == 0
    then (if wide == 0 then none else some (i_type wide 2 0 rd' 0x13))
    else if f == 2
    then some (i_type (cl_word h) rs1' 2 rd' 0x03)
    else if f == 6
    then some (s_type (cl_word h) rd' rs1' 2)
    else if (f == 4) && (g == 0)
    then some (i_type (bits h 5 * 2 + bits h 6) rs1' 4 rd' 0x03)
    else if (f == 4) && (g == 1)
    then some (i_type (bits h 5 * 2) rs1' (if bits h 6 == 1 then 1 else 5) rd' 0x03)
    else if (f == 4) && (g == 2)
    then some (s_type (bits h 5 * 2 + bits h 6) rd' rs1' 0)
    else if (f == 4) && (g == 3) && (bits h 6 == 0)
    then some (s_type (bits h 5 * 2) rd' rs1' 1)
    else none

-- C.SRLI to C.MUL, and the Zcb instructions on one register
unfoldable pub expand_misc : ℕ → Option ℕ
expand_misc h =
    let r = field h 7 3 + 8 in
    let rs2' = field h 2 3 + 8 in
    let f = field h 10 2 in
    let g = bits h 12 * 4 + field h 5 2 in
    let one = field h 2 3 in
    if ltb f 2
    then (if bits h 12 == 1 then none else some (i_type (f * 1024 + field h 2 5) r 5 r 0x13))
    else if f == 2
    then some (i_type (widen 6 12 (ci h)) r 7 r 0x13)
    else if g == 0
    then some (r_type 0x20 rs2' r 0 r)
    else if g == 1
    then some (r_type 0 rs2' r 4 r)
    else if g == 2
    then some (r_type 0 rs2' r 6 r)
    else if g == 3
    then some (r_type 0 rs2' r 7 r)
    else if g == 6
    then some (r_type 1 rs2' r 0 r)
    else if not (g == 7)
    then none
    else if one == 0
    then some (i_type 0xff r 7 r 0x13)
    else if one == 1
    then some (i_type 0x604 r 1 r 0x13)
    else if one == 3
    then some (i_type 0x605 r 1 r 0x13)
    else if one == 5
    then some (i_type 0xfff r 4 r 0x13)
    else none

unfoldable pub expand1 : ℕ → Option ℕ
unfolding expand_misc
expand1 h =
    let rd = field h 7 5 in
    let rs1' = field h 7 3 + 8 in
    let f = field h 13 3 in
    let sp = bits h 12 * 512 + field h 3 2 * 128 + bits h 5 * 64 + bits h 2 * 32 + bits h 6 * 16 in
    if f == 0
    then some (i_type (widen 6 12 (ci h)) rd 0 rd 0x13)
    else if f == 1
    then some (j_type (widen 12 21 (cj h)) 1)
    else if f == 2
    then some (i_type (widen 6 12 (ci h)) 0 0 rd 0x13)
    else if f == 3
    then (if ci h == 0
        then none
        else if rd == 2
        then some (i_type (widen 10 12 sp) 2 0 2 0x13)
        else some (widen 6 20 (ci h) * 2 ^ 12 + rd * 2 ^ 7 + 0x37))
    else if f == 4
    then expand_misc h
    else if f == 5
    then some (j_type (widen 12 21 (cj h)) 0)
    else some (b_type (widen 9 13 (cb h)) 0 rs1' (f - 6))

unfoldable pub expand2 : ℕ → Option ℕ
expand2 h =
    let rd = field h 7 5 in
    let rs2 = field h 2 5 in
    let f = field h 13 3 in
    if f == 0
    then (if bits h 12 == 1 then none else some (i_type rs2 rd 1 rd 0x13))
    else if f == 2
    then (if rd == 0
        then none
        else some (i_type (field h 2 2 * 64 + bits h 12 * 32 + field h 4 3 * 4) 2 2 rd 0x03))
    else if f == 6
    then some (s_type (field h 7 2 * 64 + field h 9 4 * 4) rs2 2 2)
    else if not (f == 4)
    then none
    else if not (rs2 == 0)
    then some (r_type 0 rs2 (if bits h 12 == 1 then rd else 0) 0 rd)
    else if not (rd == 0)
    then some (i_type 0 rd 0 (bits h 12) 0x67)
    else if bits h 12 == 1
    then some 0x100073
    else none

unfoldable pub expand : ℕ → Option ℕ
unfolding expand0 expand1 expand2
expand h =
    let q = low_bits h 2 in
    if q == 0 then expand0 h else if q == 1 then expand1 h else if q == 2 then expand2 h else none
