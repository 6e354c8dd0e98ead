-- ===== src/M0/Assemble/Branches.antt =====
-- Relative branches: from the byte offset that the assembler takes to the address that the core
-- goes to.
use rp2350js.Base.{ℕ, zero, suc, ◌+◌, ◌-◌, ◌*◌, ◌/◌, ◌%◌, ◌^◌, ◌<◌, ◌≡◌, refl, ap, ap₂, ◌∙◌, arith}
use rp2350js.Base.{bit_or, bit_xor, u32, two32, is_neg, low_bits, shr, field, if◌then◌else◌}
use rp2350js.Base.Bits.{bit_or_sum}
use rp2350js.M0.State.{Bus, Core, pc, lr, set1}
use rp2350js.M0.Instr.{Instr}
use rp2350js.M0.Decode.{decode, decode_from_bl}
use rp2350js.M0.Control.{exec_bl, offset25}
use rp2350js.M0.Execute.{execute}
use rp2350js.Assembler.AtoK.{opcode_bl}
use rp2350js.M0.Assemble.Check.{decode_word}

decode_wide :
    (x y : ℕ)
    → x < 2048
    → shr y 14 ≡ 3
    → field y 12 1 ≡ 1
    → decode (61440 + x) y ≡ Instr.bl (x / 1024) (x % 1024) (field y 13 1) (field y 11 1) (y % 2048)
unfolding decode decode_from_bl
decode_wide x y h p q = ground arith

-- An `|` with a number below the lowest bit of the other is a sum.
pub or_add : (k q r x : ℕ) → x ≡ q * 2 ^ k → r < 2 ^ k → bit_or x r ≡ x + r
or_add k q r x e h = rw e (bit_or_sum k q r h)

pack_bl :
    (t a s b : ℕ)
    → a < 2048
    → s < 2
    → b < 1024
    → bit_or (bit_or (bit_or (bit_or (t * 2 ^ 27) (a * 2 ^ 16)) (0b11110 * 2 ^ 11)) (s * 2 ^ 10)) b
      ≡ t * 2 ^ 27 + a * 2 ^ 16 + 0b11110 * 2 ^ 11 + s * 2 ^ 10 + b
pack_bl t a s b p q r =
    rw
      (
        or_add 27 t (a * 2 ^ 16) (t * 2 ^ 27) refl (omega arith),
        or_add 16 (t * 2 ^ 11 + a) (0b11110 * 2 ^ 11) (t * 2 ^ 27 + a * 2 ^ 16) (omega arith)
            (omega arith),
        or_add 11 (t * 2 ^ 16 + a * 2 ^ 5 + 0b11110) (s * 2 ^ 10)
            (t * 2 ^ 27 + a * 2 ^ 16 + 0b11110 * 2 ^ 11) (omega arith) (omega arith),
        or_add 10 (t * 2 ^ 17 + a * 2 ^ 6 + 0b11110 * 2 + s) b
            (t * 2 ^ 27 + a * 2 ^ 16 + 0b11110 * 2 ^ 11 + s * 2 ^ 10) (omega arith) r,
      )
      refl

-- The bits J1 and J2 between the fixed bits of the second halfword.
pack_j :
    (i j : ℕ)
    → i < 2
    → j < 2
    → bit_or (bit_or (0b1101 * 2 ^ 28) (i * 2 ^ 29)) (j * 2 ^ 27) ≡ (26 + i * 4 + j) * 2 ^ 27
pack_j zero zero p q = refl
pack_j zero (suc zero) p q = refl
pack_j (suc zero) zero p q = refl
pack_j (suc zero) (suc zero) p q = refl
pack_j (suc (suc i)) j p q = absurd (omega arith)
pack_j i (suc (suc j)) p q = absurd (omega arith)

-- J is the complement of the offset's bit against its sign, and back.
xor_back : (b s : ℕ) → b < 2 → s < 2 → (1 - bit_xor s (1 - bit_xor b s) ≡ b) × (1 - bit_xor b s < 2)
xor_back zero zero p q = (refl, omega arith)
xor_back zero (suc zero) p q = (refl, omega arith)
xor_back (suc zero) zero p q = (refl, omega arith)
xor_back (suc zero) (suc zero) p q = (refl, omega arith)
xor_back (suc (suc b)) s p q = absurd (omega arith)
xor_back b (suc (suc s)) p q = absurd (omega arith)

abbrev sign : ℕ → ℕ
sign imm = if is_neg imm then 1 else 0

sign-lt : (imm : ℕ) → sign imm < 2
sign-lt imm = ground arith

-- J1 at k = 23 and J2 at k = 22
abbrev j_bit : ℕ → ℕ → ℕ
j_bit k imm = 1 - bit_xor (imm / 2 ^ k % 2 ^ 1) (sign imm)

opcode_bl_sum :
    (imm : ℕ)
    → opcode_bl imm
      ≡ (26 + j_bit 23 imm * 4 + j_bit 22 imm) * 2 ^ 27
        + low_bits (imm / 2 ^ 1) 11 * 2 ^ 16
        + 0b11110 * 2 ^ 11
        + sign imm * 2 ^ 10
        + low_bits (imm / 2 ^ 12) 10
unfolding opcode_bl
opcode_bl_sum imm =
    ap
      (λ x.
        bit_or (bit_or (bit_or (bit_or x (a * 2 ^ 16)) (0b11110 * 2 ^ 11)) (sign imm * 2 ^ 10)) b)
      (pack_j (j_bit 23 imm) (j_bit 22 imm) (xor_back _ _ (omega arith) (sign-lt imm)).1
        (xor_back _ _ (omega arith) (sign-lt imm)).1)
    ∙ pack_bl (26 + j_bit 23 imm * 4 + j_bit 22 imm) a (sign imm) b (omega arith) (sign-lt imm)
        (omega arith)
  where
    a : ℕ
    a = low_bits (imm / 2 ^ 1) 11

    b : ℕ
    b = low_bits (imm / 2 ^ 12) 10

offset25_back :
    (imm : ℕ)
    → imm < two32
    → imm % 2 ≡ 0
    → u32 (imm + 2 ^ 24) < 2 ^ 25
    → offset25
        (sign imm)
        (low_bits (imm / 2 ^ 12) 10)
        (j_bit 23 imm)
        (j_bit 22 imm)
        (low_bits (imm / 2 ^ 1) 11)
      ≡ imm
unfolding offset25
offset25_back imm p q r =
    rw
      (
        (xor_back (imm / 2 ^ 23 % 2 ^ 1) (sign imm) (omega arith) (sign-lt imm)).0,
        (xor_back (imm / 2 ^ 22 % 2 ^ 1) (sign imm) (omega arith) (sign-lt imm)).0,
      )
      (ground arith)

bl_word :
    (i j a g b : ℕ)
    → i < 2
    → j < 2
    → a < 2048
    → g < 2
    → b < 1024
    → decode_word ((26 + i * 4 + j) * 2 ^ 27 + a * 2 ^ 16 + 0b11110 * 2 ^ 11 + g * 2 ^ 10 + b)
      ≡ Instr.bl g b i j a
unfolding decode_word
bl_word i j a g b p q r t u =
    ap₂ decode low high ∙ decode_wide x y (omega arith) (omega arith) (omega arith) ∙ fields
  where
    x : ℕ
    x = g * 1024 + b

    y : ℕ
    y = (26 + i * 4 + j) * 2 ^ 11 + a

    low :
        low_bits ((26 + i * 4 + j) * 2 ^ 27 + a * 2 ^ 16 + 0b11110 * 2 ^ 11 + g * 2 ^ 10 + b) 16
        ≡ 61440 + x
    low = omega arith

    high : shr ((26 + i * 4 + j) * 2 ^ 27 + a * 2 ^ 16 + 0b11110 * 2 ^ 11 + g * 2 ^ 10 + b) 16 ≡ y
    high = omega arith

    fields :
        Instr.bl (x / 1024) (x % 1024) (field y 13 1) (field y 11 1) (y % 2048) ≡ Instr.bl g b i j a
    fields = ground arith

-- The fields that `decode` finds in the assembled word.
decode-opcode_bl :
    (imm : ℕ)
    → decode_word (opcode_bl imm)
      ≡ Instr.bl
          (sign imm)
          (low_bits (imm / 2 ^ 12) 10)
          (j_bit 23 imm)
          (j_bit 22 imm)
          (low_bits (imm / 2 ^ 1) 11)
decode-opcode_bl imm =
    ap decode_word (opcode_bl_sum imm)
    ∙ bl_word (j_bit 23 imm) (j_bit 22 imm) _ (sign imm) _
        (xor_back _ _ (omega arith) (sign-lt imm)).1 (xor_back _ _ (omega arith) (sign-lt imm)).1
        (omega arith) (sign-lt imm) (omega arith)

module _ {M : Type 0} (bus : Bus M) where
  -- `opcodeBL` of an even byte offset within 16 MB, as a pattern, is an instruction that puts the
  -- sum of the offset and the instruction's address plus 4 in PC, and the address of the next
  -- instruction, with bit 0 set, in LR. PC has been moved on by 2 when it runs.
  pub execute-opcode_bl :
      (imm a : ℕ) (s : Core M)
      → imm < two32
      → imm % 2 ≡ 0
      → u32 (imm + 2 ^ 24) < 2 ^ 25
      → pc s ≡ a + 2
      → let s' = (execute bus a (decode_word (opcode_bl imm)) s).0 in
        (pc s' ≡ u32 (a + 4 + imm)) × (lr s' ≡ set1 (u32 (a + 4)))
  unfolding execute exec_bl
  execute-opcode_bl imm a s p q r e =
      rw (decode-opcode_bl imm) (ground (arith, offset25_back imm p q r))
