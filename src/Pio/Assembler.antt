-- ===== src/Pio/Assembler.antt =====
-- utils/pio-assembler.ts: the encoders of the PIO instructions. The fields of an instruction do not
-- overlap: their `|` is their sum.
use rp2350js.Base.{ℕ, ◌+◌, ◌*◌, ◌^◌, Bool, to_num, low_bits}

-- the delay and side-set bits
abbrev delay_field : ℕ → ℕ
delay_field delay = low_bits delay 5 * 2 ^ 8

unfoldable pub pio_jmp : ℕ → ℕ → ℕ → ℕ
pio_jmp cond address delay = delay_field delay + low_bits cond 3 * 2 ^ 5 + low_bits address 5

unfoldable pub pio_wait : Bool → ℕ → ℕ → ℕ → ℕ
pio_wait polarity src index delay =
    1 * 2 ^ 13
    + delay_field delay
    + to_num polarity * 2 ^ 7
    + low_bits src 2 * 2 ^ 5
    + low_bits index 5

unfoldable pub pio_in : ℕ → ℕ → ℕ → ℕ
pio_in src bit_count delay =
    2 * 2 ^ 13 + delay_field delay + low_bits src 3 * 2 ^ 5 + low_bits bit_count 5

unfoldable pub pio_out : ℕ → ℕ → ℕ → ℕ
pio_out dest bit_count delay =
    3 * 2 ^ 13 + delay_field delay + low_bits dest 3 * 2 ^ 5 + low_bits bit_count 5

-- The parameter `noBlock` of the source sets the bit that makes PUSH and PULL block.
unfoldable pub pio_push : Bool → Bool → ℕ → ℕ
pio_push if_full no_block delay =
    4 * 2 ^ 13 + delay_field delay + to_num if_full * 2 ^ 6 + to_num no_block * 2 ^ 5

unfoldable pub pio_pull : Bool → Bool → ℕ → ℕ
pio_pull if_empty no_block delay =
    4 * 2 ^ 13 + delay_field delay + 1 * 2 ^ 7 + to_num if_empty * 2 ^ 6 + to_num no_block * 2 ^ 5

unfoldable pub pio_mov : ℕ → ℕ → ℕ → ℕ → ℕ
pio_mov dest op src delay =
    5 * 2 ^ 13
    + delay_field delay
    + low_bits dest 3 * 2 ^ 5
    + low_bits op 2 * 2 ^ 3
    + low_bits src 3

unfoldable pub pio_irq : Bool → Bool → ℕ → ℕ → ℕ
pio_irq clear wait index delay =
    6 * 2 ^ 13 + delay_field delay + to_num clear * 2 ^ 6 + to_num wait * 2 ^ 5 + low_bits index 5

unfoldable pub pio_set : ℕ → ℕ → ℕ → ℕ
pio_set dest data_bits delay =
    7 * 2 ^ 13 + delay_field delay + low_bits dest 3 * 2 ^ 5 + low_bits data_bits 5
