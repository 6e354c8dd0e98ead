-- ===== src/RiscV/Decode.antt =====
-- riscv/decode.ts: `decodeWord`.
pub mod Fields
pub mod Memory
pub mod OpImm
pub mod Op
pub mod Standard
pub mod Compressed
pub mod Expand
use rp2350js.Base.{ℕ, Option, not, if◌then◌else◌, ◌==◌, low_bits}
use rp2350js.RiscV.Decode.Standard.{decode_standard}
use rp2350js.RiscV.Decode.Compressed.{decode_compressed}

unfoldable pub decode_word : ℕ → Option ℕ
unfolding decode_standard decode_compressed
decode_word word =
    if not (low_bits word 2 == 3)
    then decode_compressed (low_bits word 16)
    else decode_standard word
