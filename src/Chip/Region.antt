-- ===== src/Chip/Region.antt =====
-- rp2350.ts: an array of bytes with its 16-bit and 32-bit views (little-endian, as every host of the
-- program is), and the cache of decoded instructions beside it, `sram` and `sramDecode` or `psram` and
-- `psramDecode`. Offsets count from the start of the array.
pub mod Coherent
use rp2350js.Base.{
  ℕ, zero, suc, ◌+◌, ◌-◌, ◌*◌, ◌/◌, ◌%◌, ◌^◌, Option, some, none, low_bits, field, ltb,
}
use rp2350js.Base.{◌==◌, if◌then◌else◌}
use rp2350js.RiscV.State.{put}
use rp2350js.RiscV.Decode.{decode_word}

pub record Region : Type 0 where
  pub bytes : ℕ → ℕ
  pub decode : ℕ → ℕ

-- stores through the two views
abbrev pub put16 : ℕ → ℕ → (ℕ → ℕ) → ℕ → ℕ
put16 i v b = put (put b (2 * i) (low_bits v 8)) (2 * i + 1) (field v 8 8)

abbrev pub put32 : ℕ → ℕ → (ℕ → ℕ) → ℕ → ℕ
put32 i v b =
    put
      (put (put (put b (4 * i) (low_bits v 8)) (4 * i + 1) (field v 8 8)) (4 * i + 2)
        (field v 16 8))
      (4 * i + 3) (field v 24 8)

abbrev pub half : Region → ℕ → ℕ
half r i = r.bytes (2 * i) + r.bytes (2 * i + 1) * 2 ^ 8

abbrev pub word : Region → ℕ → ℕ
word r i =
    r.bytes (4 * i)
    + r.bytes (4 * i + 1) * 2 ^ 8
    + r.bytes (4 * i + 2) * 2 ^ 16
    + r.bytes (4 * i + 3) * 2 ^ 24

-- `decodeUncached` inside the region, from the two halfwords
unfoldable pub decode_halves : ℕ → ℕ → Option ℕ
decode_halves a b = if low_bits a 2 == 3 then decode_word (a + b * 2 ^ 16) else decode_word a

-- the loop of `invalidateSramDecode`, over n entries from i on
unfoldable pub clear : ℕ → ℕ → (ℕ → ℕ) → ℕ → ℕ
clear zero i d = d
clear (suc n) i d = clear n (i + 1) (put d i 0)

-- `invalidateSramDecode` and `invalidatePsramDecode`
unfoldable pub invalidate_decode : ℕ → ℕ → Region → Region
unfolding clear
invalidate_decode off len r =
    let start = off / 2 in
    let stop = (off + len - 1) / 2 in
    let d = if ltb 0 start then put r.decode (start - 1) 0 else r.decode in
    record r { decode = clear (stop + 1 - start) start d }

unfoldable pub store8 : ℕ → ℕ → Region → Region
unfolding invalidate_decode
store8 off v r = invalidate_decode off 1 (record r { bytes = put r.bytes off (low_bits v 8) })

unfoldable pub store16 : ℕ → ℕ → Region → Region
unfolding invalidate_decode
store16 off v r = invalidate_decode off 2 (record r { bytes = put16 (off / 2) v r.bytes })

unfoldable pub store32 : ℕ → ℕ → Region → Region
unfolding invalidate_decode
store32 off v r = invalidate_decode off 4 (record r { bytes = put32 (off / 4) v r.bytes })
