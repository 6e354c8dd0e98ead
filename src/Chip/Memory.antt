-- ===== src/Chip/Memory.antt =====
-- rp2350.ts, the accesses of `RP2350` to SRAM, PSRAM and flash, and riscv/decode-cache.ts. What lies
-- outside (SIO, PPB, peripherals, boot ROM, USB RAM, and addresses that are answered with an error) is behind `rest`,
-- an access that may throw; it has no part in SRAM, PSRAM or flash.
pub mod Fetch
pub mod Access
use rp2350js.Base.{
  ℕ, ◌+◌, ◌-◌, ◌*◌, ◌/◌, ◌%◌, ◌^◌, Bool, not, ◌&&◌, Option, some, none, u32, low_bits,
}
use rp2350js.Base.{field, leb, ltb, ◌==◌, if◌then◌else◌}
use rp2350js.RiscV.State.{put}
use rp2350js.RiscV.Decode.{decode_word}
use rp2350js.Chip.Region.{Region, half, word, store8, store16, store32}

abbrev pub flash_start : ℕ
flash_start = 0x10000000

abbrev pub psram_start : ℕ
psram_start = 0x11000000

abbrev pub ram_start : ℕ
ram_start = 0x20000000

abbrev pub sram_size : ℕ
sram_size = (256 * 2 + 8) * 1024

abbrev pub flash_size : ℕ
flash_size = 2 ^ 24

abbrev pub psram_size : ℕ
psram_size = 2 ^ 24

-- The chip, with the state D of all that is outside the three memories. Flash has no stores.
pub record Chip (D : Type 0) : Type 0 where
  pub sram : Region
  pub psram : Region
  pub flash : Region
  pub devices : D

pub record Rest (D : Type 0) : Type 0 where
  pub read32 : D → ℕ → Option (ℕ × D)
  pub write32 : D → ℕ → ℕ → Option D
  pub write16 : D → ℕ → ℕ → Option D
  pub write8 : D → ℕ → ℕ → Option D

abbrev pub in_sram : ℕ → Bool
in_sram a = leb ram_start a && ltb a (ram_start + sram_size)

abbrev pub in_psram : ℕ → Bool
in_psram a = leb psram_start a && ltb a (psram_start + psram_size)

abbrev pub in_flash : ℕ → Bool
in_flash a = leb flash_start a && ltb a ram_start

infixl 40 ◌>>=◌
abbrev pub ◌>>=◌ : {A B : Type 0} → Option A → (A → Option B) → Option B
o >>= f = elim o [ none ↦ none | some x ↦ f x ]

-- A result of `rest` with the devices put back.
abbrev pub with_devices : {D A : Type 0} → Chip D → Option (A × D) → Option (A × Chip D)
with_devices c o = do (x, d) ← o; some (x, record c { devices = d })

abbrev pub set_devices : {D : Type 0} → Chip D → Option D → Option (Chip D)
set_devices c o = do d ← o; some (record c { devices = d })

module _ {D : Type 0} (rest : Rest D) where
  unfoldable pub read32 : ℕ → Chip D → Option (ℕ × Chip D)
  read32 address c =
      let a = u32 address in
      if not (a % 4 == 0)
      then none
      else if in_sram a
      then some (word c.sram ((a - ram_start) / 4), c)
      else if in_psram a
      then some (word c.psram ((a - psram_start) / 4), c)
      else if in_flash a
      then some (word c.flash (a % flash_size / 4), c)
      else with_devices c (rest.read32 c.devices a)

  unfoldable pub read16 : ℕ → Chip D → Option (ℕ × Chip D)
  unfolding read32
  read16 a c =
      if in_sram a
      then some (half c.sram ((a - ram_start) / 2), c)
      else if in_psram a
      then some (half c.psram ((a - psram_start) / 2), c)
      else if in_flash a
      then some (half c.flash (a % flash_size / 2), c)
      else (do
        (w, d) ← read32 (a / 4 * 4) c
        some (if field a 1 1 == 0 then low_bits w 16 else w / 2 ^ 16, d))

  unfoldable pub read8 : ℕ → Chip D → Option (ℕ × Chip D)
  unfolding read16
  read8 a c =
      if in_sram a
      then some (c.sram.bytes (a - ram_start), c)
      else if in_psram a
      then some (c.psram.bytes (a - psram_start), c)
      else if in_flash a
      then some (c.flash.bytes (a % flash_size), c)
      else (do
        (h, d) ← read16 (a / 2 * 2) c
        some (if a % 2 == 0 then low_bits h 8 else field h 8 8, d))

  unfoldable pub write32 : ℕ → ℕ → Chip D → Option (Chip D)
  unfolding store32
  write32 address v c =
      let a = u32 address in
      if not (a % 4 == 0)
      then none
      else if in_sram a
      then some (record c { sram = store32 (a - ram_start) v c.sram })
      else if in_psram a
      then some (record c { psram = store32 (a - psram_start) v c.psram })
      else set_devices c (rest.write32 c.devices a v)

  unfoldable pub write16 : ℕ → ℕ → Chip D → Option (Chip D)
  unfolding store16
  write16 a v c =
      if in_sram a
      then some (record c { sram = store16 (a - ram_start) v c.sram })
      else if in_psram a
      then some (record c { psram = store16 (a - psram_start) v c.psram })
      else if in_flash a
      then some c
      else set_devices c (rest.write16 c.devices a v)

  unfoldable pub write8 : ℕ → ℕ → Chip D → Option (Chip D)
  unfolding store8
  write8 a v c =
      if in_sram a
      then some (record c { sram = store8 (a - ram_start) v c.sram })
      else if in_psram a
      then some (record c { psram = store8 (a - psram_start) v c.psram })
      else if in_flash a
      then some c
      else set_devices c (rest.write8 c.devices a v)

  -- `decodeUncached`
  unfoldable pub decode_uncached : ℕ → Chip D → Option (ℕ × Chip D)
  decode_uncached a c = do
    (inst, c1) ← read16 a c
    if not (low_bits inst 2 == 3) then (do p ← decode_word inst; some (p, c1)) else (do
      (next, c2) ← read16 (a + 2) c1
      p ← decode_word (inst + next * 2 ^ 16)
      some (p, c2))

  -- The entry of a region, or a new one that is put there by `store`.
  unfoldable pub cached : Region → ℕ → (Region → Chip D → Chip D) → ℕ → Chip D → Option (ℕ × Chip D)
  cached r i store a c = if not (r.decode i == 0) then some (r.decode i, c) else (do
    (p, d) ← decode_uncached a c
    some (p, store (record r { decode = put r.decode i p }) d))

  unfoldable pub get_decode_entry : ℕ → Chip D → Option (ℕ × Chip D)
  get_decode_entry a c =
      if in_sram a
      then cached c.sram ((a - ram_start) / 2) (λ r d. record d { sram = r }) a c
      else if in_psram a
      then cached c.psram ((a - psram_start) / 2) (λ r d. record d { psram = r }) a c
      else if in_flash a
      then cached c.flash (a % flash_size / 2) (λ r d. record d { flash = r }) a c
      else decode_uncached a c
