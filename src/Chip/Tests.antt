-- ===== src/Chip/Tests.antt =====
-- A chip with an instruction in SRAM.
use rp2350js.Base.{ℕ, ◌≡◌, refl, none}
use rp2350js.Chip.Region.{Region, store32}
use rp2350js.Chip.Memory.{Chip, Rest, write32, decode_uncached, get_decode_entry}
use rp2350js.Chip.Memory.Fetch.{value}
use rp2350js.Chip.Memory.Access.{is_last}
use rp2350js.Chip.Memory.Access.Reach.{Step, Reach, get_decode_entry-value}

-- no devices
abbrev nothing : Rest ℕ
nothing = record {
  read32 = λ d a. none;
  write32 = λ d a v. none;
  write16 = λ d a v. none;
  write8 = λ d a v. none;
}

abbrev blank : Region
blank = record { bytes = λ i. 0; decode = λ i. 0 }

abbrev fresh : Chip ℕ
fresh = record { sram = blank; psram = blank; flash = blank; devices = 0 }

-- ADDI x10, x10, 1 is stored at the start of SRAM.
abbrev loaded : Chip ℕ
loaded = record { sram = store32 0 0x150513 blank; psram = blank; flash = blank; devices = 0 }

loaded-Reach : Reach nothing loaded
unfolding write32
loaded-Reach =
    Reach.later {c = fresh} (Reach.start (λ i. (refl, refl, refl)))
      (Step.wrote32 0x20000000 0x150513 refl)

get_decode_entry-value_example :
    value (get_decode_entry nothing 0x20000000 loaded)
    ≡ value (decode_uncached nothing 0x20000000 loaded)
unfolding is_last
get_decode_entry-value_example = get_decode_entry-value nothing 0x20000000 loaded loaded-Reach refl
