-- ===== src/Sio/Core/Lanes.antt =====
-- The registers of one interpolator in `RPSIOCore`, at its first offset: 0x80 for INTERP0 and 0xc0
-- for INTERP1.
use rp2350js.Base.{ℕ, ◌+◌, Option, some, none, if◌then◌else◌, u32, ◌==◌}
use rp2350js.Interpolator.{Interpolator, update, writeback, set_base01}

unfoldable pub read_lanes : ℕ → ℕ → Interpolator → Option (ℕ × Interpolator)
read_lanes first offset i =
    if offset == first + 0x00
    then some (u32 i.accum0, i)
    else if offset == first + 0x04
    then some (u32 i.accum1, i)
    else if offset == first + 0x08
    then some (i.base0, i)
    else if offset == first + 0x0c
    then some (i.base1, i)
    else if offset == first + 0x10
    then some (i.base2, i)
    else if offset == first + 0x2c
    then some (i.ctrl0, i)
    else if offset == first + 0x30
    then some (i.ctrl1, i)
    else if offset == first + 0x20
    then some (i.result0, i)
    else if offset == first + 0x24
    then some (i.result1, i)
    else if offset == first + 0x28
    then some (i.result2, i)
    else if offset == first + 0x14
    then some (i.result0, writeback i)
    else if offset == first + 0x18
    then some (i.result1, writeback i)
    else if offset == first + 0x1c
    then some (i.result2, writeback i)
    else if offset == first + 0x34
    then some (i.smresult0, i)
    else if offset == first + 0x38
    then some (i.smresult1, i)
    else none

-- The accumulators are not wrapped when a value is added to them.
unfoldable pub write_lanes : ℕ → ℕ → ℕ → Interpolator → Option Interpolator
write_lanes first offset value i =
    if offset == first + 0x00
    then some (update (record i { accum0 = value }))
    else if offset == first + 0x04
    then some (update (record i { accum1 = value }))
    else if offset == first + 0x08
    then some (update (record i { base0 = value }))
    else if offset == first + 0x0c
    then some (update (record i { base1 = value }))
    else if offset == first + 0x10
    then some (update (record i { base2 = value }))
    else if offset == first + 0x2c
    then some (update (record i { ctrl0 = value }))
    else if offset == first + 0x30
    then some (update (record i { ctrl1 = value }))
    else if offset == first + 0x34
    then some (update (record i { accum0 = i.accum0 + value }))
    else if offset == first + 0x38
    then some (update (record i { accum1 = i.accum1 + value }))
    else if offset == first + 0x3c
    then some (set_base01 value i)
    else none
