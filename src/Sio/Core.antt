-- ===== src/Sio/Core.antt =====
-- sio-core.ts: the class `RPSIOCore`, the part of the SIO block that each core has for itself: the
-- divider, two interpolators and its end of the mailbox.
pub mod Division
pub mod Lanes
pub mod Queues
pub mod Quotient
use rp2350js.Base.{
  ℕ, ◌+◌, ◌*◌, Bool, true, false, List, [], ◌∷◌, if◌then◌else◌, to_num, ◌==◌, ◌&&◌, ◌||◌, not,
}
use rp2350js.Base.{Option, some, none}
use rp2350js.Fifo.{Fifo, push, pull, is_empty, is_full}
use rp2350js.Interpolator.{Interpolator}
use rp2350js.Sio.Core.Division.{Divider, read_divider, write_divider}
use rp2350js.Sio.Core.Lanes.{read_lanes, write_lanes}

-- What the block tells the chip: the calls of `setInterruptCore`, of `addCycles` on a core and of
-- `checkForUpdates` on a pin, and its warnings, the latest first.
pub data Action : Type 0 where
  set_interrupt_core : ℕ → Bool → ℕ → Action
  add_cycles : ℕ → ℕ → Action
  check_for_updates : ℕ → Action
  warn_read : ℕ → ℕ → Action
  warn_write : ℕ → ℕ → ℕ → Action

-- The fields of the class, with the two arguments of the constructor that are queues left to `Side`.
pub record SioCore : Type 0 where
  pub divider : Divider
  pub interp0 : Interpolator
  pub interp1 : Interpolator
  pub roe : Bool
  pub wof : Bool
  pub sio_interrupt : ℕ
  pub sio_interrupt_other_core : ℕ
  pub cpu_core : ℕ
  pub cpu_core_other : ℕ

-- A core's part with the queues that it shares with the other core.
pub record Side : Type 0 where
  pub core : SioCore
  pub rx : Fifo
  pub tx : Fifo
  pub actions : List Action

unfoldable pub tell : Action → Side → Side
tell a s = record s { actions = a ∷ s.actions }

unfoldable pub set_interp0 : Interpolator → Side → Side
set_interp0 i s = let c = s.core in record s { core = record c { interp0 = i } }

unfoldable pub set_interp1 : Interpolator → Side → Side
set_interp1 i s = let c = s.core in record s { core = record c { interp1 = i } }

unfoldable pub set_divider : Divider → Side → Side
set_divider d s = let c = s.core in record s { core = record c { divider = d } }

-- FIFO_ST, read
unfoldable pub fifo_status : Side → ℕ
fifo_status s =
    to_num (not (is_empty s.rx))
    + to_num (not (is_full s.tx)) * 2
    + to_num s.core.wof * 4
    + to_num s.core.roe * 8

-- FIFO_RD
unfoldable pub read_fifo : Side → ℕ × Side
read_fifo s =
    let c = s.core in
    if is_empty s.rx
    then (
      0,
      tell (set_interrupt_core c.sio_interrupt true c.cpu_core)
          (record s { core = record c { roe = true } }),
    )
    else (let (x, f) = pull s.rx in (x, record s { rx = f }))

-- FIFO_ST, written: `value | FIFO_ST_WOF_BITS` is never 0, so both flags are cleared.
unfoldable pub clear_status : Side → Side
clear_status s =
    let c = s.core in
    let t : Side = record s { core = record c { wof = false; roe = false } } in
    if is_empty s.rx then tell (set_interrupt_core c.sio_interrupt false c.cpu_core) t else t

-- FIFO_WR
unfoldable pub write_fifo : ℕ → Side → Side
write_fifo value s =
    let c = s.core in
    if is_full s.tx
    then tell (set_interrupt_core c.sio_interrupt true c.cpu_core)
        (record s { core = record c { wof = true } })
    else tell (set_interrupt_core c.sio_interrupt_other_core true c.cpu_core_other)
        (record s { tx = push s.tx value })

-- The last three cases and the default of `readUint32`.
unfoldable pub read_mailbox : ℕ → Side → ℕ × Side
read_mailbox offset s =
    if offset == 0x50
    then (fifo_status s, s)
    else if offset == 0x58
    then read_fifo s
    else (0xffffffff, tell (warn_read offset s.core.cpu_core) s)

unfoldable pub write_mailbox : ℕ → ℕ → Side → Side
write_mailbox offset value s =
    if offset == 0x50
    then clear_status s
    else if offset == 0x54
    then write_fifo value s
    else tell (warn_write offset value s.core.cpu_core) s

-- `readUint32`: the word that a register gets
unfoldable pub read_uint32 : ℕ → Side → ℕ × Side
read_uint32 offset s = elim (read_divider offset s.core.divider) [
  | some (x, d) ↦ (x, set_divider d s)
  | none ↦ elim (read_lanes 0x80 offset s.core.interp0) [
    | some (x, i) ↦ (x, set_interp0 i s)
    | none ↦ elim (read_lanes 0xc0 offset s.core.interp1) [
      | some (x, i) ↦ (x, set_interp1 i s)
      | none ↦ read_mailbox offset s
    ]
  ]
]

-- `writeUint32`; a write that starts the divider takes 8 cycles
unfoldable pub write_uint32 : ℕ → ℕ → Side → Side
write_uint32 offset value s = elim (write_divider offset value s.core.divider) [
  | some (started, d) ↦
      let t = set_divider d s in if started then tell (add_cycles s.core.cpu_core 8) t else t
  | none ↦ elim (write_lanes 0x80 offset value s.core.interp0) [
    | some i ↦ set_interp0 i s
    | none ↦ elim (write_lanes 0xc0 offset value s.core.interp1) [
      | some i ↦ set_interp1 i s
      | none ↦ write_mailbox offset value s
    ]
  ]
]
