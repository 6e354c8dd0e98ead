-- ===== src/Sio.antt =====
-- sio.ts: the class `RPSIO` of the RP2040, the block that both cores reach in a single cycle: GPIO
-- outputs, 32 spinlocks, and the two parts of sio-core.ts with the mailboxes between them.
pub mod Core
pub mod Locks
pub mod Mailbox
mod Tests
use rp2350js.Base.{
  ℕ, zero, suc, ◌+◌, ◌-◌, ◌/◌, ◌%◌, ◌^◌, Bool, true, false, ◌&&◌, ◌||◌, if◌then◌else◌, Option, some,
  none,
}
use rp2350js.Base.{
  List, [], ◌∷◌, ◌==◌, ltb, leb, not32, bit_and, bit_or, bit_xor, test_bit, to_num, two32,
}
use rp2350js.Fifo.{Fifo, fresh}
use rp2350js.Interpolator.{interpolator}
use rp2350js.Sio.Core.Division.{Divider, ratio}
use rp2350js.Sio.Core.{SioCore, Side, Action, check_for_updates}
use rp2350js.Sio.Core

-- `fifo0` is what core 0 reads and core 1 writes, `fifo1` the other one.
pub record Sio : Type 0 where
  pub gpio_value : ℕ
  pub gpio_output_enable : ℕ
  pub qspi_gpio_value : ℕ
  pub qspi_gpio_output_enable : ℕ
  pub spin_lock : ℕ
  pub core0 : SioCore
  pub core1 : SioCore
  pub fifo0 : Fifo
  pub fifo1 : Fifo
  pub actions : List Action

-- What the block asks the chip for: `gpioValues(0)`, the inputs of the QSPI pins and the number of
-- GPIO pins.
pub record Pins : Type 0 where
  pub gpio_values : ℕ
  pub qspi_inputs : List Bool
  pub gpio_count : ℕ

-- `this.sioCore[cpuCore]` with its queues
unfoldable pub side : ℕ → Sio → Side
side cpu s =
    if cpu == 0
    then record { core = s.core0; rx = s.fifo0; tx = s.fifo1; actions = s.actions }
    else record { core = s.core1; rx = s.fifo1; tx = s.fifo0; actions = s.actions }

unfoldable pub put_side : ℕ → Side → Sio → Sio
put_side cpu t s =
    if cpu == 0
    then record s { core0 = t.core; fifo0 = t.rx; fifo1 = t.tx; actions = t.actions }
    else record s { core1 = t.core; fifo1 = t.rx; fifo0 = t.tx; actions = t.actions }

-- the constructor of `RPSIOCore`
unfoldable pub new_core : ℕ → ℕ → ℕ → ℕ → SioCore
new_core irq other cpu cpu_other =
    let d : Divider = record {
      dividend = 0;
      divisor = 1;
      quotient = ratio false 0 1;
      remainder = ratio false 0 1;
      csr = 0;
    } in
    record {
      divider = d;
      interp0 = interpolator 0;
      interp1 = interpolator 1;
      roe = false;
      wof = false;
      sio_interrupt = irq;
      sio_interrupt_other_core = other;
      cpu_core = cpu;
      cpu_core_other = cpu_other;
    }

-- the constructor of `RPSIO`
unfoldable pub new_sio : ℕ → ℕ → Sio
new_sio irq0 irq1 = record {
  gpio_value = 0;
  gpio_output_enable = 0;
  qspi_gpio_value = 0;
  qspi_gpio_output_enable = 0;
  spin_lock = 0;
  core0 = new_core irq0 irq1 0 1;
  core1 = new_core irq1 irq0 1 0;
  fifo0 = fresh 8;
  fifo1 = fresh 8;
  actions = [];
}

-- an offset from SPINLOCK0 to SPINLOCK31, and the number of its lock
unfoldable pub is_spinlock : ℕ → Bool
is_spinlock offset = leb 0x100 offset && leb offset 0x17c

unfoldable pub lock_of : ℕ → ℕ
lock_of offset = (offset - 0x100) / 4

unfoldable pub claim_lock : ℕ → Sio → ℕ × Sio
claim_lock k s =
    if test_bit s.spin_lock k
    then (0, s)
    else (2 ^ k, record s { spin_lock = bit_or s.spin_lock (2 ^ k) })

unfoldable pub release_lock : ℕ → Sio → Sio
release_lock k s = record s { spin_lock = bit_and s.spin_lock (not32 (2 ^ k)) }

-- the loop of GPIO_HI_IN from pin i on
unfoldable pub qspi_bits : ℕ → List Bool → ℕ
qspi_bits i [] = 0
qspi_bits i (b ∷ bs) = bit_or (if b then 2 ^ i else 0) (qspi_bits (i + 1) bs)

-- the offsets GPIO_OUT_SET, GPIO_OUT_CLR and so on, which read as 0
unfoldable pub is_alias : ℕ → Bool
is_alias offset =
    (offset == 0x14 || offset == 0x18 || offset == 0x1c)
    || (offset == 0x24 || offset == 0x28 || offset == 0x2c)
    || (offset == 0x34 || offset == 0x38 || offset == 0x3c)
    || (offset == 0x44 || offset == 0x48 || offset == 0x4c)

unfoldable pub read_core : ℕ → ℕ → Sio → ℕ × Sio
read_core offset cpu s = let (x, t) = Core.read_uint32 offset (side cpu s) in (x, put_side cpu t s)

unfoldable pub write_core : ℕ → ℕ → ℕ → Sio → Sio
write_core offset value cpu s = put_side cpu (Core.write_uint32 offset value (side cpu s)) s

unfoldable pub read_uint32 : Pins → ℕ → ℕ → Sio → ℕ × Sio
read_uint32 pins offset cpu s =
    if is_spinlock offset
    then claim_lock (lock_of offset) s
    else if offset == 0x04
    then (pins.gpio_values, s)
    else if offset == 0x08
    then (qspi_bits 0 pins.qspi_inputs, s)
    else if offset == 0x10
    then (s.gpio_value, s)
    else if offset == 0x20
    then (s.gpio_output_enable, s)
    else if offset == 0x30
    then (s.qspi_gpio_value, s)
    else if offset == 0x40
    then (s.qspi_gpio_output_enable, s)
    else if is_alias offset
    then (0, s)
    else if offset == 0x00
    then (cpu, s)
    else if offset == 0x5c
    then (s.spin_lock, s)
    else read_core offset cpu s

-- GPIO_MASK
abbrev pub gpio_mask : ℕ
gpio_mask = 0x3fffffff

-- The four writes to a GPIO register whose first offset is given: the register, SET, CLR and XOR.
unfoldable pub put_bits : ℕ → ℕ → ℕ → ℕ → ℕ
put_bits first offset value old =
    if offset == first
    then bit_and value gpio_mask
    else if offset == first + 4
    then bit_or old (bit_and value gpio_mask)
    else if offset == first + 8
    then bit_and old (not32 value)
    else bit_xor old (bit_and value gpio_mask)

-- the four offsets from the first
unfoldable pub is_group : ℕ → ℕ → Bool
is_group first offset =
    offset == first || offset == first + 4 || offset == first + 8 || offset == first + 12

-- the switch of `writeUint32`
unfoldable pub write_register : ℕ → ℕ → ℕ → Sio → Sio
write_register offset value cpu s =
    if is_group 0x10 offset
    then record s { gpio_value = put_bits 0x10 offset value s.gpio_value }
    else if is_group 0x20 offset
    then record s { gpio_output_enable = put_bits 0x20 offset value s.gpio_output_enable }
    else if is_group 0x30 offset
    then record s { qspi_gpio_value = put_bits 0x30 offset value s.qspi_gpio_value }
    else if is_group 0x40 offset
    then record s { qspi_gpio_output_enable = put_bits 0x40 offset value s.qspi_gpio_output_enable }
    else write_core offset value cpu s

-- The loop over the pins, with n left; a shift count is taken modulo 32.
unfoldable pub notify : ℕ → ℕ → ℕ → List Action → List Action
notify changed i zero log = log
notify changed i (suc n) log =
    notify changed (i + 1) n (if test_bit changed (i % 32) then check_for_updates i ∷ log else log)

unfoldable pub write_uint32 : Pins → ℕ → ℕ → ℕ → Sio → Sio
write_uint32 pins offset value cpu s =
    if is_spinlock offset
    then release_lock (lock_of offset) s
    else let t = write_register offset value cpu s in
      let changed =
        bit_or (bit_xor t.gpio_value s.gpio_value)
          (bit_xor t.gpio_output_enable s.gpio_output_enable) in
      if ltb 0 changed then record t { actions = notify changed 0 pins.gpio_count t.actions } else t
