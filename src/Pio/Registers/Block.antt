-- ===== src/Pio/Registers/Block.antt =====
-- `readUint32` and `writeUint32` of `RPPIO`, and the outputs that it drives.
use rp2350js.Base.{ℕ, ◌+◌, ◌-◌, ◌*◌, ◌/◌, ◌%◌, ◌^◌, Bool, true, false, if◌then◌else◌, ◌&&◌, not}
use rp2350js.Base.{test_bit, low_bits, shr, ◌==◌, leb, bit_and, bit_or, not32}
use rp2350js.Fifo.{item_count}
use rp2350js.RiscV.State.{put}
use rp2350js.Pio.State.{Machine, Pio, System, on_pio, on_machine, call, warn_read, warn_write}
use rp2350js.Pio.Machine.{int_raw, irq0_int_status, irq1_int_status, check_interrupts}
use rp2350js.Pio.Machine.Wait.{irq_updated}
use rp2350js.Pio.Registers.{
  write_fifo, read_fifo, set_enabled, restart, clk_div_restart, read_machine, write_machine,
}

-- an offset from SM0_CLKDIV to SM3_PINCTRL, its machine and the offset from the machine's first register
unfoldable pub is_machine : ℕ → Bool
is_machine offset = leb 0xc8 offset && leb offset 0x124 && leb ((offset - 0xc8) % 0x18) 0x14

-- FSTAT
unfoldable pub fstat : Pio → ℕ
fstat b =
    bit_or
      (bit_or (bit_or (b.machines 0).fifo_stat (b.machines 1).fifo_stat) (b.machines 2).fifo_stat)
      (b.machines 3).fifo_stat

-- the byte of a machine in FLEVEL
unfoldable pub level_of : Machine → ℕ
level_of m = low_bits (item_count m.tx_fifo) 4 + low_bits (item_count m.rx_fifo) 4 * 2 ^ 4

unfoldable pub flevel : Pio → ℕ
flevel b =
    level_of (b.machines 0)
    + level_of (b.machines 1) * 2 ^ 8
    + level_of (b.machines 2) * 2 ^ 16
    + level_of (b.machines 3) * 2 ^ 24

-- the registers that are only read
unfoldable pub read_block : ℕ → ℕ → System → ℕ × System
read_block p offset s =
    let b = s.pio p in
    let r = b.irq_reg_offset in
    if offset == 0x00
    then (b.machines_running, s)
    else if offset == 0x04
    then (fstat b, s)
    else if offset == 0x08
    then (b.fdebug, s)
    else if offset == 0x0c
    then (flevel b, s)
    else if offset == 0x30
    then (b.irq, s)
    else if offset == 0x34
    then (0, s)
    else if offset == 0x38
    then (b.input_sync_bypass, s)
    else if offset == 0x3c
    then (b.pin_values, s)
    else if offset == 0x40
    then (b.pin_directions, s)
    else if offset == 0x44
    then (0x200404, s)
    else if offset == 0x128 + r
    then (int_raw b, s)
    else if offset == 0x12c + r
    then (b.irq0_int_enable, s)
    else if offset == 0x130 + r
    then (b.irq0_int_force, s)
    else if offset == 0x134 + r
    then (irq0_int_status b, s)
    else if offset == 0x138 + r
    then (b.irq1_int_enable, s)
    else if offset == 0x13c + r
    then (b.irq1_int_force, s)
    else if offset == 0x140 + r
    then (irq1_int_status b, s)
    else if offset == 0x168 && not s.is_rp2040
    then (b.gpiobase, s)
    else (0xffffffff, call (warn_read offset) s)

-- RXF0 to RXF3 are four offsets of `readFIFO`.
unfoldable pub read_uint32 : ℕ → ℕ → System → ℕ × System
read_uint32 p offset s =
    if is_machine offset
    then read_machine p ((offset - 0xc8) / 0x18) ((offset - 0xc8) % 0x18) s
    else if offset == 0x20
    then read_fifo p 0 s
    else if offset == 0x24
    then read_fifo p 1 s
    else if offset == 0x28
    then read_fifo p 2 s
    else if offset == 0x2c
    then read_fifo p 3 s
    else read_block p offset s

-- the loop of CTRL over the machines of the block, one round
unfoldable pub control_machine : ℕ → ℕ → ℕ → System → System
control_machine p value i s =
    let s1 = set_enabled p i (test_bit value i) s in
    let s2 = if test_bit value (4 + i) then on_machine p i restart s1 else s1 in
    if test_bit value (8 + i) then on_machine p i clk_div_restart s2 else s2

-- the inner loop over the machines of a neighbour, one round
unfoldable pub control_neighbour : ℕ → ℕ → ℕ → ℕ → System → System
control_neighbour value q mask i s =
    if test_bit mask i
    then (let s1 = if test_bit value 24 then set_enabled q i true s else s in
        let s2 = if test_bit value 25 then set_enabled q i false s1 else s1 in
        if test_bit value 26 then on_machine q i clk_div_restart s2 else s2)
    else s

-- A loop over the four machines.
abbrev pub for_machines : (ℕ → System → System) → System → System
for_machines f s = f 3 (f 2 (f 1 (f 0 s)))

unfoldable pub write_ctrl : ℕ → ℕ → System → System
write_ctrl p value s =
    let t = for_machines (control_machine p value) s in
    if s.is_rp2040
    then t
    else let before = (p + s.pio_count - 1) % s.pio_count in
      let after = (p + 1) % s.pio_count in
      for_machines (control_neighbour value after (shr value 20))
        (for_machines (control_neighbour value before (shr value 16)) t)

-- `writeUint32`, with the fuel of SM_INSTR
unfoldable pub write_block : ℕ → ℕ → ℕ → System → System
write_block p offset value s =
    let r = (s.pio p).irq_reg_offset in
    let raw = (s.pio p).raw_write_value in
    if offset == 0x00
    then write_ctrl p value s
    else if offset == 0x08
    then on_pio p (λ b. record b { fdebug = bit_and b.fdebug (not32 raw) }) s
    else if offset == 0x10
    then write_fifo p 0 value s
    else if offset == 0x14
    then write_fifo p 1 value s
    else if offset == 0x18
    then write_fifo p 2 value s
    else if offset == 0x1c
    then write_fifo p 3 value s
    else if offset == 0x30
    then irq_updated p (on_pio p (λ b. record b { irq = bit_and b.irq (not32 raw) }) s)
    else if offset == 0x38
    then on_pio p (λ b. record b { input_sync_bypass = value }) s
    else if offset == 0x34
    then irq_updated p (on_pio p (λ b. record b { irq = bit_or b.irq value }) s)
    else if offset == 0x12c + r
    then check_interrupts p (on_pio p (λ b. record b { irq0_int_enable = low_bits value 12 }) s)
    else if offset == 0x130 + r
    then check_interrupts p (on_pio p (λ b. record b { irq0_int_force = low_bits value 12 }) s)
    else if offset == 0x138 + r
    then check_interrupts p (on_pio p (λ b. record b { irq1_int_enable = low_bits value 12 }) s)
    else if offset == 0x13c + r
    then check_interrupts p (on_pio p (λ b. record b { irq1_int_force = low_bits value 12 }) s)
    else if offset == 0x168 && not s.is_rp2040
    then on_pio p (λ b. record b { gpiobase = bit_and value 16 }) s
    else call (warn_write offset value) s

unfoldable pub write_uint32 : ℕ → ℕ → ℕ → ℕ → System → System
write_uint32 fuel p offset value s =
    if leb 0x48 offset && leb offset 0xc4
    then on_pio p
        (λ b. record b {
          instructions = put b.instructions ((offset - 0x48) / 4) (low_bits value 16);
        })
        s
    else if is_machine offset
    then write_machine fuel p ((offset - 0xc8) / 0x18) ((offset - 0xc8) % 0x18) value s
    else write_block p offset value s

-- `getPinValue` and `getPinOutputEnabled`
unfoldable pub pin_bit : ℕ → ℕ → ℕ → Bool
pin_bit base pins index =
    if leb base index && leb (index - base) 31 then test_bit pins (index - base) else false

unfoldable pub get_pin_value : Pio → ℕ → Bool
get_pin_value b index = pin_bit b.gpiobase b.pin_values index

unfoldable pub get_pin_output_enabled : Pio → ℕ → Bool
get_pin_output_enabled b index = pin_bit b.gpiobase b.pin_directions index

-- `stop`
unfoldable pub stop : ℕ → System → System
stop p s = for_machines (λ i. set_enabled p i false) s
