-- ===== src/Pio/State.antt =====
-- The fields of `StateMachine` and `RPPIO`, and the getters of a machine's registers. All blocks of a
-- chip stand in one store, since machines reach the interrupt flags of the neighbouring blocks.
use rp2350js.Base.{ℕ, ◌+◌, ◌*◌, ◌^◌, Bool, false, List, ◌∷◌, if◌then◌else◌}
use rp2350js.Base.{field, test_bit, ◌==◌, ltb, shl, to_num}
use rp2350js.Base.Int.{ℤ, pos, negsuc}
use rp2350js.Fifo.{Fifo, fresh, is_empty, is_full, item_count}
use rp2350js.RiscV.State.{put}

pub data WaitType : Type 0 where
  wait_none wait_pin wait_rx_fifo wait_tx_fifo wait_irq wait_out : WaitType

-- `index` is the position of the machine in its block.
pub record Machine : Type 0 where
  pub enabled : Bool
  pub x : ℕ
  pub y : ℕ
  pub pc : ℕ
  pub input_shift_reg : ℕ
  pub input_shift_count : ℕ
  pub output_shift_reg : ℕ
  pub output_shift_count : ℕ
  pub cycles : ℕ
  pub exec_opcode : ℕ
  pub exec_valid : Bool
  pub next_pc : ℕ
  pub clock_div : ℕ
  pub cur_clock_phase : ℕ
  pub remaining_delay : ℤ
  pub exec_ctrl : ℕ
  pub shift_ctrl : ℕ
  pub pin_ctrl : ℕ
  pub rx_fifo : Fifo
  pub tx_fifo : Fifo
  pub out_pin_values : ℕ
  pub out_pin_direction : ℕ
  pub waiting : Bool
  pub wait_type : WaitType
  pub wait_index : ℕ
  pub wait_polarity : Bool
  pub wait_delay : ℤ
  pub wait_target_pio : ℕ
  pub fifo_stat : ℕ

pub record Pio : Type 0 where
  pub instructions : ℕ → ℕ
  pub machines : ℕ → Machine
  pub machines_running : ℕ
  pub fdebug : ℕ
  pub input_sync_bypass : ℕ
  pub irq : ℕ
  pub gpiobase : ℕ
  pub pin_values : ℕ
  pub pin_directions : ℕ
  pub old_pin_values : ℕ
  pub old_pin_directions : ℕ
  pub irq0_int_enable : ℕ
  pub irq0_int_force : ℕ
  pub irq1_int_enable : ℕ
  pub irq1_int_force : ℕ
  pub first_irq : ℕ
  pub dreq_rx_base : ℕ
  pub dreq_tx_base : ℕ
  pub irq_reg_offset : ℕ
  pub raw_write_value : ℕ

-- The calls of the chip: `setInterrupt`, `dma_setDREQ`, `dma_clearDREQ`, `updatePioActiveLists`,
-- `checkForUpdates` of a pin, and errors and warnings; the latest first.
pub data Call : Type 0 where
  set_interrupt : ℕ → Bool → Call
  dma_set : ℕ → Call
  dma_clear : ℕ → Call
  update_active_lists : Call
  check_for_updates : ℕ → Call
  error : ℕ → Call
  warn_read : ℕ → Call
  warn_write : ℕ → ℕ → Call

-- The blocks of the chip, and what they see of it: its kind, the number of its GPIO pins, their
-- input values, and `gpioValues`.
pub record System : Type 0 where
  pub pio : ℕ → Pio
  pub pio_count : ℕ
  pub is_rp2040 : Bool
  pub gpio_count : ℕ
  pub input : ℕ → Bool
  pub gpio_values : ℕ → ℕ
  pub calls : List Call

unfoldable pub call : Call → System → System
call c s = record s { calls = c ∷ s.calls }

unfoldable pub machine : ℕ → ℕ → System → Machine
machine p i s = (s.pio p).machines i

unfoldable pub on_pio : ℕ → (Pio → Pio) → System → System
on_pio p f s = record s { pio = put s.pio p (f (s.pio p)) }

unfoldable pub on_machine : ℕ → ℕ → (Machine → Machine) → System → System
on_machine p i f s = on_pio p (λ b. record b { machines = put b.machines i (f (b.machines i)) }) s

abbrev pub or_32 : ℕ → ℕ
or_32 n = if n == 0 then 32 else n

unfoldable pub push_threshold : Machine → ℕ
push_threshold m = or_32 (field m.shift_ctrl 20 5)

unfoldable pub pull_threshold : Machine → ℕ
pull_threshold m = or_32 (field m.shift_ctrl 25 5)

abbrev pub sideset_count : Machine → ℕ
sideset_count m = field m.pin_ctrl 29 3

abbrev pub set_count : Machine → ℕ
set_count m = field m.pin_ctrl 26 3

abbrev pub out_count : Machine → ℕ
out_count m = field m.pin_ctrl 20 6

abbrev pub in_base : Machine → ℕ
in_base m = field m.pin_ctrl 15 5

abbrev pub sideset_base : Machine → ℕ
sideset_base m = field m.pin_ctrl 10 5

abbrev pub set_base : Machine → ℕ
set_base m = field m.pin_ctrl 5 5

abbrev pub out_base : Machine → ℕ
out_base m = field m.pin_ctrl 0 5

abbrev pub jmp_pin : Machine → ℕ
jmp_pin m = field m.exec_ctrl 24 5

abbrev pub wrap_top : Machine → ℕ
wrap_top m = field m.exec_ctrl 12 5

abbrev pub wrap_bottom : Machine → ℕ
wrap_bottom m = field m.exec_ctrl 7 5

-- `status`
unfoldable pub status : Machine → ℕ
status m =
    let n = if test_bit m.exec_ctrl 4 then item_count m.rx_fifo else item_count m.tx_fifo in
    if ltb n (field m.exec_ctrl 0 4) then 0xffffffff else 0

-- `updateFifoStat`
unfoldable pub update_fifo_stat : ℕ → Machine → Machine
update_fifo_stat i m = record m {
  fifo_stat =
      shl
        (to_num (is_empty m.tx_fifo) * 2 ^ 24
          + to_num (is_full m.tx_fifo) * 2 ^ 16
          + to_num (is_empty m.rx_fifo) * 2 ^ 8
          + to_num (is_full m.rx_fifo))
        i;
}

-- the field initialisers of `StateMachine`, with the block of the machine
unfoldable pub new_machine : ℕ → Machine
new_machine p = record {
  enabled = false;
  x = 0;
  y = 0;
  pc = 0;
  input_shift_reg = 0;
  input_shift_count = 0;
  output_shift_reg = 0;
  output_shift_count = 0;
  cycles = 0;
  exec_opcode = 0;
  exec_valid = false;
  next_pc = 0;
  clock_div = 256;
  cur_clock_phase = 0;
  remaining_delay = pos 0;
  exec_ctrl = 0x1f * 2 ^ 12;
  shift_ctrl = 3 * 2 ^ 18;
  pin_ctrl = 5 * 2 ^ 26;
  rx_fifo = fresh 4;
  tx_fifo = fresh 4;
  out_pin_values = 0;
  out_pin_direction = 0;
  waiting = false;
  wait_type = wait_none;
  wait_index = 0;
  wait_polarity = false;
  wait_delay = negsuc 0;
  wait_target_pio = p;
  fifo_stat = 0;
}
