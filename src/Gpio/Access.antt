-- ===== src/Gpio/Access.antt =====
-- Everything that reaches the pins, one after the other.
use rp2350js.Base.{ℕ, Bool, true, ◌&&◌, ◌||◌, List, [], ◌∷◌, ◌==◌, leb, field}
use rp2350js.Gpio.Banks.{Io, Sources, set_input_value, check_for_updates, write_io, write_pads}

-- the field IRQOVER of a control register
abbrev pub irq_override : ℕ → ℕ
irq_override ctrl = field ctrl 28 2

-- What reaches the pins: an input from outside, a write of a register (with the value as it was
-- written, where the store is atomic), a write of a pad, and a block that drives other outputs.
pub data Access : Type 0 where
  input : ℕ → Bool → Access
  io : ℕ → ℕ → ℕ → Access
  pads : ℕ → ℕ → Access
  drive : ℕ → Sources → Access

unfoldable pub access : Access → Io → Io
access (Access.input i value) s = set_input_value i value s
access (Access.io offset value raw) s = write_io offset value raw s
access (Access.pads offset value) s = write_pads offset value s
access (Access.drive i c) s = check_for_updates i (record s { sources = c })

unfoldable pub accesses : List Access → Io → Io
accesses [] s = s
accesses (a ∷ rest) s = accesses rest (access a s)

-- no control register gets an override of the interrupt
abbrev pub is_plain : Access → Bool
is_plain (Access.input i value) = true
is_plain (Access.io offset value raw) = (irq_override value == 0) || leb 0xed offset
is_plain (Access.pads offset value) = true
is_plain (Access.drive i c) = true

abbrev pub all_plain : List Access → Bool
all_plain [] = true
all_plain (a ∷ rest) = is_plain a && all_plain rest
