-- ===== src/Pio.antt =====
-- peripherals/pio.ts: the classes `StateMachine` and `RPPIO`.
pub mod State
pub mod Shift
pub mod Machine
pub mod Execute
pub mod Registers
pub mod Assembler
pub mod Clock
pub mod Serial
mod Store
pub mod Wake
mod Tests
