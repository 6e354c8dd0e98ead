-- ===== src/M0.antt =====
-- cortex-m0-core.ts: the Cortex-M0+ interpreter of the RP2040, `CortexM0Core`.
pub mod State
pub mod Ram
pub mod Flags
pub mod Exception
pub mod Instr
pub mod Decode
pub mod Assemble
pub mod Alu
pub mod Memory
pub mod Control
pub mod Execute
mod Tests
