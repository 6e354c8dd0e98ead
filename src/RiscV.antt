-- ===== src/RiscV.antt =====
-- riscv/: the Hazard3 RISC-V core of the RP2350.
pub mod Tags
pub mod Decode
pub mod Alu
pub mod State
pub mod Irq
pub mod Csr
pub mod Trap
pub mod Amo
pub mod Memory
pub mod System
pub mod Execute
mod Tests
