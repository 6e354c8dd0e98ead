-- ===== src/Chip.antt =====
-- rp2350.ts and riscv/decode-cache.ts: the memory of the RP2350 as the RISC-V cores see it.
pub mod Region
pub mod Memory
mod Tests
