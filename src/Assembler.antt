-- ===== src/Assembler.antt =====
-- utils/assembler.ts: the Thumb encoders, one function for each.
pub mod AtoK
pub mod LtoR
pub mod StoZ
