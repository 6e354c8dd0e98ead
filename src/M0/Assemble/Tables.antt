-- ===== src/M0/Assemble/Tables.antt =====
-- Tables of all operand values, cut into files.
pub mod A
pub mod B
pub mod C
pub mod D
pub mod E
pub mod F
