-- ===== src/M0/Exception.antt =====
-- cortex-m0-core.ts: exceptions and interrupts.
pub mod Entry
pub mod Select
mod Tests
