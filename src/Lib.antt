-- ===== src/Lib.antt =====
-- rp2350js, a simulator of the RP2040 and RP2350 microcontrollers in TypeScript: the parts that
-- are modelled here, and what is proved of them.
--
-- The program. A chip object owns its memory, its peripherals and two cores. A core runs one
-- instruction at a time, and reads and writes through the chip; peripherals call `setInterrupt`
-- on a core; the simulator lets each core catch up with a cycle count by
-- `executeInstructionsUpTo`, and moves on the clock, whose alarms call peripherals back. Peripherals
-- queue words in `FIFO` objects.
--
-- The files.
--   Base: the operators of JavaScript on 32-bit patterns (Base/Word), int32 values (Base/Int), bitwise
--     laws (Base/Bits), lists (Base/Lists) and Boolean tests (Base/Tests).
--   Fifo: the class `FIFO` of src/utils/fifo.ts, one function for each method. Fifo/Queue is the
--     bounded queue that it implements; Fifo/Inv and Fifo/Refine hold the invariant and the refinement.
--   Clock: `SimulationClock` and `ClockAlarm` of src/clock/simulation-clock.ts, the linked list as a
--     list; Clock/Order has the invariant of its operations, Clock/Tick what `tick` fires.
--   Assembler: the encoders of src/utils/assembler.ts, `opcodeADCS` as `opcode_adcs` and so on.
--   M0: the class `CortexM0Core` of src/cortex-m0-core.ts. M0/State has its fields as the record
--     `Core`, its accessors, and the record `Bus` for what the core calls of the chip and what the chip
--     does to the core meanwhile; what the core
--     tells the outside (callbacks, log) is appended to the field `events`. M0/Flags has
--     `addUpdateFlags` and `substractUpdateFlags`; M0/Decode and M0/Instr are the tests of the if-chain
--     of `executeInstruction`, and M0/Alu, M0/Memory and M0/Control the bodies of its branches;
--     M0/Exception/Entry has `exceptionEntry`, `exceptionReturn` and `BXWritePC`, M0/Exception/Select
--     the priorities and `checkForInterrupts`; M0/Execute puts them together as
--     `executeInstruction` and `executeInstructionsUpTo`. M0/Assemble writes a decoded instruction with
--     the encoder of its form, so that the encoders meet the decoder.
--   Chip: the accesses of `RP2350` (src/rp2350.ts) to SRAM, PSRAM and flash, and the decode caches beside
--     them with src/riscv/decode-cache.ts. Chip/Region has one array with its cache, Chip/Memory the
--     windows; devices are behind the record `Rest`.
--   RiscV: the Hazard3 core of src/riscv. RiscV/Decode is src/riscv/decode.ts, its tags in RiscV/Tags;
--     RiscV/Decode/Expand is the manual's table of the compressed instructions. The rest is the class
--     `CPU` of src/riscv/cpu.ts: RiscV/State has its fields, RiscV/Alu the values of `execOp` and
--     `execOpImm`, RiscV/Irq and RiscV/Csr the external interrupts and the CSRs, RiscV/Trap traps, sleep,
--     events and the branch predictor, RiscV/Amo the atomic instructions and the reservations of two
--     cores, RiscV/Memory loads, stores and Zcmp, RiscV/System `execSystem`, and RiscV/Execute the
--     dispatch of `executePacked` and the run loop. An error that is thrown is `none`.
--   Interpolator: the classes of src/interpolator.ts; Interpolator/Config has the control registers.
--   Sio: the class `RPSIO` of src/sio.ts with both cores' `RPSIOCore` of src/sio-core.ts below it: Sio/Core
--     has its `readUint32` and `writeUint32`, Sio/Core/Division and Sio/Core/Lanes their cases for the
--     divider and for an interpolator. Calls on the chip are a log; pin inputs are the record `Pins`.
--   Pio: src/peripherals/pio.ts. Pio/State has the fields of `StateMachine` and `RPPIO`, all blocks of a
--     chip in one store; Pio/Shift the shift registers; Pio/Machine what a machine does to its block, with
--     `checkWait` and `irqUpdated` in Pio/Machine/Wait; Pio/Execute `executeInstruction`, Pio/Execute/Step
--     the steps and Pio/Registers the registers of a machine and of a block. Pio/Serial takes a
--     word from one shift register to another. Pio/Assembler has the encoders of src/utils/pio-assembler.ts.
--   Gpio: a pin of src/gpio-pin.ts with its getters; Gpio/Banks its methods, the output sources and the
--     interrupt line of src/rp2040.ts and the registers of src/peripherals/io.ts and of bank 0 of
--     src/peripherals/pads.ts; Gpio/Access what can reach the pins.
--   Timer: src/peripherals/timer.ts with its alarms on the clock of Clock.
--   Uart: src/peripherals/uart.ts over Fifo; Uart/Received has the receive queue.
--
-- Numbers. A register is a number below 2 ^ 32 where a theorem says so; `>>> 0` and stores into a
-- Uint32Array are `u32`. An int32 result of `&`, `|`, `<<` stands for its pattern. Addresses that a
-- branch computes above 2 ^ 32 reach the bus as they are.
--
-- Fuel. The loop of `executeInstructionsUpTo` gets as many rounds as cycles are missing, which is
-- enough since every step adds one at least; on the RISC-V core it gets as many as the cycle it
-- runs up to. The loop that reads a trace tag has no bound in the
-- source; it gets 2 ^ 32 rounds, one for each address. The loop of `tick` gets its fuel as an
-- argument; the number of alarms is enough where callbacks schedule nothing. The calls of `checkWait` inside each
-- other get 13 rounds, one more than the machines of three blocks, since each of them ends a wait. The
-- instructions that PIO's EXEC executes one after the other have no bound in the source; their number
-- is an argument. The other loops run
-- over registers or levels and are structural.
--
-- Not modelled. The chip behind `Bus` is a parameter; M0/Ram states what plain memory does. Besides the
-- value and the memory, an access may add cycles to the core, which the divider of the SIO does,
-- and may set the fields of a Cortex-M0+ core that hold its interrupts, as the registers of the NVIC do;
-- on the RISC-V core an interrupt that an access raises comes after the instruction. An error that
-- an access throws is the field `thrown` of `Bus`, and ends `executePacked`; the RP2040 throws
-- none. The constructor and `reset` of the core, the Cortex-M33 core, DMA and the other
-- peripherals, the GDB server and the command line are left out. Log messages keep only their kind
-- and numbers.
pub mod Base
pub mod Fifo
pub mod M0
pub mod Assembler
pub mod Clock
pub mod Chip
pub mod RiscV
pub mod Interpolator
pub mod Sio
pub mod Pio
pub mod Gpio
pub mod Timer
pub mod Uart
