-- ===== src/M0/Tests.antt =====
-- A core on a flat memory of bytes, and runs of it on concrete inputs.
use rp2350js.Base.{ℕ, ◌+◌, ◌-◌, ◌*◌, ◌/◌, ◌%◌, ◌^◌, ◌≤◌, ◌≡◌, refl, arith, true, false, [], ◌&&◌}
use rp2350js.Base.{if◌then◌else◌, not32, leb, ◌==◌}
use rp2350js.M0.State.{Bus, Core, thread, sp_main}
use rp2350js.M0.Instr.{Instr}
use rp2350js.M0.Decode.{decode}
use rp2350js.Assembler.StoZ.{opcode_subs_reg}
use rp2350js.M0.Assemble.Check.{decode_word}
use rp2350js.M0.Assemble.RoundTrip.{decode-assemble}
use rp2350js.M0.Flags.{add_update_flags, subtract_update_flags}
use rp2350js.M0.Flags.Laws.{IsSum, add_update_flags-IsSum, subtract_update_flags-IsSum}
use rp2350js.M0.Alu.{exec_movs, exec_adds2, exec_subs_reg}
use rp2350js.M0.Flags.{set_nz}
use rp2350js.M0.Memory.{exec_str, cycles_io}
use rp2350js.M0.Execute.{step_awake, warn_unimplemented, fetch, poll, execute}
use rp2350js.M0.Execute.{execute_instruction, execute_instructions_up_to}
use rp2350js.M0.Execute.Cycles.{cycles-execute_instruction}
use rp2350js.Base.{◌<◌, u32, low_bits}
use rp2350js.M0.State.{add_pc, set1, check_condition}
use rp2350js.M0.Alu.{exec_cmp_reg}
use rp2350js.M0.Flags.Compare.{Compares, exec_cmp_reg-Compares}
use rp2350js.Assembler.AtoK.{opcode_bl, opcode_bt1, opcode_bt2}
use rp2350js.M0.Assemble.Branches.{execute-opcode_bl}
use rp2350js.M0.Assemble.ShortBranches.{execute-opcode_bt1, execute-opcode_bt2}
use rp2350js.M0.Assemble.ShortBranches.{decode-opcode_bt1_back}
use rp2350js.M0.Exception.Entry.{exception_entry}
use rp2350js.M0.Exception.Select.{Pending, irq, systick, number, acknowledge}
use rp2350js.M0.Exception.Select.{first_pending, level_pending, exception_priority}
use rp2350js.M0.Exception.Select.{check_for_interrupts, take_pending}
use rp2350js.M0.Exception.Select.Level.{IsPending, level}
use rp2350js.M0.Exception.Select.Least.{enabled, ceiling, check_for_interrupts-takes_least}
use rp2350js.M0.Exception.Select.Least.{check_for_interrupts-none_above}

abbrev Bytes : Type 0
Bytes = ℕ → ℕ

-- the n lowest bytes of x, from address a on
abbrev write : ℕ → Bytes → ℕ → ℕ → Bytes
write n m a x j = if leb a j && leb (j + 1) (a + n) then x / 256 ^ (j - a) % 256 else m j

abbrev read16 : Bytes → ℕ → ℕ
read16 m a = m a + m (a + 1) * 256

abbrev flat : Bus Bytes
flat = record {
  read32 = λ m a. (read16 m a + read16 m (a + 2) * 2 ^ 16, m);
  read16 = λ m a. (read16 m a, m);
  read8 = λ m a. (m a, m);
  write32 = λ m a x. write 4 m a x;
  write16 = λ m a x. write 2 m a x;
  write8 = λ m a x. write 1 m a x;
  added = λ m a x. if a == 0xd0000064 then 8 else 0;
  read_inputs = λ m a i. i;
  write_inputs = λ m a x i. i;
  thrown = λ m. false;
}

-- movs r0, #5; adds r0, #3; subs r1, r0, r0; b .-2 at address 0x100
abbrev program : Bytes
program = write 8 (λ _. 0) 0x100 0xe7fd1a0130032005

abbrev start : Core Bytes
start = record {
  regs = λ i. if i == 15 then 0x100 else if i == 13 then 0x800 else 0;
  banked_sp = 0x400;
  cycles = 0;
  added_cycles = 0;
  event_registered = false;
  waiting = false;
  n = false;
  c = false;
  z = false;
  v = false;
  break_rewind = 0;
  pm = false;
  spsel = sp_main;
  n_priv = false;
  current_mode = thread;
  ipsr = 0;
  pending_interrupts = 0;
  enabled_interrupts = 0;
  interrupt_priorities = λ i. if i == 0 then 0xffffffff else 0;
  pending_nmi = false;
  pending_pend_sv = false;
  pending_sv_call = false;
  pending_systick = false;
  interrupts_updated = false;
  vtor = 0;
  shpr2 = 0;
  shpr3 = 0;
  mem = program;
  other = record { waiting = true; event_registered = false };
  events = [];
}

program-runs : (execute_instructions_up_to flat 3 start).regs 0 ≡ 8
unfolding execute_instructions_up_to execute_instruction step_awake warn_unimplemented decode fetch
    poll execute exec_movs set_nz exec_adds2 add_update_flags exec_subs_reg subtract_update_flags
program-runs = refl

add_update_flags-IsSum_example :
    let (r, s) = add_update_flags 0x80000000 0x80000001 start in IsSum 0x80000000 0x80000001 0 r s
add_update_flags-IsSum_example =
    add_update_flags-IsSum 0x80000000 0x80000001 start (omega arith) (omega arith)

subtract_update_flags-IsSum_example :
    let (r, s) = subtract_update_flags 3 5 start in IsSum 3 (not32 5) 1 r s
subtract_update_flags-IsSum_example =
    subtract_update_flags-IsSum 3 5 start (omega arith) (omega arith)

decode-assemble_example : decode_word 0x1a01 ≡ Instr.subs_reg 0 0 1
unfolding opcode_subs_reg
decode-assemble_example =
    decode-assemble (Instr.subs_reg 0 0 1) 0x1a01 (omega arith, omega arith, omega arith) refl

-- str r0, [r1] at address 0x100, with the SIO's DIV_UDIVISOR in r1
abbrev dividing : Core Bytes
dividing = record start {
  regs = λ i. if i == 15 then 0x100 else if i == 1 then 0xd0000064 else 7;
  mem = write 2 (λ _. 0) 0x100 0x6008;
}

cycles-execute_instruction_example :
    let (d, s) = execute_instruction flat dividing in
    (s.cycles + 0 ≡ 0 + d + s.added_cycles) × (0 ≤ s.added_cycles) × (1 ≤ d)
cycles-execute_instruction_example = cycles-execute_instruction flat dividing

divider-added : (execute_instruction flat dividing).1.cycles ≡ 9
unfolding execute_instruction step_awake warn_unimplemented decode fetch poll execute exec_str
    cycles_io
divider-added = refl

exec_cmp_reg-Compares_example : Compares (exec_cmp_reg 13 15 start) 0x100 0x800
exec_cmp_reg-Compares_example = exec_cmp_reg-Compares 13 15 start (omega arith) (omega arith)

-- The core with PC moved on by 2, as in the branch of an instruction at 0x100.
abbrev moved_on : Core Bytes
moved_on = add_pc 2 start

execute-opcode_bl_example :
    let s = (execute flat 0x100 (decode_word (opcode_bl 0xfffffe00)) moved_on).0 in
    (s.regs 15 ≡ u32 (0x100 + 4 + 0xfffffe00)) × (s.regs 14 ≡ set1 (u32 (0x100 + 4)))
execute-opcode_bl_example =
    execute-opcode_bl flat 0xfffffe00 0x100 moved_on (omega arith) (omega arith) (omega arith) refl

execute-opcode_bt2_example :
    (execute flat 0x100 (decode_word (opcode_bt2 0xfffffffa)) moved_on).0.regs 15
    ≡ u32 (0x100 + 4 + 0xfffffffa)
execute-opcode_bt2_example =
    execute-opcode_bt2 flat 0xfffffffa 0x100 moved_on (omega arith) (omega arith) (omega arith) refl

execute-opcode_bt1_example :
    (execute flat 0x100 (decode_word (opcode_bt1 1 0x20)) moved_on).0.regs 15
    ≡ (if check_condition moved_on 1 then u32 (0x100 + 4 + 0x20) else 0x100 + 2)
execute-opcode_bt1_example =
    execute-opcode_bt1 flat 1 0x20 0x100 moved_on (omega arith) (omega arith) (omega arith) refl

decode-opcode_bt1_back_example :
    decode_word (opcode_bt1 0 0xfffffff8) ≡ Instr.b_cond (0 + 1) (low_bits (0xfffffff8 / 2) 8)
decode-opcode_bt1_back_example =
    decode-opcode_bt1_back 0 0xfffffff8 (omega arith) (omega arith) (omega arith) (omega arith)

-- Interrupts 3 and 5 are pending and enabled, 5 with the higher priority, and SysTick with the
-- lowest.
abbrev interrupted : Core Bytes
interrupted = record start {
  pending_interrupts = 0x28;
  enabled_interrupts = 0xff;
  interrupt_priorities = λ i. if i == 1 then 0x20 else if i == 2 then 0x08 else 0;
  pending_systick = true;
  shpr3 = 0xc0000000;
}

check_for_interrupts-takes_least_example :
    (x : Pending) × ((check_for_interrupts flat interrupted).1
      ≡ exception_entry flat (number x) (acknowledge x interrupted))
    × IsPending interrupted (enabled interrupted) x
    × (level interrupted x < ceiling interrupted)
    × (level interrupted x ≤ level interrupted (irq 3))
unfolding check_for_interrupts first_pending level_pending take_pending exception_priority
check_for_interrupts-takes_least_example =
    check_for_interrupts-takes_least flat interrupted (irq 3) refl (omega arith) (omega arith) refl
      (omega arith, refl)

-- In a handler of SVCall, which has priority 0, nothing is taken.
check_for_interrupts-none_above_example :
    ceiling (record interrupted { ipsr = 11 }) ≤ level (record interrupted { ipsr = 11 }) systick
unfolding check_for_interrupts first_pending level_pending take_pending exception_priority
check_for_interrupts-none_above_example =
    check_for_interrupts-none_above flat (record interrupted { ipsr = 11 }) systick refl
      (omega arith) (omega arith) refl refl
