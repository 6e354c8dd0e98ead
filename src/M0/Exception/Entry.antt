-- ===== src/M0/Exception/Entry.antt =====
-- cortex-m0-core.ts: exception entry and return, and the branch that may return from one.
pub mod Frame
pub mod Status
use rp2350js.Base.{ℕ, ◌+◌, ◌-◌, ◌*◌, ◌^◌, Bool, true, not, ◌&&◌, bit_or, if◌then◌else◌}
use rp2350js.Base.{u32, sub32, low_bits, shr, test_bit, to_num, ◌==◌}
use rp2350js.M0.State.{Bus, Core, thread, handler, sp_main, sp_process, reg, set_reg}
use rp2350js.M0.State.{lr, set_lr, pc, set_pc, clear1, set_apsr, xpsr, is_process}
use rp2350js.M0.State.{is_thread, switch_stack, process_sp, set_process_sp, main_sp, set_main_sp}
use rp2350js.M0.State.{load32, store32}

-- x & ~0b100, and x with bit 9 replaced by `bit`
abbrev pub clear_bit2 : ℕ → ℕ
clear_bit2 x = if test_bit x 2 then x - 4 else x

abbrev pub with_bit9 : ℕ → ℕ → ℕ
with_bit9 x bit = (if test_bit x 9 then x - 2 ^ 9 else x) + bit * 2 ^ 9

module _ {M : Type 0} where
  abbrev pub use_process : Core M → Bool
  use_process s = is_process s.spsel && is_thread s.current_mode

  -- the stack pointer moved down and aligned to 8, the frame's address, and its alignment bit
  unfoldable pub make_frame : Core M → Core M × ℕ × ℕ
  make_frame s =
      if use_process s
      then (let align = to_num (test_bit (process_sp s) 2) in
          let s' = set_process_sp (clear_bit2 (sub32 (process_sp s) 0x20)) s in
          (s', process_sp s', align))
      else (let align = to_num (test_bit (main_sp s) 2) in
          let s' = set_main_sp (clear_bit2 (sub32 (main_sp s) 0x20)) s in (s', main_sp s', align))

  -- EXC_RETURN
  abbrev pub exc_return : Core M → ℕ
  exc_return s =
      if is_thread s.current_mode
      then (if is_process s.spsel then 0xfffffffd else 0xfffffff9)
      else 0xfffffff1

  -- the stack that `excReturn & 0xf` names, made current
  unfoldable pub select_stack : ℕ → Core M → Core M × ℕ
  unfolding switch_stack
  select_stack k s =
      if k == 0b0001
      then (switch_stack sp_main (record s { current_mode = handler }), main_sp s)
      else if k == 0b1001
      then (switch_stack sp_main (record s { current_mode = thread }), main_sp s)
      else if k == 0b1101
      then (switch_stack sp_process (record s { current_mode = thread }), process_sp s)
      else (s, main_sp s)

  -- the stack pointer moved up, with the alignment bit or-ed back in
  unfoldable pub release_frame : ℕ → ℕ → Core M → Core M
  release_frame k align s =
      if k == 0b0001
      then set_main_sp (bit_or (u32 (main_sp s + 0x20)) align) s
      else if k == 0b1001
      then set_main_sp (bit_or (u32 (main_sp s + 0x20)) align) s
      else if k == 0b1101
      then set_process_sp (bit_or (u32 (process_sp s + 0x20)) align) s
      else s

  -- the stack pointer, the flags and the exception number after the loads
  unfoldable pub finish_return : ℕ → ℕ → Core M → Core M
  unfolding release_frame
  finish_return k psr s =
      let s1 = release_frame k (if test_bit psr 9 then 0b100 else 0) s in
      let s2 = set_apsr psr s1 in
      let force_thread = is_thread s2.current_mode && s2.n_priv in
      record s2 {
        ipsr = if force_thread then 0 else low_bits psr 6;
        interrupts_updated = true;
        event_registered = true;
      }

module _ {M : Type 0} (bus : Bus M) where
  -- the eight stores of the frame
  unfoldable pub push_frame : ℕ → ℕ → Core M → Core M
  push_frame frame align s0 =
      let s1 = store32 bus frame (reg s0 0) s0 in
      let s2 = store32 bus (frame + 0x4) (reg s1 1) s1 in
      let s3 = store32 bus (frame + 0x8) (reg s2 2) s2 in
      let s4 = store32 bus (frame + 0xc) (reg s3 3) s3 in
      let s5 = store32 bus (frame + 0x10) (reg s4 12) s4 in
      let s6 = store32 bus (frame + 0x14) (lr s5) s5 in
      let s7 = store32 bus (frame + 0x18) (clear1 (pc s6)) s6 in
      store32 bus (frame + 0x1c) (with_bit9 (xpsr s7) align) s7

  unfoldable pub exception_entry : ℕ → Core M → Core M
  exception_entry number s =
      let (s1, frame, align) = make_frame s in
      let s2 = push_frame frame align s1 in
      let s3 = set_lr (exc_return s2) s2 in
      let s4 = switch_stack sp_main (record s3 { current_mode = handler; ipsr = number }) in
      let s5 = record s4 { event_registered = true } in
      let (target, s6) = load32 bus (s5.vtor + 4 * number) s5 in set_pc target s6

  -- the eight loads of the frame; the last one is returned
  unfoldable pub pop_frame : ℕ → Core M → ℕ × Core M
  pop_frame frame s0 =
      let (x0, t0) = load32 bus frame s0 in
      let (x1, t1) = load32 bus (frame + 0x4) (set_reg 0 x0 t0) in
      let (x2, t2) = load32 bus (frame + 0x8) (set_reg 1 x1 t1) in
      let (x3, t3) = load32 bus (frame + 0xc) (set_reg 2 x2 t2) in
      let (x12, t4) = load32 bus (frame + 0x10) (set_reg 3 x3 t3) in
      let (x14, t5) = load32 bus (frame + 0x14) (set_reg 12 x12 t4) in
      let (x15, t6) = load32 bus (frame + 0x18) (set_lr x14 t5) in
      load32 bus (frame + 0x1c) (set_pc x15 t6)

  unfoldable pub exception_return : ℕ → Core M → Core M
  exception_return exc s =
      let k = low_bits exc 4 in
      let (s1, frame) = select_stack k s in
      let (psr, s2) = pop_frame frame s1 in finish_return k psr s2

  unfoldable pub bx_write_pc : ℕ → Core M → Core M
  bx_write_pc address s =
      if not (is_thread s.current_mode) && (shr address 28 == 0b1111)
      then exception_return (low_bits address 28) s
      else set_pc (clear1 address) s
