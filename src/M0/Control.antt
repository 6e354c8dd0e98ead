-- ===== src/M0/Control.antt =====
-- cortex-m0-core.ts, `executeInstruction`: the branches, calls, breakpoints, special registers,
-- POP, events and hints. The second part of a result is what is added to `deltaCycles`.
use rp2350js.Base.{ℕ, zero, suc, ◌+◌, ◌-◌, ◌*◌, ◌^◌, Bool, true, false}
use rp2350js.Base.{List, [], ◌∷◌, if◌then◌else◌, bit_xor, u32, sub32, two32, low_bits}
use rp2350js.Base.{test_bit, to_num, ltb, ◌==◌}
use rp2350js.M0.State.{Bus, Core, on_break, bl_taken, trace, warn_special}
use rp2350js.M0.State.{sp_main, sp_process, is_process, is_thread}
use rp2350js.M0.State.{reg, set_reg, sp, set_sp, pc, set_pc, add_pc, set_lr, emit, clear1, set1}
use rp2350js.M0.State.{apsr, set_apsr, xpsr, set_xpsr, main_sp, set_main_sp, process_sp}
use rp2350js.M0.State.{set_process_sp, switch_stack, check_condition, load16, load8, load32}
use rp2350js.M0.Exception.Entry.{bx_write_pc}
use rp2350js.M0.Memory.{load_loop}

-- `(imm8 & 0x1ff) - 0x200` and `(imm11 & 0x7ff) - 0x800` as patterns: the signed byte offset.
unfoldable pub offset9 : ℕ → ℕ
offset9 imm8 = let x = imm8 * 2 in if test_bit x 8 then sub32 (low_bits x 9) 0x200 else x

unfoldable pub offset12 : ℕ → ℕ
offset12 imm11 = let x = imm11 * 2 in if test_bit x 11 then sub32 (low_bits x 11) 0x800 else x

-- the offset of `BL`; the fields of the `|` share no bit
unfoldable pub offset25 : ℕ → ℕ → ℕ → ℕ → ℕ → ℕ
offset25 s imm10 j1 j2 imm11 =
    let i1 = 1 - bit_xor s j1 in
    let i2 = 1 - bit_xor s j2 in
    (if ltb 0 s then 0b11111111 else 0) * 2 ^ 24
    + i1 * 2 ^ 23
    + i2 * 2 ^ 22
    + imm10 * 2 ^ 12
    + imm11 * 2

module _ {M : Type 0} (bus : Bus M) where
  -- The tag of `checkTraceMagicM0`: bytes up to a NUL. The source's loop has no bound; after 2 ^ 32
  -- bytes, where it has gone through all addresses, the tag is cut off here.
  unfoldable pub read_tag : ℕ → ℕ → Core M → List ℕ × Core M
  read_tag zero i s = ([], s)
  read_tag (suc n) i s =
      let (ch, s') = load8 bus i s in
      let rest = read_tag n (i + 1) s' in
      if ch == 0 then ([], s') else (let (tag, s'') = rest in (ch ∷ tag, s''))

  unfoldable pub check_trace_magic : ℕ → Core M → Core M
  check_trace_magic opcode_pc s =
      let (x, s1) = load16 bus (opcode_pc + 2) s in
      if x == 0xabcd
      then (let (y, s2) = load16 bus (opcode_pc + 4) s1 in
          if y == 0xffff
          then (let (tag, s3) = read_tag two32 (opcode_pc + 6) s2 in emit (trace (pc s3) tag) s3)
          else s2)
      else s1

  unfoldable pub exec_b : ℕ → ℕ → Core M → Core M × ℕ
  unfolding offset12
  exec_b opcode_pc imm11 s =
      let s' = check_trace_magic opcode_pc s in (add_pc (offset12 imm11 + 2) s', 1)

  unfoldable pub exec_bx : ℕ → Core M → Core M × ℕ
  exec_bx rm s = (bx_write_pc bus (reg s rm) s, 1)

  unfoldable pub exec_pop : ℕ → ℕ → Core M → Core M × ℕ
  exec_pop p registers s =
      let w = load_loop bus 8 0 registers (record { core = s; address = sp s; delta = 0 }) in
      if ltb 0 p
      then (let s1 = set_sp (w.address + 4) w.core in
          let (target, s2) = load32 bus w.address s1 in (bx_write_pc bus target s2, w.delta + 2))
      else (set_sp w.address w.core, w.delta)

module _ {M : Type 0} where
  unfoldable pub exec_b_cond : ℕ → ℕ → Core M → Core M × ℕ
  unfolding offset9
  exec_b_cond cond imm8 s =
      if check_condition s cond then (add_pc (offset9 imm8 + 2) s, 1) else (s, 0)

  unfoldable pub exec_bl : ℕ → ℕ → ℕ → ℕ → ℕ → Core M → Core M × ℕ
  unfolding offset25
  exec_bl sign imm10 j1 j2 imm11 s =
      let s1 = set_lr (set1 (u32 (pc s + 2))) s in
      let s2 = add_pc (2 + offset25 sign imm10 j1 j2 imm11) s1 in (emit (bl_taken false) s2, 2)

  -- LR is written before the target register is read.
  unfoldable pub exec_blx : ℕ → Core M → Core M × ℕ
  exec_blx rm s =
      let s1 = set_lr (set1 (pc s)) s in
      let s2 = set_pc (clear1 (reg s1 rm)) s1 in (emit (bl_taken true) s2, 1)

  -- BKPT and both forms of UDF
  unfoldable pub exec_break : ℕ → ℕ → Core M → Core M
  exec_break rewind code s = emit (on_break code) (record s { break_rewind = rewind })

  unfoldable pub read_special_register : ℕ → Core M → ℕ × Core M
  read_special_register sysm s =
      if sysm == 0
      then (apsr s, s)
      else if sysm == 3
      then (xpsr s, s)
      else if sysm == 5
      then (s.ipsr, s)
      else if sysm == 16
      then (to_num s.pm, s)
      else if sysm == 8
      then (main_sp s, s)
      else if sysm == 9
      then (process_sp s, s)
      else if sysm == 20
      then (to_num (is_process s.spsel) * 2 + to_num s.n_priv, s)
      else (0, emit (warn_special sysm) s)

  unfoldable pub write_special_register : ℕ → ℕ → Core M → Core M
  unfolding switch_stack
  write_special_register sysm value s =
      if sysm == 0
      then set_apsr value s
      else if sysm == 3
      then set_xpsr value s
      else if sysm == 5
      then record s { ipsr = value }
      else if sysm == 16
      then record s { pm = test_bit value 0; interrupts_updated = true }
      else if sysm == 8
      then set_main_sp value s
      else if sysm == 9
      then set_process_sp value s
      else if sysm == 20
      then (let s' = record s { n_priv = test_bit value 0 } in
          if is_thread s'.current_mode
          then switch_stack (if test_bit value 1 then sp_process else sp_main) s'
          else s')
      else emit (warn_special sysm) s

  unfoldable pub exec_mrs : ℕ → ℕ → Core M → Core M × ℕ
  exec_mrs sysm rd s = let (x, s') = read_special_register sysm s in (add_pc 2 (set_reg rd x s'), 2)

  unfoldable pub exec_msr : ℕ → ℕ → Core M → Core M × ℕ
  exec_msr sysm rn s = (add_pc 2 (write_special_register sysm (reg s rn) s), 2)

  -- DMB, DSB and ISB
  unfoldable pub exec_barrier : Core M → Core M × ℕ
  exec_barrier s = (add_pc 2 s, 2)

  unfoldable pub exec_cps : Bool → Core M → Core M
  exec_cps disable s =
      if disable then record s { pm = true } else record s { pm = false; interrupts_updated = true }

  unfoldable pub fire_sev : Core M → Core M
  fire_sev s =
      if s.other.waiting
      then record s { other = record (s.other) { waiting = false } }
      else record s { other = record (s.other) { event_registered = true } }

  unfoldable pub exec_svc : Core M → Core M
  exec_svc s = record s { pending_sv_call = true; interrupts_updated = true }

  unfoldable pub exec_wfe : Core M → Core M × ℕ
  exec_wfe s =
      if s.event_registered
      then (record s { event_registered = false }, 1)
      else (record s { waiting = true }, 1)

  unfoldable pub exec_wfi : Core M → Core M × ℕ
  exec_wfi s = (record s { waiting = true }, 1)
