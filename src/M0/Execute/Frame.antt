-- ===== src/M0/Execute/Frame.antt =====
-- The cycle counter and the registers in the parts of `executeInstruction` that loop or branch.
use rp2350js.Base.{
  ℕ, zero, suc, ◌+◌, ◌≡◌, ◌≤◌, refl, arith, ltb, ◌==◌, false, Option, some, none, bit_and, two32,
  inl, inr, Bool-cases, not, ◌&&◌, shr, low_bits, sub32, ◌*◌,
}
use rp2350js.M0.State.{
  is_thread, Bus, Core, Bank, switch_stack, check_condition, load8, load16, load32, sp, set_sp,
}
use rp2350js.M0.Exception.Entry.{bx_write_pc, exception_return, exception_entry}
use rp2350js.M0.Exception.Entry.{make_frame, push_frame, select_stack, pop_frame, finish_return}
use rp2350js.M0.Exception.Select.{Pending, take_pending, check_for_interrupts, sv_call, pend_sv}
use rp2350js.M0.Exception.Select.{systick, irq, first_pending, current_priority}
use rp2350js.Base.Int.{pos_part}
use rp2350js.M0.Memory.{Walk, load_loop, store_loop}
use rp2350js.M0.Control.{read_tag, check_trace_magic, read_special_register, write_special_register}
use rp2350js.M0.Control.{fire_sev, exec_wfe, exec_b_cond, exec_pop}
use rp2350js.M0.Memory.{exec_ldmia, exec_stmia, exec_push, bit_count}
use rp2350js.M0.Alu.{exec_add_reg, exec_mov}

-- From the one state to the other the counter grows by what `addCycles` gets, and by no more.
pub record Counted {M : Type 0} (s t : Core M) : Type 0 where
  pub kept : t.cycles + s.added_cycles ≡ s.cycles + t.added_cycles
  pub grows : s.added_cycles ≤ t.added_cycles

pub follow : {M : Type 0} {s t u : Core M} → Counted s t → Counted t u → Counted s u
follow h k = record {
  kept = omega (arith, h.kept, k.kept);
  grows = omega (arith, h.grows, k.grows);
}

module _ {M : Type 0} where
  pub cycles_add_reg : (rm rdn : ℕ) (s : Core M) → Counted s (exec_add_reg rm rdn s).0
  unfolding exec_add_reg
  cycles_add_reg rm rdn s = ground arith

  pub cycles_mov : (rm rd : ℕ) (s : Core M) → Counted s (exec_mov rm rd s).0
  unfolding exec_mov
  cycles_mov rm rd s = ground arith

  pub cycles_b_cond : (cond imm8 : ℕ) (s : Core M) → Counted s (exec_b_cond cond imm8 s).0
  unfolding exec_b_cond
  cycles_b_cond cond imm8 s = elim (Bool-cases (check_condition s cond)) [
    | inl e ↦ rw e (record { kept = refl; grows = omega arith })
    | inr e ↦ rw e (record { kept = refl; grows = omega arith })
  ]

  pub cycles_wfe : (s : Core M) → Counted s (exec_wfe s).0
  unfolding exec_wfe
  cycles_wfe s = ground arith

  pub cycles-fire_sev : (s : Core M) → Counted s (fire_sev s)
  unfolding fire_sev
  cycles-fire_sev s = ground arith

  cycles-switch_stack : (b : Bank) (s : Core M) → Counted s (switch_stack b s)
  unfolding switch_stack
  cycles-switch_stack b s = ground arith

  pub cycles-read_special_register : (k : ℕ) (s : Core M) → Counted s (read_special_register k s).1
  unfolding read_special_register
  cycles-read_special_register k s = ground arith

  pub cycles-write_special_register :
      (k x : ℕ) (s : Core M) → Counted s (write_special_register k x s)
  unfolding write_special_register
  cycles-write_special_register k x s = ground arith

module _ {M : Type 0} (bus : Bus M) where
  cycles-read_tag : (n i : ℕ) (s : Core M) → Counted s (read_tag bus n i s).1
  unfolding read_tag
  cycles-read_tag zero i s = record { kept = refl; grows = omega arith }
  cycles-read_tag (suc n) i s =
      let s' = (load8 bus i s).1 in
      elim (Bool-cases ((load8 bus i s).0 == 0)) [
        | inl e ↦ rw e (record { kept = refl; grows = omega arith })
        | inr e ↦
            rw e (let h = cycles-read_tag n (i + 1) s' in record { kept = h.kept; grows = h.grows })
      ]

  pub cycles-check_trace_magic : (a : ℕ) (s : Core M) → Counted s (check_trace_magic bus a s)
  unfolding check_trace_magic
  cycles-check_trace_magic a s =
      let (x, s1) = load16 bus (a + 2) s in
      let (y, s2) = load16 bus (a + 4) s1 in
      elim (Bool-cases (x == 0xabcd)) [
        | inl e ↦ elim (Bool-cases (y == 0xffff)) [
          | inl f ↦
              rw (e, f)
                (let h = cycles-read_tag two32 (a + 6) s2 in
                  record { kept = h.kept; grows = h.grows })
          | inr f ↦ rw (e, f) (record { kept = refl; grows = omega arith })
        ]
        | inr e ↦ rw e (record { kept = refl; grows = omega arith })
      ]

  regs-read_tag : (n i : ℕ) (s : Core M) → (read_tag bus n i s).1.regs ≡ s.regs
  unfolding read_tag
  regs-read_tag zero i s = refl
  regs-read_tag (suc n) i s =
      let s' = (load8 bus i s).1 in
      elim (Bool-cases ((load8 bus i s).0 == 0)) [
        | inl e ↦ rw e refl
        | inr e ↦ rw e (regs-read_tag n (i + 1) s')
      ]

  pub regs-check_trace_magic : (a : ℕ) (s : Core M) → (check_trace_magic bus a s).regs ≡ s.regs
  unfolding check_trace_magic
  regs-check_trace_magic a s =
      let (x, s1) = load16 bus (a + 2) s in
      let (y, s2) = load16 bus (a + 4) s1 in
      elim (Bool-cases (x == 0xabcd)) [
        | inl e ↦ elim (Bool-cases (y == 0xffff)) [
          | inl f ↦ rw (e, f) (regs-read_tag two32 (a + 6) s2)
          | inr f ↦ rw (e, f) refl
        ]
        | inr e ↦ rw e refl
      ]

  pub cycles-load_loop : (n i k : ℕ) (w : Walk M) → Counted w.core (load_loop bus n i k w).core
  unfolding load_loop
  cycles-load_loop zero i k w = record { kept = refl; grows = omega arith }
  cycles-load_loop (suc n) i k w = follow (ground arith) (cycles-load_loop n (i + 1) k _)

  pub cycles-store_loop : (n i k : ℕ) (w : Walk M) → Counted w.core (store_loop bus n i k w).core
  unfolding store_loop
  cycles-store_loop zero i k w = record { kept = refl; grows = omega arith }
  cycles-store_loop (suc n) i k w = follow (ground arith) (cycles-store_loop n (i + 1) k _)

  pub cycles_ldmia : (rn k : ℕ) (s : Core M) → Counted s (exec_ldmia bus rn k s).0
  unfolding exec_ldmia
  cycles_ldmia rn k s =
      ground (arith, cycles-load_loop 8 0 k (record { core = s; address = s.regs rn; delta = 0 }))

  pub cycles_stmia : (rn k : ℕ) (s : Core M) → Counted s (exec_stmia bus rn k s).0
  unfolding exec_stmia
  cycles_stmia rn k s =
      ground (arith, cycles-store_loop 8 0 k (record { core = s; address = s.regs rn; delta = 0 }))

  cycles-exception_return : (x : ℕ) (s : Core M) → Counted s (exception_return bus x s)
  unfolding exception_return select_stack pop_frame finish_return switch_stack
  cycles-exception_return x s = ground arith

  pub cycles-bx_write_pc : (x : ℕ) (s : Core M) → Counted s (bx_write_pc bus x s)
  unfolding bx_write_pc
  cycles-bx_write_pc x s =
      elim (Bool-cases (not (is_thread s.current_mode) && (shr x 28 == 0b1111))) [
        | inl e ↦ rw e (cycles-exception_return (low_bits x 28) s)
        | inr e ↦ rw e (record { kept = refl; grows = omega arith })
      ]

  pub cycles_pop : (p k : ℕ) (s : Core M) → Counted s (exec_pop bus p k s).0
  unfolding exec_pop
  cycles_pop p k s =
      let w = load_loop bus 8 0 k (record { core = s; address = sp s; delta = 0 }) in
      let h = cycles-load_loop 8 0 k (record { core = s; address = sp s; delta = 0 }) in
      let (target, s2) = load32 bus w.address (set_sp (w.address + 4) w.core) in
      let b = cycles-bx_write_pc target s2 in
      elim (Bool-cases (ltb 0 p)) [
        | inl e ↦ rw e (follow h (record { kept = b.kept; grows = b.grows }))
        | inr e ↦ rw e (record { kept = h.kept; grows = h.grows })
      ]

  pub cycles_push : (m k : ℕ) (s : Core M) → Counted s (exec_push bus m k s).0
  unfolding exec_push
  cycles_push m k s =
      let start = sub32 (sp s) (4 * (bit_count 8 0 k + m)) in
      let h = cycles-store_loop 8 0 k (record { core = s; address = start; delta = 0 }) in
      elim (Bool-cases (ltb 0 m)) [
        | inl e ↦ rw e (record { kept = omega (arith, h.kept); grows = omega (arith, h.grows) })
        | inr e ↦ rw e (record { kept = h.kept; grows = h.grows })
      ]

  cycles-exception_entry : (n : ℕ) (s : Core M) → Counted s (exception_entry bus n s)
  unfolding exception_entry make_frame push_frame switch_stack
  cycles-exception_entry n s = ground arith

  cycles-take_pending : (o : Option Pending) (s : Core M) → Counted s (take_pending bus o s).1
  unfolding take_pending
  cycles-take_pending none s = record { kept = refl; grows = omega arith }
  cycles-take_pending (some sv_call) s =
      let h = cycles-exception_entry 11 _ in record { kept = h.kept; grows = h.grows }
  cycles-take_pending (some pend_sv) s =
      let h = cycles-exception_entry 14 _ in record { kept = h.kept; grows = h.grows }
  cycles-take_pending (some systick) s =
      let h = cycles-exception_entry 15 _ in record { kept = h.kept; grows = h.grows }
  cycles-take_pending (some (irq n)) s =
      let h = cycles-exception_entry (16 + n) _ in record { kept = h.kept; grows = h.grows }

  pub cycles-check_for_interrupts : (s : Core M) → Counted s (check_for_interrupts bus s).1
  unfolding check_for_interrupts
  cycles-check_for_interrupts s = ground (
    arith,
    cycles-exception_entry 2 (record s { pending_nmi = false }),
    cycles-take_pending (first_pending s set (pos_part (current_priority s)) 0) s,
  )
    where
      set : ℕ
      set = bit_and s.pending_interrupts s.enabled_interrupts
