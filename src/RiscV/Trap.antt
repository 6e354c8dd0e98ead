-- ===== src/RiscV/Trap.antt =====
-- riscv/cpu.ts: traps and their return, sleep and waking, events, the branch predictor and `reset`.
pub mod Return
pub mod Events
use rp2350js.Base.{ℕ, ◌+◌, ◌*◌, ◌^◌, Bool, true, false, not, ◌&&◌, bit_and, bit_or}
use rp2350js.Base.{Option, some, none, [], two31, not32, low_bits, shr, shl, test_bit, is_neg}
use rp2350js.Base.{ltb, ◌==◌, if◌then◌else◌}
use rp2350js.M0.State.{clear2}
use rp2350js.RiscV.State.{Core, Sibling, put_csr, tick}
use rp2350js.RiscV.Irq.{priority_save, priority_restore, waking_interrupt_pending, no_irq}
use rp2350js.RiscV.Csr.{set_csr}

abbrev pub external : ℕ
external = two31 + 11

abbrev pub reset_vector : ℕ
reset_vector = 0x7dfc

-- the CSRs after `reset`
abbrev pub reset_csrs : ℕ → ℕ
reset_csrs i =
    if i == 0x300
    then 3 * 2 ^ 11
    else if i == 0x301
    then 0x40901105
    else if i == 0x305
    then 0x1fff00
    else if i == 0x320
    then 0x101
    else if i == 0xbe4
    then no_irq
    else if i == 0xbe5
    then 2 ^ 15
    else if i == 0xf11
    then 0x493
    else if i == 0xf12
    then 0x1b
    else if i == 0xf13
    then 0x86fc4e3f
    else 0

-- MSTATUS on a trap: MIE is saved in MPIE, and cleared.
abbrev pub status_in : ℕ → ℕ
status_in m =
    let m1 = bit_and m (not32 (2 ^ 7)) in
    let m2 = bit_or m1 (bit_and (shl m1 4) (2 ^ 7)) in bit_and m2 (not32 (2 ^ 3))

-- MSTATUS on a return: MPP and MIE are cleared, MIE is taken from MPIE, and MPIE is set.
abbrev pub status_out : ℕ → ℕ
status_out m =
    let m1 = bit_and (bit_and m (not32 (3 * 2 ^ 11))) (not32 (2 ^ 3)) in
    bit_or (bit_or m1 (bit_and (shr m1 4) (2 ^ 3))) (2 ^ 7)

abbrev pub trap_target : ℕ → ℕ → ℕ
trap_target mcause mtvec =
    if is_neg mcause && test_bit mtvec 0
    then bit_or (clear2 mtvec) (low_bits mcause 4 * 4)
    else clear2 mtvec

abbrev pub is_at : ℕ → Option ℕ → Bool
is_at x o = elim o [ none ↦ false | some y ↦ x == y ]

module _ {M : Type 0} where
  unfoldable pub reset : Core M → Core M
  reset s = record s {
    pc = reset_vector;
    waiting = false;
    waiting_on_block = false;
    event_registered = false;
    meiea = λ i. false;
    meipa = λ i. false;
    meifa = λ i. false;
    meipra = λ i. 0;
    candidates = [];
    interrupts_updated = false;
    csrs = reset_csrs;
  }

  unfoldable pub trap_entry : ℕ → Bool → Core M → Core M
  trap_entry mcause from_step s =
      let s1 =
        if mcause == external then s else put_csr 0xbe5 (bit_and (s.csrs 0xbe5) (not32 1)) s in
      let s2 = set_csr 0x342 mcause 0 (set_csr 0x341 s1.pc 0 s1) in
      let s3 = set_csr 0x300 (status_in (s2.csrs 0x300)) 0 s2 in
      let target = trap_target mcause (s3.csrs 0x305) in
      tick 2 (
        if from_step
        then record s3 { next_pc = target }
        else record s3 { pc = target; next_pc = 0 })

  -- the branch of MRET in `execSystem`
  unfoldable pub exec_mret : Core M → Core M
  exec_mret s =
      let s1 = set_csr 0x300 (status_out (s.csrs 0x300)) 0 s in
      let s2 = tick 1 (record s1 { next_pc = s1.csrs 0x341 }) in
      record (priority_restore s2) { interrupts_updated = true }

  -- `resolveWakingInterrupt`, whose result is not used
  unfoldable pub resolve_waking_interrupt : Core M → Core M
  resolve_waking_interrupt s =
      if not (waking_interrupt_pending s)
      then s
      else (let s1 =
            if test_bit (s.csrs 0x300) 3 then trap_entry external false (priority_save s) else s in
          record s1 { waiting = false })

  unfoldable pub check_for_interrupts : Core M → Core M
  check_for_interrupts s =
      if not s.interrupts_updated
      then s
      else resolve_waking_interrupt (record s { interrupts_updated = false })

  -- the branch of WFI
  unfoldable pub exec_wfi : Core M → Core M
  exec_wfi s =
      if waking_interrupt_pending s
      then record s { interrupts_updated = true }
      else record s { waiting = true; waiting_on_block = false }

  -- `fireSEV`, on this core and then on the other one
  unfoldable pub fire_sev : Core M → Core M
  fire_sev s =
      let s1 =
        if s.waiting && s.waiting_on_block
        then record s { waiting = false }
        else record s { event_registered = true } in
      let o = s.other in
      let o1 : Sibling =
        if o.waiting && o.waiting_on_block
        then record o { waiting = false }
        else record o { event_registered = true } in
      record s1 { other = o1 }

  -- the branch of H3.BLOCK
  unfoldable pub exec_block : Core M → Core M
  exec_block s =
      if s.event_registered
      then record s { event_registered = false }
      else if waking_interrupt_pending s
      then record s { interrupts_updated = true }
      else record s { waiting = true; waiting_on_block = true }

  -- `h3_branch_cycles`
  unfoldable pub branch_cycles : Bool → Core M → Core M
  branch_cycles taken s =
      let jumped_back = ltb s.next_pc s.pc in
      if is_at s.pc s.btb
      then (if taken && jumped_back then s else tick 1 (record s { btb = none }))
      else if taken
      then (let s1 = tick 1 s in if jumped_back then record s1 { btb = some s.pc } else s1)
      else s
