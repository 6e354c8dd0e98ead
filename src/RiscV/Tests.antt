-- ===== src/RiscV/Tests.antt =====
-- Cores, entries and interrupts at which the theorems are applied.
use rp2350js.Base.{
  ℕ, ◌+◌, ◌*◌, ◌^◌, ◌<◌, ◌≡◌, ◌⊎◌, ◌&&◌, refl, arith, Bool, true, false, some, none, [], ◌==◌,
}
use rp2350js.Base.{u32, test_bit, low_bits, if◌then◌else◌}
use rp2350js.M0.State.{Bus}
use rp2350js.RiscV.Execute.{advance, Code, execute_instructions_up_to}
use rp2350js.RiscV.Execute.Cycles.Loop.{grown, execute_instructions_up_to-reaches}
use rp2350js.RiscV.State.{Core, Sibling, reg}
use rp2350js.RiscV.Tags.{
  t_mul, t_mulh, t_mulhsu, t_mulhu, t_div, t_rem, t_divu, t_remu, t_lr_w, t_addi,
}
use rp2350js.RiscV.Decode.{decode_word}
use rp2350js.RiscV.Decode.Fields.{emit, len_32}
use rp2350js.RiscV.Decode.Expand.{expand}
use rp2350js.RiscV.Decode.Expand.Same.{decode_word-expand}
use rp2350js.RiscV.Alu.{op_value}
use rp2350js.RiscV.Alu.Multiply.{sext64, Words, op_value-product}
use rp2350js.RiscV.Alu.Divide.{IsSignedDivision, IsDivision, op_value-IsDivision}
use rp2350js.RiscV.Irq.{
  set_interrupt, set_interrupt_enabled, set_priority, set_forced, update_meinext,
}
use rp2350js.RiscV.Irq.{has_irq}
use rp2350js.RiscV.Irq.Ordered.{is_ordered, has_priorities}
use rp2350js.RiscV.Irq.Listed.{IsWellFormed}
use rp2350js.RiscV.Irq.Listed.Keep.{interrupts-IsWellFormed}
use rp2350js.RiscV.Irq.Highest.{ShowsNone, ShowsMostUrgent, update_meinext-shows}
use rp2350js.RiscV.Trap.{trap_entry, exec_mret, external, reset_csrs}
use rp2350js.RiscV.Trap.{fire_sev, exec_block}
use rp2350js.RiscV.Trap.Return.{trap_entry-exec_mret}
use rp2350js.RiscV.Trap.Events.{fire_sev-exec_block}
use rp2350js.RiscV.Amo.{exec_amo, exec_sc}
use rp2350js.RiscV.Amo.Reservations.{System, Step, Reach, by_left, by_right, IsExclusive}
use rp2350js.RiscV.Amo.Reservations.{reservations-IsExclusive}
use rp2350js.RiscV.Amo.Reservations.Race.{sc_race}
use rp2350js.RiscV.Execute.{tag_field, rd_field, rs1_field, rs2_field, is_long, imm_field}
use rp2350js.RiscV.Execute.Packed.{emit-fields}

-- C.ADDI x10, 1 stands for ADDI x10, x10, 1.
decode_word-expand_example :
    (p : ℕ) × (decode_word 0x505 ≡ some p) × (decode_word 0x150513 ≡ some (p + len_32))
unfolding expand
decode_word-expand_example = decode_word-expand 0x505 0x150513 (omega arith) refl

op_value-product_example :
    (lo ss su uu : ℕ) × (op_value t_mul 0xfffffffe 3 ≡ some lo)
    × (op_value t_mulh 0xfffffffe 3 ≡ some ss)
    × (op_value t_mulhsu 0xfffffffe 3 ≡ some su)
    × (op_value t_mulhu 0xfffffffe 3 ≡ some uu)
    × Words (sext64 0xfffffffe * sext64 3) lo ss
    × Words (sext64 0xfffffffe * 3) lo su
    × Words (0xfffffffe * 3) lo uu
op_value-product_example = op_value-product 0xfffffffe 3 (omega arith) (omega arith)

op_value-IsDivision_example :
    (q r qu ru : ℕ) × (op_value t_div 0xfffffff9 2 ≡ some q)
    × (op_value t_rem 0xfffffff9 2 ≡ some r)
    × (op_value t_divu 0xfffffff9 2 ≡ some qu)
    × (op_value t_remu 0xfffffff9 2 ≡ some ru)
    × IsSignedDivision 0xfffffff9 2 q r
    × IsDivision 0xfffffff9 2 qu ru
op_value-IsDivision_example = op_value-IsDivision 0xfffffff9 2 (omega arith) (omega arith)

abbrev asleep : Sibling
asleep = record {
  waiting = false;
  waiting_on_block = false;
  event_registered = false;
  lr_addr = none;
}

-- every interrupt enabled and none pending
abbrev core : Core (ℕ → ℕ)
core = record {
  regs = λ i. 0x20000000;
  csrs = reset_csrs;
  pc = 0x100;
  next_pc = 0;
  inst_length = 4;
  cycles = 0;
  mhartid = 0;
  waiting = false;
  waiting_on_block = false;
  event_registered = false;
  interrupts_updated = false;
  meiea = λ i. true;
  meipa = λ i. false;
  meifa = λ i. false;
  meipra = λ i. 0;
  candidates = [];
  did_just_jump = false;
  lr_addr = none;
  btb = none;
  mem = λ a. 0;
  other = asleep;
  events = [];
}

core-IsWellFormed : IsWellFormed core
unfolding IsWellFormed is_ordered has_irq has_priorities
core-IsWellFormed = (refl, (λ j. refl), refl)

interrupts-IsWellFormed_example :
    ((v : Bool) → IsWellFormed (set_interrupt 5 v core))
    × ((v : Bool) → IsWellFormed (set_interrupt_enabled 5 v core))
    × ((p : ℕ) → IsWellFormed (set_priority 5 p core))
    × ((b : Bool) → IsWellFormed (set_forced 5 b core))
interrupts-IsWellFormed_example = interrupts-IsWellFormed core 5 core-IsWellFormed

abbrev pending : Core (ℕ → ℕ)
pending = set_interrupt 5 true core

update_meinext-shows_example :
    ShowsNone pending (update_meinext pending)
    ⊎ ((i : ℕ) × ShowsMostUrgent pending (update_meinext pending) i)
update_meinext-shows_example =
    update_meinext-shows pending ((interrupts-IsWellFormed core 5 core-IsWellFormed).0 true)

emit-fields_example :
    (p : ℕ) × (p ≡ emit t_addi 10 10 0 0x1fffff (if true then len_32 else 0))
    × (p < 2 ^ 53)
    × (tag_field p ≡ t_addi)
    × (rd_field p ≡ 10)
    × (rs1_field p ≡ 10)
    × (rs2_field p ≡ 0)
    × (is_long p ≡ true)
    × (imm_field p ≡ low_bits 0x1fffff 21)
emit-fields_example =
    emit-fields t_addi 10 10 0 0x1fffff true (omega arith) (omega arith) (omega arith) (omega arith)

trap_entry-exec_mret_example :
    (test_bit ((trap_entry external false core).csrs 0x300) 3 ≡ false)
    × ((trap_entry external false core).csrs 0x342 ≡ u32 external)
    × ((advance (exec_mret (trap_entry external false core))).pc ≡ 0x100)
    × ((advance (exec_mret (trap_entry external false core))).did_just_jump ≡ true)
    × (test_bit ((advance (exec_mret (trap_entry external false core))).csrs 0x300) 3
        ≡ test_bit (core.csrs 0x300) 3)
trap_entry-exec_mret_example =
    trap_entry-exec_mret external core (trap_entry external false core) (omega arith) (omega arith)
      refl refl

-- words only
abbrev words : Bus (ℕ → ℕ)
words = record {
  read32 = λ m a. (m a, m);
  read16 = λ m a. (m a, m);
  read8 = λ m a. (m a, m);
  write32 = λ m a x b. if b == a then u32 x else m b;
  write16 = λ m a x b. if b == a then x else m b;
  write8 = λ m a x b. if b == a then x else m b;
  added = λ m a x. 0;
  read_inputs = λ m a i. i;
  write_inputs = λ m a x i. i;
  thrown = λ m. false;
}

abbrev both : System (ℕ → ℕ)
both = record { left = core; right = core; mem = λ a. 0 }

abbrev reserved : System (ℕ → ℕ)
reserved = by_left (exec_amo words t_lr_w 10 11 0) both

reserved-Reach : Reach words reserved
reserved-Reach = Reach.later (Reach.start refl refl) (Step.left_amo t_lr_w 10 11 0)

reservations-IsExclusive_example : IsExclusive reserved.left.lr_addr reserved.right.lr_addr
reservations-IsExclusive_example = reservations-IsExclusive words reserved reserved-Reach

sc_race_example :
    ((by_left (exec_sc words 10 11 12) reserved).mem
      ≡ words.write32 reserved.mem (reg reserved.left 11) (reg reserved.left 12))
    × ((by_right (exec_sc words 10 11 12) (by_left (exec_sc words 10 11 12) reserved)).mem
        ≡ (by_left (exec_sc words 10 11 12) reserved).mem)
unfolding by_left exec_amo
sc_race_example = sc_race words reserved 10 11 12 10 11 12 reserved-Reach refl refl

-- The right core sleeps in h3.block.
abbrev blocked : System (ℕ → ℕ)
blocked = record {
  left = core;
  right = record core { waiting = true; waiting_on_block = true };
  mem = λ a. 0;
}

fire_sev-exec_block_example :
    (((blocked.right.waiting && blocked.right.waiting_on_block) ≡ true)
      × ((by_left fire_sev blocked).right.waiting ≡ false))
    ⊎ (((blocked.right.waiting && blocked.right.waiting_on_block) ≡ false)
        × (exec_block (by_left fire_sev blocked).right
            ≡ record blocked.right { event_registered = false }))
fire_sev-exec_block_example = fire_sev-exec_block blocked

-- every address holds `addi x10, x10, 1`
abbrev counting : Code (ℕ → ℕ)
counting = record { entry = λ m a. some (emit t_addi 10 10 0 1 len_32, m) }

execute_instructions_up_to-reaches_example :
    grown 3 (execute_instructions_up_to words counting 3 core) ≡ true
execute_instructions_up_to-reaches_example =
    execute_instructions_up_to-reaches words counting 3 core
