-- ===== src/M0/State.antt =====
-- cortex-m0-core.ts: the fields of `CortexM0Core`, its accessors, and the chip as the core sees it.
use rp2350js.Base.{ℕ, ◌+◌, ◌*◌, ◌/◌, ◌^◌, Bool, true, false, not, ◌&&◌, List, ◌∷◌}
use rp2350js.Base.{u32, low_bits, test_bit, ◌==◌, if◌then◌else◌, to_num, bit_or}

-- The fields of the core that the registers of the NVIC and of the SCB, and the interrupt lines of
-- the peripherals, set.
pub record Inputs : Type 0 where
  pub pending : ℕ
  pub enabled : ℕ
  pub priorities : ℕ → ℕ
  pub nmi : Bool
  pub pend_sv : Bool
  pub systick : Bool
  pub updated : Bool
  pub vectors : ℕ
  pub sv_priority : ℕ
  pub system_priority : ℕ

-- The chip's memory accesses, which the core calls through `rpchip`. A read may change the chip
-- too, since peripherals have registers that are cleared by reading. An address above 2 ^ 32 is
-- passed as it is; one that the source makes negative is passed as its `>>> 0`.
pub record Bus (M : Type 0) : Type 0 where
  pub read32 : M → ℕ → ℕ × M
  pub read16 : M → ℕ → ℕ × M
  pub read8 : M → ℕ → ℕ × M
  pub write32 : M → ℕ → ℕ → M
  pub write16 : M → ℕ → ℕ → M
  pub write8 : M → ℕ → ℕ → M
  -- What the chip gives to `addCycles` of this core during a write of a value to an address, as the
  -- divider of the SIO does.
  pub added : M → ℕ → ℕ → ℕ
  -- What the chip sets in the core during a read of an address, and during a write.
  pub read_inputs : M → ℕ → Inputs → Inputs
  pub write_inputs : M → ℕ → ℕ → Inputs → Inputs
  -- An access has thrown an error, as the RP2350 does at addresses that are not aligned or not
  -- mapped. What the chip is after that is of no account.
  pub thrown : M → Bool

pub data Mode : Type 0 where
  thread handler : Mode

pub data Bank : Type 0 where
  sp_main sp_process : Bank

-- What the core tells the outside by its callbacks and its logger, the latest first.
pub data Event : Type 0 where
  on_break : ℕ → Event
  bl_taken : Bool → Event
  trace : ℕ → List ℕ → Event
  yielded : Event
  warn_special : ℕ → Event
  warn_opcode : ℕ → ℕ → ℕ → Event

-- The two fields of the other core that `fireSEV` reads and writes.
pub record Sibling : Type 0 where
  pub waiting : Bool
  pub event_registered : Bool

-- `added_cycles` is the part of `cycles` that came by `addCycles`.
pub record Core (M : Type 0) : Type 0 where
  pub regs : ℕ → ℕ
  pub banked_sp : ℕ
  pub cycles : ℕ
  pub added_cycles : ℕ
  pub event_registered : Bool
  pub waiting : Bool
  pub n : Bool
  pub c : Bool
  pub z : Bool
  pub v : Bool
  pub break_rewind : ℕ
  pub pm : Bool
  pub spsel : Bank
  pub n_priv : Bool
  pub current_mode : Mode
  pub ipsr : ℕ
  pub pending_interrupts : ℕ
  pub enabled_interrupts : ℕ
  pub interrupt_priorities : ℕ → ℕ
  pub pending_nmi : Bool
  pub pending_pend_sv : Bool
  pub pending_sv_call : Bool
  pub pending_systick : Bool
  pub interrupts_updated : Bool
  pub vtor : ℕ
  pub shpr2 : ℕ
  pub shpr3 : ℕ
  pub mem : M
  pub other : Sibling
  pub events : List Event

-- A store into the Uint32Array `registers`.
abbrev pub update : (ℕ → ℕ) → ℕ → ℕ → ℕ → ℕ
update r i x j = if j == i then u32 x else r j

-- x & ~1 and x & ~3, for a pattern below 2 ^ 32; x | 1
abbrev pub clear1 : ℕ → ℕ
clear1 x = x / 2 * 2

abbrev pub clear2 : ℕ → ℕ
clear2 x = x / 4 * 4

abbrev pub set1 : ℕ → ℕ
set1 x = x / 2 * 2 + 1

abbrev pub is_process : Bank → Bool
is_process sp_main = false
is_process sp_process = true

abbrev pub same_bank : Bank → Bank → Bool
same_bank sp_main b = not (is_process b)
same_bank sp_process b = is_process b

abbrev pub is_thread : Mode → Bool
is_thread thread = true
is_thread handler = false

-- `===` on two flags
abbrev pub same_flag : Bool → Bool → Bool
same_flag true b = b
same_flag false b = not b

module _ {M : Type 0} where
  abbrev pub reg : Core M → ℕ → ℕ
  reg s i = s.regs i

  abbrev pub set_reg : ℕ → ℕ → Core M → Core M
  set_reg i x s = record s { regs = update s.regs i x }

  abbrev pub sp : Core M → ℕ
  sp s = s.regs 13

  abbrev pub set_sp : ℕ → Core M → Core M
  set_sp x s = set_reg 13 (clear2 (u32 x)) s

  abbrev pub lr : Core M → ℕ
  lr s = s.regs 14

  abbrev pub set_lr : ℕ → Core M → Core M
  set_lr = set_reg 14

  abbrev pub pc : Core M → ℕ
  pc s = s.regs 15

  abbrev pub set_pc : ℕ → Core M → Core M
  set_pc = set_reg 15

  -- `this.PC += x`, with x the pattern of what is added
  abbrev pub add_pc : ℕ → Core M → Core M
  add_pc x s = set_pc (pc s + x) s

  abbrev pub emit : Event → Core M → Core M
  emit e s = record s { events = e ∷ s.events }

  -- `addCycles`
  abbrev pub add_cycles : ℕ → Core M → Core M
  add_cycles n s = record s { cycles = s.cycles + n; added_cycles = s.added_cycles + n }

  abbrev pub inputs : Core M → Inputs
  inputs s = record {
    pending = s.pending_interrupts;
    enabled = s.enabled_interrupts;
    priorities = s.interrupt_priorities;
    nmi = s.pending_nmi;
    pend_sv = s.pending_pend_sv;
    systick = s.pending_systick;
    updated = s.interrupts_updated;
    vectors = s.vtor;
    sv_priority = s.shpr2;
    system_priority = s.shpr3;
  }

  abbrev pub set_inputs : Inputs → Core M → Core M
  set_inputs i s = record s {
    pending_interrupts = i.pending;
    enabled_interrupts = i.enabled;
    interrupt_priorities = i.priorities;
    pending_nmi = i.nmi;
    pending_pend_sv = i.pend_sv;
    pending_systick = i.systick;
    interrupts_updated = i.updated;
    vtor = i.vectors;
    shpr2 = i.sv_priority;
    shpr3 = i.system_priority;
  }

  -- The flags stand in bits 31 to 28.
  abbrev pub apsr : Core M → ℕ
  apsr s = to_num s.n * 2 ^ 31 + to_num s.z * 2 ^ 30 + to_num s.c * 2 ^ 29 + to_num s.v * 2 ^ 28

  abbrev pub set_apsr : ℕ → Core M → Core M
  set_apsr x s = record s {
    n = test_bit x 31;
    c = test_bit x 29;
    z = test_bit x 30;
    v = test_bit x 28;
  }

  -- `IPSR` is or-ed in as it is: an `MSR IPSR` may have put more than six bits there.
  abbrev pub xpsr : Core M → ℕ
  xpsr s = bit_or (bit_or (apsr s) s.ipsr) (2 ^ 24)

  abbrev pub set_xpsr : ℕ → Core M → Core M
  set_xpsr x s = record (set_apsr x s) { ipsr = low_bits x 6 }

  unfoldable pub switch_stack : Bank → Core M → Core M
  switch_stack b s =
      if same_bank s.spsel b
      then s
      else record (set_sp s.banked_sp s) { banked_sp = sp s; spsel = b }

  abbrev pub process_sp : Core M → ℕ
  process_sp s = if is_process s.spsel then sp s else s.banked_sp

  abbrev pub set_process_sp : ℕ → Core M → Core M
  set_process_sp x s = if is_process s.spsel then set_sp x s else record s { banked_sp = u32 x }

  abbrev pub main_sp : Core M → ℕ
  main_sp s = if is_process s.spsel then s.banked_sp else sp s

  abbrev pub set_main_sp : ℕ → Core M → Core M
  set_main_sp x s = if is_process s.spsel then record s { banked_sp = u32 x } else set_sp x s

  -- the switch on `cond >> 1`
  abbrev pub base_condition : Core M → ℕ → Bool
  base_condition s k =
      if k == 0
      then s.z
      else if k == 1
      then s.c
      else if k == 2
      then s.n
      else if k == 3
      then s.v
      else if k == 4
      then s.c && not s.z
      else if k == 5
      then same_flag s.n s.v
      else if k == 6
      then same_flag s.n s.v && not s.z
      else if k == 7
      then true
      else false

  unfoldable pub check_condition : Core M → ℕ → Bool
  check_condition s cond =
      let result = base_condition s (cond / 2) in
      if test_bit cond 0 && not (cond == 15) then not result else result

-- The accesses as methods of the core.
module _ {M : Type 0} (bus : Bus M) where
  abbrev pub load32 : ℕ → Core M → ℕ × Core M
  load32 a s =
      let (x, m) = bus.read32 s.mem a in
      (x, set_inputs (bus.read_inputs s.mem a (inputs s)) (record s { mem = m }))

  abbrev pub load16 : ℕ → Core M → ℕ × Core M
  load16 a s =
      let (x, m) = bus.read16 s.mem a in
      (x, set_inputs (bus.read_inputs s.mem a (inputs s)) (record s { mem = m }))

  abbrev pub load8 : ℕ → Core M → ℕ × Core M
  load8 a s =
      let (x, m) = bus.read8 s.mem a in
      (x, set_inputs (bus.read_inputs s.mem a (inputs s)) (record s { mem = m }))

  abbrev pub store32 : ℕ → ℕ → Core M → Core M
  store32 a x s = add_cycles (bus.added s.mem a x) (
      set_inputs (bus.write_inputs s.mem a x (inputs s)) (record s { mem = bus.write32 s.mem a x }))

  abbrev pub store16 : ℕ → ℕ → Core M → Core M
  store16 a x s = add_cycles (bus.added s.mem a x) (
      set_inputs (bus.write_inputs s.mem a x (inputs s)) (record s { mem = bus.write16 s.mem a x }))

  abbrev pub store8 : ℕ → ℕ → Core M → Core M
  store8 a x s =
      add_cycles (bus.added s.mem a x) (
        set_inputs (bus.write_inputs s.mem a x (inputs s))
          (record s { mem = bus.write8 s.mem a x }))
