-- ===== src/RiscV/State.antt =====
-- riscv/cpu.ts: the fields of `CPU`. Registers, CSRs and addresses are 32-bit patterns; an address that
-- the source makes negative is its `>>> 0`, as for the other cores. The arrays of the interrupt
-- candidates are a list of their first `candidateCount` entries, the last one first.
use rp2350js.Base.{ℕ, ◌+◌, Bool, Option, List, ◌∷◌, u32, ◌==◌, if◌then◌else◌}
use rp2350js.M0.State.{Bus}

pub record Candidate : Type 0 where
  pub irq : ℕ
  pub priority : ℕ

abbrev pub candidate : ℕ → ℕ → Candidate
candidate i p = record { irq = i; priority = p }

-- What the core tells its logger and the profiler, the latest first.
pub data Event : Type 0 where
  unknown_csr_get : ℕ → Event
  unknown_csr_set : ℕ → ℕ → Event
  on_trace : ℕ → ℕ → List ℕ → Event

-- The fields of the other core that this one reads and writes.
pub record Sibling : Type 0 where
  pub waiting : Bool
  pub waiting_on_block : Bool
  pub event_registered : Bool
  pub lr_addr : Option ℕ

pub record Core (M : Type 0) : Type 0 where
  pub regs : ℕ → ℕ
  pub csrs : ℕ → ℕ
  pub pc : ℕ
  pub next_pc : ℕ
  pub inst_length : ℕ
  pub cycles : ℕ
  pub mhartid : ℕ
  pub waiting : Bool
  pub waiting_on_block : Bool
  pub event_registered : Bool
  pub interrupts_updated : Bool
  pub meiea : ℕ → Bool
  pub meipa : ℕ → Bool
  pub meifa : ℕ → Bool
  pub meipra : ℕ → ℕ
  pub candidates : List Candidate
  pub did_just_jump : Bool
  pub lr_addr : Option ℕ
  pub btb : Option ℕ
  pub mem : M
  pub other : Sibling
  pub events : List Event

abbrev pub put : {A : Type 0} → (ℕ → A) → ℕ → A → ℕ → A
put f i x j = if j == i then x else f j

module _ {M : Type 0} where
  -- `getRegister` and `getRegisterU` read the same pattern.
  abbrev pub reg : Core M → ℕ → ℕ
  reg s i = s.regs i

  -- `setRegister` and `setRegisterU`
  abbrev pub set_reg : ℕ → ℕ → Core M → Core M
  set_reg i x s = if i == 0 then s else record s { regs = put s.regs i (u32 x) }

  -- a store into the Uint32Array `csrs`
  abbrev pub put_csr : ℕ → ℕ → Core M → Core M
  put_csr i x s = record s { csrs = put s.csrs i (u32 x) }

  abbrev pub tick : ℕ → Core M → Core M
  tick n s = record s { cycles = s.cycles + n }

  abbrev pub log : Event → Core M → Core M
  log e s = record s { events = e ∷ s.events }

-- The accesses to the chip's memory as methods of the core. An error that one throws is in `thrown` of
-- the chip, where `executePacked` ends with it.
module _ {M : Type 0} (bus : Bus M) where
  abbrev pub load32 : ℕ → Core M → ℕ × Core M
  load32 a s = let (x, m) = bus.read32 s.mem a in (x, record s { mem = m })

  abbrev pub load16 : ℕ → Core M → ℕ × Core M
  load16 a s = let (x, m) = bus.read16 s.mem a in (x, record s { mem = m })

  abbrev pub load8 : ℕ → Core M → ℕ × Core M
  load8 a s = let (x, m) = bus.read8 s.mem a in (x, record s { mem = m })

  abbrev pub store32 : ℕ → ℕ → Core M → Core M
  store32 a x s = tick (bus.added s.mem a x) (record s { mem = bus.write32 s.mem a x })

  abbrev pub store16 : ℕ → ℕ → Core M → Core M
  store16 a x s = tick (bus.added s.mem a x) (record s { mem = bus.write16 s.mem a x })

  abbrev pub store8 : ℕ → ℕ → Core M → Core M
  store8 a x s = tick (bus.added s.mem a x) (record s { mem = bus.write8 s.mem a x })
