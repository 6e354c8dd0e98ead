-- ===== src/M0/Memory.antt =====
-- cortex-m0-core.ts, `executeInstruction`: the loads and stores, `cyclesIO`, and the loops of
-- LDMIA, STMIA, POP and PUSH. The second part of a result is what is added to `deltaCycles`.
use rp2350js.Base.{ℕ, zero, suc, ◌+◌, ◌*◌, Bool, true, false, ◌&&◌, if◌then◌else◌}
use rp2350js.Base.{u32, sub32, test_bit, to_num, ltb, leb}
use rp2350js.M0.State.{Bus, Core, reg, set_reg, sp, set_sp, lr}
use rp2350js.M0.State.{load32, load16, load8, store32, store16, store8}
use rp2350js.M0.Alu.{sign_extend8, sign_extend16}

-- SIO_START_ADDRESS and APB_START_ADDRESS, each with a window of 2 ^ 28 bytes.
unfoldable pub cycles_io : ℕ → Bool → ℕ
cycles_io addr is_write =
    let a = u32 addr in
    if leb 0xd0000000 a && ltb a 0xe0000000
    then 0
    else if leb 0x40000000 a && ltb a 0x50000000
    then (if is_write then 4 else 3)
    else 1

-- The address and the cycles that a loop over the register list carries with the core.
pub record Walk (M : Type 0) : Type 0 where
  pub core : Core M
  pub address : ℕ
  pub delta : ℕ

-- the number of bits set among the n from bit i on
unfoldable pub bit_count : ℕ → ℕ → ℕ → ℕ
bit_count zero i x = 0
bit_count (suc n) i x = to_num (test_bit x i) + bit_count n (i + 1) x

module _ {M : Type 0} (bus : Bus M) where
  -- A load of each width, at a given address.
  unfoldable pub exec_ldr : ℕ → ℕ → Core M → Core M × ℕ
  exec_ldr addr rt s = let (x, s') = load32 bus addr s in (set_reg rt x s', cycles_io addr false)

  unfoldable pub exec_ldrb : ℕ → ℕ → Core M → Core M × ℕ
  exec_ldrb addr rt s = let (x, s') = load8 bus addr s in (set_reg rt x s', cycles_io addr false)

  unfoldable pub exec_ldrh : ℕ → ℕ → Core M → Core M × ℕ
  exec_ldrh addr rt s = let (x, s') = load16 bus addr s in (set_reg rt x s', cycles_io addr false)

  unfoldable pub exec_ldrsb : ℕ → ℕ → Core M → Core M × ℕ
  exec_ldrsb addr rt s =
      let (x, s') = load8 bus addr s in (set_reg rt (sign_extend8 x) s', cycles_io addr false)

  unfoldable pub exec_ldrsh : ℕ → ℕ → Core M → Core M × ℕ
  exec_ldrsh addr rt s =
      let (x, s') = load16 bus addr s in (set_reg rt (sign_extend16 x) s', cycles_io addr false)

  unfoldable pub exec_str : ℕ → ℕ → Core M → Core M × ℕ
  exec_str addr rt s = (store32 bus addr (reg s rt) s, cycles_io addr true)

  unfoldable pub exec_strb : ℕ → ℕ → Core M → Core M × ℕ
  exec_strb addr rt s = (store8 bus addr (reg s rt) s, cycles_io addr true)

  unfoldable pub exec_strh : ℕ → ℕ → Core M → Core M × ℕ
  exec_strh addr rt s = (store16 bus addr (reg s rt) s, cycles_io addr true)

  -- One round of the loops of LDMIA and POP, and of those of STMIA and PUSH.
  abbrev pub load_round : ℕ → ℕ → Walk M → Walk M
  load_round registers i w =
      if test_bit registers i
      then (let (x, s') = load32 bus w.address w.core in
          record { core = set_reg i x s'; address = w.address + 4; delta = w.delta + 1 })
      else w

  abbrev pub store_round : ℕ → ℕ → Walk M → Walk M
  store_round registers i w =
      if test_bit registers i
      then record {
        core = store32 bus w.address (reg w.core i) w.core;
        address = w.address + 4;
        delta = w.delta + 1;
      }
      else w

  -- the n rounds from register i on
  unfoldable pub load_loop : ℕ → ℕ → ℕ → Walk M → Walk M
  load_loop zero i registers w = w
  load_loop (suc n) i registers w = load_loop n (i + 1) registers (load_round registers i w)

  unfoldable pub store_loop : ℕ → ℕ → ℕ → Walk M → Walk M
  store_loop zero i registers w = w
  store_loop (suc n) i registers w = store_loop n (i + 1) registers (store_round registers i w)

  unfoldable pub exec_ldmia : ℕ → ℕ → Core M → Core M × ℕ
  exec_ldmia rn registers s =
      let w = load_loop 8 0 registers (record { core = s; address = reg s rn; delta = 0 }) in
      (if test_bit registers rn then w.core else set_reg rn w.address w.core, w.delta)

  unfoldable pub exec_stmia : ℕ → ℕ → Core M → Core M × ℕ
  exec_stmia rn registers s =
      let w = store_loop 8 0 registers (record { core = s; address = reg s rn; delta = 0 }) in
      (if test_bit registers rn then w.core else set_reg rn w.address w.core, w.delta)

  -- `SP - 4 * bitCount` may be negative; the address goes on from its pattern. LR is bit 8.
  unfoldable pub exec_push : ℕ → ℕ → Core M → Core M × ℕ
  exec_push m registers s =
      let count = bit_count 8 0 registers + m in
      let start = sub32 (sp s) (4 * count) in
      let w = store_loop 8 0 registers (record { core = s; address = start; delta = 0 }) in
      let s' = if ltb 0 m then store32 bus w.address (lr w.core) w.core else w.core in
      (set_sp (sub32 (sp s') (4 * count)) s', w.delta)
