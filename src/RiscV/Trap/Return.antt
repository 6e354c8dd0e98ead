-- ===== src/RiscV/Trap/Return.antt =====
-- A trap and its return.
use rp2350js.Base.{ℕ, ◌*◌, ◌/◌, ◌%◌, ◌^◌, ◌<◌, ◌≡◌, ◌∙◌, refl, arith, true, false}
use rp2350js.Base.{two32, u32, test_bit, bit_and, bit_or, shl, shr, not32, ◌==◌}
use rp2350js.Base.Bits.{bit_and-bit, bit_or-bit}
use rp2350js.RiscV.State.{Core}
use rp2350js.RiscV.Irq.{priority_restore}
use rp2350js.RiscV.Csr.{set_csr}
use rp2350js.RiscV.Execute.{advance}
use rp2350js.RiscV.Trap.{trap_entry, exec_mret, status_in, status_out}

-- The bits MIE and MPIE after a trap and after a return.
mie-status_in : (m : ℕ) → status_in m / 2 ^ 3 % 2 ≡ 0
mie-status_in m = omega (
  arith,
  bit_and-bit 3
      (bit_or (bit_and m (not32 (2 ^ 7))) (bit_and (shl (bit_and m (not32 (2 ^ 7))) 4) (2 ^ 7)))
      (not32 (2 ^ 3)),
)

mpie-status_in : (m : ℕ) → status_in m / 2 ^ 7 % 2 ≡ m / 2 ^ 3 % 2
mpie-status_in m =
    let m1 = bit_and m (not32 (2 ^ 7)) in
    let m2 = bit_or m1 (bit_and (shl m1 4) (2 ^ 7)) in
    omega (
      arith,
      bit_and-bit 7 m2 (not32 (2 ^ 3)),
      bit_or-bit 7 m1 (bit_and (shl m1 4) (2 ^ 7)),
      bit_and-bit 7 (shl m1 4) (2 ^ 7),
      bit_and-bit 7 m (not32 (2 ^ 7)),
      bit_and-bit 3 m (not32 (2 ^ 7)),
    )

mie-status_out : (m : ℕ) → status_out m / 2 ^ 3 % 2 ≡ m / 2 ^ 7 % 2
mie-status_out m =
    let m0 = bit_and m (not32 (3 * 2 ^ 11)) in
    let m1 = bit_and m0 (not32 (2 ^ 3)) in
    omega (
      arith,
      bit_or-bit 3 (bit_or m1 (bit_and (shr m1 4) (2 ^ 3))) (2 ^ 7),
      bit_or-bit 3 m1 (bit_and (shr m1 4) (2 ^ 3)),
      bit_and-bit 3 (shr m1 4) (2 ^ 3),
      bit_and-bit 3 m0 (not32 (2 ^ 3)),
      bit_and-bit 7 m0 (not32 (2 ^ 3)),
      bit_and-bit 7 m (not32 (3 * 2 ^ 11)),
    )

module _ {M : Type 0} (c : ℕ) (s : Core M) where
  mepc-trap_entry : (trap_entry c false s).csrs 0x341 ≡ u32 s.pc
  unfolding trap_entry set_csr
  mepc-trap_entry = ground arith

  mcause-trap_entry : (trap_entry c false s).csrs 0x342 ≡ u32 c
  unfolding trap_entry set_csr
  mcause-trap_entry = ground arith

  mstatus-trap_entry : (trap_entry c false s).csrs 0x300 ≡ u32 (status_in (s.csrs 0x300))
  unfolding trap_entry set_csr
  mstatus-trap_entry = ground arith

module _ {M : Type 0} (s : Core M) where
  next_pc-exec_mret : (exec_mret s).next_pc ≡ s.csrs 0x341
  unfolding exec_mret set_csr priority_restore
  next_pc-exec_mret = ground arith

  mstatus-exec_mret : (exec_mret s).csrs 0x300 ≡ u32 (status_out (s.csrs 0x300))
  unfolding exec_mret set_csr priority_restore
  mstatus-exec_mret = ground arith

same_bit : (x y : ℕ) → x / 2 ^ 3 % 2 ≡ y / 2 ^ 3 % 2 → test_bit x 3 ≡ test_bit y 3
same_bit x y e = ground (arith, e)

-- For an interrupted address other than 0: after the trap of an interrupt MIE is clear and MCAUSE holds
-- the cause, and when the handler has kept MEPC and MSTATUS, the step that executes MRET ends at the
-- interrupted address, with a jump, and with MIE as it was.
pub trap_entry-exec_mret :
    {M : Type 0} (c : ℕ) (s t : Core M)
    → 0 < s.pc
    → s.pc < two32
    → t.csrs 0x341 ≡ (trap_entry c false s).csrs 0x341
    → t.csrs 0x300 ≡ (trap_entry c false s).csrs 0x300
    → (test_bit ((trap_entry c false s).csrs 0x300) 3 ≡ false)
      × ((trap_entry c false s).csrs 0x342 ≡ u32 c)
      × ((advance (exec_mret t)).pc ≡ s.pc)
      × ((advance (exec_mret t)).did_just_jump ≡ true)
      × (test_bit ((advance (exec_mret t)).csrs 0x300) 3 ≡ test_bit (s.csrs 0x300) 3)
unfolding advance
trap_entry-exec_mret c s t q p e f =
    let m = s.csrs 0x300 in
    let inside = mstatus-trap_entry c s in
    let after = mstatus-exec_mret t in
    let next : (exec_mret t).next_pc ≡ s.pc =
      next_pc-exec_mret t ∙ e ∙ mepc-trap_entry c s ∙ omega arith in
    let jumps : ((exec_mret t).next_pc == 0) ≡ false = ground (arith, next, q) in
    let kept =
      same_bit ((exec_mret t).csrs 0x300) m
        (omega (arith, after, f, inside, mie-status_out (t.csrs 0x300), mpie-status_in m)) in
    (
      ground (arith, inside, mie-status_in m),
      mcause-trap_entry c s,
      rw jumps next,
      rw jumps refl,
      rw jumps kept,
    )
