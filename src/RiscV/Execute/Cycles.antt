-- ===== src/RiscV/Execute/Cycles.antt =====
-- The cycle count of src/riscv/cpu.ts: its operations and its run loop.
pub mod Instr
pub mod Loop
use rp2350js.Base.{
  ℕ, zero, suc, ◌+◌, ◌*◌, ◌/◌, ◌^◌, ◌<◌, ◌≤◌, ◌≡◌, refl, sym, ap, ◌∙◌, arith, Bool, true, false,
  not, ◌&&◌,
}
use rp2350js.Base.{
  Option, some, none, Bool-cases, inl, inr, if◌then◌else◌, ◌==◌, test_bit, field, low_bits, List,
  [], ◌∷◌,
}
use rp2350js.RiscV.State.{Core, put, put_csr}
use rp2350js.RiscV.Irq.{
  update_meinext, set_interrupt, set_interrupt_enabled, set_priority, set_forced,
}
use rp2350js.RiscV.Irq.{update_meicontext, priority_save, priority_restore}
use rp2350js.RiscV.Csr.{
  write_meiea, write_meifa, write_meipra, set_csr, get_csr, get_meinext, get_meicontext,
}

module _ {M : Type 0} where
  pub cycles-update_meinext : (s : Core M) → (update_meinext s).cycles ≡ s.cycles
  unfolding update_meinext
  cycles-update_meinext s = ground arith

  pub cycles-set_interrupt :
      (i : ℕ) (v : Bool) (s : Core M) → (set_interrupt i v s).cycles ≡ s.cycles
  unfolding set_interrupt
  cycles-set_interrupt i v s = simp cycles-update_meinext (ground arith)

  pub cycles-set_interrupt_enabled :
      (i : ℕ) (v : Bool) (s : Core M) → (set_interrupt_enabled i v s).cycles ≡ s.cycles
  unfolding set_interrupt_enabled
  cycles-set_interrupt_enabled i v s = simp cycles-set_interrupt (ground arith)

  pub cycles-set_priority : (i p : ℕ) (s : Core M) → (set_priority i p s).cycles ≡ s.cycles
  unfolding set_priority
  cycles-set_priority i p s = simp cycles-set_interrupt (ground arith)

  pub cycles-set_forced : (i : ℕ) (b : Bool) (s : Core M) → (set_forced i b s).cycles ≡ s.cycles
  unfolding set_forced
  cycles-set_forced i true s = cycles-set_interrupt i true (record s { meifa = put s.meifa i true })
  cycles-set_forced i false s =
      ground (arith, cycles-set_interrupt i false (record s { meifa = put s.meifa i false }))

  pub cycles-write_meiea : (n i x : ℕ) (s : Core M) → (write_meiea n i x s).cycles ≡ s.cycles
  unfolding write_meiea
  cycles-write_meiea zero i x s = refl
  cycles-write_meiea (suc n) i x s =
      cycles-write_meiea n (i + 1) (x / 2) _ ∙ cycles-set_interrupt_enabled i (test_bit x 0) s

  pub cycles-write_meifa : (n i x : ℕ) (s : Core M) → (write_meifa n i x s).cycles ≡ s.cycles
  unfolding write_meifa
  cycles-write_meifa zero i x s = refl
  cycles-write_meifa (suc n) i x s =
      cycles-write_meifa n (i + 1) (x / 2) _ ∙ cycles-set_forced i (test_bit x 0) s

  pub cycles-write_meipra : (n i x : ℕ) (s : Core M) → (write_meipra n i x s).cycles ≡ s.cycles
  unfolding write_meipra
  cycles-write_meipra zero i x s = refl
  cycles-write_meipra (suc n) i x s =
      cycles-write_meipra n (i + 1) (x / 2 ^ 4) _ ∙ cycles-set_priority i (low_bits x 4) s

  pub cycles-update_meicontext : (s : Core M) → (update_meicontext s).cycles ≡ s.cycles
  unfolding update_meicontext
  cycles-update_meicontext s = refl

  pub cycles-set_csr :
      (csr value raw : ℕ) (s : Core M) → (set_csr csr value raw s).cycles ≡ s.cycles
  unfolding set_csr
  cycles-set_csr csr value raw s = ground (
    arith,
    cycles-write_meiea 16 (low_bits raw 5 * 16) (value / 2 ^ 16) s,
    cycles-write_meifa 16 (low_bits raw 5 * 16) (value / 2 ^ 16) s,
    cycles-write_meipra 4 (low_bits raw 5 * 4) (value / 2 ^ 16) s,
    cycles-update_meinext (update_meicontext s),
    cycles-update_meinext (put_csr csr value s),
    cycles-update_meicontext s,
  )

  pub cycles-get_meinext : (s : Core M) → (get_meinext s).1.cycles ≡ s.cycles
  unfolding get_meinext
  cycles-get_meinext s =
      let i = field (s.csrs 0xbe4) 2 9 in
      ground (arith, cycles-set_interrupt i false (record s { meifa = put s.meifa i false }))

  pub cycles-get_csr : (csr raw : ℕ) (s : Core M) → (get_csr csr raw s).1.cycles ≡ s.cycles
  unfolding get_csr get_meicontext
  cycles-get_csr csr raw s = ground (arith, cycles-get_meinext s)
