-- ===== src/Pio/Store.antt =====
-- What an operation of the store leaves of a machine.
use rp2350js.Base.{
  ℕ, ◌≡◌, refl, sym, ap, ◌∙◌, arith, Bool, true, false, if◌then◌else◌, ◌==◌, ==_iff, test_bit,
  Bool-cases, inl, inr,
}
use rp2350js.Pio.State.{Machine, Pio, System, machine, on_pio, on_machine, call, update_fifo_stat}
use rp2350js.Pio.Machine.{
  update_dma_tx, check_interrupts, flag_fdebug, pin_values_changed, pin_directions_changed,
  set_sideset,
}
use rp2350js.Pio.Execute.{side_set}

self_eq : (n : ℕ) → (n == n) ≡ true
self_eq n = ground arith

pub if_true : {A : Type 0} {b : Bool} (x y : A) → b ≡ true → (if b then x else y) ≡ x
if_true x y e = rw e refl

if_false : {A : Type 0} {b : Bool} (x y : A) → b ≡ false → (if b then x else y) ≡ y
if_false x y e = rw e refl

module _ (p i : ℕ) where
  pub machine-on_machine :
      (f : Machine → Machine) (s : System) → machine p i (on_machine p i f s) ≡ f (machine p i s)
  unfolding machine on_machine on_pio
  machine-on_machine f s =
      ap (λ (b : Pio). b.machines i) (if_true _ _ (self_eq p)) ∙ if_true _ _ (self_eq i)

  pub machine-update_dma_tx :
      (s : System) → machine p i (update_dma_tx p i s) ≡ update_fifo_stat i (machine p i s)
  unfolding update_dma_tx call machine
  machine-update_dma_tx s = machine-on_machine (update_fifo_stat i) s

  pub machine-check_interrupts :
      (q : ℕ) (s : System) → machine p i (check_interrupts q s) ≡ machine p i s
  unfolding check_interrupts call machine
  machine-check_interrupts q s = refl

  -- a change of a block that leaves its machines
  pub machine-on_pio :
      (q : ℕ) (f : Pio → Pio) (s : System)
      → ((b : Pio) → (f b).machines ≡ b.machines)
      → machine p i (on_pio q f s) ≡ machine p i s
  unfolding machine on_pio
  machine-on_pio q f s h = elim (Bool-cases (p == q)) [
    | inl e ↦
        let z : p ≡ q = (==_iff p q).0 e in
        ap (λ (b : Pio). b.machines i) (if_true _ _ e)
        ∙ ap (λ g. g i) (h (s.pio q))
        ∙ ap (λ r. (s.pio r).machines i) (sym z)
    | inr e ↦ ap (λ (b : Pio). b.machines i) (if_false _ _ e)
  ]

  pub machine-flag_fdebug :
      (q bit : ℕ) (s : System) → machine p i (flag_fdebug q bit s) ≡ machine p i s
  unfolding flag_fdebug
  machine-flag_fdebug q bit s = machine-on_pio q _ s (λ b. refl)

  pub machine-set_sideset :
      (value count : ℕ) (s : System) → machine p i (set_sideset p i value count s) ≡ machine p i s
  unfolding set_sideset pin_values_changed pin_directions_changed
  machine-set_sideset value count s = elim (Bool-cases (test_bit (machine p i s).exec_ctrl 29)) [
    | inl e ↦ rw e (machine-on_pio p _ s (λ b. refl))
    | inr e ↦ rw e (machine-on_pio p _ s (λ b. refl))
  ]

  pub machine-side_set :
      (opcode : ℕ) (s : System) → machine p i (side_set p i opcode s) ≡ machine p i s
  unfolding side_set
  machine-side_set opcode s = grind (arith, machine-set_sideset)
