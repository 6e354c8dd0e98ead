-- ===== src/M0/Ram.antt =====
-- What the core's exception frames and stack need of the chip's memory: at the word addresses in
-- `R` it is plain RAM, with no side effect of a read. The SRAM of the chip behaves so.
use rp2350js.Base.{ℕ, ◌≡◌, ◌≢◌, u32}
use rp2350js.M0.State.{Bus, Inputs}

pub record IsRam {M : Type 0} (bus : Bus M) (R : ℕ → Type 0) : Type 0 where
  pub peek : M → ℕ → ℕ
  pub read : (m : M) (a : ℕ) → R a → bus.read32 m a ≡ (peek m a, m)
  pub quiet : (m : M) (a : ℕ) (i : Inputs) → R a → bus.read_inputs m a i ≡ i
  pub same : (m : M) (a x : ℕ) → R a → peek (bus.write32 m a x) a ≡ u32 x
  pub other : (m : M) (a b x : ℕ) → R a → R b → a ≢ b → peek (bus.write32 m a x) b ≡ peek m b
