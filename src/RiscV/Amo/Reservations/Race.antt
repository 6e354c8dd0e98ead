-- ===== src/RiscV/Amo/Reservations/Race.antt =====
-- Two cores that both try a store-conditional.
use rp2350js.Base.{ℕ, ◌≡◌, ◌≢◌, refl, sym, ap, ◌∙◌, arith, Bool-cases, inl, inr}
use rp2350js.Base.{Option, some, none, ◌==◌, ==_iff}
use rp2350js.M0.State.{Bus}
use rp2350js.RiscV.State.{Core, reg}
use rp2350js.RiscV.Amo.{granule, exec_sc}
use rp2350js.RiscV.Amo.Reservations.{
  System, Reach, by_left, by_right, sc-reservations, reservations-IsExclusive,
}

module _ {M : Type 0} (bus : Bus M) where
  sc_stores :
      (r a v : ℕ) (s : Core M)
      → s.lr_addr ≡ some (granule (reg s a))
      → (exec_sc bus r a v s).mem ≡ bus.write32 s.mem (reg s a) (reg s v)
  unfolding exec_sc
  sc_stores r a v s e = ground (arith, e)

  sc_fails :
      (r a v : ℕ) (s : Core M)
      → s.lr_addr ≢ some (granule (reg s a))
      → (exec_sc bus r a v s).mem ≡ s.mem
  unfolding exec_sc
  sc_fails r a v s h = go s.lr_addr refl
    where
      go : (o : Option ℕ) → s.lr_addr ≡ o → (exec_sc bus r a v s).mem ≡ s.mem
      go none e = ground (arith, e)
      go (some g) e = elim (Bool-cases (granule (reg s a) == g)) [
        | inl k ↦ absurd (h (e ∙ ap some (sym ((==_iff _ _).0 k))))
        | inr k ↦ ground (arith, e, k)
      ]

  -- Of two cores that both try SC on one granule, in a state reached as above, where the first holds a
  -- reservation, only the first stores.
  pub sc_race :
      (s : System M) (r a v r' a' v' : ℕ)
      → Reach bus s
      → s.left.lr_addr ≡ some (granule (reg s.left a))
      → granule (reg s.right a') ≡ granule (reg s.left a)
      → ((by_left (exec_sc bus r a v) s).mem ≡ bus.write32 s.mem (reg s.left a) (reg s.left v))
        × ((by_right (exec_sc bus r' a' v') (by_left (exec_sc bus r a v) s)).mem
            ≡ (by_left (exec_sc bus r a v) s).mem)
  unfolding by_left by_right
  sc_race s r a v r' a' v' h e f = (
    sc_stores r a v _ e,
    sc_fails r' a' v' _ (λ x. absurd (
        reservations-IsExclusive bus s h _ e
          (sym (sc-reservations bus r a v _).1 ∙ x ∙ ap some f))),
  )
