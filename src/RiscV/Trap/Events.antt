-- ===== src/RiscV/Trap/Events.antt =====
-- The event of h3.unblock and the sleep of h3.block on the other core.
use rp2350js.Base.{◌≡◌, ◌⊎◌, refl, arith, true, false, ◌&&◌, Bool-cases, inl, inr}
use rp2350js.RiscV.Trap.{fire_sev, exec_block}
use rp2350js.RiscV.Amo.Reservations.{System, by_left}

-- No event of h3.unblock is lost. A core that sleeps in h3.block when the other core executes h3.unblock is
-- awake then. Any other core has its event registered: its next h3.block leaves it as it is but for the
-- event, which is used up.
pub fire_sev-exec_block :
    {M : Type 0} (s : System M)
    → (((s.right.waiting && s.right.waiting_on_block) ≡ true)
        × ((by_left fire_sev s).right.waiting ≡ false))
      ⊎ (((s.right.waiting && s.right.waiting_on_block) ≡ false)
          × (exec_block (by_left fire_sev s).right ≡ record s.right { event_registered = false }))
unfolding fire_sev exec_block by_left
fire_sev-exec_block s = elim (Bool-cases (s.right.waiting && s.right.waiting_on_block)) [
  | inl h ↦ inl (h, ground (arith, h))
  | inr h ↦ inr (h, simp h refl)
]
