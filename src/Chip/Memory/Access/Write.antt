-- ===== src/Chip/Memory/Access/Write.antt =====
-- The stores and the decode caches.
use rp2350js.Base.{ℕ, ◌-◌, ◌%◌, ◌≡◌, refl, sym, ◌∙◌, arith, u32}
use rp2350js.Base.{some, none, Bool-cases, inl, inr, ◌==◌}
use rp2350js.Chip.Region.{store8, store16, store32}
use rp2350js.Chip.Region.Coherent.{store8-IsCoherent, store16-IsCoherent, store32-IsCoherent}
use rp2350js.Chip.Memory.{
  Chip, Rest, in_sram, in_psram, in_flash, ram_start, psram_start, set_devices,
}
use rp2350js.Chip.Memory.{write8, write16, write32}
use rp2350js.Chip.Memory.Access.{
  AreCoherent, sram-AreCoherent, psram-AreCoherent, devices-AreCoherent,
}
use rp2350js.Chip.Memory.Access.{same-AreCoherent}

module _ {D : Type 0} (rest : Rest D) (a v : ℕ) (c d : Chip D) where
  pub write8-AreCoherent : write8 rest a v c ≡ some d → AreCoherent c → AreCoherent d
  unfolding write8
  write8-AreCoherent e h = elim (Bool-cases (in_sram a)) [
    | inl k ↦
        let f : write8 rest a v c ≡ some (record c { sram = store8 (a - ram_start) v c.sram }) =
          simp k refl in
        sram-AreCoherent c d _ (sym f ∙ e) (store8-IsCoherent _ _ v c.sram h.0) h
    | inr k ↦ elim (Bool-cases (in_psram a)) [
      | inl l ↦
          let f : write8 rest a v c
              ≡ some (record c { psram = store8 (a - psram_start) v c.psram }) =
            simp (k, l) refl in
          psram-AreCoherent c d _ (sym f ∙ e) (store8-IsCoherent _ _ v c.psram h.1) h
      | inr l ↦ elim (Bool-cases (in_flash a)) [
        | inl m ↦
            let f : write8 rest a v c ≡ some c = simp (k, l, m) refl in
            same-AreCoherent c d (sym f ∙ e) h
        | inr m ↦
            let f : write8 rest a v c ≡ set_devices c (rest.write8 c.devices a v) =
              simp (k, l, m) refl in
            devices-AreCoherent c d (rest.write8 c.devices a v) (sym f ∙ e) h
      ]
    ]
  ]

  pub write16-AreCoherent : write16 rest a v c ≡ some d → AreCoherent c → AreCoherent d
  unfolding write16
  write16-AreCoherent e h = elim (Bool-cases (in_sram a)) [
    | inl k ↦
        let f : write16 rest a v c ≡ some (record c { sram = store16 (a - ram_start) v c.sram }) =
          simp k refl in
        sram-AreCoherent c d _ (sym f ∙ e) (store16-IsCoherent _ _ v c.sram h.0) h
    | inr k ↦ elim (Bool-cases (in_psram a)) [
      | inl l ↦
          let f : write16 rest a v c
              ≡ some (record c { psram = store16 (a - psram_start) v c.psram }) =
            simp (k, l) refl in
          psram-AreCoherent c d _ (sym f ∙ e) (store16-IsCoherent _ _ v c.psram h.1) h
      | inr l ↦ elim (Bool-cases (in_flash a)) [
        | inl m ↦
            let f : write16 rest a v c ≡ some c = simp (k, l, m) refl in
            same-AreCoherent c d (sym f ∙ e) h
        | inr m ↦
            let f : write16 rest a v c ≡ set_devices c (rest.write16 c.devices a v) =
              simp (k, l, m) refl in
            devices-AreCoherent c d (rest.write16 c.devices a v) (sym f ∙ e) h
      ]
    ]
  ]

  pub write32-AreCoherent : write32 rest a v c ≡ some d → AreCoherent c → AreCoherent d
  unfolding write32
  write32-AreCoherent e h = elim (Bool-cases (u32 a % 4 == 0)) [
    | inr n ↦ let f : write32 rest a v c ≡ none = simp n refl in absurd (cc (f, e))
    | inl n ↦ elim (Bool-cases (in_sram (u32 a))) [
      | inl k ↦
          let f : write32 rest a v c
              ≡ some (record c { sram = store32 (u32 a - ram_start) v c.sram }) =
            simp (n, k) refl in
          let al : (u32 a - ram_start) % 4 ≡ 0 = ground (arith, n, k) in
          sram-AreCoherent c d _ (sym f ∙ e) (store32-IsCoherent _ _ v c.sram al h.0) h
      | inr k ↦ elim (Bool-cases (in_psram (u32 a))) [
        | inl l ↦
            let f : write32 rest a v c
                ≡ some (record c { psram = store32 (u32 a - psram_start) v c.psram }) =
              simp (n, k, l) refl in
            let al : (u32 a - psram_start) % 4 ≡ 0 = ground (arith, n, l) in
            psram-AreCoherent c d _ (sym f ∙ e) (store32-IsCoherent _ _ v c.psram al h.1) h
        | inr l ↦
            let f : write32 rest a v c ≡ set_devices c (rest.write32 c.devices (u32 a) v) =
              simp (n, k, l) refl in
            devices-AreCoherent c d (rest.write32 c.devices (u32 a) v) (sym f ∙ e) h
      ]
    ]
  ]
