-- ===== src/Chip/Memory/Access/Reach.antt =====
-- Stores and fetches one after another.
use rp2350js.Base.{ℕ, ◌+◌, ◌-◌, ◌/◌, ◌%◌, ◌<◌, ◌≡◌, ◌⊎◌, refl, sym, ap, ◌∙◌, subst, arith}
use rp2350js.Base.{some, Bool, true, false, not, ◌&&◌, ◌||◌, Bool-cases, inl, inr}
use rp2350js.Chip.Region.{Region}
use rp2350js.Chip.Region.Coherent.{uncached, IsCoherent}
use rp2350js.Chip.Memory.{Chip, Rest, in_sram, in_psram, in_flash, ram_start, psram_start, cached}
use rp2350js.Chip.Memory.{
  sram_size, psram_size, flash_size, write8, write16, write32, decode_uncached, get_decode_entry,
}
use rp2350js.Chip.Memory.Fetch.{
  value, value-at_chip, cached-value, uncached-sram, uncached-psram, uncached-flash,
}
use rp2350js.Chip.Memory.Access.{AreCoherent, is_last, cached-IsCoherent}
use rp2350js.Chip.Memory.Access.Write.{write8-AreCoherent, write16-AreCoherent, write32-AreCoherent}

-- A fetch of an instruction that ends in the window where it starts.
abbrev pub is_cached : ℕ → Bool
is_cached a = (in_sram a || in_psram a || in_flash a) && not (is_last a)

-- `outside` stands for what leaves the three memories as they are.
pub data Step {D : Type 0} (rest : Rest D) (c : Chip D) : Chip D → Type 0 where
  wrote8 : {d : Chip D} (a v : ℕ) → write8 rest a v c ≡ some d → Step rest c d
  wrote16 : {d : Chip D} (a v : ℕ) → write16 rest a v c ≡ some d → Step rest c d
  wrote32 : {d : Chip D} (a v : ℕ) → write32 rest a v c ≡ some d → Step rest c d
  fetched :
      {d : Chip D} (a p : ℕ)
      → is_cached a ≡ true
      → get_decode_entry rest a c ≡ some (p, d)
      → Step rest c d
  outside : (x : D) → Step rest c (record c { devices = x })

-- The caches are empty at the start.
pub data Reach {D : Type 0} (rest : Rest D) : Chip D → Type 0 where
  start :
      {c : Chip D}
      → ((i : ℕ) → (c.sram.decode i ≡ 0) × (c.psram.decode i ≡ 0) × (c.flash.decode i ≡ 0))
      → Reach rest c
  later : {c d : Chip D} → Reach rest c → Step rest c d → Reach rest d

module _ {D : Type 0} (rest : Rest D) (a : ℕ) (c : Chip D) (h : is_cached a ≡ true) where
  -- The fetch in the window of the address.
  entry-sram :
      in_sram a ≡ true
      → get_decode_entry rest a c
        ≡ cached rest c.sram ((a - ram_start) / 2) (λ r d. record d { sram = r }) a c
  unfolding get_decode_entry
  entry-sram k = simp k refl

  entry-psram :
      in_sram a ≡ false
      → in_psram a ≡ true
      → get_decode_entry rest a c
        ≡ cached rest c.psram ((a - psram_start) / 2) (λ r d. record d { psram = r }) a c
  unfolding get_decode_entry
  entry-psram k l = simp (k, l) refl

  entry-flash :
      in_sram a ≡ false
      → in_psram a ≡ false
      → in_flash a ≡ true
      → get_decode_entry rest a c
        ≡ cached rest c.flash (a % flash_size / 2) (λ r d. record d { flash = r }) a c
  unfolding get_decode_entry
  entry-flash k l m = simp (k, l, m) refl

  inside-sram : in_sram a ≡ true → (a - ram_start) / 2 + 1 < sram_size / 2
  unfolding is_last
  inside-sram k = ground (arith, h, k)

  inside-psram : in_sram a ≡ false → in_psram a ≡ true → (a - psram_start) / 2 + 1 < psram_size / 2
  unfolding is_last
  inside-psram k l = ground (arith, h, k, l)

  inside-flash :
      in_sram a ≡ false
      → in_psram a ≡ false
      → (in_flash a ≡ true) × (a % flash_size / 2 + 1 < flash_size / 2)
  unfolding is_last
  inside-flash k l = (ground (arith, h, k, l), ground (arith, h, k, l))

interior :
    (n i : ℕ) (r : Region)
    → i + 1 < n
    → IsCoherent n r
    → (r.decode i ≡ 0) ⊎ (uncached r i ≡ some (r.decode i))
unfolding IsCoherent
interior n i r lt c = c i lt

module _ {D : Type 0} (rest : Rest D) where
  -- A fetch through the cache and one from the bytes, where the caches are coherent.
  fetch-value :
      (a : ℕ) (c : Chip D)
      → is_cached a ≡ true
      → AreCoherent c
      → value (get_decode_entry rest a c) ≡ value (decode_uncached rest a c)
  fetch-value a c h (x, y, z) = elim (Bool-cases (in_sram a)) [
    | inl k ↦
        let lt = inside-sram rest a c h k in
        let u = uncached-sram rest a c k lt in
        ap value (entry-sram rest a c h k)
        ∙ cached-value rest c.sram _ a (λ r d. record d { sram = r }) c (interior _ _ c.sram lt x) u
        ∙ sym (ap value u ∙ value-at_chip c _)
    | inr k ↦ elim (Bool-cases (in_psram a)) [
      | inl l ↦
          let lt = inside-psram rest a c h k l in
          let u = uncached-psram rest a c l lt in
          ap value (entry-psram rest a c h k l)
          ∙ cached-value rest c.psram _ a (λ r d. record d { psram = r }) c
              (interior _ _ c.psram lt y) u
          ∙ sym (ap value u ∙ value-at_chip c _)
      | inr l ↦
          let (m, lt) = inside-flash rest a c h k l in
          let u = uncached-flash rest a c l m lt in
          ap value (entry-flash rest a c h k l m)
          ∙ cached-value rest c.flash _ a (λ r d. record d { flash = r }) c
              (interior _ _ c.flash lt z) u
          ∙ sym (ap value u ∙ value-at_chip c _)
    ]
  ]

  fetch-AreCoherent :
      (a p : ℕ) (c d : Chip D)
      → is_cached a ≡ true
      → get_decode_entry rest a c ≡ some (p, d)
      → AreCoherent c
      → AreCoherent d
  fetch-AreCoherent a p c d h e (x, y, z) = elim (Bool-cases (in_sram a)) [
    | inl k ↦
        let u = uncached-sram rest a c k (inside-sram rest a c h k) in
        let (s, f, g) =
          cached-IsCoherent rest (sram_size / 2) _ a p c.sram (λ r d. record d { sram = r }) c d
            refl u (sym (entry-sram rest a c h k) ∙ e) x in
        subst AreCoherent (sym f) (g, y, z)
    | inr k ↦ elim (Bool-cases (in_psram a)) [
      | inl l ↦
          let u = uncached-psram rest a c l (inside-psram rest a c h k l) in
          let (s, f, g) =
            cached-IsCoherent rest (psram_size / 2) _ a p c.psram (λ r d. record d { psram = r }) c
              d refl u (sym (entry-psram rest a c h k l) ∙ e) y in
          subst AreCoherent (sym f) (x, g, z)
      | inr l ↦
          let (m, lt) = inside-flash rest a c h k l in
          let u = uncached-flash rest a c l m lt in
          let (s, f, g) =
            cached-IsCoherent rest (flash_size / 2) _ a p c.flash (λ r d. record d { flash = r }) c
              d refl u (sym (entry-flash rest a c h k l m) ∙ e) z in
          subst AreCoherent (sym f) (x, y, g)
    ]
  ]

  reach-AreCoherent : (c : Chip D) → Reach rest c → AreCoherent c
  unfolding IsCoherent
  reach-AreCoherent c (Reach.start h) = (λ i _. inl (h i).0, λ i _. inl (h i).1, λ i _. inl (h i).2)
  reach-AreCoherent c (Reach.later {c = b} r (Step.wrote8 a v e)) =
      write8-AreCoherent rest a v b c e (reach-AreCoherent b r)
  reach-AreCoherent c (Reach.later {c = b} r (Step.wrote16 a v e)) =
      write16-AreCoherent rest a v b c e (reach-AreCoherent b r)
  reach-AreCoherent c (Reach.later {c = b} r (Step.wrote32 a v e)) =
      write32-AreCoherent rest a v b c e (reach-AreCoherent b r)
  reach-AreCoherent c (Reach.later {c = b} r (Step.fetched a p h e)) =
      fetch-AreCoherent a p b c h e (reach-AreCoherent b r)
  reach-AreCoherent c (Reach.later {c = b} r (Step.outside x)) = reach-AreCoherent b r

  -- After any stores, fetches and accesses to devices from empty decode caches, a fetch through a cache gives
  -- the entry, or the error, of a fetch that decodes the bytes anew. The address is in SRAM, PSRAM or
  -- flash, before the last halfword.
  pub get_decode_entry-value :
      (a : ℕ) (c : Chip D)
      → Reach rest c
      → is_cached a ≡ true
      → value (get_decode_entry rest a c) ≡ value (decode_uncached rest a c)
  get_decode_entry-value a c r h = fetch-value a c h (reach-AreCoherent c r)
