-- ===== src/Chip/Memory/Fetch.antt =====
-- A fetch through the cache against a fetch from the bytes.
use rp2350js.Base.{ℕ, ◌+◌, ◌-◌, ◌/◌, ◌%◌, ◌<◌, ◌≡◌, ◌⊎◌, refl, sym, ap, ◌∙◌, arith}
use rp2350js.Base.{Option, some, none, true, false, Bool-cases, inl, inr, ◌==◌, ==_iff, low_bits}
use rp2350js.RiscV.State.{put}
use rp2350js.Chip.Region.{Region, half, decode_halves}
use rp2350js.Chip.Region.Coherent.{uncached}
use rp2350js.Chip.Memory.{Chip, Rest, in_sram, in_psram, in_flash, ram_start, psram_start}
use rp2350js.Chip.Memory.{sram_size, psram_size, flash_size, read16, decode_uncached, cached, ◌>>=◌}

-- the entry of a result without the chip
abbrev pub value : {D : Type 0} → Option (ℕ × Chip D) → Option ℕ
value none = none
value (some (p, c)) = some p

abbrev pub at_chip : {D : Type 0} → Chip D → Option ℕ → Option (ℕ × Chip D)
at_chip c none = none
at_chip c (some p) = some (p, c)

pub value-at_chip : {D : Type 0} (c : Chip D) (o : Option ℕ) → value (at_chip c o) ≡ o
value-at_chip c none = refl
value-at_chip c (some p) = refl

-- the ends of `decodeUncached` and of `decodeAndCache`
finish : {D : Type 0} (c : Chip D) (o : Option ℕ) → (o >>= λ p. some (p, c)) ≡ at_chip c o
finish c none = refl
finish c (some p) = refl

filled :
    {D : Type 0} (c : Chip D) (g : ℕ → Chip D → Chip D) (o : Option ℕ)
    → value (at_chip c o >>= λ x. some (x.0, g x.0 x.1)) ≡ o
filled c g none = refl
filled c g (some p) = refl

module _ {D : Type 0} (rest : Rest D) where
  uncached-window :
      (r : Region) (i a : ℕ) (c : Chip D)
      → read16 rest a c ≡ some (half r i, c)
      → read16 rest (a + 2) c ≡ some (half r (i + 1), c)
      → decode_uncached rest a c ≡ at_chip c (uncached r i)
  unfolding decode_uncached decode_halves
  uncached-window r i a c e f = elim (Bool-cases (low_bits (half r i) 2 == 3)) [
    | inl k ↦ simp (e, f, k) (finish c _)
    | inr k ↦ simp (e, k) (finish c _)
  ]

  pub cached-value :
      (r : Region) (i a : ℕ) (store : Region → Chip D → Chip D) (c : Chip D)
      → (r.decode i ≡ 0) ⊎ (uncached r i ≡ some (r.decode i))
      → decode_uncached rest a c ≡ at_chip c (uncached r i)
      → value (cached rest r i store a c) ≡ uncached r i
  unfolding cached
  cached-value r i a store c h e = elim (Bool-cases (r.decode i == 0)) [
    | inl k ↦
        simp (k, e)
          (filled c (λ p d. store (record r { decode = put r.decode i p }) d) (uncached r i))
    | inr k ↦ elim h [ inl z ↦ absurd (cc (k, (==_iff _ _).1 z)) | inr w ↦ simp k (sym w) ]
  ]

  -- Reads and fetches in each window, away from its last halfword.
  read16-sram :
      (a : ℕ) (c : Chip D)
      → in_sram a ≡ true
      → read16 rest a c ≡ some (half c.sram ((a - ram_start) / 2), c)
  unfolding read16
  read16-sram a c h = simp h refl

  read16-psram :
      (a : ℕ) (c : Chip D)
      → in_psram a ≡ true
      → read16 rest a c ≡ some (half c.psram ((a - psram_start) / 2), c)
  unfolding read16
  read16-psram a c h = let n : in_sram a ≡ false = ground (arith, h) in simp (n, h) refl

  read16-flash :
      (a : ℕ) (c : Chip D)
      → in_psram a ≡ false
      → in_flash a ≡ true
      → read16 rest a c ≡ some (half c.flash (a % flash_size / 2), c)
  unfolding read16
  read16-flash a c m h = let n : in_sram a ≡ false = ground (arith, h) in simp (n, m, h) refl

  -- The three windows.
  pub uncached-sram :
      (a : ℕ) (c : Chip D)
      → in_sram a ≡ true
      → (a - ram_start) / 2 + 1 < sram_size / 2
      → decode_uncached rest a c ≡ at_chip c (uncached c.sram ((a - ram_start) / 2))
  uncached-sram a c h lt =
      let g : in_sram (a + 2) ≡ true = ground (arith, h) in
      let k : (a + 2 - ram_start) / 2 ≡ (a - ram_start) / 2 + 1 = ground (arith, h) in
      uncached-window c.sram ((a - ram_start) / 2) a c (read16-sram a c h)
        (read16-sram (a + 2) c g ∙ ap (λ i. some (half c.sram i, c)) k)

  pub uncached-psram :
      (a : ℕ) (c : Chip D)
      → in_psram a ≡ true
      → (a - psram_start) / 2 + 1 < psram_size / 2
      → decode_uncached rest a c ≡ at_chip c (uncached c.psram ((a - psram_start) / 2))
  uncached-psram a c h lt =
      let g : in_psram (a + 2) ≡ true = ground (arith, h) in
      let k : (a + 2 - psram_start) / 2 ≡ (a - psram_start) / 2 + 1 = ground (arith, h) in
      uncached-window c.psram ((a - psram_start) / 2) a c (read16-psram a c h)
        (read16-psram (a + 2) c g ∙ ap (λ i. some (half c.psram i, c)) k)

  pub uncached-flash :
      (a : ℕ) (c : Chip D)
      → in_psram a ≡ false
      → in_flash a ≡ true
      → a % flash_size / 2 + 1 < flash_size / 2
      → decode_uncached rest a c ≡ at_chip c (uncached c.flash (a % flash_size / 2))
  uncached-flash a c m h lt =
      let n : in_psram (a + 2) ≡ false = ground (arith, m, h) in
      let g : in_flash (a + 2) ≡ true = ground (arith, h) in
      let k : (a + 2) % flash_size / 2 ≡ a % flash_size / 2 + 1 = omega arith in
      uncached-window c.flash (a % flash_size / 2) a c (read16-flash a c m h)
        (read16-flash (a + 2) c n g ∙ ap (λ i. some (half c.flash i, c)) k)
