-- ===== src/Chip/Memory/Access.antt =====
-- Accesses to the memory in any order, and the decode caches after them.
pub mod Write
pub mod Reach
use rp2350js.Base.{
  ℕ, ◌+◌, ◌-◌, ◌*◌, ◌/◌, ◌%◌, ◌^◌, ◌<◌, ◌≤◌, ◌≡◌, ◌≢◌, ◌⊎◌, refl, sym, ap, ◌∙◌, subst, arith,
}
use rp2350js.Base.{
  Option, some, none, Bool, true, false, not, ◌&&◌, ◌||◌, Bool-cases, inl, inr, ltb, leb, ◌==◌,
  ==_iff, if◌then◌else◌,
}
use rp2350js.RiscV.State.{put}
use rp2350js.Chip.Region.{Region, store8, store16, store32}
use rp2350js.Chip.Region.Coherent.{
  uncached, IsCoherent, store8-IsCoherent, store16-IsCoherent, store32-IsCoherent,
}
use rp2350js.Chip.Memory.{
  Chip, Rest, in_sram, in_psram, in_flash, ram_start, psram_start, set_devices,
}
use rp2350js.Chip.Memory.{
  sram_size, psram_size, flash_size, write8, write16, write32, decode_uncached, cached,
  get_decode_entry, ◌>>=◌,
}
use rp2350js.Chip.Memory.Fetch.{
  value, at_chip, value-at_chip, cached-value, uncached-sram, uncached-psram, uncached-flash,
}

-- the last halfword of a window, after which an instruction goes on in another
unfoldable pub is_last : ℕ → Bool
is_last a =
    if in_sram a
    then leb (sram_size / 2) ((a - ram_start) / 2 + 1)
    else if in_psram a
    then leb (psram_size / 2) ((a - psram_start) / 2 + 1)
    else in_flash a && leb (flash_size / 2) (a % flash_size / 2 + 1)

abbrev pub AreCoherent : {D : Type 0} → Chip D → Type 0
AreCoherent c =
    IsCoherent (sram_size / 2) c.sram
    × IsCoherent (psram_size / 2) c.psram
    × IsCoherent (flash_size / 2) c.flash

-- The entry of an instruction that was decoded is put in the cache.
fill-IsCoherent :
    (n i p : ℕ) (r : Region)
    → uncached r i ≡ some p
    → IsCoherent n r
    → IsCoherent n (record r { decode = put r.decode i p })
unfolding IsCoherent
fill-IsCoherent n i p r e h j lt = elim (Bool-cases (j == i)) [
  | inl k ↦ let z : j ≡ i = (==_iff j i).0 k in inr (ap (uncached r) z ∙ e ∙ ground (arith, k))
  | inr k ↦ elim (h j lt) [
    | inl z ↦ inl (ground (arith, k, z))
    | inr w ↦ inr (w ∙ ground (arith, k))
  ]
]

abbrev chip_of : {D : Type 0} → Chip D → Option (ℕ × Chip D) → Chip D
chip_of c none = c
chip_of c (some (p, d)) = d

module _ {D : Type 0} (n i : ℕ) (r : Region) (store : Region → Chip D → Chip D) (c : Chip D) where
  -- `decodeAndCache` on the value that was decoded
  abbrev fill : Option ℕ → Option (ℕ × Chip D)
  fill o = at_chip c o >>= λ x. some (x.0, store (record r { decode = put r.decode i x.0 }) x.1)

  filled-IsCoherent :
      (o : Option ℕ) (p : ℕ) (d : Chip D)
      → uncached r i ≡ o
      → fill o ≡ some (p, d)
      → IsCoherent n r
      → (s : Region) × (d ≡ store s c) × IsCoherent n s
  filled-IsCoherent none p d e f h = absurd (cc f)
  filled-IsCoherent (some q) p d e f h =
      (record r { decode = put r.decode i q }, ap (chip_of c) (sym f), fill-IsCoherent n i q r e h)

module _ {D : Type 0} (rest : Rest D) where
  -- A fetch through the cache of one region.
  pub cached-IsCoherent :
      (n i a p : ℕ) (r : Region) (store : Region → Chip D → Chip D) (c d : Chip D)
      → store r c ≡ c
      → decode_uncached rest a c ≡ at_chip c (uncached r i)
      → cached rest r i store a c ≡ some (p, d)
      → IsCoherent n r
      → (s : Region) × (d ≡ store s c) × IsCoherent n s
  unfolding cached
  cached-IsCoherent n i a p r store c d same e f h = elim (Bool-cases (r.decode i == 0)) [
    | inl k ↦
        let g : cached rest r i store a c ≡ fill n i r store c (uncached r i) = simp (k, e) refl in
        filled-IsCoherent n i r store c (uncached r i) p d refl (sym g ∙ f) h
    | inr k ↦
        let g : cached rest r i store a c ≡ some (r.decode i, c) = simp k refl in
        (r, ap (chip_of c) (sym f ∙ g) ∙ sym same, h)
  ]

the : {D : Type 0} → Chip D → Option (Chip D) → Chip D
the c none = c
the c (some d) = d

module _ {D : Type 0} (c d : Chip D) where
  -- A store into one of the memories, and one that goes elsewhere.
  pub sram-AreCoherent :
      (r : Region)
      → some (record c { sram = r }) ≡ some d
      → IsCoherent (sram_size / 2) r
      → AreCoherent c
      → AreCoherent d
  unfolding the
  sram-AreCoherent r e k (x, y, z) = subst AreCoherent (ap (the c) e) (k, y, z)

  pub psram-AreCoherent :
      (r : Region)
      → some (record c { psram = r }) ≡ some d
      → IsCoherent (psram_size / 2) r
      → AreCoherent c
      → AreCoherent d
  unfolding the
  psram-AreCoherent r e k (x, y, z) = subst AreCoherent (ap (the c) e) (x, k, z)

  pub devices-AreCoherent :
      (o : Option D) → set_devices c o ≡ some d → AreCoherent c → AreCoherent d
  unfolding the
  devices-AreCoherent none e h = absurd (cc e)
  devices-AreCoherent (some x) e h = subst AreCoherent (ap (the c) e) h

  pub same-AreCoherent : some c ≡ some d → AreCoherent c → AreCoherent d
  unfolding the
  same-AreCoherent e h = subst AreCoherent (ap (the c) e) h
