-- ===== src/Chip/Region/Coherent.antt =====
-- The cache of decoded instructions against the bytes.
use rp2350js.Base.{
  ℕ, zero, suc, ◌+◌, ◌-◌, ◌*◌, ◌/◌, ◌%◌, ◌^◌, ◌<◌, ◌≡◌, ◌⊎◌, refl, sym, ap, ap₂, ◌∙◌, arith,
}
use rp2350js.Base.{
  Option, some, Bool-cases, false, inl, inr, ltb, leb, ◌&&◌, if◌then◌else◌, low_bits,
}
use rp2350js.RiscV.State.{put}
use rp2350js.Chip.Region.{
  Region, put16, put32, half, decode_halves, clear, invalidate_decode, store8, store16, store32,
}

abbrev pub uncached : Region → ℕ → Option ℕ
uncached r i = decode_halves (half r i) (half r (i + 1))

-- Each of the first n entries but the last is empty or that of the instruction that starts there.
unfoldable pub IsCoherent : ℕ → Region → Type 0
IsCoherent n r = (i : ℕ) → i + 1 < n → (r.decode i ≡ 0) ⊎ (uncached r i ≡ some (r.decode i))

clear-at :
    (n i : ℕ) (d : ℕ → ℕ) (j : ℕ) → clear n i d j ≡ (if leb i j && ltb j (i + n) then 0 else d j)
unfolding clear
clear-at zero i d j = ground arith
clear-at (suc n) i d j = ground (arith, clear-at n (i + 1) (put d i 0) j)

-- An entry after an invalidation: one whose instruction overlaps the bytes is empty, the others stay.
invalidated :
    (off len : ℕ) (r : Region) (j : ℕ)
    → 0 < len
    → (invalidate_decode off len r).decode j
      ≡ (if leb (off / 2) (j + 1) && leb j ((off + len - 1) / 2) then 0 else r.decode j)
unfolding invalidate_decode
invalidated off len r j h = elim (Bool-cases (ltb 0 (off / 2))) [
  | inl e ↦ ground (
    arith,
    e,
    clear-at ((off + len - 1) / 2 + 1 - off / 2) (off / 2) (put r.decode (off / 2 - 1) 0) j,
  )
  | inr e ↦ ground (arith, e, clear-at ((off + len - 1) / 2 + 1 - off / 2) (off / 2) r.decode j)
]

uncached-invalidate_decode :
    (off len : ℕ) (r s : Region) (i : ℕ)
    → half s i ≡ half r i
    → half s (i + 1) ≡ half r (i + 1)
    → uncached (invalidate_decode off len s) i ≡ uncached r i
unfolding invalidate_decode
uncached-invalidate_decode off len r s i a b = ap₂ decode_halves a b

-- Where the bytes change in the halfwords from off / 2 to (off + len - 1) / 2 only.
module _ (n off len : ℕ) (r s : Region) (pos : 0 < len) (e : s.decode ≡ r.decode)
    (same : (i : ℕ) → ((off + len - 1) / 2 < i) ⊎ (i < off / 2) → half s i ≡ half r i) where
  kept :
      (i : ℕ)
      → ((off + len - 1) / 2 < i) ⊎ (i + 1 < off / 2)
      → uncached (invalidate_decode off len s) i ≡ uncached r i
  kept i (inl h) =
      uncached-invalidate_decode off len r s i (same i (inl h)) (same (i + 1) (inl (omega arith)))
  kept i (inr h) =
      uncached-invalidate_decode off len r s i (same i (inr (omega arith))) (same (i + 1) (inr h))

  outside :
      (i : ℕ)
      → (leb (off / 2) (i + 1) && leb i ((off + len - 1) / 2)) ≡ false
      → ((off + len - 1) / 2 < i) ⊎ (i + 1 < off / 2)
  outside i k = elim (Bool-cases (leb (off / 2) (i + 1))) [
    | inl l ↦ inl (ground (arith, k, l))
    | inr l ↦ inr (ground (arith, l))
  ]

  changed-IsCoherent : IsCoherent n r → IsCoherent n (invalidate_decode off len s)
  unfolding IsCoherent
  changed-IsCoherent c i lt =
      elim (Bool-cases (leb (off / 2) (i + 1) && leb i ((off + len - 1) / 2))) [
        | inl k ↦ inl (ground (arith, invalidated off len s i pos, k))
        | inr k ↦
            let d : (invalidate_decode off len s).decode i ≡ r.decode i =
              ground (arith, invalidated off len s i pos, k, ap (λ f. f i) e) in
            let u = kept i (outside i k) in
            elim (c i lt) [ inl z ↦ inl (d ∙ z) | inr w ↦ inr (u ∙ w ∙ ap some (sym d)) ]
      ]

-- The halfword i of bytes that are changed elsewhere.
abbrev pair : (ℕ → ℕ) → ℕ → ℕ
pair b i = b (2 * i) + b (2 * i + 1) * 2 ^ 8

pair-put :
    (b : ℕ → ℕ) (off v i : ℕ)
    → ((off + 1 - 1) / 2 < i) ⊎ (i < off / 2)
    → pair (put b off v) i ≡ pair b i
pair-put b off v i (inl h) = ground (arith, h)
pair-put b off v i (inr h) = ground (arith, h)

pair-put16 :
    (b : ℕ → ℕ) (off v i : ℕ)
    → ((off + 2 - 1) / 2 < i) ⊎ (i < off / 2)
    → pair (put16 (off / 2) v b) i ≡ pair b i
pair-put16 b off v i (inl h) = ground (arith, h)
pair-put16 b off v i (inr h) = ground (arith, h)

pair-put32 :
    (b : ℕ → ℕ) (off v i : ℕ)
    → off % 4 ≡ 0
    → ((off + 4 - 1) / 2 < i) ⊎ (i < off / 2)
    → pair (put32 (off / 4) v b) i ≡ pair b i
pair-put32 b off v i al (inl h) = ground (arith, h, al)
pair-put32 b off v i al (inr h) = ground (arith, h, al)

module _ (n off v : ℕ) (r : Region) where
  pub store8-IsCoherent : IsCoherent n r → IsCoherent n (store8 off v r)
  unfolding store8
  store8-IsCoherent c =
      let s : Region = record r { bytes = put r.bytes off (low_bits v 8) } in
      changed-IsCoherent n off 1 r s (omega arith) refl (pair-put r.bytes off (low_bits v 8)) c

  pub store16-IsCoherent : IsCoherent n r → IsCoherent n (store16 off v r)
  unfolding store16
  store16-IsCoherent c =
      let s : Region = record r { bytes = put16 (off / 2) v r.bytes } in
      changed-IsCoherent n off 2 r s (omega arith) refl (pair-put16 r.bytes off v) c

  pub store32-IsCoherent : off % 4 ≡ 0 → IsCoherent n r → IsCoherent n (store32 off v r)
  unfolding store32
  store32-IsCoherent al c =
      let s : Region = record r { bytes = put32 (off / 4) v r.bytes } in
      changed-IsCoherent n off 4 r s (omega arith) refl (λ i. pair-put32 r.bytes off v i al) c
