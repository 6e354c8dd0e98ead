-- ===== src/M0/Exception/Entry/Status.antt =====
-- The status word of an exception's frame: what `exceptionEntry` stacks and what
-- `exceptionReturn` makes of it.
use rp2350js.Base.{ℕ, ◌+◌, ◌*◌, ◌/◌, ◌%◌, ◌^◌, ◌<◌, ◌≡◌, refl, ◌∙◌, ap, arith, Bool}
use rp2350js.Base.{true, false, ◌&&◌, if◌then◌else◌, bit_or, u32, two32, low_bits, test_bit}
use rp2350js.Base.{◌==◌, ltb, to_num, Bool-cases, inl, inr}
use rp2350js.Base.Bits.{bit_or_sum, bit_or_split, bit_or-zero}
use rp2350js.M0.State.{Core}
use rp2350js.M0.State.{xpsr, apsr}
use rp2350js.M0.State.{is_thread}
use rp2350js.M0.Exception.Entry.{release_frame}
use rp2350js.M0.Exception.Entry.{with_bit9}
use rp2350js.M0.Exception.Entry.{finish_return}

psr_bits : (t i : ℕ) → i < 64 → bit_or (bit_or (t * 2 ^ 28) i) (2 ^ 24) ≡ t * 2 ^ 28 + i + 2 ^ 24
psr_bits t i h =
    rw (bit_or_sum 28 t i (omega arith), bit_or_split 24 (t * 2 ^ 28 + i) (2 ^ 24), high, low)
      (omega arith)
  where
    high : bit_or ((t * 2 ^ 28 + i) / 2 ^ 24) (2 ^ 24 / 2 ^ 24) ≡ t * 2 ^ 4 + 1
    high = ap (λ x. bit_or x 1) (omega arith) ∙ bit_or_sum 4 t 1 (omega arith)

    low : bit_or ((t * 2 ^ 28 + i) % 2 ^ 24) (2 ^ 24 % 2 ^ 24) ≡ i
    low = ap (λ x. bit_or x 0) (omega arith) ∙ bit_or-zero i

-- Where no bit is shared, `xPSR` is a sum.
xpsr_sum : {M : Type 0} (s : Core M) → s.ipsr < 64 → xpsr s ≡ apsr s + s.ipsr + 2 ^ 24
xpsr_sum s h =
    ap (λ x. bit_or (bit_or x s.ipsr) (2 ^ 24)) flags ∙ psr_bits top s.ipsr h ∙ omega arith
  where
    top : ℕ
    top = to_num s.n * 8 + to_num s.z * 4 + to_num s.c * 2 + to_num s.v

    flags : apsr s ≡ top * 2 ^ 28
    flags = omega arith

-- The word with these bits on top, the bit 24, the alignment bit and the exception number.
abbrev status : ℕ → ℕ → ℕ → ℕ → ℕ → ℕ → ℕ
status n z c v b i = n * 2 ^ 31 + z * 2 ^ 30 + c * 2 ^ 29 + v * 2 ^ 28 + 2 ^ 24 + b * 2 ^ 9 + i

to_num-lt : (b : Bool) → to_num b < 2
to_num-lt true = omega arith
to_num-lt false = omega arith

to_num-back : (b : Bool) → ltb 0 (to_num b) ≡ b
to_num-back true = refl
to_num-back false = refl

status_bits :
    (n z c v b i : ℕ)
    → n < 2
    → z < 2
    → c < 2
    → v < 2
    → b < 2
    → i < 64
    → let w = status n z c v b i in
      (w / 2 ^ 31 % 2 ≡ n)
      × (w / 2 ^ 30 % 2 ≡ z)
      × (w / 2 ^ 29 % 2 ≡ c)
      × (w / 2 ^ 28 % 2 ≡ v)
      × (w / 2 ^ 9 % 2 ≡ b)
      × (w % 2 ^ 6 ≡ i)
      × (w < two32)
status_bits n z c v b i hn hz hc hv hb hi =
    (omega arith, omega arith, omega arith, omega arith, omega arith, omega arith, omega arith)

stacked_sum :
    {M : Type 0} (s : Core M) (b : Bool)
    → s.ipsr < 64
    → u32 (with_bit9 (xpsr s) (to_num b))
      ≡ status (to_num s.n) (to_num s.z) (to_num s.c) (to_num s.v) (to_num b) s.ipsr
stacked_sum s b h =
    rw (xpsr_sum s h)
      (ground (arith, to_num-lt s.n, to_num-lt s.z, to_num-lt s.c, to_num-lt s.v, to_num-lt b))

-- The stacked status word gives back the flags, the exception number and the alignment.
stacked_psr :
    {M : Type 0} (s : Core M) (b : Bool)
    → s.ipsr < 64
    → let w = u32 (with_bit9 (xpsr s) (to_num b)) in
      (test_bit w 31 ≡ s.n)
      × (test_bit w 30 ≡ s.z)
      × (test_bit w 29 ≡ s.c)
      × (test_bit w 28 ≡ s.v)
      × (test_bit w 9 ≡ b)
      × (low_bits w 6 ≡ s.ipsr)
stacked_psr s b h =
    let bits =
      status_bits (to_num s.n) (to_num s.z) (to_num s.c) (to_num s.v) (to_num b) s.ipsr
        (to_num-lt s.n) (to_num-lt s.z) (to_num-lt s.c) (to_num-lt s.v) (to_num-lt b) h in
    rw (stacked_sum s b h) (
      ap (ltb 0) bits.0 ∙ to_num-back s.n,
      ap (ltb 0) bits.1 ∙ to_num-back s.z,
      ap (ltb 0) bits.2 ∙ to_num-back s.c,
      ap (ltb 0) bits.3 ∙ to_num-back s.v,
      ap (ltb 0) bits.4 ∙ to_num-back b,
      bits.5,
    )

module _ {M : Type 0} where
  mode-release_frame :
      (k a : ℕ) (t : Core M)
      → ((release_frame k a t).current_mode ≡ t.current_mode)
        × ((release_frame k a t).n_priv ≡ t.n_priv)
  unfolding release_frame
  mode-release_frame k a t = elim (Bool-cases (k == 1)) [
    | inl e ↦ rw e (ground arith)
    | inr e ↦ elim (Bool-cases (k == 9)) [
      | inl f ↦ rw (e, f) (ground arith)
      | inr f ↦ elim (Bool-cases (k == 13)) [
        | inl g ↦ rw (e, f, g) (ground arith)
        | inr g ↦ rw (e, f, g) (refl, refl)
      ]
    ]
  ]

  -- Whatever the handler leaves, when `exceptionReturn` pops the status word that `exceptionEntry`
  -- has made in a state `s` with an exception number below 64: N, Z, C, V and the exception number
  -- are those of `s` (the number is 0 for an unprivileged thread), and the alignment bit is back.
  pub finish_return-restores :
      (k : ℕ) (aligned : Bool) (s t : Core M)
      → s.ipsr < 64
      → let psr = u32 (with_bit9 (xpsr s) (to_num aligned)) in
        let r = finish_return k psr t in
        (r.n ≡ s.n)
        × (r.z ≡ s.z)
        × (r.c ≡ s.c)
        × (r.v ≡ s.v)
        × (r.ipsr ≡ (if is_thread t.current_mode && t.n_priv then 0 else s.ipsr))
        × (test_bit psr 9 ≡ aligned)
  unfolding finish_return
  finish_return-restores k aligned s t h =
      let bits = stacked_psr s aligned h in
      let mode =
        mode-release_frame k
          (if test_bit (u32 (with_bit9 (xpsr s) (to_num aligned))) 9 then 4 else 0) t in
      (bits.0, bits.1, bits.2, bits.3, rw (mode.0, mode.1, bits.5) refl, bits.4)
