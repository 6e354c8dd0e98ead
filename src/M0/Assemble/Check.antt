-- ===== src/M0/Assemble/Check.antt =====
-- Equality of decoded instructions as a test, and its use over all values of the fields.
use mathlib.Core.Bool.{decide, decide_iff}
use native.Mathlib.Decide.{ℕ_discrete}
use rp2350js.Base.{ℕ, ◌<◌, ◌≡◌, Bool, true, all_below, every_below, low_bits, shr}
use rp2350js.M0.Instr.{Instr}
use rp2350js.M0.Decode.{decode}

-- A word in memory: the first halfword is the low one.
unfoldable pub decode_word : ℕ → Instr
unfolding decode
decode_word w = decode (low_bits w 16) (shr w 16)

Instr-discrete : Discrete Instr
Instr-discrete = hlevel ℕ_discrete

unfoldable pub same : Instr → Instr → Bool
unfolding Instr-discrete ℕ_discrete decide
same x y = decide (Instr-discrete x y)

same→eq : (x y : Instr) → same x y ≡ true → x ≡ y
unfolding same
same→eq x y h = (decide_iff (Instr-discrete x y)).0 h

module _ (f g : ℕ → Instr) (n : ℕ) where
  abbrev pub Agree1 : Type 0
  Agree1 = all_below n (λ i. same (f i) (g i)) ≡ true

  pub agree1 : Agree1 → (i : ℕ) → i < n → f i ≡ g i
  agree1 h i p = same→eq _ _ (every_below _ n i p h)

module _ (f g : ℕ → ℕ → Instr) (n m : ℕ) where
  abbrev pub Agree2 : Type 0
  Agree2 = all_below n (λ i. all_below m (λ j. same (f i j) (g i j))) ≡ true

  pub agree2 : Agree2 → (i j : ℕ) → i < n → j < m → f i j ≡ g i j
  agree2 h i j p q = same→eq _ _ (every_below _ m j q (every_below _ n i p h))

module _ (f g : ℕ → ℕ → ℕ → Instr) (n m l : ℕ) where
  abbrev pub Agree3 : Type 0
  Agree3 = all_below n (λ i. all_below m (λ j. all_below l (λ k. same (f i j k) (g i j k)))) ≡ true

  pub agree3 : Agree3 → (i j k : ℕ) → i < n → j < m → k < l → f i j k ≡ g i j k
  agree3 h i j k p q r =
      same→eq _ _ (every_below _ l k r (every_below _ m j q (every_below _ n i p h)))
