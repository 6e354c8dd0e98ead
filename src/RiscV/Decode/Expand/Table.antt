-- ===== src/RiscV/Decode/Expand/Table.antt =====
-- The table of all compressed instructions against their long forms.
use rp2350js.Base.{ℕ, ◌+◌, ◌*◌, ◌≡◌, refl, Option, some}
use rp2350js.Base.{none, Bool, true, false, all_below, ◌==◌}
use rp2350js.RiscV.Decode.{decode_word}
use rp2350js.RiscV.Decode.Fields.{len_32, emit}
use rp2350js.RiscV.Decode.Expand.{expand}

abbrev pub same_but_length : Option ℕ → Option ℕ → Bool
same_but_length (some p) (some q) = p + len_32 == q
same_but_length _ _ = false

abbrev pub agrees : ℕ → Bool
agrees h = elim (expand h) [
  | none ↦ true
  | some w ↦ same_but_length (decode_word h) (decode_word w)
]

abbrev pub Quarter : ℕ → Type 0
Quarter k = all_below 0x2000 (λ j. agrees (k * 0x2000 + j)) ≡ true

pub q0 : Quarter 0
unfolding all_below expand decode_word emit
q0 = refl

pub q1 : Quarter 1
unfolding all_below expand decode_word emit
q1 = refl

pub q2 : Quarter 2
unfolding all_below expand decode_word emit
q2 = refl

pub q3 : Quarter 3
unfolding all_below expand decode_word emit
q3 = refl

pub q4 : Quarter 4
unfolding all_below expand decode_word emit
q4 = refl

pub q5 : Quarter 5
unfolding all_below expand decode_word emit
q5 = refl

pub q6 : Quarter 6
unfolding all_below expand decode_word emit
q6 = refl

pub q7 : Quarter 7
unfolding all_below expand decode_word emit
q7 = refl
