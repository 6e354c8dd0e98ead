-- ===== src/RiscV/Decode/Expand/Same.antt =====
-- Compressed instructions and the instructions that they stand for are decoded to the same entry.
use rp2350js.Base.{ℕ, zero, suc, ◌+◌, ◌*◌, ◌/◌, ◌%◌, ◌^◌, ◌<◌, ◌≡◌, refl, ap, sym}
use rp2350js.Base.{subst, arith, Option, some, none, true, every_below, ==_iff}
use rp2350js.RiscV.Decode.{decode_word}
use rp2350js.RiscV.Decode.Fields.{len_32}
use rp2350js.RiscV.Decode.Expand.{expand}
use rp2350js.RiscV.Decode.Expand.Table.{
  same_but_length, agrees, Quarter, q0, q1, q2, q3, q4, q5, q6, q7,
}

quarter : (k : ℕ) → k < 8 → Quarter k
quarter zero _ = q0
quarter (suc zero) _ = q1
quarter (suc (suc zero)) _ = q2
quarter (suc (suc (suc zero))) _ = q3
quarter (suc (suc (suc (suc zero)))) _ = q4
quarter (suc (suc (suc (suc (suc zero))))) _ = q5
quarter (suc (suc (suc (suc (suc (suc zero)))))) _ = q6
quarter (suc (suc (suc (suc (suc (suc (suc zero))))))) _ = q7
quarter (suc (suc (suc (suc (suc (suc (suc (suc k)))))))) lt = absurd (omega arith)

agrees_all : (h : ℕ) → h < 2 ^ 16 → agrees h ≡ true
agrees_all h lt =
    let k : h / 0x2000 < 8 = omega arith in
    let e : h / 0x2000 * 0x2000 + h % 0x2000 ≡ h = omega arith in
    subst (λ x. agrees x ≡ true) e
      (every_below (λ j. agrees (h / 0x2000 * 0x2000 + j)) 0x2000 (h % 0x2000) (omega arith)
        (quarter (h / 0x2000) k))

Entries : Option ℕ → Option ℕ → Type 0
Entries x y = (p : ℕ) × (x ≡ some p) × (y ≡ some (p + len_32))

same_but_length-Entries : (x y : Option ℕ) → same_but_length x y ≡ true → Entries x y
unfolding Entries
same_but_length-Entries none none h = absurd (cc h)
same_but_length-Entries none (some q) h = absurd (cc h)
same_but_length-Entries (some p) none h = absurd (cc h)
same_but_length-Entries (some p) (some q) h = (p, refl, ap some (sym ((==_iff _ _).0 h)))

-- A compressed instruction that has a long form is decoded, to the entry of the long form but for its length.
pub decode_word-expand :
    (h w : ℕ)
    → h < 2 ^ 16
    → expand h ≡ some w
    → (p : ℕ) × (decode_word h ≡ some p) × (decode_word w ≡ some (p + len_32))
unfolding Entries
decode_word-expand h w lt e = same_but_length-Entries (decode_word h) (decode_word w) (
    subst
      (λ o.
        (elim o [ none ↦ true | some w ↦ same_but_length (decode_word h) (decode_word w) ]) ≡ true)
      e (agrees_all h lt))
