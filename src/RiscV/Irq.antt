-- ===== src/RiscV/Irq.antt =====
-- riscv/cpu.ts: the external interrupts of Xh3irq, as far as the candidate list and the MEINEXT and
-- MEICONTEXT registers.
pub mod Ordered
pub mod Listed
pub mod Highest
use rp2350js.Base.{
  ℕ, ◌+◌, ◌-◌, ◌*◌, ◌/◌, ◌%◌, ◌^◌, Bool, true, false, not, ◌&&◌, ◌||◌, bit_and, bit_or,
}
use rp2350js.Base.{
  List, [], ◌∷◌, Option, some, none, u32, two31, not32, field, low_bits, shr, shl, sar,
}
use rp2350js.Base.{test_bit, is_neg, ltb, leb, ◌==◌, if◌then◌else◌}
use rp2350js.RiscV.State.{Candidate, candidate, Core, put, put_csr}

-- the condition of the loop of `insertCandidate`: the new candidate goes before x
abbrev pub goes_before : ℕ → ℕ → Candidate → Bool
goes_before i p x = ltb x.priority p || ((x.priority == p) && ltb i x.irq)

unfoldable pub insert_candidate : ℕ → ℕ → List Candidate → List Candidate
insert_candidate i p [] = candidate i p ∷ []
insert_candidate i p (x ∷ xs) =
    let rest = insert_candidate i p xs in
    if goes_before i p x then x ∷ rest else candidate i p ∷ x ∷ xs

unfoldable pub has_irq : ℕ → List Candidate → Bool
has_irq i [] = false
has_irq i (x ∷ xs) = (x.irq == i) || has_irq i xs

-- The search of `removeCandidate` starts at the front of the arrays, the end of the list.
unfoldable pub remove_candidate : ℕ → List Candidate → List Candidate
unfolding has_irq
remove_candidate i [] = []
remove_candidate i (x ∷ xs) =
    let rest = remove_candidate i xs in
    if has_irq i xs then x ∷ rest else if x.irq == i then xs else x ∷ xs

-- `candidateIrq[0]` and `candidatePriority[0]`, where `candidateCount` is not 0
unfoldable pub front : List Candidate → Option Candidate
front [] = none
front (x ∷ []) = some x
front (x ∷ y ∷ xs) = front (y ∷ xs)

abbrev pub no_irq : ℕ
no_irq = two31

module _ {M : Type 0} where
  abbrev pub no_candidate : Core M → Core M
  no_candidate s = put_csr 0x344 (bit_and (s.csrs 0x344) (not32 (2 ^ 11))) (put_csr 0xbe4 no_irq s)

  -- `updateMEINEXT`
  unfoldable pub update_meinext : Core M → Core M
  unfolding front
  update_meinext s = elim (front s.candidates) [
    | none ↦ no_candidate s
    | some x ↦
        if leb (field (s.csrs 0xbe5) 24 4) x.priority
        then put_csr 0x344 (bit_or (s.csrs 0x344) (2 ^ 11)) (put_csr 0xbe4 (x.irq * 4) s)
        else no_candidate s
  ]

  unfoldable pub set_interrupt : ℕ → Bool → Core M → Core M
  unfolding insert_candidate remove_candidate update_meinext
  set_interrupt i value s =
      if value && not (s.meipa i)
      then (let s1 = record s { meipa = put s.meipa i true } in
          if s.meiea i
          then record (update_meinext
              (record s1 { candidates = insert_candidate i (s.meipra i) s.candidates })) {
                interrupts_updated = true;
              }
          else s1)
      else if not value && s.meipa i
      then update_meinext
          (record s { meipa = put s.meipa i false; candidates = remove_candidate i s.candidates })
      else s

  unfoldable pub set_interrupt_enabled : ℕ → Bool → Core M → Core M
  unfolding set_interrupt
  set_interrupt_enabled i value s =
      let s1 =
        if value && not (s.meiea i) && s.meipa i
        then set_interrupt i true
            (record s { meiea = put s.meiea i true; meipa = put s.meipa i false })
        else if not value && s.meiea i && s.meipa i
        then (let t = set_interrupt i false s in record t { meipa = put t.meipa i true })
        else s in
      record s1 { meiea = put s1.meiea i value }

  -- the loop body of a write to MEIPRA
  unfoldable pub set_priority : ℕ → ℕ → Core M → Core M
  unfolding set_interrupt
  set_priority i p s =
      let s1 = record s { meipra = put s.meipra i p } in
      if s1.meipa i then set_interrupt i true (set_interrupt i false s1) else s1

  -- the loop body of a write to MEIFA
  unfoldable pub set_forced : ℕ → Bool → Core M → Core M
  unfolding set_interrupt
  set_forced i forced s =
      let s1 = record s { meifa = put s.meifa i forced } in
      if forced then set_interrupt i true s1 else if leb 46 i then set_interrupt i false s1 else s1

  -- PREEMPT for the interrupt in MEINEXT, or for none
  abbrev pub next_preempt : Core M → ℕ
  next_preempt s =
      let meinext = s.csrs 0xbe4 in if is_neg meinext then 16 else s.meipra (field meinext 2 9) + 1

  -- `updateMEICONTEXT_update`: `meinext >> 31` is -1 where there is no interrupt
  unfoldable pub update_meicontext : Core M → Core M
  update_meicontext s =
      let meinext = s.csrs 0xbe4 in
      let cleared = bit_and (s.csrs 0xbe5) (not32 (2 ^ 15 + 0x1ff * 2 ^ 4 + 0x1f * 2 ^ 16)) in
      let c1 = bit_or cleared (shl (sar meinext 31) 15) in
      let c2 = if is_neg meinext then c1 else bit_or c1 (field meinext 2 9 * 2 ^ 4) in
      put_csr 0xbe5 (bit_or c2 (shl (next_preempt s) 16)) s

  -- `updateMEICONTEXT_priority_save`
  unfoldable pub priority_save : Core M → Core M
  priority_save s =
      let old = s.csrs 0xbe5 in
      let c1 = bit_or (bit_and old 0xfff1) (field old 16 4 * 2 ^ 24) in
      let c2 = bit_or c1 (field old 24 4 * 2 ^ 28) in
      put_csr 0xbe5 (bit_or (bit_or c2 (shl (next_preempt s) 16)) 1) s

  -- `updateMEICONTEXT_priority_restore`
  unfoldable pub priority_restore : Core M → Core M
  priority_restore s =
      let old = s.csrs 0xbe5 in
      if not (test_bit old 0)
      then s
      else put_csr 0xbe5
          (bit_or (bit_or (bit_and old 0x7ffe) (shr old 28 * 2 ^ 24)) (field old 24 4 * 2 ^ 16)) s

  unfoldable pub waking_interrupt_pending : Core M → Bool
  waking_interrupt_pending s =
      let meinext = s.csrs 0xbe4 in
      test_bit (s.csrs 0x304) 11
      && not (is_neg meinext)
      && leb (field (s.csrs 0xbe5) 16 5) (s.meipra (field meinext 2 9))
