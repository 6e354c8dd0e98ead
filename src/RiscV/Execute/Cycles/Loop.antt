-- ===== src/RiscV/Execute/Cycles/Loop.antt =====
-- The run loop comes to its end.
use rp2350js.Base.{ℕ, zero, suc, ◌+◌, ◌≤◌, ◌≡◌, refl, arith, Bool, true, false}
use rp2350js.Base.{Option, some, none, Bool-cases, inl, inr, if◌then◌else◌, leb, ltb}
use rp2350js.M0.State.{Bus}
use rp2350js.RiscV.State.{Core, tick}
use rp2350js.RiscV.Trap.{check_for_interrupts}
use rp2350js.RiscV.Execute.{
  Code, dispatch, exec_packed, prepare, advance, execute_instruction, run_loop, ◌>>=◌,
}
use rp2350js.RiscV.Execute.{execute_instructions_up_to, sx12, sx13, sx21, tag_field}
use rp2350js.RiscV.Execute.Cycles.Instr.{cycles-exec_load, cycles-exec_op_imm, cycles-exec_store}
use rp2350js.RiscV.Execute.Cycles.Instr.{
  cycles-exec_amo, cycles-exec_op, cycles-exec_h3, cycles-exec_branch,
}
use rp2350js.RiscV.Execute.Cycles.Instr.{cycles-exec_jalr, cycles-exec_jal, cycles-exec_system}
use rp2350js.RiscV.Execute.Cycles.Instr.{
  cycles-exec_custom0, cycles-exec_zcmp, cycles-check_for_interrupts,
}

-- a core that is returned has n cycles at least
unfoldable pub grown : {M : Type 0} → ℕ → Option (Core M) → Bool
grown n none = true
grown n (some t) = leb n t.cycles

grown_le :
    {M : Type 0} (n : ℕ) (o : Option (Core M)) (t : Core M)
    → o ≡ some t
    → grown n o ≡ true
    → n ≤ t.cycles
unfolding grown
grown_le n none t e h = absurd (cc e)
grown_le n (some u) t e h = ground (arith, e, h)

module _ {M : Type 0} (bus : Bus M) where
  grown-dispatch :
      (tag r a b imm : ℕ) (s : Core M) → grown s.cycles (dispatch bus tag r a b imm s) ≡ true
  unfolding dispatch grown
  grown-dispatch tag r a b imm s = ground (
    arith,
    cycles-exec_load bus tag r a (sx12 imm) s,
    cycles-exec_op_imm tag r a (sx12 imm) s,
    cycles-exec_store bus tag a b (sx12 imm) s,
    cycles-exec_amo bus tag r a b s,
    cycles-exec_op tag r a b s,
    cycles-exec_h3 tag s,
    cycles-exec_branch tag a b (sx13 imm) s,
    cycles-exec_jalr r a (sx12 imm) s,
    cycles-exec_jal bus r (sx21 imm) s,
    cycles-exec_system tag r a imm s,
    cycles-exec_custom0 tag r a b imm s,
    cycles-exec_zcmp bus tag r a b imm s,
  )

  cycles-prepare : (p : ℕ) (s : Core M) → s.cycles ≤ (prepare p s).cycles
  unfolding prepare
  cycles-prepare p s = ground arith

  cycles-advance : (s : Core M) → (advance s).cycles ≡ s.cycles
  unfolding advance
  cycles-advance s = ground arith

  grown-advance :
      (n m : ℕ) (o : Option (Core M))
      → n ≤ m
      → grown m o ≡ true
      → grown n (o >>= λ t. if bus.thrown t.mem then none else some (advance t)) ≡ true
  unfolding grown
  grown-advance n m none le h = refl
  grown-advance n m (some t) le h = elim (Bool-cases (bus.thrown t.mem)) [
    | inl e ↦ rw e refl
    | inr e ↦ rw e (ground (arith, h, cycles-advance t))
  ]

  grown-exec_packed : (p : ℕ) (s : Core M) → grown s.cycles (exec_packed bus p s) ≡ true
  unfolding exec_packed
  grown-exec_packed p s =
      grown-advance s.cycles (prepare p s).cycles _ (cycles-prepare p s)
        (grown-dispatch (tag_field p) _ _ _ _ (prepare p s))

  grown-tick :
      (n m : ℕ) (o : Option (Core M))
      → n ≤ m
      → grown m o ≡ true
      → grown (n + 1) (o >>= λ t. some (tick 1 t)) ≡ true
  unfolding grown
  grown-tick n m none le h = refl
  grown-tick n m (some t) le h = ground (arith, h)

  grown-fetched :
      (n : ℕ) (u : Core M) (o : Option (ℕ × M))
      → n ≤ u.cycles
      → grown
          (n + 1)
          (o >>= λ x. exec_packed bus x.0 (record u { mem = x.1 }) >>= λ t. some (tick 1 t))
        ≡ true
  unfolding grown
  grown-fetched n u none le = refl
  grown-fetched n u (some (p, m)) le =
      grown-tick n u.cycles (exec_packed bus p (record u { mem = m })) le
        (grown-exec_packed p (record u { mem = m }))

  grown-if :
      (n : ℕ) (b : Bool) (x y : Option (Core M))
      → grown n x ≡ true
      → grown n y ≡ true
      → grown n (if b then x else y) ≡ true
  grown-if n true x y p q = p
  grown-if n false x y p q = q

  awake : (n : ℕ) (u : Core M) → n ≤ u.cycles → grown (n + 1) (some (tick 1 u)) ≡ true
  unfolding grown
  awake n u le = ground arith

  module _ (code : Code M) where
    grown-execute_instruction :
        (s : Core M) → grown (s.cycles + 1) (execute_instruction bus code s) ≡ true
    unfolding execute_instruction
    grown-execute_instruction s =
        let u = check_for_interrupts s in
        let le = cycles-check_for_interrupts s in
        grown-if (s.cycles + 1) u.waiting _ _ (awake s.cycles u le)
          (grown-fetched s.cycles u (code.entry u.mem u.pc) le)

    slept :
        (cycle : ℕ) (u : Core M)
        → grown cycle (some (if ltb u.cycles cycle then record u { cycles = cycle } else u)) ≡ true
    unfolding grown
    slept cycle u = ground arith

    grown-next :
        (n m cycle : ℕ) (o : Option (Core M))
        → ((t : Core M) → cycle ≤ t.cycles + n → grown cycle (run_loop bus code n cycle t) ≡ true)
        → cycle ≤ m + (n + 1)
        → grown (m + 1) o ≡ true
        → grown cycle (elim o [ none ↦ none | some t ↦ run_loop bus code n cycle t ]) ≡ true
    unfolding grown
    grown-next n m cycle none rec le h = refl
    grown-next n m cycle (some t) rec le h = rec t (ground (arith, h, le))

    grown-run_loop :
        (n cycle : ℕ) (s : Core M)
        → cycle ≤ s.cycles + n
        → grown cycle (run_loop bus code n cycle s) ≡ true
    unfolding run_loop grown
    grown-run_loop zero cycle s le = ground arith
    grown-run_loop (suc n) cycle s le =
        go (ltb s.cycles cycle) refl (λ t h. grown-run_loop n cycle t h)
      where
        go :
            (b : Bool)
            → ltb s.cycles cycle ≡ b
            → ((t : Core M)
                → cycle ≤ t.cycles + n
                → grown cycle (run_loop bus code n cycle t) ≡ true)
            → grown cycle (elim b [
              | false ↦ some s
              | true ↦ elim (execute_instruction bus code s) [
                | none ↦ none
                | some t ↦ run_loop bus code n cycle t
              ]
            ])
              ≡ true
        go false e rec = ground (arith, e)
        go true e rec =
            grown-next n s.cycles cycle (execute_instruction bus code s) rec (ground (arith, le))
              (grown-execute_instruction s)

    -- A run of the core up to a cycle either throws or leaves the cycle count at that cycle at
    -- least, asleep or not: the fuel of the loop is never what stops it.
    pub execute_instructions_up_to-reaches :
        (cycle : ℕ) (s : Core M) → grown cycle (execute_instructions_up_to bus code cycle s) ≡ true
    unfolding execute_instructions_up_to
    execute_instructions_up_to-reaches cycle s =
        let u = check_for_interrupts s in
        grown-if cycle u.waiting _ _ (slept cycle u) (grown-run_loop cycle cycle u (omega arith))
