-- ===== src/RiscV/Memory/Stack.antt =====
-- CM.PUSH and CM.POP on a stack in RAM.
use rp2350js.Base.{ℕ, ◌+◌, ◌-◌, ◌*◌, ◌%◌, ◌<◌, ◌≤◌, ◌≡◌, refl, sym, ap, ◌∙◌, subst, arith}
use rp2350js.Base.{
  Bool, true, false, not, ◌&&◌, ◌||◌, List, [], ◌∷◌, ◌==◌, ==_iff, if◌then◌else◌, two32, u32, sub32,
  length,
}
use rp2350js.M0.State.{Bus}
use rp2350js.M0.Ram.{IsRam}
use rp2350js.RiscV.State.{Core, reg, put, tick, store32}
use rp2350js.RiscV.Memory.{push_regs, pop_regs, exec_push, exec_pop, xreg_list, stack_adj_base}

abbrev pub is_listed : ℕ → List ℕ → Bool
is_listed j [] = false
is_listed j (r ∷ rs) = (j == r) || is_listed j rs

-- no x0 in the list
has_no_zero : List ℕ → Bool
has_no_zero [] = true
has_no_zero (r ∷ rs) = not (r == 0) && has_no_zero rs

same_register : (f : ℕ → ℕ) (j r : ℕ) → (j == r) ≡ true → f j ≡ f r
same_register f j r e = ap f ((==_iff j r).0 e)

xreg_list-has_no_zero : (k : ℕ) → has_no_zero (xreg_list k) ≡ true
unfolding has_no_zero xreg_list
xreg_list-has_no_zero k = ground arith

frame_size : (k : ℕ) → 4 * length (xreg_list k) ≤ stack_adj_base k
unfolding xreg_list stack_adj_base
frame_size k = ground arith

-- RAM at the aligned words from lo on and below hi.
module _ {M : Type 0} (bus : Bus M) (R : ℕ → Type 0) (ram : IsRam bus R) (lo hi : ℕ)
    (range : (a : ℕ) → lo ≤ a → a < hi → a % 4 ≡ 0 → R a) (low : 4 ≤ lo) (high : hi ≤ two32) where
  -- The words from addr down are the registers of f in the order of the list.
  Holds : List ℕ → ℕ → (ℕ → ℕ) → M → Type 0
  Holds [] addr f m = addr ≡ addr
  Holds (r ∷ rs) addr f m = (ram.peek m addr ≡ f r) × Holds rs (sub32 addr 4) f m

  push-above :
      (rs : List ℕ) (addr a : ℕ) (s : Core M)
      → lo + 4 * length rs ≤ addr + 4
      → addr < a
      → a < hi
      → addr % 4 ≡ 0
      → a % 4 ≡ 0
      → ram.peek (push_regs bus rs addr s).mem a ≡ ram.peek s.mem a
  unfolding push_regs
  push-above [] addr a s room lt small q q' = refl
  push-above (r ∷ rs) addr a s room lt small q q' =
      push-above rs (sub32 addr 4) a (tick 1 (store32 bus addr (reg s r) s)) (omega arith)
        (omega arith) small (omega (arith, q)) q'
      ∙ ram.other s.mem addr a (reg s r) (range addr (omega arith) (omega arith) q)
          (range a (omega arith) small q') (omega arith)

  push-Holds :
      (rs : List ℕ) (addr : ℕ) (s : Core M)
      → ((j : ℕ) → reg s j < two32)
      → lo + 4 * length rs ≤ addr + 4
      → addr < hi
      → addr % 4 ≡ 0
      → Holds rs addr s.regs (push_regs bus rs addr s).mem
  unfolding push_regs Holds
  push-Holds [] addr s bound room lt q = refl
  push-Holds (r ∷ rs) addr s bound room lt q =
      let t : Core M = tick 1 (store32 bus addr (reg s r) s) in
      (
        push-above rs (sub32 addr 4) addr t (omega arith) (omega arith) lt (omega (arith, q)) q
            ∙ ram.same s.mem addr (reg s r) (range addr (omega arith) lt q)
            ∙ omega (arith, bound r),
        push-Holds rs (sub32 addr 4) t bound (omega arith) (omega arith) (omega (arith, q)),
      )

  pop_step :
      (r : ℕ) (rs : List ℕ) (addr : ℕ) (t : Core M)
      → (r == 0) ≡ false
      → R addr
      → pop_regs bus (r ∷ rs) addr t
        ≡ pop_regs bus rs
            (sub32 addr 4)
            (record t { regs = put t.regs r (u32 (ram.peek t.mem addr)); cycles = t.cycles + 1 })
  unfolding pop_regs
  pop_step r rs addr t z ra = simp (ram.read t.mem addr ra, z) refl

  pop_nil : (addr : ℕ) (t : Core M) (j : ℕ) → (pop_regs bus [] addr t).regs j ≡ t.regs j
  unfolding pop_regs
  pop_nil addr t j = refl

  regs-pop :
      (rs : List ℕ) (addr : ℕ) (t : Core M) (f : ℕ → ℕ) (j : ℕ)
      → has_no_zero rs ≡ true
      → ((k : ℕ) → f k < two32)
      → Holds rs addr f t.mem
      → lo + 4 * length rs ≤ addr + 4
      → addr < hi
      → addr % 4 ≡ 0
      → (pop_regs bus rs addr t).regs j ≡ (if is_listed j rs then f j else t.regs j)
  unfolding Holds has_no_zero
  regs-pop [] addr t f j z bound h room lt q = pop_nil addr t j
  regs-pop (r ∷ rs) addr t f j z bound (h, hs) room lt q =
      let u : Core M = record t {
        regs = put t.regs r (u32 (ram.peek t.mem addr));
        cycles = t.cycles + 1;
      } in
      ap (λ (c : Core M). c.regs j)
        (pop_step r rs addr t (ground (arith, z)) (range addr (omega arith) lt q))
      ∙ regs-pop rs (sub32 addr 4) u f j (ground (arith, z)) bound hs (omega arith) (omega arith)
          (omega (arith, q))
      ∙ ground (arith, h, bound r, same_register f j r)

  -- The stack pointer after CM.PUSH, and the registers after CM.POP.
  sp-exec_push :
      (list imm : ℕ) (s : Core M)
      → reg s 2 < two32
      → stack_adj_base list + imm ≤ reg s 2
      → reg (exec_push bus list imm s) 2 ≡ reg s 2 - (stack_adj_base list + imm)
  unfolding exec_push
  sp-exec_push list imm s bound room = omega arith

  mem-exec_push :
      (list imm : ℕ) (s : Core M)
      → (exec_push bus list imm s).mem ≡ (push_regs bus (xreg_list list) (sub32 (reg s 2) 4) s).mem
  unfolding exec_push
  mem-exec_push list imm s = refl

  regs-exec_pop :
      (list imm j : ℕ) (t : Core M)
      → (exec_pop bus list imm t).regs j ≡ (
          if j == 2
          then u32 (reg t 2 + (stack_adj_base list + imm))
          else (pop_regs bus
                (xreg_list list)
                (u32 (reg t 2 + (stack_adj_base list + imm) + 0xfffffffc))
                t).regs
              j)
  unfolding exec_pop
  regs-exec_pop list imm j t = refl

  -- With a stack pointer that is a multiple of 4, on a stack whose aligned words are RAM, CM.POP with the stack pointer and the memory that CM.PUSH left restores the stack pointer
  -- and every register of the list, and changes no other.
  pub exec_push-exec_pop :
      (list imm j : ℕ) (s t : Core M)
      → ((k : ℕ) → reg s k < two32)
      → lo + (stack_adj_base list + imm) ≤ reg s 2
      → reg s 2 ≤ hi
      → reg s 2 % 4 ≡ 0
      → t.mem ≡ (exec_push bus list imm s).mem
      → reg t 2 ≡ reg (exec_push bus list imm s) 2
      → reg (exec_pop bus list imm t) j
        ≡ (if (j == 2) || is_listed j (xreg_list list) then reg s j else reg t j)
  exec_push-exec_pop list imm j s t bound room top q m sp =
      let adj = stack_adj_base list + imm in
      let addr = sub32 (reg s 2) 4 in
      let size = frame_size list in
      let back : u32 (reg t 2 + adj) ≡ reg s 2 =
        omega (arith, sp, sp-exec_push list imm s (bound 2) (omega arith), bound 2) in
      let start : u32 (reg t 2 + adj + 0xfffffffc) ≡ addr =
        omega (arith, sp, sp-exec_push list imm s (bound 2) (omega arith), bound 2) in
      let held : Holds (xreg_list list) addr s.regs t.mem =
        subst (Holds (xreg_list list) addr s.regs) (sym (m ∙ mem-exec_push list imm s)) (
          push-Holds (xreg_list list) addr s bound (omega (arith, bound 2)) (omega (arith, bound 2))
            (omega (arith, bound 2, q))) in
      let popped =
        regs-pop (xreg_list list) addr t s.regs j (xreg_list-has_no_zero list) bound held
          (omega (arith, bound 2)) (omega (arith, bound 2)) (omega (arith, bound 2, q)) in
      regs-exec_pop list imm j t
      ∙ ground (
        arith,
        back,
        popped,
        same_register s.regs j 2,
        ap (λ a. (pop_regs bus (xreg_list list) a t).regs j) start,
      )
