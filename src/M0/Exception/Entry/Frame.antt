-- ===== src/M0/Exception/Entry/Frame.antt =====
-- The stacked frame of an exception: what `exceptionEntry` stores and `exceptionReturn` loads.
use rp2350js.Base.{◌+◌, ◌≡◌, ◌≢◌, ◌∙◌, arith, refl, u32, ℕ}
use rp2350js.M0.State.{
  Bus, Core, load32, inputs, reg, lr, pc, xpsr, clear1, set_pc, set_lr, set_reg,
}
use rp2350js.M0.Ram.{IsRam}
use rp2350js.M0.Exception.Entry.{push_frame, pop_frame, with_bit9}

-- the eight words at the address `frame`
pub record Holds {M : Type 0} {bus : Bus M} {R : ℕ → Type 0} (ram : IsRam bus R) (frame : ℕ) (m : M)
    (r0 r1 r2 r3 r12 r14 r15 psr : ℕ) : Type 0 where
  pub at0 : ram.peek m frame ≡ r0
  pub at1 : ram.peek m (frame + 0x4) ≡ r1
  pub at2 : ram.peek m (frame + 0x8) ≡ r2
  pub at3 : ram.peek m (frame + 0xc) ≡ r3
  pub at12 : ram.peek m (frame + 0x10) ≡ r12
  pub at14 : ram.peek m (frame + 0x14) ≡ r14
  pub at15 : ram.peek m (frame + 0x18) ≡ r15
  pub at_psr : ram.peek m (frame + 0x1c) ≡ psr

pub record InRam (R : ℕ → Type 0) (frame : ℕ) : Type 0 where
  pub in0 : R frame
  pub in1 : R (frame + 0x4)
  pub in2 : R (frame + 0x8)
  pub in3 : R (frame + 0xc)
  pub in12 : R (frame + 0x10)
  pub in14 : R (frame + 0x14)
  pub in15 : R (frame + 0x18)
  pub in_psr : R (frame + 0x1c)

module _ {M : Type 0} {bus : Bus M} {R : ℕ → Type 0} (ram : IsRam bus R) (frame : ℕ)
    (i : InRam R frame) where
  -- A later store elsewhere keeps a word.
  after : {a b x : ℕ} {m : M} → R a → R b → a ≢ b → ram.peek (bus.write32 m a x) b ≡ ram.peek m b
  after p q ne = ram.other _ _ _ _ p q ne

  -- `exceptionEntry` stores the eight words of the frame, each at its offset.
  pub push_frame-Holds :
      (align : ℕ) (s : Core M)
      → Holds ram frame
          (push_frame bus frame align s).mem
          (u32 (reg s 0))
          (u32 (reg s 1))
          (u32 (reg s 2))
          (u32 (reg s 3))
          (u32 (reg s 12))
          (u32 (lr s))
          (u32 (clear1 (pc s)))
          (u32 (with_bit9 (xpsr s) align))
  unfolding push_frame
  push_frame-Holds align s = record {
    at0 =
        after i.in_psr i.in0 (omega arith)
        ∙ after i.in15 i.in0 (omega arith)
        ∙ after i.in14 i.in0 (omega arith)
        ∙ after i.in12 i.in0 (omega arith)
        ∙ after i.in3 i.in0 (omega arith)
        ∙ after i.in2 i.in0 (omega arith)
        ∙ after i.in1 i.in0 (omega arith)
        ∙ ram.same _ _ _ i.in0;
    at1 =
        after i.in_psr i.in1 (omega arith)
        ∙ after i.in15 i.in1 (omega arith)
        ∙ after i.in14 i.in1 (omega arith)
        ∙ after i.in12 i.in1 (omega arith)
        ∙ after i.in3 i.in1 (omega arith)
        ∙ after i.in2 i.in1 (omega arith)
        ∙ ram.same _ _ _ i.in1;
    at2 =
        after i.in_psr i.in2 (omega arith)
        ∙ after i.in15 i.in2 (omega arith)
        ∙ after i.in14 i.in2 (omega arith)
        ∙ after i.in12 i.in2 (omega arith)
        ∙ after i.in3 i.in2 (omega arith)
        ∙ ram.same _ _ _ i.in2;
    at3 =
        after i.in_psr i.in3 (omega arith)
        ∙ after i.in15 i.in3 (omega arith)
        ∙ after i.in14 i.in3 (omega arith)
        ∙ after i.in12 i.in3 (omega arith)
        ∙ ram.same _ _ _ i.in3;
    at12 =
        after i.in_psr i.in12 (omega arith)
        ∙ after i.in15 i.in12 (omega arith)
        ∙ after i.in14 i.in12 (omega arith)
        ∙ ram.same _ _ _ i.in12;
    at14 =
        after i.in_psr i.in14 (omega arith)
        ∙ after i.in15 i.in14 (omega arith)
        ∙ ram.same _ _ _ i.in14;
    at15 = after i.in_psr i.in15 (omega arith) ∙ ram.same _ _ _ i.in15;
    at_psr = ram.same _ _ _ i.in_psr;
  }

  -- A load of a word in RAM, and what goes on with it.
  load_word :
      {A : Type 0} (a x : ℕ) (s : Core M) (g : ℕ → Core M → A)
      → R a
      → ram.peek s.mem a ≡ x
      → (let (y, t) = load32 bus a s in g y t) ≡ g x s
  load_word a x s g r e = rw (ram.read s.mem a r, ram.quiet s.mem a (inputs s) r, e) refl

  -- What `pop_frame` returns and leaves, when the frame holds those words.
  pub pop_frame-Holds :
      (s : Core M) (r0 r1 r2 r3 r12 r14 r15 psr : ℕ)
      → Holds ram frame s.mem r0 r1 r2 r3 r12 r14 r15 psr
      → pop_frame bus frame s ≡ (
        psr,
        set_pc r15 (
            set_lr r14
              (set_reg 12 r12 (set_reg 3 r3 (set_reg 2 r2 (set_reg 1 r1 (set_reg 0 r0 s)))))),
      )
  unfolding pop_frame
  pop_frame-Holds s r0 r1 r2 r3 r12 r14 r15 psr h =
      let Rest = ℕ → Core M → ℕ × Core M in
      let rest_psr : Rest = λ x t. load32 bus (frame + 0x1c) (set_pc x t) in
      let rest15 : Rest =
        λ x t. let (y, u) = load32 bus (frame + 0x18) (set_lr x t) in rest_psr y u in
      let rest14 : Rest =
        λ x t. let (y, u) = load32 bus (frame + 0x14) (set_reg 12 x t) in rest15 y u in
      let rest12 : Rest =
        λ x t. let (y, u) = load32 bus (frame + 0x10) (set_reg 3 x t) in rest14 y u in
      let rest3 : Rest =
        λ x t. let (y, u) = load32 bus (frame + 0xc) (set_reg 2 x t) in rest12 y u in
      let rest2 : Rest =
        λ x t. let (y, u) = load32 bus (frame + 0x8) (set_reg 1 x t) in rest3 y u in
      let rest1 : Rest =
        λ x t. let (y, u) = load32 bus (frame + 0x4) (set_reg 0 x t) in rest2 y u in
      let s1 = set_reg 0 r0 s in
      let s2 = set_reg 1 r1 s1 in
      let s3 = set_reg 2 r2 s2 in
      let s12 = set_reg 3 r3 s3 in
      let s14 = set_reg 12 r12 s12 in
      let s15 = set_lr r14 s14 in
      load_word frame r0 s rest1 i.in0 h.at0
      ∙ load_word (frame + 0x4) r1 s1 rest2 i.in1 h.at1
      ∙ load_word (frame + 0x8) r2 s2 rest3 i.in2 h.at2
      ∙ load_word (frame + 0xc) r3 s3 rest12 i.in3 h.at3
      ∙ load_word (frame + 0x10) r12 s12 rest14 i.in12 h.at12
      ∙ load_word (frame + 0x14) r14 s14 rest15 i.in14 h.at14
      ∙ load_word (frame + 0x18) r15 s15 rest_psr i.in15 h.at15
      ∙ load_word (frame + 0x1c) psr (set_pc r15 s15) (λ x t. (x, t)) i.in_psr h.at_psr

  -- Where the frame lies in RAM: `exceptionReturn` loads from a frame that nothing has changed since
  -- `exceptionEntry` stored it in a state `s` the registers R0 to R3, R12 and LR of `s`, PC without its
  -- lowest bit, and the status word, and changes nothing else.
  pub pop_frame-push_frame :
      (align : ℕ) (s t : Core M)
      → t.mem ≡ (push_frame bus frame align s).mem
      → pop_frame bus frame t ≡ (
        u32 (with_bit9 (xpsr s) align),
        set_pc (u32 (clear1 (pc s))) (
            set_lr (u32 (lr s)) (
              set_reg 12 (u32 (reg s 12)) (
                set_reg 3 (u32 (reg s 3)) (
                  set_reg 2
                    (u32 (reg s 2))
                    (set_reg 1 (u32 (reg s 1)) (set_reg 0 (u32 (reg s 0)) t)))))),
      )
  pop_frame-push_frame align s t e =
      pop_frame-Holds t (u32 (reg s 0)) (u32 (reg s 1)) (u32 (reg s 2)) (u32 (reg s 3))
        (u32 (reg s 12)) (u32 (lr s)) (u32 (clear1 (pc s))) (u32 (with_bit9 (xpsr s) align))
        (rw e (push_frame-Holds align s))
