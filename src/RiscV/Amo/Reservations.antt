-- ===== src/RiscV/Amo/Reservations.antt =====
-- The reservations of two cores: their instructions, one at a time, in any order.
pub mod Race
use rp2350js.Base.{
  ℕ, ◌+◌, ◌*◌, ◌/◌, ◌<◌, ◌≡◌, ◌≢◌, ◌⊎◌, refl, sym, ap, ◌∙◌, arith, Bool, true, false, Bool-cases,
  inl, inr,
}
use rp2350js.Base.{Option, some, none, ◌==◌, ==_iff, if◌then◌else◌, List, [], ◌∷◌}
use rp2350js.M0.State.{Bus}
use rp2350js.RiscV.State.{Core, Sibling, reg}
use rp2350js.RiscV.Tags.{t_lr_w, t_sc_w}
use rp2350js.RiscV.Trap.{is_at}
use rp2350js.RiscV.Amo.{granule, invalidate, exec_amo, exec_lr, exec_sc, exec_amo_op}

-- The two cores and their memory.
pub record System (M : Type 0) : Type 0 where
  pub left : Core M
  pub right : Core M
  pub mem : M

module _ {M : Type 0} where
  sibling : Core M → Sibling
  sibling s = record {
    waiting = s.waiting;
    waiting_on_block = s.waiting_on_block;
    event_registered = s.event_registered;
    lr_addr = s.lr_addr;
  }

  write_back : Sibling → Core M → Core M
  write_back o s = record s {
    waiting = o.waiting;
    event_registered = o.event_registered;
    lr_addr = o.lr_addr;
  }

  -- One core acts: it sees the memory and the fields of the other, and its changes are written back.
  unfoldable pub by_left : (Core M → Core M) → System M → System M
  unfolding sibling write_back
  by_left f s =
      let t = f (record s.left { mem = s.mem; other = sibling s.right }) in
      record { left = t; right = write_back t.other s.right; mem = t.mem }

  unfoldable pub by_right : (Core M → Core M) → System M → System M
  unfolding sibling write_back
  by_right f s =
      let t = f (record s.right { mem = s.mem; other = sibling s.left }) in
      record { left = write_back t.other s.left; right = t; mem = t.mem }

module _ {M : Type 0} (bus : Bus M) where
  -- `quiet` stands for all else that the cores and the rest of the chip do, which keeps both reservations.
  pub data Step (s : System M) : System M → Type 0 where
    left_amo : (tag r s1 s2 : ℕ) → Step s (by_left (exec_amo bus tag r s1 s2) s)
    right_amo : (tag r s1 s2 : ℕ) → Step s (by_right (exec_amo bus tag r s1 s2) s)
    quiet :
        {t : System M}
        → t.left.lr_addr ≡ s.left.lr_addr
        → t.right.lr_addr ≡ s.right.lr_addr
        → Step s t

  pub data Reach : System M → Type 0 where
    start : {s : System M} → s.left.lr_addr ≡ none → s.right.lr_addr ≡ none → Reach s
    later : {s t : System M} → Reach s → Step s t → Reach t

-- No granule is reserved by both.
abbrev pub IsExclusive : Option ℕ → Option ℕ → Type 0
IsExclusive x y = (g : ℕ) → x ≡ some g → y ≢ some g

IsExclusive-sym : (x y : Option ℕ) → IsExclusive x y → IsExclusive y x
IsExclusive-sym x y h g e f = h g f e

invalidate-granule : (a : ℕ) (r : Option ℕ) → invalidate a r ≢ some (granule a)
unfolding invalidate
invalidate-granule a none e = absurd (cc e)
invalidate-granule a (some g) e = elim (Bool-cases (granule a == g)) [
  | inl k ↦ absurd (ground (arith, e, k))
  | inr k ↦ absurd (ground (arith, e, k))
]

invalidate-keeps : (a g : ℕ) (r : Option ℕ) → invalidate a r ≡ some g → r ≡ some g
unfolding invalidate
invalidate-keeps a g none e = e
invalidate-keeps a g (some h) e = elim (Bool-cases (granule a == h)) [
  | inl k ↦ absurd (ground (arith, e, k))
  | inr k ↦ ground (arith, e, k)
]

module _ {M : Type 0} (bus : Bus M) where
  -- The reservations after each of the three kinds of instruction.
  lr-reservations :
      (r s1 : ℕ) (s : Core M)
      → ((exec_lr bus r s1 s).lr_addr ≡ some (granule (reg s s1)))
        × ((exec_lr bus r s1 s).other.lr_addr ≡ invalidate (reg s s1) s.other.lr_addr)
  unfolding exec_lr
  lr-reservations r s1 s = (refl, ground arith)

  pub sc-reservations :
      (r s1 s2 : ℕ) (s : Core M)
      → ((exec_sc bus r s1 s2 s).lr_addr ≡ none)
        × ((exec_sc bus r s1 s2 s).other.lr_addr ≡ s.other.lr_addr)
  unfolding exec_sc
  sc-reservations r s1 s2 s = (refl, ground arith)

  op-reservations :
      (tag r s1 s2 : ℕ) (s : Core M)
      → ((exec_amo_op bus tag r s1 s2 s).lr_addr ≡ s.lr_addr)
        × ((exec_amo_op bus tag r s1 s2 s).other.lr_addr ≡ invalidate (reg s s1) s.other.lr_addr)
  unfolding exec_amo_op
  op-reservations tag r s1 s2 s = (ground arith, ground arith)

  amo-IsExclusive :
      (tag r s1 s2 : ℕ) (s : Core M)
      → IsExclusive s.lr_addr s.other.lr_addr
      → IsExclusive (exec_amo bus tag r s1 s2 s).lr_addr (exec_amo bus tag r s1 s2 s).other.lr_addr
  unfolding exec_amo
  amo-IsExclusive tag r s1 s2 s h g = elim (Bool-cases (tag == t_lr_w)) [
    | inl e ↦ simp e (after_lr g)
    | inr e ↦ elim (Bool-cases (tag == t_sc_w)) [
      | inl k ↦ simp (e, k) (after_sc g)
      | inr k ↦ simp (e, k) (after_op g)
    ]
  ]
    where
      after_lr : IsExclusive (exec_lr bus r s1 s).lr_addr (exec_lr bus r s1 s).other.lr_addr
      after_lr g x y =
          let (own, others) = lr-reservations r s1 s in
          let z : granule (reg s s1) ≡ g = ground (arith, own, x) in
          invalidate-granule (reg s s1) s.other.lr_addr (sym others ∙ y ∙ ap some (sym z))

      after_sc : IsExclusive (exec_sc bus r s1 s2 s).lr_addr (exec_sc bus r s1 s2 s).other.lr_addr
      after_sc g x y = absurd (cc ((sc-reservations r s1 s2 s).0, x))

      after_op :
          IsExclusive
            (exec_amo_op bus tag r s1 s2 s).lr_addr
            (exec_amo_op bus tag r s1 s2 s).other.lr_addr
      after_op g x y =
          let (own, others) = op-reservations tag r s1 s2 s in
          h g (sym own ∙ x) (invalidate-keeps (reg s s1) g s.other.lr_addr (sym others ∙ y))

  Step-IsExclusive :
      (s t : System M)
      → Step bus s t
      → IsExclusive s.left.lr_addr s.right.lr_addr
      → IsExclusive t.left.lr_addr t.right.lr_addr
  unfolding by_left by_right
  Step-IsExclusive s t (Step.left_amo tag r s1 s2) h =
      amo-IsExclusive tag r s1 s2 (record s.left { mem = s.mem; other = sibling s.right }) h
  Step-IsExclusive s t (Step.right_amo tag r s1 s2) h = IsExclusive-sym _ _ (
      amo-IsExclusive tag r s1 s2 (record s.right { mem = s.mem; other = sibling s.left })
        (IsExclusive-sym _ _ h))
  Step-IsExclusive s t (Step.quiet e f) h = λ g x y. h g (sym e ∙ x) (sym f ∙ y)

  -- In every state that two cores reach from one without reservations, by LR, SC and AMO instructions of either and
  -- by whatever keeps the reservations, no granule is reserved by both.
  pub reservations-IsExclusive :
      (s : System M) → Reach bus s → IsExclusive s.left.lr_addr s.right.lr_addr
  reservations-IsExclusive s (Reach.start e f) = λ g x y. absurd (cc (e, x))
  reservations-IsExclusive s (Reach.later {s = r} h k) =
      Step-IsExclusive r s k (reservations-IsExclusive r h)
