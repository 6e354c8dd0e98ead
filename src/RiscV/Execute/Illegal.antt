-- ===== src/RiscV/Execute/Illegal.antt =====
-- The entries that the core refuses, and those whose access the chip refuses.
use rp2350js.Base.{ℕ, ◌+◌, ◌<◌, ◌≡◌, ◌↔◌, ◌⊎◌, refl, sym, ap, ◌∙◌, arith, Bool, true, false}
use rp2350js.Base.{
  Option, some, none, ◌==◌, ◌||◌, ltb, u32, low_bits, shl, if◌then◌else◌, Bool-cases, inl, inr,
}
use rp2350js.M0.State.{Bus}
use rp2350js.RiscV.State.{Core, reg, set_reg}
use rp2350js.RiscV.Tags.{t_lb, t_lbu, t_lw, t_lhu, t_sb, t_sh, t_sw, t_lr_w, t_amomaxu_w, t_jal}
use rp2350js.RiscV.Tags.{t_mret, t_csrrci, t_cm_push, t_cm_mva01s}
use rp2350js.RiscV.Tags.{
  t_fence, t_addi, t_zext_h, t_add, t_remu, t_h3_block, t_h3_unblock, t_lui, t_auipc,
}
use rp2350js.RiscV.Tags.{t_beq, t_bgeu, t_jalr, t_h3_bextm, t_h3_bextmi}
use rp2350js.RiscV.Memory.{exec_load, exec_store}
use rp2350js.RiscV.Alu.{op_value}
use rp2350js.RiscV.Alu.Imm.{op_imm_value}
use rp2350js.RiscV.Trap.{exec_block, fire_sev, branch_cycles}
use rp2350js.RiscV.Execute.{
  dispatch, exec_packed, tag_field, rs1_field, rs2_field, imm_field, sx12, sx13, between, advance,
  prepare, exec_op, exec_op_imm, exec_h3, exec_branch, exec_custom0, exec_jalr, set_result, ◌>>=◌,
}

is_refused : {A : Type 0} → Option A → Bool
is_refused none = true
is_refused (some x) = false

-- Instructions that are not looked at here: LR, SC and AMO, JAL, the SYSTEM opcode and Zcmp.
abbrev pub is_other : ℕ → Bool
is_other tag =
    between t_lr_w t_amomaxu_w tag
    || (tag == t_jal)
    || between t_mret t_csrrci tag
    || between t_cm_push t_cm_mva01s tag

module _ {M : Type 0} (bus : Bus M) where
  -- The read of a load, and the write of a store, throws.
  unfoldable pub load_throws : ℕ → ℕ → M → Bool
  load_throws tag addr m =
      if (tag == t_lb) || (tag == t_lbu)
      then bus.thrown (bus.read8 m addr).1
      else if tag == t_lw
      then bus.thrown (bus.read32 m addr).1
      else bus.thrown (bus.read16 m addr).1

  unfoldable pub store_throws : ℕ → ℕ → ℕ → M → Bool
  store_throws tag addr x m =
      if tag == t_sb
      then bus.thrown (bus.write8 m addr (low_bits x 8))
      else if tag == t_sh
      then bus.thrown (bus.write16 m addr (low_bits x 16))
      else bus.thrown (bus.write32 m addr x)

  -- The access of an entry throws.
  unfoldable pub access_throws : ℕ → Core M → Bool
  access_throws p s =
      let addr = u32 (reg s (rs1_field p) + sx12 (imm_field p)) in
      if between t_lb t_lhu (tag_field p)
      then load_throws (tag_field p) addr s.mem
      else if between t_sb t_sw (tag_field p)
      then store_throws (tag_field p) addr (reg s (rs2_field p)) s.mem
      else false

  thrown-exec_load :
      (tag r a imm : ℕ) (s : Core M)
      → bus.thrown (exec_load bus tag r a imm s).mem ≡ load_throws tag (u32 (reg s a + imm)) s.mem
  unfolding exec_load load_throws
  thrown-exec_load tag r a imm s = ground arith

  thrown-exec_store :
      (tag a b imm : ℕ) (s : Core M)
      → bus.thrown (exec_store bus tag a b imm s).mem
        ≡ store_throws tag (u32 (reg s a + imm)) (reg s b) s.mem
  unfolding exec_store store_throws
  thrown-exec_store tag a b imm s = ground arith

  mem-set_reg : (r x : ℕ) (s : Core M) → (set_reg r x s).mem ≡ s.mem
  mem-set_reg r x s = ground arith

  mem-set_result : (r : ℕ) (o : Option ℕ) (s : Core M) → (set_result r o s).mem ≡ s.mem
  mem-set_result r none s = refl
  mem-set_result r (some x) s = ground arith

  mem-exec_op : (tag r a b : ℕ) (s : Core M) → (exec_op tag r a b s).mem ≡ s.mem
  unfolding exec_op
  mem-exec_op tag r a b s = mem-set_result r (op_value tag (reg s a) (reg s b)) s

  mem-exec_op_imm : (tag r a imm : ℕ) (s : Core M) → (exec_op_imm tag r a imm s).mem ≡ s.mem
  unfolding exec_op_imm
  mem-exec_op_imm tag r a imm s = mem-set_result r (op_imm_value tag (reg s a) imm) s

  mem-exec_h3 : (tag : ℕ) (s : Core M) → (exec_h3 tag s).mem ≡ s.mem
  unfolding exec_h3 exec_block fire_sev
  mem-exec_h3 tag s = ground arith

  mem-exec_branch : (tag a b imm : ℕ) (s : Core M) → (exec_branch tag a b imm s).mem ≡ s.mem
  unfolding exec_branch branch_cycles
  mem-exec_branch tag a b imm s = ground arith

  mem-exec_custom0 : (tag r a b imm : ℕ) (s : Core M) → (exec_custom0 tag r a b imm s).mem ≡ s.mem
  unfolding exec_custom0
  mem-exec_custom0 tag r a b imm s = ground arith

  mem-exec_jalr : (r a imm : ℕ) (s : Core M) → (exec_jalr r a imm s).mem ≡ s.mem
  unfolding exec_jalr
  mem-exec_jalr r a imm s = ground arith

  -- an instruction ends without a result, or with an error of the chip
  ends : Option (Core M) → Bool
  ends none = true
  ends (some t) = bus.thrown t.mem

  -- the ranges of the tags, over what their instructions end with
  by_tag :
      (tag : ℕ) (l q : Bool)
      (load fence op_imm store amo op h3 lui auipc branch jalr jal system custom0 zcmp : Option
        (Core M))
      → is_other tag ≡ false
      → ends load ≡ l
      → ends store ≡ q
      → ends fence ≡ false
      → ends op_imm ≡ false
      → ends op ≡ false
      → ends h3 ≡ false
      → ends lui ≡ false
      → ends auipc ≡ false
      → ends branch ≡ false
      → ends jalr ≡ false
      → ends custom0 ≡ false
      → ends (
          if between t_lb t_lhu tag
          then load
          else if tag == t_fence
          then fence
          else if between t_addi t_zext_h tag
          then op_imm
          else if between t_sb t_sw tag
          then store
          else if between t_lr_w t_amomaxu_w tag
          then amo
          else if between t_add t_remu tag
          then op
          else if between t_h3_block t_h3_unblock tag
          then h3
          else if tag == t_lui
          then lui
          else if tag == t_auipc
          then auipc
          else if between t_beq t_bgeu tag
          then branch
          else if tag == t_jalr
          then jalr
          else if tag == t_jal
          then jal
          else if between t_mret t_csrrci tag
          then system
          else if between t_h3_bextm t_h3_bextmi tag
          then custom0
          else if between t_cm_push t_cm_mva01s tag
          then zcmp
          else none)
        ≡ ((tag == 0)
            || ltb 111 tag
            || (if between t_lb t_lhu tag then l else if between t_sb t_sw tag then q else false))
  unfolding ends
  by_tag tag l q load fence op_imm store amo op h3 lui auipc branch jalr jal system custom0 zcmp
        other e1 e2 p0 p1 p2 p3 p4 p5 p6 p7 p8 =
      ground arith

  ends-dispatch :
      (tag r a b imm : ℕ) (s : Core M)
      → is_other tag ≡ false
      → bus.thrown s.mem ≡ false
      → ends (dispatch bus tag r a b imm s) ≡ (
          (tag == 0)
          || ltb 111 tag
          || (if between t_lb t_lhu tag
              then load_throws tag (u32 (reg s a + sx12 imm)) s.mem
              else if between t_sb t_sw tag
              then store_throws tag (u32 (reg s a + sx12 imm)) (reg s b) s.mem
              else false))
  unfolding dispatch ends
  ends-dispatch tag r a b imm s other quiet =
      by_tag tag (load_throws tag (u32 (reg s a + sx12 imm)) s.mem)
        (store_throws tag (u32 (reg s a + sx12 imm)) (reg s b) s.mem) _ _ _ _ _ _ _ _ _ _ _ _ _ _ _
        other (thrown-exec_load tag r a (sx12 imm) s) (thrown-exec_store tag a b (sx12 imm) s) quiet
        (ap bus.thrown (mem-exec_op_imm tag r a (sx12 imm) s) ∙ quiet)
        (ap bus.thrown (mem-exec_op tag r a b s) ∙ quiet)
        (ap bus.thrown (mem-exec_h3 tag s) ∙ quiet)
        (ap bus.thrown (mem-set_reg r (shl imm 12) s) ∙ quiet)
        (ap bus.thrown (mem-set_reg r (shl imm 12 + s.pc) s) ∙ quiet)
        (ap bus.thrown (mem-exec_branch tag a b (sx13 imm) s) ∙ quiet)
        (ap bus.thrown (mem-exec_jalr r a (sx12 imm) s) ∙ quiet)
        (ap bus.thrown (mem-exec_custom0 tag r a b imm s) ∙ quiet)

  mem-prepare : (p : ℕ) (s : Core M) → (prepare p s).mem ≡ s.mem
  unfolding prepare
  mem-prepare p s = ground arith

  regs-prepare : (p : ℕ) (s : Core M) → (prepare p s).regs ≡ s.regs
  unfolding prepare
  regs-prepare p s = ground arith

  refused_end :
      (o : Option (Core M))
      → is_refused (o >>= λ t. if bus.thrown t.mem then none else some (advance t)) ≡ ends o
  unfolding ends is_refused
  refused_end none = refl
  refused_end (some t) = elim (Bool-cases (bus.thrown t.mem)) [
    | inl e ↦ rw e refl
    | inr e ↦ rw e refl
  ]

  refused_packed :
      (p : ℕ) (s : Core M)
      → is_other (tag_field p) ≡ false
      → bus.thrown s.mem ≡ false
      → is_refused (exec_packed bus p s)
        ≡ ((tag_field p == 0) || ltb 111 (tag_field p) || access_throws p s)
  unfolding exec_packed access_throws
  refused_packed p s other quiet =
      refused_end _
      ∙ ends-dispatch (tag_field p) _ _ _ _ (prepare p s) other
          (ap bus.thrown (mem-prepare p s) ∙ quiet)
      ∙ rw (mem-prepare p s, regs-prepare p s) refl

none-refused : {A : Type 0} (o : Option A) → (o ≡ none) ↔ (is_refused o ≡ true)
unfolding is_refused
none-refused none = (λ e. refl, λ e. refl)
none-refused (some x) = (λ e. absurd (cc e), λ e. absurd (cc e))

refused_tag :
    (t : ℕ) (b : Bool) → (((t == 0) || ltb 111 t || b) ≡ true) ↔ ((t ≡ 0) ⊎ (111 < t) ⊎ (b ≡ true))
refused_tag t b = (λ e. ground (arith, e), λ e. ground (arith, e))

-- No access has thrown before, and the entry is not of LR, SC or an AMO, of JAL, of the SYSTEM opcode or
-- of Zcmp: the core throws on it exactly when its tag is 0 or above 111, the last one, or it is
-- a load or a store and the chip throws at its one access, of the width of the instruction, at the sum
-- of the base register and the immediate.
pub exec_packed-refuses :
    {M : Type 0} (bus : Bus M) (p : ℕ) (s : Core M)
    → is_other (tag_field p) ≡ false
    → bus.thrown s.mem ≡ false
    → (exec_packed bus p s ≡ none)
      ↔ ((tag_field p ≡ 0) ⊎ (111 < tag_field p) ⊎ (access_throws bus p s ≡ true))
exec_packed-refuses bus p s other quiet =
    let (to, from) = none-refused (exec_packed bus p s) in
    let (there, back) = refused_tag (tag_field p) (access_throws bus p s) in
    let e = refused_packed bus p s other quiet in
    ((λ h. there (sym e ∙ to h)), (λ h. from (e ∙ back h)))
