-- ===== src/RiscV/Amo.antt =====
-- riscv/cpu.ts, `execAmo` and `invalidateLrReservation`.
pub mod Reservations
use rp2350js.Base.{ℕ, ◌+◌, ◌*◌, ◌/◌, Option, some, none, bit_and, bit_or, bit_xor, u32, ltb, ◌==◌}
use rp2350js.Base.{if◌then◌else◌}
use rp2350js.Base.Int.{sint, ltb_ℤ}
use rp2350js.M0.State.{Bus}
use rp2350js.RiscV.State.{Core, Sibling, reg, set_reg, tick, load32, store32}
use rp2350js.RiscV.Trap.{is_at}
use rp2350js.RiscV.Tags.{t_amoadd_w, t_amoswap_w, t_amoxor_w, t_amoor_w, t_amoand_w}
use rp2350js.RiscV.Tags.{t_amomin_w, t_amomax_w, t_amominu_w, t_lr_w, t_sc_w}

-- x & ~0xf
abbrev pub granule : ℕ → ℕ
granule x = x / 16 * 16

unfoldable pub invalidate : ℕ → Option ℕ → Option ℕ
invalidate addr r = if is_at (granule addr) r then none else r

-- the word that an AMO stores
unfoldable pub amo_value : ℕ → ℕ → ℕ → ℕ
amo_value tag m v =
    if tag == t_amoadd_w
    then u32 (m + v)
    else if tag == t_amoswap_w
    then v
    else if tag == t_amoxor_w
    then bit_xor m v
    else if tag == t_amoor_w
    then bit_or m v
    else if tag == t_amoand_w
    then bit_and m v
    else if tag == t_amomin_w
    then (if ltb_ℤ (sint m) (sint v) then m else v)
    else if tag == t_amomax_w
    then (if ltb_ℤ (sint v) (sint m) then m else v)
    else if tag == t_amominu_w
    then (if ltb m v then m else v)
    else if ltb v m
    then m
    else v

module _ {M : Type 0} where
  abbrev pub invalidate_other : ℕ → Core M → Core M
  invalidate_other addr s =
      let o : Sibling = record s.other { lr_addr = invalidate addr s.other.lr_addr } in
      record s { other = o }

module _ {M : Type 0} (bus : Bus M) where
  unfoldable pub exec_lr : ℕ → ℕ → Core M → Core M
  unfolding invalidate
  exec_lr r s1 s =
      let addr = reg s s1 in
      let (x, t) = load32 bus addr s in
      tick 3 (invalidate_other addr (record (set_reg r x t) { lr_addr = some (granule addr) }))

  unfoldable pub exec_sc : ℕ → ℕ → ℕ → Core M → Core M
  exec_sc r s1 s2 s =
      let addr = reg s s1 in
      let t =
        if is_at (granule addr) s.lr_addr
        then set_reg r 0 (store32 bus addr (reg s s2) s)
        else set_reg r 1 s in
      tick 3 (record t { lr_addr = none })

  unfoldable pub exec_amo_op : ℕ → ℕ → ℕ → ℕ → Core M → Core M
  unfolding amo_value invalidate
  exec_amo_op tag r s1 s2 s =
      let addr = reg s s1 in
      let v = reg s s2 in
      let (m, t) = load32 bus addr s in
      tick 3 (invalidate_other addr (store32 bus addr (amo_value tag m v) (set_reg r m t)))

  unfoldable pub exec_amo : ℕ → ℕ → ℕ → ℕ → Core M → Core M
  unfolding exec_lr exec_sc exec_amo_op
  exec_amo tag r s1 s2 s =
      if tag == t_lr_w
      then exec_lr r s1 s
      else if tag == t_sc_w
      then exec_sc r s1 s2 s
      else exec_amo_op tag r s1 s2 s
