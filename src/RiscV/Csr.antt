-- ===== src/RiscV/Csr.antt =====
-- riscv/cpu.ts: `getCSR`, `setCSR` and `packReverse`. `raw` is the instruction's write value, from which the interrupt
-- arrays take their index.
use rp2350js.Base.{ℕ, zero, suc, ◌+◌, ◌*◌, ◌/◌, ◌^◌, Bool, true, false, ◌&&◌, ◌||◌}
use rp2350js.Base.{bit_and, bit_or, not32, field, low_bits, shr, shl, test_bit, is_neg, to_num}
use rp2350js.Base.{ltb, leb, ◌==◌, if◌then◌else◌}
use rp2350js.RiscV.State.{Core, put, put_csr, log, unknown_csr_get, unknown_csr_set}
use rp2350js.RiscV.Irq.{set_interrupt, set_interrupt_enabled, set_priority, set_forced}
use rp2350js.RiscV.Irq.{update_meinext, update_meicontext}

abbrev pub in_range : ℕ → ℕ → ℕ → Bool
in_range lo hi x = leb lo x && leb x hi

-- the CSRs whose writes `setCSR` ignores
abbrev pub is_read_only : ℕ → Bool
is_read_only csr =
    (csr == 0x301)
    || (csr == 0x30a)
    || (csr == 0x310)
    || (csr == 0x31a)
    || in_range 0x323 0x33f csr
    || (csr == 0x343)
    || in_range 0x3b8 0x3bf csr
    || (csr == 0xbe1)
    || (csr == 0xc00)
    || (csr == 0xc02)
    || (csr == 0xc80)
    || (csr == 0xc82)
    || in_range 0xf11 0xf14 csr

-- the CSRs that `getCSR` reads from the array
abbrev pub is_plain : ℕ → Bool
is_plain csr = in_range 0x300 0x305 csr || in_range 0x340 0x344 csr || (csr == 0xbf0)

-- The element of the last index is packed first.
unfoldable pub pack_reverse : (ℕ → ℕ) → ℕ → ℕ → ℕ → ℕ
pack_reverse f base zero bits = 0
pack_reverse f base (suc n) bits =
    let rest = pack_reverse f (base + 1) n bits in bit_or (shl rest bits) (f base)

module _ {M : Type 0} where
  -- The loops of writes to MEIEA, MEIFA and MEIPRA, over n interrupts from i on.
  unfoldable pub write_meiea : ℕ → ℕ → ℕ → Core M → Core M
  write_meiea zero i state s = s
  write_meiea (suc n) i state s =
      write_meiea n (i + 1) (state / 2) (set_interrupt_enabled i (test_bit state 0) s)

  unfoldable pub write_meifa : ℕ → ℕ → ℕ → Core M → Core M
  write_meifa zero i state s = s
  write_meifa (suc n) i state s =
      write_meifa n (i + 1) (state / 2) (set_forced i (test_bit state 0) s)

  unfoldable pub write_meipra : ℕ → ℕ → ℕ → Core M → Core M
  write_meipra zero i state s = s
  write_meipra (suc n) i state s =
      write_meipra n (i + 1) (state / 2 ^ 4) (set_priority i (low_bits state 4) s)

  -- `interruptsUpdated = true` under a condition
  abbrev pub updated_if : Bool → Core M → Core M
  updated_if b s = if b then record s { interrupts_updated = true } else s

  unfoldable pub set_csr : ℕ → ℕ → ℕ → Core M → Core M
  set_csr csr value raw s =
      let gained = bit_and value (not32 (s.csrs csr)) in
      let base = low_bits raw 5 in
      if csr == 0x300
      then put_csr csr value (updated_if (test_bit gained 3) s)
      else if csr == 0x305
      then put_csr csr value s
      else if csr == 0x304
      then put_csr csr value (updated_if (ltb 0 gained) s)
      else if is_read_only csr
      then s
      else if in_range 0x340 0x342 csr
      then put_csr csr value s
      else if csr == 0xbe0
      then write_meiea 16 (base * 16) (shr value 16) s
      else if csr == 0xbe2
      then write_meifa 16 (base * 16) (shr value 16) s
      else if csr == 0xbe3
      then write_meipra 4 (base * 4) (shr value 16) s
      else if csr == 0xbe4
      then (if test_bit value 0
          then record (update_meinext (update_meicontext s)) { interrupts_updated = true }
          else s)
      else if csr == 0xbe5
      then record (update_meinext (put_csr csr value s)) { interrupts_updated = true }
      else put_csr csr value (log (unknown_csr_set value csr) s)

  -- a read of MEINEXT
  unfoldable pub get_meinext : Core M → ℕ × Core M
  get_meinext s =
      let meinext = s.csrs 0xbe4 in
      if is_neg meinext
      then (meinext, s)
      else (let i = field meinext 2 9 in
          let old_forced = s.meifa i in
          let s1 = record s { meifa = put s.meifa i false } in
          (meinext, if leb 46 i && old_forced then set_interrupt i false s1 else s1))

  -- a read of MEICONTEXT
  unfoldable pub get_meicontext : ℕ → Core M → ℕ × Core M
  get_meicontext raw s =
      let meicontext = s.csrs 0xbe5 in
      let mie = s.csrs 0x304 in
      if test_bit raw 1
      then (
        bit_or (bit_or (bit_and meicontext (not32 0xe)) (field mie 7 1 * 2 ^ 3))
            (field mie 3 1 * 2 ^ 2),
        put_csr 0x304 (bit_and mie (not32 0x88)) s,
      )
      else (let s1 = if test_bit raw 3 then put_csr 0x304 (bit_or mie (2 ^ 7)) s else s in
          let s2 =
            if test_bit raw 2 then put_csr 0x304 (bit_or (s1.csrs 0x304) (2 ^ 3)) s1 else s1 in
          (meicontext, s2))

  unfoldable pub get_csr : ℕ → ℕ → Core M → ℕ × Core M
  get_csr csr raw s =
      let base = low_bits raw 5 in
      if csr == 0xf14
      then (s.mhartid, s)
      else if is_plain csr
      then (s.csrs csr, s)
      else if csr == 0xbe0
      then (shl (pack_reverse (λ i. to_num (s.meiea i)) (base * 16) 16 1) 16, s)
      else if csr == 0xbe1
      then (shl (pack_reverse (λ i. to_num (s.meipa i)) (base * 16) 16 1) 16, s)
      else if csr == 0xbe2
      then (shl (pack_reverse (λ i. to_num (s.meifa i)) (base * 16) 16 1) 16, s)
      else if csr == 0xbe3
      then (shl (pack_reverse s.meipra (base * 4) 4 4) 16, s)
      else if csr == 0xbe4
      then get_meinext s
      else if csr == 0xbe5
      then get_meicontext raw s
      else (s.csrs csr, log (unknown_csr_get csr) s)
