-- ===== src/Sio/Mailbox.antt =====
-- The two mailboxes between the cores, under the accesses of both in any order.
use rp2350js.Base.{ℕ, ◌≡◌, refl, sym, ap, ◌∙◌, subst, arith, false, ◌==◌, if◌then◌else◌}
use rp2350js.Base.{List, [], ◌∷◌, ◌++◌, u32, Bool-cases, inl, inr, ==_iff}
use rp2350js.Fifo.{Fifo, items}
use rp2350js.Sio.{
  Sio, Pins, side, put_side, read_core, write_core, read_uint32, write_uint32, write_register,
  claim_lock, release_lock, is_spinlock, is_alias, is_group,
}
use rp2350js.Sio.Core.{Side}
use rp2350js.Sio.Core.Queues.{
  queues, take_first, add_last, queues-read_uint32, queues-write_uint32, read_uint32-items,
  write_uint32-items, Ready, read_uint32-Ready, write_uint32-Ready,
}
use rp2350js.Sio.Locks.{Access, reads, writes}

-- One access, and the word when it is a read of FIFO_RD.
unfoldable pub mail : Access → Sio → List ℕ × Sio
mail (reads pins cpu offset) s =
    let (x, t) = read_uint32 pins offset cpu s in (if offset == 0x58 then x ∷ [] else [], t)
mail (writes pins cpu offset value) s = ([], write_uint32 pins offset value cpu s)

-- All words that the cores have read from FIFO_RD.
unfoldable pub mails : List Access → Sio → List ℕ × Sio
mails [] s = ([], s)
mails (a ∷ rest) s = let (xs, t) = mail a s in let (ys, u) = mails rest t in (xs ++ ys, u)

-- What the cores may rely on: the words on the way to core 0 and to core 1, oldest first.
pub record Boxes : Type 0 where
  pub to0 : List ℕ
  pub to1 : List ℕ

abbrev pub box : List ℕ → List ℕ → Boxes
box a b = record { to0 = a; to1 = b }

unfoldable pub post : Access → Boxes → List ℕ × Boxes
post (reads pins cpu offset) b =
    if offset == 0x58
    then (if cpu == 0
        then (let (x, q) = take_first b.to0 in (x ∷ [], box q b.to1))
        else (let (x, q) = take_first b.to1 in (x ∷ [], box b.to0 q)))
    else ([], b)
post (writes pins cpu offset value) b =
    if offset == 0x54
    then (if cpu == 0
        then ([], box b.to0 (add_last 8 (u32 value) b.to1))
        else ([], box (add_last 8 (u32 value) b.to0) b.to1))
    else ([], b)

unfoldable pub posts : List Access → Boxes → List ℕ × Boxes
posts [] b = ([], b)
posts (a ∷ rest) b = let (xs, c) = post a b in let (ys, d) = posts rest c in (xs ++ ys, d)

abbrev pub boxes : Sio → Boxes
boxes s = box (items s.fifo0) (items s.fifo1)

pub record AreReady (s : Sio) : Type 0 where
  pub ready0 : Ready s.fifo0
  pub ready1 : Ready s.fifo1

both : Sio → Fifo × Fifo
both s = (s.fifo0, s.fifo1)

both-put_side :
    (cpu : ℕ) (t : Side) (s : Sio)
    → queues t ≡ queues (side cpu s)
    → both (put_side cpu t s) ≡ both s
unfolding both put_side side
both-put_side cpu t s e = ground (arith, e)

both-read_core :
    (offset cpu : ℕ) (s : Sio) → (offset == 0x58) ≡ false → both (read_core offset cpu s).1 ≡ both s
unfolding read_core
both-read_core offset cpu s e = both-put_side cpu _ s (queues-read_uint32 offset (side cpu s) e)

both-write_core :
    (offset value cpu : ℕ) (s : Sio)
    → (offset == 0x54) ≡ false
    → both (write_core offset value cpu s) ≡ both s
unfolding write_core
both-write_core offset value cpu s e =
    both-put_side cpu _ s (queues-write_uint32 offset value (side cpu s) e)

both-read_uint32 :
    (pins : Pins) (offset cpu : ℕ) (s : Sio)
    → (offset == 0x58) ≡ false
    → both (read_uint32 pins offset cpu s).1 ≡ both s
unfolding read_uint32 claim_lock both
both-read_uint32 pins offset cpu s e = ground (arith, e, both-read_core offset cpu s e)

both-write_register :
    (offset value cpu : ℕ) (s : Sio)
    → (offset == 0x54) ≡ false
    → both (write_register offset value cpu s) ≡ both s
unfolding write_register both
both-write_register offset value cpu s e = ground (arith, e, both-write_core offset value cpu s e)

both-write_uint32 :
    (pins : Pins) (offset value cpu : ℕ) (s : Sio)
    → (offset == 0x54) ≡ false
    → both (write_uint32 pins offset value cpu s) ≡ both s
unfolding write_uint32 release_lock both
both-write_uint32 pins offset value cpu s e =
    ground (arith, e, both-write_register offset value cpu s e)

read_mail : (pins : Pins) (cpu : ℕ) (s : Sio) → read_uint32 pins 0x58 cpu s ≡ read_core 0x58 cpu s
unfolding read_uint32 is_spinlock is_alias
read_mail pins cpu s = refl

write_mail :
    (pins : Pins) (cpu value : ℕ) (s : Sio)
    → both (write_uint32 pins 0x54 value cpu s) ≡ both (write_core 0x54 value cpu s)
unfolding write_uint32 write_register is_spinlock is_group both
write_mail pins cpu value s = ground arith

-- What an access that reaches no queue leaves.
unmoved : (s t : Sio) → AreReady s → both t ≡ both s → AreReady t × (boxes t ≡ boxes s)
unfolding both
unmoved s t r e =
    let (p, q) = subst (λ (f, g). Ready f × Ready g) (sym e) (r.ready0, r.ready1) in
    (record { ready0 = p; ready1 = q }, ap (λ (f, g). box (items f) (items g)) e)

read_refines :
    (pins : Pins) (cpu : ℕ) (s : Sio)
    → AreReady s
    → let (x, t) = read_uint32 pins 0x58 cpu s in
      AreReady t × ((x ∷ [], boxes t) ≡ post (reads pins cpu 0x58) (boxes s))
unfolding read_core side put_side post
read_refines pins cpu s r = rw (read_mail pins cpu s) (elim (Bool-cases (cpu == 0)) [
  | inl e ↦
      let t : Side = record { core = s.core0; rx = s.fifo0; tx = s.fifo1; actions = s.actions } in
      let (f, g) = read_uint32-Ready t r.ready0 in
      simp e (
        record { ready0 = f; ready1 = subst Ready (sym g) r.ready1 },
        ground (arith, g, read_uint32-items t r.ready0.valid),
      )
  | inr e ↦
      let t : Side = record { core = s.core1; rx = s.fifo1; tx = s.fifo0; actions = s.actions } in
      let (f, g) = read_uint32-Ready t r.ready1 in
      simp e (
        record { ready1 = f; ready0 = subst Ready (sym g) r.ready0 },
        ground (arith, g, read_uint32-items t r.ready1.valid),
      )
])

write_core_refines :
    (pins : Pins) (cpu value : ℕ) (s : Sio)
    → AreReady s
    → let t = write_core 0x54 value cpu s in
      AreReady t × (([], boxes t) ≡ post (writes pins cpu 0x54 value) (boxes s))
unfolding write_core side put_side post
write_core_refines pins cpu value s r = elim (Bool-cases (cpu == 0)) [
  | inl e ↦
      let t : Side = record { core = s.core0; rx = s.fifo0; tx = s.fifo1; actions = s.actions } in
      let (f, g) = write_uint32-Ready value t r.ready1 in
      let h = r.ready1.eight in
      simp e (
        record { ready1 = f; ready0 = subst Ready (sym g) r.ready0 },
        ground (arith, g, h, write_uint32-items value t r.ready1.valid),
      )
  | inr e ↦
      let t : Side = record { core = s.core1; rx = s.fifo1; tx = s.fifo0; actions = s.actions } in
      let (f, g) = write_uint32-Ready value t r.ready0 in
      let h = r.ready0.eight in
      simp e (
        record { ready0 = f; ready1 = subst Ready (sym g) r.ready1 },
        ground (arith, g, h, write_uint32-items value t r.ready0.valid),
      )
]

write_refines :
    (pins : Pins) (cpu value : ℕ) (s : Sio)
    → AreReady s
    → let t = write_uint32 pins 0x54 value cpu s in
      AreReady t × (([], boxes t) ≡ post (writes pins cpu 0x54 value) (boxes s))
write_refines pins cpu value s r =
    let (f, g) = write_core_refines pins cpu value s r in
    let (h, k) =
      unmoved (write_core 0x54 value cpu s) (write_uint32 pins 0x54 value cpu s) f
        (write_mail pins cpu value s) in
    (h, ap (λ b. ([], b)) k ∙ g)

mail_refines :
    (a : Access) (s : Sio)
    → AreReady s
    → let (x, t) = mail a s in AreReady t × ((x, boxes t) ≡ post a (boxes s))
unfolding mail post
mail_refines (reads pins cpu offset) s r = elim (Bool-cases (offset == 0x58)) [
  | inl e ↦ let z : offset ≡ 0x58 = (==_iff offset 0x58).0 e in rw z (read_refines pins cpu s r)
  | inr e ↦
      let (f, g) =
        unmoved s (read_uint32 pins offset cpu s).1 r (both-read_uint32 pins offset cpu s e) in
      (f, simp (e, post) (ap (λ b. ([], b)) g))
]
mail_refines (writes pins cpu offset value) s r = elim (Bool-cases (offset == 0x54)) [
  | inl e ↦
      let z : offset ≡ 0x54 = (==_iff offset 0x54).0 e in rw z (write_refines pins cpu value s r)
  | inr e ↦
      let (f, g) =
        unmoved s (write_uint32 pins offset value cpu s) r
          (both-write_uint32 pins offset value cpu s e) in
      (f, simp (e, post) (ap (λ b. ([], b)) g))
]

-- Under every sequence of accesses of the two cores, to any registers of the block, the mailboxes are
-- two queues of eight words at most: what a core writes to FIFO_WR goes behind the words on their
-- way to the other core, or is dropped when these are eight, and each core gets from FIFO_RD the oldest
-- word sent to it that it has not got yet, or 0 when there is none.
pub mails_refine :
    (accesses : List Access) (s : Sio)
    → AreReady s
    → let (xs, t) = mails accesses s in (xs, boxes t) ≡ posts accesses (boxes s)
unfolding mails posts
mails_refine [] s r = refl
mails_refine (a ∷ rest) s r =
    let (q, e) = mail_refines a s r in ground (arith, e, mails_refine rest (mail a s).1 q)
