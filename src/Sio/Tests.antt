-- ===== src/Sio/Tests.antt =====
-- The block at which the theorems are applied.
use rp2350js.Base.{◌^◌, ◌≡◌, refl, arith, true, List, [], ◌∷◌}
use rp2350js.Fifo.{fresh}
use rp2350js.Fifo.Inv.{fresh-IsValid}
use rp2350js.RiscV.Alu.{div, rem}
use rp2350js.Sio.{Sio, Pins, new_sio, side, read_uint32, write_uint32, lock_of, is_spinlock}
use rp2350js.Sio.Core
use rp2350js.Sio.Core.{Side}
use rp2350js.Sio.Core.Queues.{take_first, add_last}
use rp2350js.Sio.Core.Quotient.{divide, divide-agrees}
use rp2350js.Sio.Locks.{Access, reads, writes, run, frees, frees_none, lock_excludes}
use rp2350js.Sio.Mailbox.{AreReady, mails, boxes, box, post, posts, mails_refine}

abbrev pins : Pins
pins = record { gpio_values = 5; qspi_inputs = true ∷ []; gpio_count = 30 }

abbrev block : Sio
block = new_sio 15 16

-- core 1 takes and frees lock 2 and sets a pin, while core 0 holds lock 1
abbrev others : List Access
others = reads pins 1 0x108 ∷ writes pins 1 0x108 0 ∷ writes pins 1 0x14 3 ∷ reads pins 1 0x104 ∷ []

lock_excludes_example :
    let t = run others (read_uint32 pins 0x104 0 block).1 in
    ((read_uint32 pins 0x104 1 t).0 ≡ 0)
    × ((read_uint32 pins 0x104 1 (write_uint32 pins 0x104 0 0 t)).0 ≡ 2 ^ lock_of 0x104)
unfolding is_spinlock lock_of frees_none frees
lock_excludes_example = lock_excludes pins pins 0x104 0 1 0 block others refl refl

-- core 0 sends 7 and 8, core 1 reads three times and answers
abbrev talk : List Access
talk =
    writes pins 0 0x54 7
    ∷ writes pins 0 0x54 8
    ∷ reads pins 1 0x58
    ∷ reads pins 1 0x58
    ∷ writes pins 1 0x54 9
    ∷ reads pins 1 0x58
    ∷ reads pins 0 0x58
    ∷ []

posted : posts talk (box [] []) ≡ (7 ∷ 8 ∷ 0 ∷ 9 ∷ [], box [] [])
unfolding posts post take_first add_last
posted = refl

block-AreReady : AreReady block
unfolding new_sio fresh
block-AreReady = record {
  ready0 = record { valid = fresh-IsValid 8 (omega arith); eight = refl };
  ready1 = record { valid = fresh-IsValid 8 (omega arith); eight = refl };
}

mails_refine_example : let (xs, t) = mails talk block in (xs, boxes t) ≡ posts talk (boxes block)
mails_refine_example = mails_refine talk block block-AreReady

-- -7 by 2
divide-agrees_example :
    let t = divide true true 0xfffffff9 2 (side 0 block) in
    ((Core.read_uint32 0x70 t).0 ≡ div 0xfffffff9 2)
    × ((Core.read_uint32 0x74 t).0 ≡ rem 0xfffffff9 2)
divide-agrees_example =
    divide-agrees true true 0xfffffff9 2 (side 0 block) (omega arith) (omega arith)
      (λ e. omega (arith, e))
