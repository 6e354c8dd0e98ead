-- ===== src/Uart/Received.antt =====
-- What the receive queue, its flag and a reader of UARTDR see.
use rp2350js.Base.{ℕ, ◌/◌, ◌%◌, ◌^◌, Bool, true, false, not, if◌then◌else◌, ◌≡◌, refl, arith}
use rp2350js.Base.{bit_and, bit_or, not32, test_bit}
use rp2350js.Base.Bits.{bit_or-bit, bit_and-bit}
use rp2350js.Fifo.{items, pull, is_empty}
use rp2350js.Fifo.Queue.{put}
use rp2350js.Fifo.Queue
use rp2350js.Fifo.Inv.{IsValid}
use rp2350js.Fifo.Refine.{items-push}
use rp2350js.Uart.{Uart, check_interrupts, feed_byte, read_data}

flag_after :
    (b : Bool) (s : ℕ)
    → test_bit (bit_or (if b then bit_and s (not32 0x10) else bit_or s 0x10) 0x20) 4 ≡ not b
flag_after true s =
    let e : bit_or (bit_and s (not32 0x10)) 0x20 / 2 ^ 4 % 2 ≡ 0 =
      omega (arith, bit_or-bit 4 (bit_and s (not32 0x10)) 0x20, bit_and-bit 4 s (not32 0x10)) in
    rw e refl
flag_after false s =
    let e : bit_or (bit_or s 0x10) 0x20 / 2 ^ 4 % 2 ≡ 1 =
      omega (arith, bit_or-bit 4 (bit_or s 0x10) 0x20, bit_or-bit 4 s 0x10) in
    rw e refl

-- After a read of UARTDR the flag RXINTR is set exactly where bytes are left.
read_data-flag :
    (u : Uart) → let v = (read_data u).1 in test_bit v.interrupt_status 4 ≡ not (is_empty v.rx_fifo)
unfolding read_data check_interrupts
read_data-flag u = flag_after (is_empty (pull u.rx_fifo).1) u.interrupt_status

-- A byte that comes in is put at the end of a queue of 32 (or what the
-- capacity is) unless it is full, and RXINTR is set.
items-feed_byte :
    (u : Uart) (x : ℕ)
    → IsValid u.rx_fifo
    → let v = feed_byte x u in
      (items v.rx_fifo ≡ (Queue.step u.rx_fifo.capacity (items u.rx_fifo) (put x)).1)
      × (test_bit v.interrupt_status 4 ≡ true)
unfolding feed_byte check_interrupts
items-feed_byte u x v = (items-push x v, flag_after false u.interrupt_status)
