-- ===== src/Sio/Locks.antt =====
-- The 32 spinlocks, under the accesses of both cores in any order.
use rp2350js.Base.{ℕ, ◌/◌, ◌%◌, ◌^◌, ◌<◌, ◌≡◌, refl, arith, Bool, true, false, not, ◌&&◌}
use rp2350js.Base.{
  List, [], ◌∷◌, ◌==◌, not32, bit_and, bit_or, test_bit, if◌then◌else◌, all_below, every_below,
}
use rp2350js.Base.Bits.{bit_or-bit, bit_and-bit}
use rp2350js.Sio.{
  Sio, Pins, read_uint32, write_uint32, is_spinlock, lock_of, claim_lock, release_lock,
}
use rp2350js.Sio.{read_core, write_core, write_register, put_side}

-- One access of a core: what the pins are then, the core and the offset, and the value written.
pub data Access : Type 0 where
  reads : Pins → ℕ → ℕ → Access
  writes : Pins → ℕ → ℕ → ℕ → Access

unfoldable pub access : Access → Sio → Sio
access (reads pins cpu offset) s = (read_uint32 pins offset cpu s).1
access (writes pins cpu offset value) s = write_uint32 pins offset value cpu s

unfoldable pub run : List Access → Sio → Sio
run [] s = s
run (a ∷ rest) s = run rest (access a s)

-- a write to one of the addresses of lock k
unfoldable pub frees : ℕ → Access → Bool
frees k (reads pins cpu offset) = false
frees k (writes pins cpu offset value) = is_spinlock offset && lock_of offset == k

unfoldable pub frees_none : ℕ → List Access → Bool
frees_none k [] = true
frees_none k (a ∷ rest) = not (frees k a) && frees_none k rest

-- bit k of 2 ^ j and of its complement
one_bits : ℕ → ℕ → Bool
one_bits j k =
    ((2 ^ j / 2 ^ k % 2) == (if j == k then 1 else 0))
    && ((not32 (2 ^ j) / 2 ^ k % 2) == (if j == k then 0 else 1))

one_bits_all : all_below 32 (λ j. all_below 32 (λ k. one_bits j k)) ≡ true
unfolding all_below one_bits
one_bits_all = refl

one_bits_lem : (j k : ℕ) → j < 32 → k < 32 → one_bits j k ≡ true
one_bits_lem j k p q =
    every_below (λ y. one_bits j y) 32 k q
      (every_below (λ x. all_below 32 (λ y. one_bits x y)) 32 j p one_bits_all)

set_bit : (x k : ℕ) → k < 32 → test_bit (bit_or x (2 ^ k)) k ≡ true
unfolding one_bits
set_bit x k p = ground (arith, bit_or-bit k x (2 ^ k), one_bits_lem k k p p)

clear_bit : (x k : ℕ) → k < 32 → test_bit (bit_and x (not32 (2 ^ k))) k ≡ false
unfolding one_bits
clear_bit x k p = ground (arith, bit_and-bit k x (not32 (2 ^ k)), one_bits_lem k k p p)

or_keeps : (x k y : ℕ) → test_bit x k ≡ true → test_bit (bit_or x y) k ≡ true
or_keeps x k y h = ground (arith, h, bit_or-bit k x y)

other_keeps :
    (x j k : ℕ)
    → j < 32
    → k < 32
    → (j == k) ≡ false
    → test_bit x k ≡ true
    → test_bit (bit_and x (not32 (2 ^ j))) k ≡ true
unfolding one_bits
other_keeps x j k p q ne h =
    ground (arith, h, bit_and-bit k x (not32 (2 ^ j)), one_bits_lem j k p q, ne)

pub lock_of-lt : (offset : ℕ) → is_spinlock offset ≡ true → lock_of offset < 32
unfolding is_spinlock lock_of
lock_of-lt offset h = ground (arith, h)

held : ℕ → Sio → Bool
held k s = test_bit s.spin_lock k

spin_lock-read_core :
    (offset cpu : ℕ) (s : Sio) → (read_core offset cpu s).1.spin_lock ≡ s.spin_lock
unfolding read_core put_side
spin_lock-read_core offset cpu s = ground arith

spin_lock-write_register :
    (offset value cpu : ℕ) (s : Sio) → (write_register offset value cpu s).spin_lock ≡ s.spin_lock
unfolding write_register write_core put_side
spin_lock-write_register offset value cpu s = ground arith

held-claim_lock : (j k : ℕ) (s : Sio) → held k s ≡ true → held k (claim_lock j s).1 ≡ true
unfolding claim_lock held
held-claim_lock j k s h = ground (arith, h, or_keeps s.spin_lock k (2 ^ j))

held-read_uint32 :
    (pins : Pins) (offset cpu k : ℕ) (s : Sio)
    → held k s ≡ true
    → held k (read_uint32 pins offset cpu s).1 ≡ true
unfolding read_uint32 held
held-read_uint32 pins offset cpu k s h =
    ground (arith, h, held-claim_lock (lock_of offset) k s, spin_lock-read_core offset cpu s)

held-release_lock :
    (j k : ℕ) (s : Sio)
    → j < 32
    → k < 32
    → (j == k) ≡ false
    → held k s ≡ true
    → held k (release_lock j s) ≡ true
unfolding release_lock held
held-release_lock j k s p q ne h = other_keeps s.spin_lock j k p q ne h

held-write_uint32 :
    (pins : Pins) (offset value cpu k : ℕ) (s : Sio)
    → k < 32
    → (is_spinlock offset && lock_of offset == k) ≡ false
    → held k s ≡ true
    → held k (write_uint32 pins offset value cpu s) ≡ true
unfolding write_uint32 held
held-write_uint32 pins offset value cpu k s p e h = ground (
  arith,
  h,
  lock_of-lt offset,
  held-release_lock (lock_of offset) k s,
  spin_lock-write_register offset value cpu s,
)

held-access :
    (k : ℕ) (a : Access) (s : Sio)
    → k < 32
    → frees k a ≡ false
    → held k s ≡ true
    → held k (access a s) ≡ true
unfolding access frees
held-access k (reads pins cpu offset) s p e h = held-read_uint32 pins offset cpu k s h
held-access k (writes pins cpu offset value) s p e h =
    held-write_uint32 pins offset value cpu k s p e h

held-run :
    (k : ℕ) (accesses : List Access) (s : Sio)
    → k < 32
    → frees_none k accesses ≡ true
    → held k s ≡ true
    → held k (run accesses s) ≡ true
unfolding run frees_none
held-run k [] s p e h = h
held-run k (a ∷ rest) s p e h =
    held-run k rest (access a s) p (ground (arith, e)) (held-access k a s p (ground (arith, e)) h)

read_of_held :
    (pins : Pins) (offset cpu : ℕ) (s : Sio)
    → is_spinlock offset ≡ true
    → held (lock_of offset) s ≡ true
    → (read_uint32 pins offset cpu s).0 ≡ 0
unfolding read_uint32 claim_lock held
read_of_held pins offset cpu s e h = ground (arith, e, h)

held_of_read :
    (pins : Pins) (offset cpu : ℕ) (s : Sio)
    → is_spinlock offset ≡ true
    → held (lock_of offset) (read_uint32 pins offset cpu s).1 ≡ true
unfolding read_uint32 claim_lock held
held_of_read pins offset cpu s e =
    ground (arith, e, set_bit s.spin_lock (lock_of offset), lock_of-lt offset)

claim_of_free :
    (pins : Pins) (offset cpu : ℕ) (s : Sio)
    → is_spinlock offset ≡ true
    → held (lock_of offset) s ≡ false
    → (read_uint32 pins offset cpu s).0 ≡ 2 ^ lock_of offset
unfolding read_uint32 claim_lock held
claim_of_free pins offset cpu s e h = ground (arith, e, h)

free_of_write :
    (pins : Pins) (offset value cpu : ℕ) (s : Sio)
    → is_spinlock offset ≡ true
    → held (lock_of offset) (write_uint32 pins offset value cpu s) ≡ false
unfolding write_uint32 release_lock held
free_of_write pins offset value cpu s e =
    ground (arith, e, clear_bit s.spin_lock (lock_of offset), lock_of-lt offset)

-- A spinlock that a core has read is taken: through every sequence of accesses of the two cores that
-- does not write to it, each read of it gives 0, to both cores. A write to it by any core frees it,
-- and the next read gives the bit of the lock, which is not 0.
pub lock_excludes :
    (pins later : Pins) (offset cpu cpu' value : ℕ) (s : Sio) (accesses : List Access)
    → is_spinlock offset ≡ true
    → frees_none (lock_of offset) accesses ≡ true
    → let t = run accesses (read_uint32 pins offset cpu s).1 in
      ((read_uint32 later offset cpu' t).0 ≡ 0)
      × ((read_uint32 later offset cpu' (write_uint32 later offset value cpu t)).0
          ≡ 2 ^ lock_of offset)
lock_excludes pins later offset cpu cpu' value s accesses e f =
    let k = lock_of offset in
    let t = run accesses (read_uint32 pins offset cpu s).1 in
    (
      read_of_held later offset cpu' t e
          (held-run k accesses _ (lock_of-lt offset e) f (held_of_read pins offset cpu s e)),
      claim_of_free later offset cpu' _ e (free_of_write later offset value cpu t e),
    )
