-- ===== src/Fifo/Inv.antt =====
-- The representation invariant of `FIFO`, kept by every operation.
use rp2350js.Base.{ℕ, ◌+◌, ◌%◌, ◌≤◌, ◌<◌, ◌≡◌, arith, length, length-set, length-replicate}
use rp2350js.Base.{u32}
use rp2350js.Fifo.{Fifo, fresh, push, pull, reset}

pub record IsValid (f : Fifo) : Type 0 where
  pub storage : length f.buffer ≡ f.capacity
  pub positive : 0 < f.capacity
  pub start_in : f.start < f.capacity
  pub used_in : f.used ≤ f.capacity

pub fresh-IsValid : (size : ℕ) → 0 < size → IsValid (fresh size)
unfolding fresh
fresh-IsValid size h = record {
  storage = length-replicate size 0;
  positive = h;
  start_in = h;
  used_in = omega arith;
}

pub push-IsValid : {f : Fifo} (x : ℕ) → IsValid f → IsValid (push f x)
unfolding push
push-IsValid {f} x v = ground (arith, length-set f.buffer ((f.start + f.used) % f.capacity) (u32 x))

pub pull-IsValid : {f : Fifo} → IsValid f → IsValid (pull f).1
unfolding pull
pull-IsValid v = ground arith

pub reset-IsValid : {f : Fifo} → IsValid f → IsValid (reset f)
unfolding reset
reset-IsValid v = ground arith

-- The element that `pull` and `peek` read, and the one that `push` writes, are in the array.
pub in_range :
    {f : Fifo}
    → IsValid f
    → (f.start < length f.buffer) × ((f.start + f.used) % f.capacity < length f.buffer)
in_range v = omega arith
