-- ===== src/Fifo.antt =====
-- utils/fifo.ts: the class `FIFO`, a ring buffer over a Uint32Array. The TX and RX queues of the
-- UART, of the SIO mailboxes and of the PIO state machines are such objects.
pub mod Queue
pub mod Inv
pub mod Refine
mod Tests
use rp2350js.Base.{ℕ, zero, suc, ◌+◌, ◌-◌, ◌%◌, Bool, List, [], ◌∷◌}
use rp2350js.Base.{u32, ltb, ◌==◌, if◌then◌else◌, get_or, set, replicate}

pub record Fifo : Type 0 where
  pub buffer : List ℕ
  pub start : ℕ
  pub used : ℕ
  pub capacity : ℕ

-- the constructor
unfoldable pub fresh : ℕ → Fifo
fresh size = record { buffer = replicate size 0; start = 0; used = 0; capacity = size }

pub size : Fifo → ℕ
size f = f.capacity

pub item_count : Fifo → ℕ
item_count f = f.used

-- The typed array keeps the low 32 bits of what is stored.
pub push : Fifo → ℕ → Fifo
push f value =
    if ltb f.used f.capacity
    then record f {
      buffer = set f.buffer ((f.start + f.used) % f.capacity) (u32 value);
      used = f.used + 1;
    }
    else f

-- The 0 of `get_or` stands for a read out of range.
pub pull : Fifo → ℕ × Fifo
pull f = if f.used == 0 then (0, f) else (
  get_or f.buffer f.start 0,
  record f { start = (f.start + 1) % f.capacity; used = f.used - 1 },
)

pub peek : Fifo → ℕ
peek f = if f.used == 0 then 0 else get_or f.buffer f.start 0

-- `reset` forgets the items and leaves `start` where it is.
pub reset : Fifo → Fifo
reset f = record f { used = 0 }

unfoldable pub is_empty : Fifo → Bool
is_empty f = f.used == 0

unfoldable pub is_full : Fifo → Bool
is_full f = f.used == f.capacity

-- the loop of `items` from index i on, with n rounds left
abbrev pub items_from : List ℕ → ℕ → ℕ → ℕ → ℕ → List ℕ
items_from buffer start capacity i zero = []
items_from buffer start capacity i (suc n) =
    get_or buffer ((start + i) % capacity) 0 ∷ items_from buffer start capacity (i + 1) n

abbrev pub items : Fifo → List ℕ
items f = items_from f.buffer f.start f.capacity 0 f.used
