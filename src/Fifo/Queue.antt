-- ===== src/Fifo/Queue.antt =====
-- What a client of `FIFO` may rely on: a queue of at most `capacity` words, oldest first.
use rp2350js.Base.{ℕ, List, [], ◌∷◌, ◌++◌, u32, ltb, if◌then◌else◌, length}

-- One call of a client, and what it sees of it.
pub data Op : Type 0 where
  put : ℕ → Op
  get look clear : Op

pub data Reply : Type 0 where
  done : Reply
  word : ℕ → Reply

-- A full queue drops what is put into it; an empty one gives 0.
unfoldable pub step : ℕ → List ℕ → Op → Reply × List ℕ
step cap q (put x) = (done, if ltb (length q) cap then q ++ (u32 x ∷ []) else q)
step cap [] get = (word 0, [])
step cap (x ∷ q) get = (word x, q)
step cap [] look = (word 0, [])
step cap (x ∷ q) look = (word x, x ∷ q)
step cap q clear = (done, [])

-- The queue after each call, with all replies.
unfoldable pub run : ℕ → List ℕ → List Op → List Reply × List ℕ
run cap q [] = ([], q)
run cap q (o ∷ ops) = let (r, q') = step cap q o in let (rs, q'') = run cap q' ops in (r ∷ rs, q'')
