-- ===== src/Sio/Core/Queues.antt =====
-- What a core's accesses do to the two queues of the mailbox.
use rp2350js.Base.{ℕ, ◌≡◌, refl, ap, ◌∙◌, arith, false, ◌==◌, if◌then◌else◌}
use rp2350js.Base.{List, [], ◌∷◌, ◌++◌, u32, ltb, length, Bool-cases, inl, inr}
use rp2350js.Fifo.{Fifo, push, pull, items, is_empty, is_full}
use rp2350js.Fifo.Inv.{IsValid, push-IsValid, pull-IsValid}
use rp2350js.Fifo.Queue
use rp2350js.Fifo.Queue.{Reply, done, word, get, put}
use rp2350js.Fifo.Refine
use rp2350js.Fifo.Refine.{capacity-step, items-push, items-pull, length-items}
use rp2350js.Sio.Core.{
  Side, tell, set_divider, set_interp0, set_interp1, read_fifo, clear_status, write_fifo,
  read_mailbox, write_mailbox, read_uint32, write_uint32,
}
use rp2350js.Sio.Core.Division.{read_divider, write_divider}
use rp2350js.Sio.Core.Lanes.{read_lanes, write_lanes}

abbrev pub queues : Side → Fifo × Fifo
queues s = (s.rx, s.tx)

read_uint32_fifo : (s : Side) → read_uint32 0x58 s ≡ read_fifo s
unfolding read_uint32 read_divider read_lanes read_mailbox
read_uint32_fifo s = refl

write_uint32_fifo : (value : ℕ) (s : Side) → write_uint32 0x54 value s ≡ write_fifo value s
unfolding write_uint32 write_divider write_lanes write_mailbox
write_uint32_fifo value s = refl

-- The first word of a queue and the rest; an empty queue gives 0.
unfoldable pub take_first : List ℕ → ℕ × List ℕ
take_first [] = (0, [])
take_first (x ∷ q) = (x, q)

-- A full queue drops the word.
unfoldable pub add_last : ℕ → ℕ → List ℕ → List ℕ
add_last cap x q = if ltb (length q) cap then q ++ (x ∷ []) else q

queues-read_mailbox :
    (offset : ℕ) (s : Side) → (offset == 0x58) ≡ false → queues (read_mailbox offset s).1 ≡ queues s
unfolding read_mailbox tell
queues-read_mailbox offset s e = ground (arith, e)

queues-write_mailbox :
    (offset value : ℕ) (s : Side)
    → (offset == 0x54) ≡ false
    → queues (write_mailbox offset value s) ≡ queues s
unfolding write_mailbox clear_status tell
queues-write_mailbox offset value s e = ground (arith, e)

pub queues-read_uint32 :
    (offset : ℕ) (s : Side) → (offset == 0x58) ≡ false → queues (read_uint32 offset s).1 ≡ queues s
unfolding read_uint32 set_divider set_interp0 set_interp1
queues-read_uint32 offset s e = ground (arith, queues-read_mailbox offset s e)

pub queues-write_uint32 :
    (offset value : ℕ) (s : Side)
    → (offset == 0x54) ≡ false
    → queues (write_uint32 offset value s) ≡ queues s
unfolding write_uint32 set_divider set_interp0 set_interp1 tell
queues-write_uint32 offset value s e = ground (arith, queues-write_mailbox offset value s e)

unword : Reply → ℕ
unword done = 0
unword (word x) = x

take_of_step :
    (c : ℕ) (q : List ℕ) → let (r, q') = Queue.step c q get in (unword r, q') ≡ take_first q
unfolding Queue.step take_first unword
take_of_step c [] = refl
take_of_step c (x ∷ q) = refl

pub pull_takes :
    (f : Fifo) → IsValid f → let (x, f') = pull f in (x, items f') ≡ take_first (items f)
unfolding unword
pull_takes f v = ap (λ (r, q). (unword r, q)) (items-pull v) ∙ take_of_step f.capacity (items f)

take_of_empty : (q : List ℕ) → length q ≡ 0 → take_first q ≡ (0, q)
unfolding take_first
take_of_empty [] e = refl
take_of_empty (x ∷ q) e = absurd (omega (arith, e))

read_fifo_lem :
    (s : Side)
    → IsValid s.rx
    → let (x, t) = read_fifo s in (x, items t.rx) ≡ take_first (items s.rx)
unfolding read_fifo tell is_empty
read_fifo_lem s v = ground (arith, pull_takes s.rx v, take_of_empty (items s.rx), length-items s.rx)

write_fifo_lem :
    (value : ℕ) (s : Side)
    → IsValid s.tx
    → items (write_fifo value s).tx ≡ add_last s.tx.capacity (u32 value) (items s.tx)
unfolding write_fifo tell is_full add_last Queue.step
write_fifo_lem value s v = ground (arith, items-push value v, length-items s.tx)

-- FIFO_RD and FIFO_WR on the words in the queues.
pub read_uint32-items :
    (s : Side)
    → IsValid s.rx
    → let (x, t) = read_uint32 0x58 s in (x, items t.rx) ≡ take_first (items s.rx)
read_uint32-items s v = rw (read_uint32_fifo s) (read_fifo_lem s v)

pub write_uint32-items :
    (value : ℕ) (s : Side)
    → IsValid s.tx
    → items (write_uint32 0x54 value s).tx ≡ add_last s.tx.capacity (u32 value) (items s.tx)
write_uint32-items value s v = rw (write_uint32_fifo value s) (write_fifo_lem value s v)

-- a queue of the mailbox
pub record Ready (f : Fifo) : Type 0 where
  pub valid : IsValid f
  pub eight : f.capacity ≡ 8

push-Ready : {f : Fifo} (x : ℕ) → Ready f → Ready (push f x)
unfolding Refine.step
push-Ready {f} x r = record {
  valid = push-IsValid x r.valid;
  eight = capacity-step f (put x) ∙ r.eight;
}

pull-Ready : {f : Fifo} → Ready f → Ready (pull f).1
unfolding Refine.step
pull-Ready {f} r = record { valid = pull-IsValid r.valid; eight = capacity-step f get ∙ r.eight }

read_fifo-Ready : (s : Side) → Ready s.rx → Ready (read_fifo s).1.rx × ((read_fifo s).1.tx ≡ s.tx)
unfolding read_fifo tell
read_fifo-Ready s r = elim (Bool-cases (is_empty s.rx)) [
  | inl e ↦ rw e (r, refl)
  | inr e ↦ rw e (pull-Ready r, refl)
]

write_fifo-Ready :
    (value : ℕ) (s : Side)
    → Ready s.tx
    → Ready (write_fifo value s).tx × ((write_fifo value s).rx ≡ s.rx)
unfolding write_fifo tell
write_fifo-Ready value s r = elim (Bool-cases (is_full s.tx)) [
  | inl e ↦ rw e (r, refl)
  | inr e ↦ rw e (push-Ready value r, refl)
]

pub read_uint32-Ready :
    (s : Side) → Ready s.rx → Ready (read_uint32 0x58 s).1.rx × ((read_uint32 0x58 s).1.tx ≡ s.tx)
read_uint32-Ready s r = rw (read_uint32_fifo s) (read_fifo-Ready s r)

pub write_uint32-Ready :
    (value : ℕ) (s : Side)
    → Ready s.tx
    → Ready (write_uint32 0x54 value s).tx × ((write_uint32 0x54 value s).rx ≡ s.rx)
write_uint32-Ready value s r = rw (write_uint32_fifo value s) (write_fifo-Ready value s r)
