-- ===== src/Fifo/Refine.antt =====
-- A valid `FIFO` is the bounded queue of its `items`.
use native.Mathlib.Nat.{mod-add-mod, mod-eq_of_lt, mod-eq-sub-mod, add-zero}
use native.Mathlib.Decide.{dec_lt}
use rp2350js.Base.{ℕ, zero, suc, ◌+◌, ◌-◌, ◌%◌, ◌≤◌, ◌<◌, ◌≡◌, refl, sym, ap, ap₂, ◌∙◌, ◌≢◌}
use rp2350js.Base.{List, [], ◌∷◌, ◌++◌, arith, length, get_or, set, u32, get_or-set_self}
use rp2350js.Base.{get_or-set_ne}
use rp2350js.Fifo.{Fifo, push, pull, peek, reset, items, items_from}
use rp2350js.Fifo.Inv.{IsValid, push-IsValid, pull-IsValid, reset-IsValid}
use rp2350js.Fifo.Queue
use rp2350js.Fifo.Queue.{Op, put, get, look, clear, Reply, done, word}

length-items_from : (b : List ℕ) (s c i n : ℕ) → length (items_from b s c i n) ≡ n
length-items_from b s c i zero = refl
length-items_from b s c i (suc n) = ap suc (length-items_from b s c (i + 1) n)

pub length-items : (f : Fifo) → length (items f) ≡ f.used
length-items f = length-items_from f.buffer f.start f.capacity 0 f.used

-- Two positions of the ring less than a round apart are different.
ring_ne : {c s i k : ℕ} → s < c → i < k → k < c → (s + k) % c ≢ (s + i) % c
ring_ne {c} {s} {i} {k} hs hi hk = elim (dec_lt (s + i) c) [
  | yes p ↦ elim (dec_lt (s + k) c) [
    | yes q ↦ omega (arith, mod-eq_of_lt p, mod-eq_of_lt q)
    | no q ↦ omega (
      arith,
      mod-eq_of_lt p,
      mod-eq-sub-mod {n = s + k} {m = c} (omega arith),
      mod-eq_of_lt {n = s + k - c} {m = c} (omega arith),
    )
  ]
  | no p ↦ omega (
    arith,
    mod-eq-sub-mod {n = s + k} {m = c} (omega arith),
    mod-eq_of_lt {n = s + k - c} {m = c} (omega arith),
    mod-eq-sub-mod {n = s + i} {m = c} (omega arith),
    mod-eq_of_lt {n = s + i - c} {m = c} (omega arith),
  )
]

-- A word stored behind the items is one item more, and the others stay.
items_from-set :
    (b : List ℕ) (s c x k i n : ℕ)
    → c ≤ length b
    → s < c
    → k < c
    → i + n ≡ k
    → items_from (set b ((s + k) % c) x) s c i (suc n) ≡ items_from b s c i n ++ (x ∷ [])
items_from-set b s c x k i zero hb hs hk e =
    let e' : i ≡ k = omega arith in rw (e', get_or-set_self b ((s + k) % c) x 0 (omega arith))
items_from-set b s c x k i (suc n) hb hs hk e =
    ap₂ ◌∷◌ (get_or-set_ne b ((s + k) % c) ((s + i) % c) x 0 (ring_ne hs (omega arith) hk))
      (items_from-set b s c x k (i + 1) n hb hs hk (omega arith))

-- Moving `start` on by one drops the first position.
items_from-start :
    (b : List ℕ) (s c i n : ℕ) → items_from b ((s + 1) % c) c i n ≡ items_from b s c (i + 1) n
items_from-start b s c i zero = refl
items_from-start b s c i (suc n) =
    ap₂ ◌∷◌ (ap (λ k. get_or b k 0) (rw mod-add-mod (ap (λ k. k % c) (omega arith))))
      (items_from-start b s c (i + 1) n)

-- A call on the object itself.
unfoldable pub step : Fifo → Op → Reply × Fifo
unfolding push pull peek reset
step f (put x) = (done, push f x)
step f get = let (x, f') = pull f in (word x, f')
step f look = (word (peek f), f)
step f clear = (done, reset f)

unfoldable pub run : Fifo → List Op → List Reply × Fifo
run f [] = ([], f)
run f (o ∷ ops) = let (r, f') = step f o in let (rs, f'') = run f' ops in (r ∷ rs, f'')

pub capacity-step : (f : Fifo) (o : Op) → (step f o).1.capacity ≡ f.capacity
unfolding step push pull reset
capacity-step f (put x) = ground arith
capacity-step f get = ground arith
capacity-step f look = refl
capacity-step f clear = refl

step-IsValid : {f : Fifo} (o : Op) → IsValid f → IsValid (step f o).1
unfolding step
step-IsValid (put x) v = push-IsValid x v
step-IsValid get v = pull-IsValid v
step-IsValid look v = v
step-IsValid clear v = reset-IsValid v

items_of_pos :
    (b : List ℕ) (s c n : ℕ)
    → s < c
    → n ≢ 0
    → items_from b s c 0 n ≡ get_or b s 0 ∷ items_from b ((s + 1) % c) c 0 (n - 1)
items_of_pos b s c zero hs h = absurd (h refl)
items_of_pos b s c (suc n) hs h =
    ap₂ ◌∷◌ (ap (λ k. get_or b k 0) (rw add-zero (mod-eq_of_lt hs)))
      (sym (items_from-start b s c 0 n) ∙ ap (items_from b ((s + 1) % c) c 0) (omega arith))

-- One call on a valid object gives the reply of the queue of its items, and leaves an object that
-- holds the queue's rest.
pub step_refines :
    {f : Fifo} (o : Op)
    → IsValid f
    → let (r, f') = step f o in (r, items f') ≡ Queue.step f.capacity (items f) o
unfolding step push pull peek reset Queue.step
step_refines {f} (put x) v =
    ground
      (arith, length-items f, items_from-set f.buffer f.start f.capacity (u32 x) f.used 0 f.used)
step_refines {f} get v = ground (arith, items_of_pos f.buffer f.start f.capacity f.used)
step_refines {f} look v = ground (arith, items_of_pos f.buffer f.start f.capacity f.used)
step_refines {f} clear v = refl

-- Under every sequence of `push`, `pull`, `peek` and `reset` calls, a valid FIFO answers as the
-- bounded queue of its `items` does: first in, first out, a push on a full queue is dropped, and
-- pull and peek of an empty one give 0. In the end its `items` are that queue.
pub run_refines :
    (ops : List Op) {f : Fifo}
    → IsValid f
    → let (rs, f') = run f ops in (rs, items f') ≡ Queue.run f.capacity (items f) ops
unfolding run Queue.run
run_refines [] v = refl
run_refines (o ∷ ops) {f} v =
    ground (arith, run_refines ops (step-IsValid o v), step_refines o v, capacity-step f o)

-- One push and one pull, on the words of the queue.
pub items-push :
    {f : Fifo} (x : ℕ) → IsValid f → items (push f x) ≡ (Queue.step f.capacity (items f) (put x)).1
unfolding step
items-push {f} x v = ap (λ (r, q). q) (step_refines (put x) v)

pub items-pull :
    {f : Fifo}
    → IsValid f
    → let (x, f') = pull f in (word x, items f') ≡ Queue.step f.capacity (items f) get
unfolding step
items-pull {f} v = step_refines get v
