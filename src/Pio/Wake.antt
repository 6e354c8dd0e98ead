-- ===== src/Pio/Wake.antt =====
-- A machine that stalls on PULL goes on when a word is written to its queue.
use rp2350js.Base.{
  ℕ, suc, ◌+◌, ◌≡◌, refl, sym, ap, ◌∙◌, subst, arith, Bool, true, false, u32, List, [], ◌∷◌, ◌++◌,
  ltb,
}
use rp2350js.Base.{if◌then◌else◌, ◌==◌, low_bits, field, length, Bool-cases, inl, inr}
use rp2350js.Fifo.{Fifo, push, pull, items, is_empty, is_full}
use rp2350js.Fifo.Queue
use rp2350js.Fifo.Inv.{IsValid, push-IsValid}
use rp2350js.Fifo.Refine.{items-push, length-items}
use rp2350js.Sio.Core.Queues.{pull_takes, take_first}
use rp2350js.Pio.State.{Machine, System, wait_tx_fifo, machine, on_machine, update_fifo_stat}
use rp2350js.Pio.Machine.{update_dma_tx, check_interrupts, flag_fdebug, wait}
use rp2350js.Pio.Machine.Wait.{
  pull_late, try_wait, when, end_wait, check_wait, check_machine, nesting,
}
use rp2350js.Pio.Execute.{exec_pull, exec_push_pull, perform, side_set, finish, execute_instruction}
use rp2350js.Pio.Assembler.{pio_pull}
use rp2350js.Pio.Registers.{write_fifo}
use rp2350js.Pio.Store.{
  if_true, machine-on_machine, machine-flag_fdebug, machine-update_dma_tx, machine-check_interrupts,
  machine-side_set,
}

module _ (p i : ℕ) where
  -- a machine that waits for a word to pull
  pub record IsStalled (s : System) : Type 0 where
    pub waits : (machine p i s).waiting ≡ true
    pub for_word : (machine p i s).wait_type ≡ wait_tx_fifo
    pub empty : is_empty (machine p i s).tx_fifo ≡ true
    pub no_exec : (machine p i s).exec_valid ≡ false
    pub valid : IsValid (machine p i s).tx_fifo

  -- Checking a stalled machine changes nothing.
  stalled_check : (n : ℕ) (s : System) → IsStalled s → check_wait (suc n) p i s ≡ s
  unfolding check_wait when try_wait pull_late end_wait
  stalled_check n s h = rw h.waits rw h.for_word rw h.empty rw h.waits refl

  stalled_waits : (s : System) → IsStalled s → check_machine p i s ≡ s
  unfolding check_machine nesting
  stalled_waits s h = stalled_check 12 s h

  -- A change of a machine that keeps its wait and its queue.
  on_machine-IsStalled :
      (f : Machine → Machine) (s : System)
      → ((m : Machine)
          → ((f m).waiting ≡ m.waiting)
            × ((f m).wait_type ≡ m.wait_type)
            × ((f m).tx_fifo ≡ m.tx_fifo)
            × ((f m).exec_valid ≡ m.exec_valid))
      → IsStalled s
      → IsStalled (on_machine p i f s)
  on_machine-IsStalled f s keeps h =
      let e = machine-on_machine p i f s in
      let (a, b, c, d) = keeps (machine p i s) in
      record {
        waits = ap (λ (m : Machine). m.waiting) e ∙ a ∙ h.waits;
        for_word = ap (λ (m : Machine). m.wait_type) e ∙ b ∙ h.for_word;
        empty = ap (λ (m : Machine). is_empty m.tx_fifo) e ∙ ap is_empty c ∙ h.empty;
        no_exec = ap (λ (m : Machine). m.exec_valid) e ∙ d ∙ h.no_exec;
        valid = subst IsValid (sym (ap (λ (m : Machine). m.tx_fifo) e ∙ c)) h.valid;
      }

  wait_stalls :
      (s : System)
      → is_empty (machine p i s).tx_fifo ≡ true
      → (machine p i s).exec_valid ≡ false
      → IsValid (machine p i s).tx_fifo
      → IsStalled (wait p i wait_tx_fifo false 0 p s)
  unfolding wait
  wait_stalls s h v k =
      let e = machine-on_machine p i _ s in
      record {
        waits = ap (λ (m : Machine). m.waiting) e;
        for_word = ap (λ (m : Machine). m.wait_type) e;
        empty = ap (λ (m : Machine). is_empty m.tx_fifo) e ∙ h;
        no_exec = ap (λ (m : Machine). m.exec_valid) e ∙ v;
        valid = subst IsValid (sym (ap (λ (m : Machine). m.tx_fifo) e)) k;
      }

  pull_stalls :
      (s : System)
      → is_empty (machine p i s).tx_fifo ≡ true
      → (machine p i s).exec_valid ≡ false
      → IsValid (machine p i s).tx_fifo
      → IsStalled (exec_pull p i 0xa0 s)
  unfolding exec_pull
  pull_stalls s e v k =
      let t = flag_fdebug p (24 + i) s in
      let same = machine-flag_fdebug p i p (24 + i) s in
      simp e (
        on_machine-IsStalled _ _ (λ m. (refl, refl, refl, refl))
          (wait_stalls t (ap (λ (m : Machine). is_empty m.tx_fifo) same ∙ e)
            (ap (λ (m : Machine). m.exec_valid) same ∙ v)
            (subst IsValid (sym (ap (λ (m : Machine). m.tx_fifo) same)) k)))

  perform_pull :
      (delay : ℕ) (s : System) → perform p i (pio_pull false true delay) s ≡ exec_pull p i 0xa0 s
  unfolding perform exec_push_pull pio_pull
  perform_pull delay s =
      let a : low_bits (pio_pull false true delay) 8 ≡ 0xa0 = omega arith in
      let k : field (pio_pull false true delay) 13 3 ≡ 4 = omega arith in rw (a, k) refl

  same_stalls : (s t : System) → machine p i t ≡ machine p i s → IsStalled s → IsStalled t
  same_stalls s t e h = record {
    waits = ap (λ (m : Machine). m.waiting) e ∙ h.waits;
    for_word = ap (λ (m : Machine). m.wait_type) e ∙ h.for_word;
    empty = ap (λ (m : Machine). is_empty m.tx_fifo) e ∙ h.empty;
    no_exec = ap (λ (m : Machine). m.exec_valid) e ∙ h.no_exec;
    valid = subst IsValid (sym (ap (λ (m : Machine). m.tx_fifo) e)) h.valid;
  }

  if_stalls : (b : Bool) (s t : System) → IsStalled s → IsStalled t → IsStalled (if b then s else t)
  if_stalls true s t g h = g
  if_stalls false s t g h = h

  finish_stalls : (delay : ℕ) (s : System) → IsStalled s → IsStalled (finish p i delay s)
  unfolding finish
  finish_stalls delay s h =
      let t = if_stalls _ _ s (on_machine-IsStalled _ s (λ m. (refl, refl, refl, refl)) h) h in
      simp h.waits (subst IsStalled (sym (stalled_waits _ t)) t)

  -- PULL, with the side-set pins and the delay that follow it.
  execute_stalls :
      (fuel delay : ℕ) (s : System)
      → is_empty (machine p i s).tx_fifo ≡ true
      → (machine p i s).exec_valid ≡ false
      → IsValid (machine p i s).tx_fifo
      → IsStalled (execute_instruction (suc fuel) p i (pio_pull false true delay) s)
  unfolding execute_instruction
  execute_stalls fuel delay s e v k =
      let op = pio_pull false true delay in
      let h =
        same_stalls (perform p i op s) (side_set p i op (perform p i op s))
          (machine-side_set p i op (perform p i op s))
          (subst IsStalled (sym (perform_pull delay s)) (pull_stalls s e v k)) in
      rw (execute_instruction, h.no_exec) (finish_stalls _ _ h)

-- An empty queue takes a word, and gives it back.
not_full : (f : Fifo) → IsValid f → is_empty f ≡ true → is_full f ≡ false
unfolding is_empty is_full
not_full f v e = ground (arith, v.positive, e)

no_items : (f : Fifo) → is_empty f ≡ true → items f ≡ []
unfolding is_empty
no_items f e = nil_of_length (items f) (length-items f ∙ ground (arith, e))
  where
    nil_of_length : (q : List ℕ) → length q ≡ 0 → q ≡ []
    nil_of_length [] h = refl
    nil_of_length (x ∷ q) h = absurd (omega (arith, h))

one_item : (f : Fifo) (x : ℕ) → IsValid f → is_empty f ≡ true → items (push f x) ≡ u32 x ∷ []
unfolding Queue.step
one_item f x v e =
    items-push x v
    ∙ ap (λ q. if ltb (length q) f.capacity then q ++ (u32 x ∷ []) else q) (no_items f e)
    ∙ if_true (u32 x ∷ []) [] (ground (arith, v.positive))

empty_of_items : (f : Fifo) (n : ℕ) → length (items f) ≡ n → is_empty f ≡ (n == 0)
unfolding is_empty
empty_of_items f n e = let u : f.used ≡ n = sym (length-items f) ∙ e in rw u refl

one_pulled :
    (f : Fifo) (x : ℕ)
    → IsValid f
    → is_empty f ≡ true
    → let (y, g) = pull (push f x) in (y, items g) ≡ take_first (u32 x ∷ [])
one_pulled f x v e = pull_takes (push f x) (push-IsValid x v) ∙ ap take_first (one_item f x v e)

module _ (p i x : ℕ) where
  -- a machine that waits for a word and has one
  record IsLoaded (s : System) : Type 0 where
    waits : (machine p i s).waiting ≡ true
    for_word : (machine p i s).wait_type ≡ wait_tx_fifo
    filled : is_empty (machine p i s).tx_fifo ≡ false
    pulled : let (y, g) = pull (machine p i s).tx_fifo in (y ≡ u32 x) × (is_empty g ≡ true)

  -- a machine that goes on with the word
  pub record IsWoken (s : System) : Type 0 where
    pub goes_on : (machine p i s).waiting ≡ false
    pub has_word : (machine p i s).output_shift_reg ≡ u32 x
    pub taken : is_empty (machine p i s).tx_fifo ≡ true

  on_machine-IsWoken :
      (f : Machine → Machine) (s : System)
      → ((m : Machine)
          → ((f m).waiting ≡ m.waiting)
            × ((f m).output_shift_reg ≡ m.output_shift_reg)
            × ((f m).tx_fifo ≡ m.tx_fifo))
      → IsWoken s
      → IsWoken (on_machine p i f s)
  on_machine-IsWoken f s keeps h =
      let e = machine-on_machine p i f s in
      let (a, b, c) = keeps (machine p i s) in
      record {
        goes_on = ap (λ (m : Machine). m.waiting) e ∙ a ∙ h.goes_on;
        has_word = ap (λ (m : Machine). m.output_shift_reg) e ∙ b ∙ h.has_word;
        taken = ap (λ (m : Machine). is_empty m.tx_fifo) e ∙ ap is_empty c ∙ h.taken;
      }

  machine-IsWoken : (s t : System) → machine p i t ≡ machine p i s → IsWoken s → IsWoken t
  machine-IsWoken s t e h = record {
    goes_on = ap (λ (m : Machine). m.waiting) e ∙ h.goes_on;
    has_word = ap (λ (m : Machine). m.output_shift_reg) e ∙ h.has_word;
    taken = ap (λ (m : Machine). is_empty m.tx_fifo) e ∙ h.taken;
  }

  update_dma_tx-IsWoken : (s : System) → IsWoken s → IsWoken (update_dma_tx p i s)
  unfolding update_fifo_stat
  update_dma_tx-IsWoken s h =
      let e = machine-update_dma_tx p i s in
      record {
        goes_on = ap (λ (m : Machine). m.waiting) e ∙ h.goes_on;
        has_word = ap (λ (m : Machine). m.output_shift_reg) e ∙ h.has_word;
        taken = ap (λ (m : Machine). is_empty m.tx_fifo) e ∙ h.taken;
      }

  check_interrupts-IsWoken : (q : ℕ) (s : System) → IsWoken s → IsWoken (check_interrupts q s)
  check_interrupts-IsWoken q s h = machine-IsWoken s _ (machine-check_interrupts p i q s) h

  pull_late-IsWoken : (s : System) → IsLoaded s → IsWoken (pull_late p i s)
  unfolding pull_late
  pull_late-IsWoken s h =
      let (y, g) = pull (machine p i s).tx_fifo in
      let e =
        machine-on_machine p i
          (λ n. record n { tx_fifo = g; output_shift_reg = y; waiting = false }) s in
      rw h.filled (
        check_interrupts-IsWoken p _ (
          update_dma_tx-IsWoken _ (record {
            goes_on = ap (λ (m : Machine). m.waiting) e;
            has_word = ap (λ (m : Machine). m.output_shift_reg) e ∙ h.pulled.0;
            taken = ap (λ (m : Machine). is_empty m.tx_fifo) e ∙ h.pulled.1;
          })))

  end_wait-IsWoken : (s : System) → IsWoken s → IsWoken (end_wait p i s)
  unfolding end_wait
  end_wait-IsWoken s h = rw h.goes_on (on_machine-IsWoken _ s (λ m. (refl, refl, refl)) h)

  check_wait-IsWoken : (n : ℕ) (s : System) → IsLoaded s → IsWoken (check_wait (suc n) p i s)
  unfolding check_wait when try_wait
  check_wait-IsWoken n s h = rw h.waits rw h.for_word (end_wait-IsWoken _ (pull_late-IsWoken s h))

  check_machine-IsWoken : (s : System) → IsLoaded s → IsWoken (check_machine p i s)
  unfolding check_machine nesting
  check_machine-IsWoken s h = check_wait-IsWoken 12 s h

  load : Machine → Machine
  load m = record m { tx_fifo = push m.tx_fifo x }

  loads : (s : System) → IsStalled p i s → IsLoaded (update_dma_tx p i (on_machine p i load s))
  unfolding update_fifo_stat load take_first
  loads s h =
      let e = machine-update_dma_tx p i (on_machine p i load s) in
      let f = machine-on_machine p i load s in
      let q = (machine p i s).tx_fifo in
      let t : (machine p i (update_dma_tx p i (on_machine p i load s))).tx_fifo ≡ push q x =
        ap (λ (m : Machine). m.tx_fifo) e ∙ ap (λ (m : Machine). m.tx_fifo) f in
      let o = one_pulled q x h.valid h.empty in
      record {
        waits = ap (λ (m : Machine). m.waiting) e ∙ ap (λ (m : Machine). m.waiting) f ∙ h.waits;
        for_word =
            ap (λ (m : Machine). m.wait_type) e ∙ ap (λ (m : Machine). m.wait_type) f ∙ h.for_word;
        filled =
            ap is_empty t ∙ empty_of_items (push q x) 1 (ap length (one_item q x h.valid h.empty));
        pulled = (
          ap (λ g. (pull g).0) t ∙ ap (λ (y, g). y) o,
          ap (λ g. is_empty (pull g).1) t
              ∙ empty_of_items (pull (push q x)).1 0 (ap (λ (y, g). length g) o),
        );
      }

  is_full-IsWoken :
      (s : System)
      → IsWoken s
      → IsWoken (if is_full (machine p i s).tx_fifo then check_interrupts p s else s)
  is_full-IsWoken s h = elim (Bool-cases (is_full (machine p i s).tx_fifo)) [
    | inl e ↦ rw e (check_interrupts-IsWoken p s h)
    | inr e ↦ rw e h
  ]

  write_wakes : (s : System) → IsStalled p i s → IsWoken (write_fifo p i x s)
  unfolding write_fifo load
  write_wakes s h =
      rw (not_full (machine p i s).tx_fifo h.valid h.empty)
        (is_full-IsWoken _ (check_machine-IsWoken _ (loads s h)))

-- With an empty queue that can hold a word, and no instruction of an EXEC left to run (`execValid` is
-- clear): a machine that executes what `pioPULL(false, true, delay)` encodes, a PULL that blocks,
-- waits for a word, and writing the first word to its queue ends the wait at once:
-- the word is in the output shift register and the queue is empty again. The wake-up is not lost.
pub pull-write_fifo :
    (p i x fuel delay : ℕ) (s : System)
    → is_empty (machine p i s).tx_fifo ≡ true
    → IsValid (machine p i s).tx_fifo
    → (machine p i s).exec_valid ≡ false
    → let t = execute_instruction (suc fuel) p i (pio_pull false true delay) s in
      ((machine p i t).waiting ≡ true) × IsWoken p i x (write_fifo p i x t)
pull-write_fifo p i x fuel delay s e k v =
    let h = execute_stalls p i fuel delay s e v k in (h.waits, write_wakes p i x _ h)
