-- ===== src/Pio/Clock.antt =====
-- The fractional clock divider of a state machine.
use rp2350js.Base.{ℕ, zero, suc, ◌+◌, ◌*◌, ◌/◌, ◌<◌, ◌≤◌, ◌≡◌, sym, arith}
use rp2350js.Base.{to_num}
use native.Mathlib.Nat.{div-eq_of_lt-le}
use rp2350js.Pio.Execute.Step.{clock_gate}

-- The number of cycles that a machine has in n steps, and its phase afterwards.
unfoldable pub clock_steps : ℕ → ℕ → ℕ → ℕ × ℕ
clock_steps div phase zero = (0, phase)
clock_steps div phase (suc n) =
    let (runs, phase') = clock_gate div phase in
    let (count, last) = clock_steps div phase' n in (to_num runs + count, last)

-- One step moves the clock on by 256, and a cycle takes a period of it.
clock_gate_lem :
    (div phase : ℕ)
    → 256 ≤ div
    → phase < div
    → let (runs, phase') = clock_gate div phase in
      (phase' + to_num runs * div ≡ phase + 256) × (phase' < div)
unfolding clock_gate
clock_gate_lem div phase h p = ground arith

clock_total :
    (div phase n : ℕ)
    → 256 ≤ div
    → phase < div
    → let (count, last) = clock_steps div phase n in
      (last + count * div ≡ phase + n * 256) × (last < div)
unfolding clock_steps
clock_total div phase zero h p = (omega arith, p)
clock_total div phase (suc n) h p =
    let (e, q) = clock_gate_lem div phase h p in
    let (f, r) = clock_total div (clock_gate div phase).1 n h q in (omega (arith, e, f), r)

-- With a divider of one at least and a phase below it: in n steps a machine has exactly as many
-- cycles as whole periods go into the phase and n steps of 256, so the fractions add up and no
-- cycle is lost or gained however long it runs.
pub clock_steps-divides :
    (div phase n : ℕ)
    → 256 ≤ div
    → phase < div
    → (clock_steps div phase n).0 ≡ (phase + n * 256) / div
clock_steps-divides div phase n h p =
    let (e, r) = clock_total div phase n h p in
    sym (div-eq_of_lt-le div (omega (arith, e)) (omega (arith, e, r)))
