-- ===== src/M0/Exception/Tests.antt =====
-- The frame of an exception on a small memory.
use rp2350js.Base.{ℕ, ◌+◌, ◌*◌, ◌≡◌, refl, arith, true, false, []}
use rp2350js.Base.{if◌then◌else◌, ◌==◌}
use rp2350js.M0.State.{Bus, Core, thread, sp_main}
use rp2350js.Base.{u32, low_bits}
use rp2350js.Base.{to_num, test_bit}
use rp2350js.M0.State.{reg, set_reg, lr, set_lr, pc, set_pc, xpsr, clear1}
use rp2350js.M0.Ram.{IsRam}
use rp2350js.M0.Exception.Entry.{push_frame, pop_frame, with_bit9, finish_return}
use rp2350js.M0.Exception.Entry.Frame.{InRam, pop_frame-push_frame}
use rp2350js.M0.Exception.Entry.Status.{finish_return-restores}

-- A memory of words, one at each address.
abbrev words : Bus (ℕ → ℕ)
words = record {
  read32 = λ m a. (m a, m);
  read16 = λ m a. (low_bits (m a) 16, m);
  read8 = λ m a. (low_bits (m a) 8, m);
  write32 = λ m a x j. if j == a then u32 x else m j;
  write16 = λ m a x j. if j == a then low_bits x 16 else m j;
  write8 = λ m a x j. if j == a then low_bits x 8 else m j;
  added = λ m a x. 0;
  read_inputs = λ m a i. i;
  write_inputs = λ m a x i. i;
  thrown = λ m. false;
}

words-IsRam : IsRam words (λ _. Unit)
words-IsRam = record {
  peek = λ m a. m a;
  read = λ m a r. refl;
  quiet = λ m a i r. refl;
  same = λ m a x r. ground arith;
  other = λ m a b x r r' h. ground arith;
}

frame-InRam : InRam (λ _. Unit) 0x7e0
frame-InRam = record {
  in0 = tt;
  in1 = tt;
  in2 = tt;
  in3 = tt;
  in12 = tt;
  in14 = tt;
  in15 = tt;
  in_psr = tt;
}

-- The state before an exception, and a handler that has changed R0.
abbrev before : Core (ℕ → ℕ)
before = record {
  regs = λ i. i * 16 + 1;
  banked_sp = 0x400;
  cycles = 0;
  added_cycles = 0;
  event_registered = false;
  waiting = false;
  n = true;
  c = false;
  z = false;
  v = true;
  break_rewind = 0;
  pm = false;
  spsel = sp_main;
  n_priv = false;
  current_mode = thread;
  ipsr = 0;
  pending_interrupts = 0;
  enabled_interrupts = 0;
  interrupt_priorities = λ i. 0;
  pending_nmi = false;
  pending_pend_sv = false;
  pending_sv_call = false;
  pending_systick = false;
  interrupts_updated = false;
  vtor = 0;
  shpr2 = 0;
  shpr3 = 0;
  mem = λ _. 0;
  other = record { waiting = true; event_registered = false };
  events = [];
}

abbrev handled : Core (ℕ → ℕ)
handled = set_reg 0 99 (push_frame words 0x7e0 1 before)

pop_frame-push_frame_example : pop_frame words 0x7e0 handled ≡ (
  u32 (with_bit9 (xpsr before) 1),
  set_pc (u32 (clear1 (pc before))) (
      set_lr (u32 (lr before)) (
        set_reg 12 (u32 (reg before 12)) (
          set_reg 3 (u32 (reg before 3)) (
            set_reg 2
              (u32 (reg before 2))
              (set_reg 1 (u32 (reg before 1)) (set_reg 0 (u32 (reg before 0)) handled)))))),
)
pop_frame-push_frame_example =
    pop_frame-push_frame words-IsRam 0x7e0 frame-InRam 1 before handled refl

finish_return-restores_example :
    let r = finish_return 9 (u32 (with_bit9 (xpsr before) (to_num true))) handled in
    (r.n ≡ true)
    × (r.z ≡ false)
    × (r.c ≡ false)
    × (r.v ≡ true)
    × (r.ipsr ≡ 0)
    × (test_bit (u32 (with_bit9 (xpsr before) (to_num true))) 9 ≡ true)
unfolding push_frame
finish_return-restores_example = finish_return-restores 9 true before handled (omega arith)
