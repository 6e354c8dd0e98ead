-- ===== src/RiscV/Memory/Tests.antt =====
-- A memory of bytes that throws at words and halfwords that are not aligned, and a core on it.
use rp2350js.Base.{
  ℕ, ◌+◌, ◌*◌, ◌/◌, ◌%◌, ◌^◌, ◌<◌, ◌≡◌, ◌⊎◌, ◌↔◌, refl, arith, Bool, true, false, not, ◌||◌,
}
use rp2350js.Base.{none, [], ◌==◌, low_bits, if◌then◌else◌}
use rp2350js.M0.State.{Bus}
use rp2350js.M0.Ram.{IsRam}
use rp2350js.RiscV.State.{Core, reg}
use rp2350js.RiscV.Trap.{reset_csrs}
use rp2350js.RiscV.Tags.{t_lw}
use rp2350js.RiscV.Decode.Fields.{emit, len_32}
use rp2350js.RiscV.Memory.{exec_push, exec_pop, xreg_list, stack_adj_base}
use rp2350js.RiscV.Memory.Stack.{is_listed, exec_push-exec_pop}
use rp2350js.RiscV.Execute.{exec_packed, tag_field}
use rp2350js.RiscV.Execute.Illegal.{access_throws, exec_packed-refuses}

-- the bytes, and whether an access has thrown
abbrev Memory : Type 0
Memory = (ℕ → ℕ) × Bool

abbrev half : (ℕ → ℕ) → ℕ → ℕ
half m a = m a + m (a + 1) * 2 ^ 8

abbrev word : (ℕ → ℕ) → ℕ → ℕ
word m a = half m a + half m (a + 2) * 2 ^ 16

abbrev put_half : (ℕ → ℕ) → ℕ → ℕ → ℕ → ℕ
put_half m a x j = if j == a then x % 2 ^ 8 else if j == a + 1 then x / 2 ^ 8 % 2 ^ 8 else m j

abbrev put_word : (ℕ → ℕ) → ℕ → ℕ → ℕ → ℕ
put_word m a x = put_half (put_half m (a + 2) (x / 2 ^ 16)) a x

abbrev throws_at : ℕ → ℕ → Memory → Bool
throws_at size a m = m.1 || not (a % size == 0)

abbrev bytes : Bus Memory
bytes = record {
  read32 = λ m a. (word m.0 a, (m.0, throws_at 4 a m));
  read16 = λ m a. (half m.0 a, (m.0, throws_at 2 a m));
  read8 = λ m a. (m.0 a, m);
  write32 = λ m a x. (put_word m.0 a x, throws_at 4 a m);
  write16 = λ m a x. (put_half m.0 a x, throws_at 2 a m);
  write8 = λ m a x. (λ j. if j == a then low_bits x 8 else m.0 j, m.1);
  added = λ m a x. 0;
  read_inputs = λ m a i. i;
  write_inputs = λ m a x i. i;
  thrown = λ m. m.1;
}

or_false : (b : Bool) → (b || false) ≡ b
or_false true = refl
or_false false = refl

bytes-IsRam : IsRam bytes (λ a. a % 4 ≡ 0)
bytes-IsRam = record {
  peek = λ m a. word m.0 a;
  read = λ m a r. let e : (a % 4 == 0) ≡ true = ground (arith, r) in rw (e, or_false m.1) refl;
  quiet = λ m a i r. refl;
  same = λ m a x r. ground arith;
  other = λ m a b x r q ne. ground (arith, r, q, ne);
}

abbrev core : Core Memory
core = record {
  regs = λ i. if i == 5 then 0x20000001 else 0x20000000;
  csrs = reset_csrs;
  pc = 0x100;
  next_pc = 0;
  inst_length = 4;
  cycles = 0;
  mhartid = 0;
  waiting = false;
  waiting_on_block = false;
  event_registered = false;
  interrupts_updated = false;
  meiea = λ i. true;
  meipa = λ i. false;
  meifa = λ i. false;
  meipra = λ i. 0;
  candidates = [];
  did_just_jump = false;
  lr_addr = none;
  btb = none;
  mem = (λ a. 0, false);
  other = record {
    waiting = false;
    waiting_on_block = false;
    event_registered = false;
    lr_addr = none;
  };
  events = [];
}

-- after CM.PUSH {ra, s0-s2}, -16
abbrev pushed : Core Memory
pushed = exec_push bytes 7 0 core

exec_push-exec_pop_example :
    reg (exec_pop bytes 7 0 pushed) 9
    ≡ (if (9 == 2) || is_listed 9 (xreg_list 7) then reg core 9 else reg pushed 9)
unfolding stack_adj_base
exec_push-exec_pop_example =
    exec_push-exec_pop bytes (λ a. a % 4 ≡ 0) bytes-IsRam 0x10000000 0x20000000 (λ a l h q. q)
      (omega arith) (omega arith) 7 0 9 core pushed (λ k. ground arith) (omega arith) (omega arith)
      refl refl refl

-- `lw x10, 0(x5)` at an address that is not aligned
exec_packed-refuses_example : (exec_packed bytes (emit t_lw 10 5 0 0 len_32) core ≡ none) ↔ (
    (tag_field (emit t_lw 10 5 0 0 len_32) ≡ 0)
    ⊎ (111 < tag_field (emit t_lw 10 5 0 0 len_32))
    ⊎ (access_throws bytes (emit t_lw 10 5 0 0 len_32) core ≡ true))
unfolding emit
exec_packed-refuses_example = exec_packed-refuses bytes (emit t_lw 10 5 0 0 len_32) core refl refl
