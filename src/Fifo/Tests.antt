-- ===== src/Fifo/Tests.antt =====
-- Runs of `FIFO` on concrete inputs.
use rp2350js.Base.{◌≡◌, refl, arith, List, [], ◌∷◌}
use rp2350js.Fifo.{Fifo, items}
use rp2350js.Fifo.Inv.{IsValid}
use rp2350js.Fifo.Queue
use rp2350js.Fifo.Queue.{Op, put, get, look, clear, Reply, done, word}
use rp2350js.Fifo.Refine.{step, run, run_refines}

-- 8, then 9, round the end of the array
abbrev wrapped : Fifo
wrapped = record { buffer = 9 ∷ 7 ∷ 8 ∷ []; start = 2; used = 2; capacity = 3 }

abbrev script : List Op
script = put 1 ∷ put 2 ∷ get ∷ look ∷ get ∷ get ∷ get ∷ clear ∷ []

wrapped-IsValid : IsValid wrapped
wrapped-IsValid = record {
  storage = refl;
  positive = omega arith;
  start_in = omega arith;
  used_in = omega arith;
}

run-wrapped :
    (run wrapped script).0 ≡ done ∷ done ∷ word 8 ∷ word 9 ∷ word 9 ∷ word 1 ∷ word 0 ∷ done ∷ []
unfolding run step
run-wrapped = refl

run_refines_example :
    ((run wrapped script).0, items (run wrapped script).1) ≡ Queue.run 3 (8 ∷ 9 ∷ []) script
run_refines_example = run_refines script wrapped-IsValid
