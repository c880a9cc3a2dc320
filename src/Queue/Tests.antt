-- ===== src/Queue/Tests.antt =====
-- Runs of the byte queue, and its theorems at a queue that has gone round.
use ax_kernel.Prelude.{◌≡◌, refl, List, [], ◌∷◌, arith, true}
use ax_kernel.Queue
use ax_kernel.Queue.{Queue, queue_init, queue_push, queue_pop, queue_empty, queue_full}
use ax_kernel.Queue.Fifo
use ax_kernel.Queue.Fifo.{Op, put, get, is_empty, is_full, done, byte, flag}
use ax_kernel.Queue.Inv.{IsValid}
use ax_kernel.Queue.Refine.{
  step-IsValid, run, run_refines, contents, contents-queue_push, contents-queue_pop,
}

-- 8, then 9, round the end of the buffer.
abbrev wrapped : Queue
wrapped = record { buffer = 9 ∷ 7 ∷ 8 ∷ []; size = 3; head = 1; tail = 2; count = 2 }

abbrev script : List Op
script = put 1 ∷ put 2 ∷ is_full ∷ get ∷ get ∷ get ∷ get ∷ is_empty ∷ []

wrapped-IsValid : IsValid wrapped
wrapped-IsValid = omega arith

run-wrapped :
    run wrapped script
    ≡ done ∷ done ∷ flag true ∷ byte 8 ∷ byte 9 ∷ byte 1 ∷ byte 0 ∷ flag true ∷ []
unfolding run Queue.Refine.step queue_push queue_pop queue_empty queue_full
run-wrapped = refl

run_refines_example : run wrapped script ≡ Fifo.run 3 (8 ∷ 9 ∷ []) script
run_refines_example = run_refines script wrapped-IsValid
