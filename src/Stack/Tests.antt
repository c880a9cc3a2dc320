-- ===== src/Stack/Tests.antt =====
-- Runs of the byte stack, and its theorems at concrete stacks.
use ax_kernel.Prelude.{ℕ, ◌≡◌, refl, List, [], ◌∷◌, arith, true}
use ax_kernel.Queue.Fifo.{Op, put, get, is_empty, is_full, done, byte, flag}
use ax_kernel.Stack.{Stack, stack_init, stack_push, stack_pop, stack_empty, stack_full}
use ax_kernel.Stack.Refine.{IsValid, step, run, run_spec, step-IsValid, run-stack_init}

abbrev room : List ℕ
room = 0 ∷ 0 ∷ []

abbrev script : List Op
script = put 4 ∷ put 5 ∷ put 6 ∷ is_full ∷ get ∷ get ∷ get ∷ is_empty ∷ []

abbrev one_in : Stack
one_in = record { buffer = 7 ∷ 0 ∷ []; size = 2; head = 1; tail = 0; count = 1 }

run-script :
    run (stack_init room 2) script
    ≡ done ∷ done ∷ done ∷ flag true ∷ byte 5 ∷ byte 4 ∷ byte 0 ∷ flag true ∷ []
unfolding run step stack_init stack_push stack_pop stack_empty stack_full
run-script = refl

run-stack_init_example : run (stack_init room 2) script ≡ run_spec 2 [] script
run-stack_init_example = run-stack_init room 2 script (omega arith) (omega arith)

step-IsValid_example : IsValid (step one_in get).1
step-IsValid_example = step-IsValid {s = one_in} get (omega arith)
