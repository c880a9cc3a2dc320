-- ===== src/Syscall/Heap.antt =====
-- `brk_call`: the break of a process within its limits.
use ax_kernel.Prelude.{◌⊎◌, ℕ, ◌+◌, ◌≤◌, ◌<◌, ◌≡◌, arith}
use ax_kernel.Proc.{Pcb}
use ax_kernel.Syscall.{brk_call, fault}

-- For a process whose break lies between the start and the limit of its heap, below the last address,
-- `brk_call` with any argument keeps it at most the limit and never lowers it; and either the answer
-- is -1 and nothing changes, or it is the old break and the bytes asked for lie from there on below
-- the limit.
pub brk_call_bounds :
    (p : Pcb) (arg1 : ℕ)
    → (p.heap_start ≤ p.heap_break) × (p.heap_break ≤ p.heap_limit)
    → p.heap_limit < fault
    → let (answer, p') = brk_call p arg1 in
      ((p'.heap_break ≤ p'.heap_limit) × (p.heap_break ≤ p'.heap_break))
      × (((answer ≡ fault) × (p' ≡ p))
          ⊎ ((answer ≡ p.heap_break) × (answer + arg1 ≤ p'.heap_limit)))
unfolding brk_call
brk_call_bounds p arg1 h lt = ground arith
