-- ===== src/Exception/Dispatch.antt =====
-- Which exceptions come back to the interrupted program.
use ax_kernel.Prelude.{ℕ, ◌≡◌, ◌↔◌, some, arith}
use ax_kernel.Exception.{Outcome, answered, has_handler, ec_table, handle, sync_handler_main}

-- For every exception class: the handler comes back with an answer exactly for a system call of a
-- 64-bit program, class 0x15, whose own handler gives that answer.
pub sync_handler_main_answers :
    (svc : Outcome) (ec v : ℕ)
    → (sync_handler_main svc ec ≡ some (answered v)) ↔ ((ec ≡ 0x15) × (svc ≡ answered v))
unfolding sync_handler_main ec_table handle has_handler
sync_handler_main_answers svc ec v = ground arith
