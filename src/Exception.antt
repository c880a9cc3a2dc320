-- ===== src/Exception.antt =====
-- Synchronous exceptions: src/handler/sync.c. Every handler but `svc_a64_handle` has one body: it
-- prints three registers and calls `full_stop`, which never returns.
pub mod Dispatch
use ax_kernel.Prelude.{
  ℕ, Bool, true, false, ◌&&◌, ◌||◌, Option, none, some, ◌==◌, leb, ltb, if◌then◌else◌,
}

-- What a handler does to its caller.
pub data Outcome : Type 0 where
  stopped : Outcome
  answered : ℕ → Outcome

pub data Handler : Type 0 where
  panic_handler svc_a64_handler : Handler

abbrev pub within : ℕ → ℕ → ℕ → Bool
within a b n = leb a n && leb n b

-- The entries of `ec_table` that are not NULL.
unfoldable pub has_handler : ℕ → Bool
has_handler ec =
    within 0x00 0x01 ec
    || within 0x03 0x09 ec
    || (ec == 0x0E)
    || within 0x11 0x13 ec
    || within 0x15 0x1A ec
    || (ec == 0x1C)
    || within 0x20 0x22 ec
    || within 0x24 0x26 ec
    || (ec == 0x28)
    || (ec == 0x2C)
    || within 0x2F 0x35 ec
    || (ec == 0x3C)

unfoldable pub ec_table : ℕ → Option Handler
unfolding has_handler
ec_table ec =
    if has_handler ec then some (if ec == 0x15 then svc_a64_handler else panic_handler) else none

-- `svc` is the answer of `svc_a64_handle` to the arguments.
unfoldable pub handle : Handler → Outcome → Outcome
handle panic_handler svc = stopped
handle svc_a64_handler svc = svc

-- `none` is a call of a NULL entry, or one outside the table.
unfoldable pub sync_handler_main : Outcome → ℕ → Option Outcome
unfolding ec_table handle
sync_handler_main svc ec = elim (ec_table ec) [ none ↦ none | some h ↦ some (handle h svc) ]
