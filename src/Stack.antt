-- ===== src/Stack.antt =====
-- `stack` of src/tools/dstruc.c and include/tools/_dstruc.h: a byte stack in a caller's buffer.
-- `head` is the index of the next free byte. As for the queue, the function pointers are set once.
pub mod Refine
mod Tests
use ax_kernel.Prelude.{ℕ, ◌+◌, ◌-◌, Bool, List, ◌==◌, leb, if◌then◌else◌, set, get_or}
use ax_kernel.Prelude.Word.{u32, sub32}

pub record Stack : Type 0 where
  pub buffer : List ℕ
  pub size : ℕ
  pub head : ℕ
  pub tail : ℕ
  pub count : ℕ

unfoldable pub stack_init : List ℕ → ℕ → Stack
stack_init buffer size = record { buffer = buffer; size = size; head = 0; tail = 0; count = 0 }

-- A full stack drops the byte.
unfoldable pub stack_push : Stack → ℕ → Stack
stack_push s byte = if leb s.size s.count then s else record s {
  buffer = set s.buffer s.head byte;
  head = u32 (s.head + 1);
  count = u32 (s.count + 1);
}

-- `head--` wraps, `count--` runs only at a count that is not 0.
unfoldable pub stack_pop : Stack → ℕ × Stack
stack_pop s = if s.count == 0 then (0, s) else (
  get_or s.buffer (sub32 s.head 1) 0,
  record s { head = sub32 s.head 1; count = s.count - 1 },
)

unfoldable pub stack_empty : Stack → Bool
stack_empty s = s.count == 0

unfoldable pub stack_full : Stack → Bool
stack_full s = leb s.size s.count
