-- ===== src/Queue.antt =====
-- `queue` of src/tools/dstruc.c and include/tools/_dstruc.h: a byte queue in a caller's buffer.
-- The four function pointers are set once, by `queue_init`, to the functions below, so a call
-- through one is a call of that function. A write goes to `buffer[head]`, a read comes from
-- `buffer[tail]`.
pub mod Fifo
pub mod Inv
pub mod Refine
mod Tests
use ax_kernel.Prelude.{ℕ, ◌+◌, ◌-◌, Bool, List, ◌==◌, leb, if◌then◌else◌, set, get_or}
use ax_kernel.Prelude.Word.{u32}

pub record Queue : Type 0 where
  pub buffer : List ℕ
  pub size : ℕ
  pub head : ℕ
  pub tail : ℕ
  pub count : ℕ

unfoldable pub queue_init : List ℕ → ℕ → Queue
queue_init buffer size = record { buffer = buffer; size = size; head = 0; tail = 0; count = 0 }

-- `i++; if (i >= size) i = 0;`
abbrev pub step_index : ℕ → ℕ → ℕ
step_index size i = if leb size (u32 (i + 1)) then 0 else u32 (i + 1)

-- A full queue drops the byte.
unfoldable pub queue_push : Queue → ℕ → Queue
queue_push q byte = if leb q.size q.count then q else record q {
  buffer = set q.buffer q.head byte;
  head = step_index q.size q.head;
  count = u32 (q.count + 1);
}

-- `count--` runs only at a count that is not 0.
unfoldable pub queue_pop : Queue → ℕ × Queue
queue_pop q = if q.count == 0 then (0, q) else (
  get_or q.buffer q.tail 0,
  record q { tail = step_index q.size q.tail; count = q.count - 1 },
)

unfoldable pub queue_empty : Queue → Bool
queue_empty q = q.count == 0

unfoldable pub queue_full : Queue → Bool
queue_full q = leb q.size q.count
