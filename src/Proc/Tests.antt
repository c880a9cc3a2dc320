-- ===== src/Proc/Tests.antt =====
-- Runs of the process manager: three ready processes, a message, a full table of processes.
use ax_kernel.Prelude.{
  ◌<◌, ltb, if◌then◌else◌, ℕ, ◌+◌, ◌≡◌, refl, Option, none, some, [], ◌∷◌, replicate, arith, false,
}
use ax_kernel.Queue.{Queue}
use ax_kernel.Queue.Inv.{IsValid}
use ax_kernel.Queue.Refine.{contents}
use ax_kernel.Heap.{Heap, heap_init}
use ax_kernel.Heap.Laws.{all_free, heap_init-IsHeap}
use ax_kernel.Memory.{MmStack}
use ax_kernel.Proc.{Pcb, PmObject, Scheduler, ptp}
use ax_kernel.Proc.Create.{Kernel, Page, pm_create, uart_ctrl}
use ax_kernel.Proc.Rollback.{IsRestored, pm_create_rolls_back}
use ax_kernel.Proc.Start.{IsStarted, pm_create_starts}
use ax_kernel.Proc.Schedule.{turns, turns_rotate, IsRing, IsReady}
use ax_kernel.Proc.Message.{ptp_delivers}

-- The control block of process 1, 2 or 3, and a block that was never used at every other index.
abbrev proc : ℕ → Pcb
proc i = record {
  regs = record { reg_x = λ j. 0; sp = 0; spsr = 0; elr_el1 = 0 };
  id = if ltb i 4 then i else 0;
  p_id = 0;
  mm_addr = 0;
  state = 0;
  heap_start = 0;
  heap_break = 0;
  heap_limit = 0;
  msgs = record { from = 0; is_call = 0; is_msgbox = 0; len = 0; msgbox = λ j. 0 };
  control = λ j. uart_ctrl;
  page_i = none;
}

-- Processes 2 and 3 wait, at the front of a buffer of 255 bytes.
abbrev low : Queue
low = record { buffer = 2 ∷ 3 ∷ replicate 253 0; size = 255; head = 2; tail = 0; count = 2 }

abbrev high : Queue
high = record { buffer = replicate 255 0; size = 255; head = 0; tail = 0; count = 0 }

low-IsValid : IsValid low
low-IsValid = record {
  fits = omega arith;
  word = omega arith;
  head_in = omega arith;
  tail_in = omega arith;
  count_in = omega arith;
  meets = refl;
}

high-IsValid : IsValid high
high-IsValid = record {
  fits = omega arith;
  word = omega arith;
  head_in = omega arith;
  tail_in = omega arith;
  count_in = omega arith;
  meets = refl;
}

-- Processes 1 to 3 are there.
abbrev object : PmObject
object = record {
  is_alloc = λ i. if ltb i 3 then 1 else 0;
  lowqueue = low;
  highqueue = high;
  procs = proc;
  proto_arr = λ i. record { rule = 0; addr = 0 };
}

abbrev map_stack : MmStack
map_stack = record {
  base = 0x40000000;
  sp_top = 0;
  sp_bot = 0xFFFF;
  sp_temp = 0;
  mem = λ i. 0;
  sp = 0;
  submem = λ i. 0;
}

abbrev scheduler : Scheduler
scheduler = record { pm = object; mm_stack = map_stack; current_proc = 1 }

proc-IsReady : (x : ℕ) → 0 < x → x < 4 → IsReady proc x
proc-IsReady x pos lt = record {
  pos = pos;
  in_range = omega (arith, lt);
  own_id = ground (arith, lt);
  ordinary = λ z. absurd (omega (arith, z));
}

scheduler-IsRing : IsRing scheduler 1 (2 ∷ 3 ∷ [])
scheduler-IsRing = (
  refl,
  (
    record { low = low-IsValid; size = refl; high = refl },
    (
      proc-IsReady 1 (omega arith) (omega arith),
      (
        proc-IsReady 2 (omega arith) (omega arith),
        (proc-IsReady 3 (omega arith) (omega arith), refl),
      ),
    ),
  ),
)

-- Process 3 runs after two turns.
turns_rotate_example :
    ((turns 2 scheduler).current_proc ≡ 3) × IsRing (turns 2 scheduler) 3 (1 ∷ 2 ∷ [])
turns_rotate_example =
    turns_rotate (1 ∷ 2 ∷ []) scheduler 1 3 (2 ∷ 3 ∷ []) [] scheduler-IsRing refl refl

-- A message of process 1 to process 3 takes process 2 out of the low queue.
ptp_delivers_example :
    let after = ptp object 1 3 (λ i. 65 + i) 4 in
    let box = (after.procs 3).msgs in
    (((box.is_msgbox ≡ 1) × ((box.from ≡ 1) × (box.len ≡ 4)))
      × ((box.msgbox 2 ≡ 67) × (after.procs 2 ≡ proc 2)))
    × ((contents after.highqueue ≡ 3 ∷ []) × (contents after.lowqueue ≡ 3 ∷ []))
ptp_delivers_example =
    ptp_delivers object 1 3 (λ i. 65 + i) 4 2 2 low-IsValid high-IsValid (refl, omega arith)
      (omega arith) (omega arith)

abbrev zeros : Heap
zeros = record {
  heap_head = none;
  cells = λ a. record { size = 0; is_alloc = false; next = none; prev = none };
}

abbrev no_page : Page
no_page = record { is_full = 0; num = 0; is_leaf = 0; slots = λ i. 0 }

abbrev kernel : Kernel
kernel = record { heap = heap_init zeros; mm_stack = map_stack; pm = object; pages = λ a. no_page }

-- The kernel after a call that is defined.
kernel_of : Option (Option ℕ × Kernel) → Kernel
kernel_of none = kernel
kernel_of (some (r, k)) = k

abbrev started : Kernel
started = kernel_of (pm_create kernel 0x80000 1)

started_lem : pm_create kernel 0x80000 1 ≡ some (some 4, started)
unfolding pm_create kernel_of ax_kernel.Heap.heap_alloc ax_kernel.Heap.take_found
    ax_kernel.Heap.search ax_kernel.Heap.first_fit ax_kernel.Heap.heap_init
    ax_kernel.Memory.mm_creat ax_kernel.Memory.push_units ax_kernel.Memory.regu_push
    ax_kernel.Heap.store
started_lem = refl

pm_create_starts_example : IsStarted 0x80000 1 4 kernel started
pm_create_starts_example = pm_create_starts kernel started 0x80000 1 4 started_lem

-- A memory map without room.
abbrev crowded : Kernel
crowded = record kernel { mm_stack = record map_stack { sp_top = 0xFFFF } }

abbrev failed : Kernel
failed = kernel_of (pm_create crowded 0x80000 1)

failed_lem : pm_create crowded 0x80000 1 ≡ some (none, failed)
unfolding pm_create kernel_of ax_kernel.Heap.heap_alloc ax_kernel.Heap.take_found
    ax_kernel.Heap.search ax_kernel.Heap.first_fit ax_kernel.Heap.heap_init
    ax_kernel.Memory.mm_creat ax_kernel.Memory.push_units ax_kernel.Memory.regu_push
    ax_kernel.Heap.store
failed_lem = refl

pm_create_rolls_back_example : IsRestored all_free crowded failed
pm_create_rolls_back_example =
    pm_create_rolls_back crowded failed 0x80000 1 (heap_init-IsHeap zeros) failed_lem
