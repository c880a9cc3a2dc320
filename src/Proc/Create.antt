-- ===== src/Proc/Create.antt =====
-- `pm_create` of src/manage/pm.c, which also uses the kernel heap and the memory manager.
-- `creat_proc` only passes its arguments on, `pm_delete` has no body.
use ax_kernel.Prelude.{
  ℕ, zero, suc, ◌+◌, ◌*◌, ◌^◌, Option, none, some, ◌==◌, leb, ltb, if◌then◌else◌,
}
use ax_kernel.Prelude.Word.{u8, u64}
use ax_kernel.Heap.{Heap, heap_alloc, heap_free}
use ax_kernel.Memory.{MmStack, update, mm_creat, mm_find}
use ax_kernel.Proc.{Pcb, PmObject, Ctrl, uart, at_proc, max_pcb_size}

-- A page table: `slots` is the union of `pages` and `frame`, 0 is NULL.
pub record Page : Type 0 where
  pub is_full : ℕ
  pub num : ℕ
  pub is_leaf : ℕ
  pub slots : ℕ → ℕ

pub record Kernel : Type 0 where
  pub heap : Heap
  pub mm_stack : MmStack
  pub pm : PmObject
  pub pages : ℕ → Page

-- `sizeof(page_t)`: a word of bit-fields and 512 pointers.
abbrev pub page_size : ℕ
page_size = 4104

abbrev pub initial_proc_size : ℕ
initial_proc_size = 1024

-- The loop over `is_alloc`: `n` slots are left from `i` on.
unfoldable pub first_free : (ℕ → ℕ) → ℕ → ℕ → Option ℕ
first_free is_alloc i zero = none
first_free is_alloc i (suc n) =
    let rest = first_free is_alloc (i + 1) n in if is_alloc i == 0 then some i else rest

abbrev pub uart_ctrl : Ctrl
uart_ctrl = record { is_ctrl_alloc = 1; is_file = 0; file_offset = 0; handle = uart }

-- The fields that are set before the page table is asked for.
unfoldable pub fresh_pcb : ℕ → ℕ → Pcb → Pcb
fresh_pcb id parid p = record p {
  id = u8 id;
  p_id = parid;
  state = 0;
  heap_start = 0;
  heap_break = 0;
  heap_limit = 0;
  msgs = record {
    from = 0;
    is_call = 0;
    is_msgbox = 0;
    len = 0;
    msgbox = λ i. if ltb i 64 then 0 else p.msgs.msgbox i;
  };
  control = λ i. if i == 0 then uart_ctrl else p.control i;
}

-- The registers of a process that starts at `entry` with its memory at `real_addr`.
unfoldable pub start_regs : ℕ → ℕ → Pcb → Pcb
start_regs entry real_addr p = record p {
  regs = record {
    reg_x = λ i. if ltb i 31 then 0 else p.regs.reg_x i;
    elr_el1 = entry;
    sp = u64 (real_addr + initial_proc_size * 2 ^ 10);
    spsr = if entry == 0 then 0x340 else 0x3C5;
  };
}

abbrev pub empty_page : Page → Page
empty_page p = record {
  is_full = 0;
  num = 0;
  is_leaf = 0;
  slots = λ i. if ltb i 512 then 0 else p.slots i;
}

-- Slot `i` is marked, and control block `i + 1` set up.
unfoldable pub claim : PmObject → ℕ → ℕ → PmObject
unfolding update at_proc fresh_pcb
claim pm i parid = record pm {
  is_alloc = update pm.is_alloc i 1;
  procs = at_proc pm.procs (i + 1) (fresh_pcb (i + 1) parid);
}

-- Slot `i` is given back; `change` has been made to its control block.
unfoldable pub unclaim : PmObject → ℕ → (Pcb → Pcb) → PmObject
unfolding update at_proc
unclaim pm i change = record pm {
  is_alloc = update pm.is_alloc i 0;
  procs = at_proc pm.procs (i + 1) change;
}

abbrev pub set_page : Option ℕ → ℕ → Pcb → Pcb
set_page page mm_addr p = record p { page_i = page; mm_addr = mm_addr }

-- From the answers of `heap_alloc` and `mm_creat` on.
unfoldable pub finish_create : Kernel → ℕ → ℕ → Option ℕ × Heap → ℕ × MmStack → Option ℕ × Kernel
unfolding unclaim at_proc start_regs
finish_create k i entry (none, heap1) mm =
    (none, record k { heap = heap1; pm = unclaim k.pm i (λ p. record p { page_i = none }) })
finish_create k i entry (some ptr, heap1) (mm_addr, mm1) =
    let fill : Pcb → Pcb =
      λ p. start_regs entry (mm_find mm1 mm_addr 0) (set_page (some ptr) mm_addr p) in
    if mm1.sp_top == k.mm_stack.sp_top
    then (
      none,
      record k {
        heap = heap_free heap1 (some ptr);
        mm_stack = mm1;
        pm = unclaim k.pm i (set_page (some ptr) mm_addr);
      },
    )
    else (
      some (i + 1),
      record k {
        heap = heap1;
        mm_stack = mm1;
        pm = record k.pm { procs = at_proc k.pm.procs (i + 1) fill };
        pages = λ a. if a == ptr then empty_page (k.pages a) else k.pages a;
      },
    )

-- `none` is the write to `PMv1_mem[256]`, outside the array, for slot 255.
unfoldable pub pm_create_at : Kernel → ℕ → ℕ → Option ℕ → Option (Option ℕ × Kernel)
unfolding claim finish_create
pm_create_at k entry parid none = some (none, k)
pm_create_at k entry parid (some i) =
    let k1 = record k { pm = claim k.pm i parid } in
    if leb max_pcb_size (i + 1)
    then none
    else some (
        finish_create k1 i entry (heap_alloc k.heap page_size)
          (mm_creat k.mm_stack initial_proc_size))

unfoldable pub pm_create : Kernel → ℕ → ℕ → Option (Option ℕ × Kernel)
unfolding first_free pm_create_at
pm_create k entry parid = pm_create_at k entry parid (first_free k.pm.is_alloc 0 max_pcb_size)
