-- ===== src/Proc/Start.antt =====
-- `pm_create` of src/manage/pm.c: the new process after a success.
use ax_kernel.Proc.Create.{
  Page, empty_page, Kernel, first_free, claim, finish_create, pm_create_at, pm_create, page_size,
  initial_proc_size, fresh_pcb, start_regs, set_page,
}
use ax_kernel.Prelude.{
  ◌%◌, ℕ, ◌+◌, ◌-◌, ◌*◌, ◌^◌, ◌<◌, ◌≡◌, ◌≢◌, refl, sym, ap, ◌∙◌, Option, none, some, ◌==◌, leb,
  if◌then◌else◌, if_elim, subst, arith,
}
use ax_kernel.Prelude.Results.{Every, Every-none, Every-some, Every-if, some_inj}
use ax_kernel.Heap.{Heap, heap_alloc}
use ax_kernel.Memory.{MmStack, update, mm_creat, mm_find}
use ax_kernel.Proc.{max_pcb_size, Pcb, at_proc, uart}
use ax_kernel.Proc.Rollback.{IsFirst, first_free-IsFirst}

-- What a control block is given at its creation, over what it held before.
pub record IsFresh (entry parid id real_addr : ℕ) (old new : Pcb) : Type 0 where
  pub own_id : new.id ≡ id
  pub parent : new.p_id ≡ parid
  pub state : new.state ≡ 0
  pub heap_ends : (new.heap_start ≡ 0) × ((new.heap_break ≡ 0) × (new.heap_limit ≡ 0))
  pub box_empty : (new.msgs.is_msgbox ≡ 0) × (new.msgs.len ≡ 0)
  pub box_calls : (new.msgs.from ≡ 0) × (new.msgs.is_call ≡ 0)
  pub box_bytes : (j : ℕ) → j < 64 → new.msgs.msgbox j ≡ 0
  pub console :
      new.control 0 ≡ record { is_ctrl_alloc = 1; is_file = 0; file_offset = 0; handle = uart }
  pub other_ctrls : (j : ℕ) → j ≢ 0 → new.control j ≡ old.control j
  pub reg_x : (j : ℕ) → j < 31 → new.regs.reg_x j ≡ 0
  pub starts_at : new.regs.elr_el1 ≡ entry
  pub stack : new.regs.sp ≡ (real_addr + 1024 * 1024) % 2 ^ 64
  pub mode_of_null : entry ≡ 0 → new.regs.spsr ≡ 0x340
  pub mode : entry ≢ 0 → new.regs.spsr ≡ 0x3C5

-- A page table without entries.
pub record IsEmptyTable (page : Page) : Type 0 where
  pub flags : (page.is_full ≡ 0) × ((page.num ≡ 0) × (page.is_leaf ≡ 0))
  pub slots : (j : ℕ) → j < 512 → page.slots j ≡ 0

-- A new process: its slot and control block, its page table out of the heap, its memory out of the
-- map, and what is left alone.
pub record IsStarted (entry parid id : ℕ) (k k' : Kernel) : Type 0 where
  pub in_range : (0 < id) × (id < 256)
  pub was_free : k.pm.is_alloc (id - 1) ≡ 0
  pub marks : (j : ℕ) → k'.pm.is_alloc j ≡ (if j == id - 1 then 1 else k.pm.is_alloc j)
  pub block :
      IsFresh entry parid id
        (mm_find k'.mm_stack (k'.pm.procs id).mm_addr 0)
        (k.pm.procs id)
        (k'.pm.procs id)
  pub memory : mm_creat k.mm_stack 1024 ≡ ((k'.pm.procs id).mm_addr, k'.mm_stack)
  pub memory_taken : k'.mm_stack.sp_top ≢ k.mm_stack.sp_top
  pub table : heap_alloc k.heap 4104 ≡ ((k'.pm.procs id).page_i, k'.heap)
  pub table_empty :
      (ptr : ℕ) × (((k'.pm.procs id).page_i ≡ some ptr)
        × (IsEmptyTable (k'.pages ptr) × ((a : ℕ) → a ≢ ptr → k'.pages a ≡ k.pages a)))
  pub others : (j : ℕ) → j ≢ id → k'.pm.procs j ≡ k.pm.procs j
  pub low : k'.pm.lowqueue ≡ k.pm.lowqueue
  pub high : k'.pm.highqueue ≡ k.pm.highqueue

-- The control block of the process in slot `i`, filled in.
filled : ℕ → ℕ → ℕ → ℕ → ℕ → MmStack → Pcb → Pcb
filled i entry parid ptr mm_addr mm1 old =
    start_regs entry (mm_find mm1 mm_addr 0)
      (set_page (some ptr) mm_addr (fresh_pcb (i + 1) parid old))

filled-IsFresh :
    (i entry parid ptr mm_addr : ℕ) (mm1 : MmStack) (old : Pcb)
    → i + 1 < 256
    → IsFresh entry parid
        (i + 1)
        (mm_find mm1 mm_addr 0)
        old
        (filled i entry parid ptr mm_addr mm1 old)
unfolding filled fresh_pcb start_regs
filled-IsFresh i entry parid ptr mm_addr mm1 old lt = record {
  own_id = ground (arith, lt);
  parent = refl;
  state = refl;
  heap_ends = (refl, (refl, refl));
  box_empty = (refl, refl);
  box_calls = (refl, refl);
  box_bytes = λ j h. ground (arith, h);
  console = refl;
  other_ctrls = λ j h. ground (arith, h);
  reg_x = λ j h. ground (arith, h);
  starts_at = refl;
  stack = ground arith;
  mode_of_null = λ h. ground (arith, h);
  mode = λ h. ground (arith, h);
}

-- The kernel with the process in slot `i` set up.
born : Kernel → ℕ → ℕ → ℕ → ℕ → Heap → ℕ → MmStack → Kernel
unfolding claim at_proc
born k i entry parid ptr heap1 mm_addr mm1 = record k {
  heap = heap1;
  mm_stack = mm1;
  pm = record (claim k.pm i parid) {
    procs =
        at_proc (claim k.pm i parid).procs (i + 1)
          (λ p. start_regs entry (mm_find mm1 mm_addr 0) (set_page (some ptr) mm_addr p));
  };
  pages = λ a. if a == ptr then empty_page (k.pages a) else k.pages a;
}

own_block :
    (k : Kernel) (i entry parid ptr : ℕ) (heap1 : Heap) (mm_addr : ℕ) (mm1 : MmStack)
    → (born k i entry parid ptr heap1 mm_addr mm1).pm.procs (i + 1)
      ≡ filled i entry parid ptr mm_addr mm1 (k.pm.procs (i + 1))
unfolding born claim at_proc filled
own_block k i entry parid ptr heap1 mm_addr mm1 = ground arith

empty_page-IsEmptyTable : (page : Page) → IsEmptyTable (empty_page page)
empty_page-IsEmptyTable page = record {
  flags = (refl, (refl, refl));
  slots = λ j h. ground (arith, h);
}

born-IsStarted :
    (k : Kernel) (i entry parid ptr : ℕ) (heap1 : Heap) (mm_addr : ℕ) (mm1 : MmStack)
    → k.pm.is_alloc i ≡ 0
    → i + 1 < 256
    → heap_alloc k.heap page_size ≡ (some ptr, heap1)
    → mm_creat k.mm_stack initial_proc_size ≡ (mm_addr, mm1)
    → mm1.sp_top ≢ k.mm_stack.sp_top
    → IsStarted entry parid (i + 1) k (born k i entry parid ptr heap1 mm_addr mm1)
unfolding born claim update at_proc filled start_regs
born-IsStarted k i entry parid ptr heap1 mm_addr mm1 free lt heap_eq mm_eq taken =
    let own = own_block k i entry parid ptr heap1 mm_addr mm1 in
    let pages = (born k i entry parid ptr heap1 mm_addr mm1).pages in
    let own_page = ap (λ p. p.page_i) own in
    let own_addr = ap (λ p. p.mm_addr) own in
    let place : pages ptr ≡ empty_page (k.pages ptr) = ground arith in
    record {
      in_range = (omega arith, omega arith);
      was_free = subst (λ j. k.pm.is_alloc j ≡ 0) (omega arith) free;
      marks = λ j. ground arith;
      block =
          subst (λ p. IsFresh entry parid (i + 1) (mm_find mm1 p.mm_addr 0) (k.pm.procs (i + 1)) p)
            (sym own) (filled-IsFresh i entry parid ptr mm_addr mm1 (k.pm.procs (i + 1)) lt);
      memory = mm_eq ∙ ap (λ a. (a, mm1)) (sym own_addr);
      memory_taken = taken;
      table = heap_eq ∙ ap (λ a. (a, heap1)) (sym own_page);
      table_empty = (
        ptr,
        (
          own_page,
          (
            subst IsEmptyTable (sym place) (empty_page-IsEmptyTable (k.pages ptr)),
            λ a ne. ground (arith, ne),
          ),
        ),
      );
      others = λ j ne. ground (arith, ne);
      low = refl;
      high = refl;
    }

finish_create-IsStarted :
    (k : Kernel) (i entry parid : ℕ) (a : Option ℕ × Heap) (m : ℕ × MmStack) (id : ℕ)
    → k.pm.is_alloc i ≡ 0
    → i + 1 < 256
    → heap_alloc k.heap page_size ≡ a
    → mm_creat k.mm_stack initial_proc_size ≡ m
    → (finish_create (record k { pm = claim k.pm i parid }) i entry a m).0 ≡ some id
    → IsStarted entry parid id k
        (finish_create (record k { pm = claim k.pm i parid }) i entry a m).1
unfolding finish_create born
finish_create-IsStarted k i entry parid (none, heap1) m id free lt heap_eq mm_eq e =
    absurd (ground (arith, e))
finish_create-IsStarted k i entry parid (some ptr, heap1) (mm_addr, mm1) id free lt heap_eq mm_eq
      e =
    if_elim (λ (t : Option ℕ × Kernel). t.0 ≡ some id → IsStarted entry parid id k t.1)
      (mm1.sp_top == k.mm_stack.sp_top) (λ same e. absurd (ground (arith, e)))
      (λ other e.
        subst (λ x. IsStarted entry parid x k (born k i entry parid ptr heap1 mm_addr mm1))
          (some_inj _ _ e)
          (born-IsStarted k i entry parid ptr heap1 mm_addr mm1 free lt heap_eq mm_eq
            (ground (arith, other))))
      e

pm_create_at-IsStarted :
    (k : Kernel) (entry parid id : ℕ) (o : Option ℕ)
    → Every (IsFirst k.pm.is_alloc 0 256) o
    → Every (λ t. t.0 ≡ some id → IsStarted entry parid id k t.1) (pm_create_at k entry parid o)
unfolding pm_create_at
pm_create_at-IsStarted k entry parid id none h = Every-some _ _ (λ e. absurd (ground (arith, e)))
pm_create_at-IsStarted k entry parid id (some i) h =
    Every-if _ (leb max_pcb_size (i + 1)) (λ e. Every-none _)
      (λ e. Every-some _ _ (
        finish_create-IsStarted k i entry parid (heap_alloc k.heap page_size)
          (mm_creat k.mm_stack initial_proc_size) id (h i refl).1.0 (ground (arith, e)) refl refl))

-- When `pm_create` returns a process: its id is from 1 to 255, its slot was free and is the only one
-- newly marked. Its control block has this id, the parent and the entry that were passed, state 0, no
-- heap, an empty message box with 64 zero bytes, the console as descriptor 0 and the other
-- descriptors as they were, registers x0 to x30 at 0, the end of 1 MB of memory as stack, and 0x340
-- as SPSR if the entry is 0, 0x3C5 if not. The memory is what `mm_creat` answers to 1024 KB, and the
-- top of the map moved; the page table is what `heap_alloc` answers to 4104 bytes, and has no
-- entries. All other control blocks and page tables and both queues are untouched.
pub pm_create_starts :
    (k k' : Kernel) (entry parid id : ℕ)
    → pm_create k entry parid ≡ some (some id, k')
    → IsStarted entry parid id k k'
unfolding pm_create
pm_create_starts k k' entry parid id e =
    pm_create_at-IsStarted k entry parid id (first_free k.pm.is_alloc 0 256)
      (first_free-IsFirst k.pm.is_alloc 256 0) (some id, k') e refl
