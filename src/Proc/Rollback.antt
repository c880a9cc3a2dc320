-- ===== src/Proc/Rollback.antt =====
-- `pm_create` of src/manage/pm.c: what is left after a failure.
use ax_kernel.Proc.Create.{
  Kernel, first_free, claim, unclaim, finish_create, pm_create_at, pm_create, page_size,
  initial_proc_size, set_page,
}
use ax_kernel.Prelude.{
  ℕ, zero, suc, ◌+◌, ◌≤◌, ◌<◌, ◌≡◌, ◌≢◌, ◌↔◌, refl, sym, Option, none, some, ◌==◌, leb, if_elim,
  Bool-cases, ==_iff, subst, inl, inr, arith,
}
use ax_kernel.Prelude.Results.{Every, Every-none, Every-some, Every-if}
use ax_kernel.Heap.{Heap, heap_alloc, heap_free}
use ax_kernel.Heap.Layout.{Layout}
use ax_kernel.Heap.Laws.{IsHeap, heap_alloc_null, heap_free-heap_alloc}
use ax_kernel.Memory.{MmStack, update, mm_creat}
use ax_kernel.Proc.{max_pcb_size, Pcb}

-- The first index from `i` on, of `n`, that is free.
abbrev pub IsFirst : (ℕ → ℕ) → ℕ → ℕ → ℕ → Type 0
IsFirst f i n j = ((i ≤ j) × (j < i + n)) × ((f j ≡ 0) × ((m : ℕ) → i ≤ m → m < j → f m ≢ 0))

pub first_free-IsFirst : (f : ℕ → ℕ) (n i : ℕ) → Every (IsFirst f i n) (first_free f i n)
unfolding first_free
first_free-IsFirst f zero i = Every-none _
first_free-IsFirst f (suc n) i =
    Every-if (IsFirst f i (suc n)) (f i == 0)
      (λ e.
        Every-some _ i
          ((omega arith, omega arith), ((==_iff (f i) 0).0 e, λ m lo hi z. absurd (omega arith))))
      (λ e j hit.
        let later = first_free-IsFirst f n (i + 1) j hit in
        let taken : f i ≢ 0 = λ z. ground (arith, e, z) in
        (
          (omega (arith, later.0.0), omega (arith, later.0.1)),
          (
            later.1.0,
            λ m lo hi. elim (Bool-cases (m == i)) [
              | inl same ↦ subst (λ x. f x ≢ 0) (sym ((==_iff m i).0 same)) taken
              | inr other ↦ later.1.1 m (ground (arith, other, lo)) hi
            ],
          ),
        ))

-- The heap, the marks of the slots, the queues and the length of the map as they were.
pub record IsRestored (ks : Layout) (k k' : Kernel) : Type 0 where
  pub heap : IsHeap k'.heap ks
  pub marks : (j : ℕ) → k'.pm.is_alloc j ≡ k.pm.is_alloc j
  pub low : k'.pm.lowqueue ≡ k.pm.lowqueue
  pub high : k'.pm.highqueue ≡ k.pm.highqueue
  pub map_top : k'.mm_stack.sp_top ≡ k.mm_stack.sp_top

marks_back :
    (k : Kernel) (i parid : ℕ) (change : Pcb → Pcb)
    → k.pm.is_alloc i ≡ 0
    → (j : ℕ) → (unclaim (claim k.pm i parid) i change).is_alloc j ≡ k.pm.is_alloc j
unfolding claim unclaim update
marks_back k i parid change free j = ground (arith, free)

finish_create-IsRestored :
    (ks : Layout) (k : Kernel) (i entry parid : ℕ) (a : Option ℕ × Heap) (m : ℕ × MmStack)
    → k.pm.is_alloc i ≡ 0
    → (a.0 ≡ none → IsHeap a.1 ks)
    → ((ptr : ℕ) → a.0 ≡ some ptr → IsHeap (heap_free a.1 (some ptr)) ks)
    → (finish_create (record k { pm = claim k.pm i parid }) i entry a m).0 ≡ none
    → IsRestored ks k (finish_create (record k { pm = claim k.pm i parid }) i entry a m).1
unfolding finish_create claim unclaim
finish_create-IsRestored ks k i entry parid (none, heap1) m free h1 h2 e = record {
  heap = h1 refl;
  marks = marks_back k i parid (λ p. record p { page_i = none }) free;
  low = refl;
  high = refl;
  map_top = refl;
}
finish_create-IsRestored ks k i entry parid (some ptr, heap1) (mm_addr, mm1) free h1 h2 e =
    if_elim (λ (t : Option ℕ × Kernel). t.0 ≡ none → IsRestored ks k t.1)
      (mm1.sp_top == k.mm_stack.sp_top)
      (λ same e. record {
        heap = h2 ptr refl;
        marks = marks_back k i parid (set_page (some ptr) mm_addr) free;
        low = refl;
        high = refl;
        map_top = (==_iff mm1.sp_top k.mm_stack.sp_top).0 same;
      })
      (λ other e. absurd (ground (arith, e))) e

pm_create_at-IsRestored :
    {ks : Layout} (k : Kernel) (entry parid : ℕ) (o : Option ℕ)
    → IsHeap k.heap ks
    → Every (IsFirst k.pm.is_alloc 0 256) o
    → Every (λ t. t.0 ≡ none → IsRestored ks k t.1) (pm_create_at k entry parid o)
unfolding pm_create_at
pm_create_at-IsRestored k entry parid none v h =
    Every-some _ _
      (λ e. record { heap = v; marks = λ j. refl; low = refl; high = refl; map_top = refl })
pm_create_at-IsRestored {ks} k entry parid (some i) v h =
    Every-if _ (leb max_pcb_size (i + 1)) (λ e. Every-none _)
      (λ e. Every-some _ _ (
        finish_create-IsRestored ks k i entry parid (heap_alloc k.heap page_size)
          (mm_creat k.mm_stack initial_proc_size) (h i refl).1.0
          (heap_alloc_null page_size v (omega arith))
          (λ ptr hit. heap_free-heap_alloc page_size v (omega arith) hit)))

-- When `pm_create` returns NULL, for want of a slot, of a page table or of memory, it leaves nothing
-- taken: the layout of the heap, the marks of all slots, the queues and the top of the memory map
-- are those from before.
pub pm_create_rolls_back :
    {ks : Layout} (k k' : Kernel) (entry parid : ℕ)
    → IsHeap k.heap ks
    → pm_create k entry parid ≡ some (none, k')
    → IsRestored ks k k'
unfolding pm_create
pm_create_rolls_back {ks} k k' entry parid v = λ e.
    pm_create_at-IsRestored k entry parid (first_free k.pm.is_alloc 0 256) v
      (first_free-IsFirst k.pm.is_alloc 256 0) (none, k') e refl

pm_create_at_overruns :
    (k : Kernel) (entry parid : ℕ) (o : Option ℕ)
    → Every (IsFirst k.pm.is_alloc 0 256) o
    → (pm_create_at k entry parid o ≡ none) ↔ (o ≡ some 255)
unfolding pm_create_at
pm_create_at_overruns k entry parid none h = ground arith
pm_create_at_overruns k entry parid (some i) h = ground (arith, (h i refl).0.1)

-- `pm_create` writes past the control blocks exactly when slot 255 is the first free one: its id
-- would be 256.
pub pm_create_overruns :
    (k : Kernel) (entry parid : ℕ)
    → (pm_create k entry parid ≡ none) ↔ (first_free k.pm.is_alloc 0 256 ≡ some 255)
unfolding pm_create
pm_create_overruns k entry parid =
    pm_create_at_overruns k entry parid (first_free k.pm.is_alloc 0 256)
      (first_free-IsFirst k.pm.is_alloc 256 0)
