-- ===== src/Heap/Tests.antt =====
-- Runs of the heap, and its theorems on a heap with two blocks in use.
use mathlib.Core.Option
use ax_kernel.Prelude.{◌≡◌, ◌+◌, ◌≤◌, refl, true, false, none, some, [], ◌∷◌, arith}
use ax_kernel.Heap.{
  Heap, heap_init, heap_alloc, heap_free, search, first_fit, take_found, take_block, take_from,
  store, set_prev,
}
use ax_kernel.Heap.Layout.{chunk, Layout, choose, allocate, join, release}
use ax_kernel.Heap.Laws.{
  IsHeap, needed, all_free, heap_init-IsHeap, heap_alloc_refines, heap_free_refines,
  heap_free-heap_alloc, heap_alloc_in_heap,
}
use ax_kernel.Heap.Live.{LiveAt, LiveAt-kept}

abbrev zeros : Heap
zeros = record {
  heap_head = none;
  cells = λ a. record { size = 0; is_alloc = false; next = none; prev = none };
}

abbrev fresh : Heap
fresh = heap_init zeros

-- After requests of 100 and 76 bytes.
abbrev two : Heap
two = (heap_alloc (heap_alloc fresh 100).1 76).1

abbrev two_layout : Layout
two_layout = chunk 124 true ∷ chunk 100 true ∷ chunk 102176 false ∷ []

two-IsHeap : IsHeap two two_layout
unfolding allocate
two-IsHeap =
    let one = (heap_alloc_refines 100 (heap_init-IsHeap zeros) (omega arith)).1 in
    (heap_alloc_refines 76 one (omega arith)).1

two_pointers :
    ((heap_alloc fresh 100).0 ≡ some 24) × ((heap_alloc (heap_alloc fresh 100).1 76).0 ≡ some 148)
unfolding heap_init heap_alloc search first_fit take_found take_block take_from store set_prev
two_pointers = (refl, refl)

-- Freeing both merges everything again.
all_merged : IsHeap (heap_free (heap_free two (some 24)) (some 148)) all_free
unfolding release join
all_merged = heap_free_refines 124 (heap_free_refines 0 two-IsHeap refl) refl

heap_alloc_refines_example :
    ((heap_alloc two 8).0 ≡ Option.map needed (choose 32 0 two_layout))
    × IsHeap (heap_alloc two 8).1 (allocate 32 two_layout)
heap_alloc_refines_example = heap_alloc_refines 8 two-IsHeap (omega arith)

heap_free_refines_example : IsHeap (heap_free two (some 148)) (release 124 0 two_layout)
heap_free_refines_example = heap_free_refines 124 two-IsHeap refl

eight_found : (heap_alloc two 8).0 ≡ some 248
unfolding choose
eight_found = (heap_alloc_refines 8 two-IsHeap (omega arith)).0

heap_free-heap_alloc_example : IsHeap (heap_free (heap_alloc two 8).1 (some 248)) two_layout
heap_free-heap_alloc_example = heap_free-heap_alloc 8 two-IsHeap (omega arith) eight_found

heap_alloc_in_heap_example : (24 ≤ 248) × (248 + 8 ≤ 102400)
heap_alloc_in_heap_example = heap_alloc_in_heap 8 two-IsHeap (omega arith) eight_found

heap_init-IsHeap_example : IsHeap (heap_init zeros) all_free
heap_init-IsHeap_example = heap_init-IsHeap zeros

LiveAt-kept_example :
    ((ls : Layout) × IsHeap (heap_alloc two 8).1 ls × LiveAt 0 124 0 ls)
    × ((ls : Layout) × IsHeap (heap_free two (some 148)) ls × LiveAt 0 124 0 ls)
LiveAt-kept_example =
    LiveAt-kept 0 124 124 8 two-IsHeap (refl, refl) (omega arith) refl (omega arith)
