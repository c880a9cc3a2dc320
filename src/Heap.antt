-- ===== src/Heap.antt =====
-- The kernel heap of src/global/alloc.c: block headers in a 100 KB array, linked both ways.
-- An address is an offset into `heap_mem`, `none` is NULL. `cells` is the memory seen as headers:
-- that no two headers overlap is part of the invariant (`Heap.Layout`). What a caller writes into
-- its own block is not part of the state.
pub mod Layout
pub mod Chain
pub mod Take
pub mod Release
pub mod Valid
pub mod Laws
pub mod Live
mod Tests
use ax_kernel.Prelude.{
  ℕ, zero, suc, ◌+◌, ◌-◌, ◌*◌, Bool, true, false, not, ◌&&◌, Option, none, some, ◌==◌, leb, ltb,
  if◌then◌else◌,
}
use ax_kernel.Prelude.Word.{u32, sub32}

abbrev pub heap_size : ℕ
heap_size = 1024 * 100

-- `sizeof(heap_block_t)`: two 32-bit words and two pointers.
abbrev pub header_size : ℕ
header_size = 24

pub record HeapBlock : Type 0 where
  pub size : ℕ
  pub is_alloc : Bool
  pub next : Option ℕ
  pub prev : Option ℕ

abbrev pub Cells : Type 0
Cells = ℕ → HeapBlock

pub record Heap : Type 0 where
  pub heap_head : Option ℕ
  pub cells : Cells

unfoldable pub store : Cells → ℕ → HeapBlock → Cells
store c p b a = if a == p then b else c a

unfoldable pub heap_init : Heap → Heap
heap_init h = record {
  heap_head = some 0;
  cells = store h.cells 0 (record { size = heap_size; is_alloc = false; next = none; prev = none });
}

-- `if (p != NULL) p->prev = q;`
unfoldable pub set_prev : Cells → Option ℕ → Option ℕ → Cells
set_prev c none q = c
set_prev c (some p) q =
    store c p (record { size = (c p).size; is_alloc = (c p).is_alloc; next = (c p).next; prev = q })

-- What the walk of `heap_alloc` ends with; it runs on fuel.
pub data Search : Type 0 where
  found : ℕ → Search
  exhausted : Search
  out_of_fuel : Search

unfoldable pub first_fit : ℕ → Cells → ℕ → Option ℕ → Search
first_fit zero c total p = out_of_fuel
first_fit (suc k) c total none = exhausted
first_fit (suc k) c total (some p) =
    let rest = first_fit k c total (c p).next in
    if not (c p).is_alloc && leb total (c p).size then found p else rest

-- The block `b` at `p` is taken; it is split if more than a header is left behind `total` bytes.
unfoldable pub take_from : Cells → ℕ → ℕ → HeapBlock → Cells
take_from c p total b =
    if ltb (total + header_size) b.size
    then store
        (set_prev
          (store c (p + total)
            (record { size = sub32 b.size total; is_alloc = false; next = b.next; prev = some p }))
          b.next (some (p + total)))
        p (record { size = total; is_alloc = true; next = some (p + total); prev = b.prev })
    else store c p (record { size = b.size; is_alloc = true; next = b.next; prev = b.prev })

unfoldable pub take_block : Cells → ℕ → ℕ → Cells
take_block c p total = take_from c p total (c p)

-- The walk visits at most one block for each 24 bytes, so the fuel is enough (`Heap.Walk`).
unfoldable pub search : Heap → ℕ → Search
search h size = first_fit (heap_size + 1) h.cells (u32 (size + header_size)) h.heap_head

-- The result is the address behind the header, or NULL.
unfoldable pub take_found : Heap → ℕ → Search → Option ℕ × Heap
take_found h total (found p) =
    (some (p + header_size), record h { cells = take_block h.cells p total })
take_found h total exhausted = (none, h)
take_found h total out_of_fuel = (none, h)

unfoldable pub heap_alloc : Heap → ℕ → Option ℕ × Heap
heap_alloc h size = take_found h (u32 (size + header_size)) (search h size)

-- Block `p` with header `h` grows over its neighbour with header `l`, whose successor links back.
unfoldable pub absorb : Cells → ℕ → HeapBlock → HeapBlock → Option ℕ → Cells
absorb c p h l back =
    set_prev
      (store c p (record {
        size = u32 (h.size + l.size);
        is_alloc = h.is_alloc;
        next = l.next;
        prev = h.prev;
      }))
      l.next back

-- The block takes over a free successor.
unfoldable pub merge_next_with : Cells → ℕ → HeapBlock → HeapBlock → Cells
merge_next_with c b h n = if n.is_alloc then c else absorb c b h n (some b)

unfoldable pub merge_next_from : Cells → ℕ → HeapBlock → Cells
merge_next_from c b h = elim h.next [ none ↦ c | some n ↦ merge_next_with c b h (c n) ]

unfoldable pub merge_next : Cells → ℕ → Cells
merge_next c b = merge_next_from c b (c b)

-- A free predecessor takes over the block.
unfoldable pub merge_prev_with : Cells → ℕ → HeapBlock → HeapBlock → Cells
merge_prev_with c p h b = if h.is_alloc then c else absorb c p h b b.prev

unfoldable pub merge_prev_from : Cells → HeapBlock → Cells
merge_prev_from c b = elim b.prev [ none ↦ c | some p ↦ merge_prev_with c p (c p) b ]

unfoldable pub merge_prev : Cells → ℕ → Cells
merge_prev c b = merge_prev_from c (c b)

unfoldable pub unmark_from : Cells → ℕ → HeapBlock → Cells
unmark_from c b h =
    store c b (record { size = h.size; is_alloc = false; next = h.next; prev = h.prev })

unfoldable pub unmark : Cells → ℕ → Cells
unmark c b = unmark_from c b (c b)

-- `get_header` steps back over the header.
unfoldable pub heap_free : Heap → Option ℕ → Heap
heap_free h none = h
heap_free h (some ptr) =
    let b = ptr - header_size in record h { cells = merge_prev (merge_next (unmark h.cells b) b) b }
