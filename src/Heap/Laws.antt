-- ===== src/Heap/Laws.antt =====
-- What `heap_alloc` and `heap_free` promise, on a heap whose memory holds a valid layout.
use mathlib.Core.Option
use ax_kernel.Prelude.{
  if_elim, ℕ, ◌+◌, ◌-◌, ◌*◌, ◌≤◌, ◌<◌, ◌^◌, ◌≡◌, refl, ap, ◌∙◌, sym, subst, true, false, none, some,
  [], ◌∷◌, ◌==◌, ltb, arith, length, Bool-cases, Option-cases, inl, inr,
}
use ax_kernel.Prelude.Word.{u32}
use ax_kernel.Heap.{
  heap_size, header_size, Heap, store, heap_init, search, found, exhausted, take_found, heap_alloc,
  heap_free, first_fit,
}
use ax_kernel.Heap.Layout.{
  chunk, Layout, bytes, fits, choose, allocate, release, UsedAt, Roomy, IsValid,
}
use ax_kernel.Heap.Chain.{Chain, link, choose-ge, outcome, first_fit-choose, store_self}
use ax_kernel.Heap.Take.{take_block-Chain}
use ax_kernel.Heap.Release.{free_cells-Chain, link-release}
use ax_kernel.Heap.Valid.{allocate-IsValid, release-IsValid, release-allocate}

-- The memory holds the blocks of a valid layout, linked both ways from `heap_head` on.
pub record IsHeap (h : Heap) (ks : Layout) : Type 0 where
  pub first : h.heap_head ≡ link 0 ks
  pub chain : Chain h.cells none 0 ks
  pub valid : IsValid ks

-- The bytes that a request takes, its header included.
abbrev pub needed : ℕ → ℕ
needed size = size + header_size

abbrev pub all_free : Layout
all_free = chunk heap_size false ∷ []

-- Whatever the memory held, `heap_init` leaves one free block of the whole heap.
pub heap_init-IsHeap : (h : Heap) → IsHeap (heap_init h) all_free
unfolding heap_init
heap_init-IsHeap h = record {
  first = refl;
  chain = (store_self h.cells 0 _, tt);
  valid = record { whole = refl; roomy = (omega arith, tt); merged = (refl, tt) };
}

length-le-bytes : (ks : Layout) → Roomy ks → length ks * 24 ≤ bytes ks
length-le-bytes [] r = omega arith
length-le-bytes (k ∷ ks) r = omega (arith, length-le-bytes ks r.1)

-- The walk ends within its fuel, at the first block that fits.
search_lem :
    {h : Heap} {ks : Layout} (size : ℕ)
    → IsHeap h ks
    → needed size < 2 ^ 32
    → search h size ≡ outcome (choose (needed size) 0 ks)
unfolding search
search_lem {h} {ks} size v word =
    let total : u32 (needed size) ≡ needed size = omega arith in
    let bound : length ks < heap_size + 1 =
      omega (arith, length-le-bytes ks v.valid.roomy, v.valid.whole) in
    rw (total, v.first)
      (first_fit-choose (heap_size + 1) h.cells (needed size) none 0 ks bound v.chain)

allocate-none : (total at : ℕ) (ks : Layout) → choose total at ks ≡ none → allocate total ks ≡ ks
unfolding choose allocate
allocate-none total at [] e = refl
allocate-none total at (k ∷ ks) e = ground (arith, allocate-none total (at + k.size) ks)

link-allocate : (total : ℕ) (ks : Layout) → link 0 (allocate total ks) ≡ link 0 ks
unfolding allocate
link-allocate total [] = refl
link-allocate total (k ∷ ks) = ground arith

module _ {h : Heap} {ks : Layout} (size : ℕ) (v : IsHeap h ks) where
  taken_none :
      choose (needed size) 0 ks ≡ none
      → ((take_found h (needed size) exhausted).0 ≡ none)
        × IsHeap (take_found h (needed size) exhausted).1 (allocate (needed size) ks)
  unfolding take_found
  taken_none full = (refl, subst (IsHeap h) (sym (allocate-none (needed size) 0 ks full)) v)

  taken_some :
      {p : ℕ}
      → choose (needed size) 0 ks ≡ some p
      → ((take_found h (needed size) (found p)).0 ≡ some (needed p))
        × IsHeap (take_found h (needed size) (found p)).1 (allocate (needed size) ks)
  unfolding take_found
  taken_some hit =
      let taken =
        take_block-Chain h.cells (needed size) none 0 ks (omega arith)
          (omega (arith, v.valid.whole)) v.valid.roomy hit v.chain in
      (
        refl,
        record {
          first = v.first ∙ sym (link-allocate (needed size) ks);
          chain = taken.0;
          valid = allocate-IsValid (needed size) (omega arith) v.valid;
        },
      )

-- `heap_alloc` is first fit: the walk ends, the result is the address behind the header of the first
-- free block with room for the request and a header, or NULL if there is none, and the memory holds
-- the layout in which that block is in use, split if more than a header was left over.
pub heap_alloc_refines :
    {h : Heap} {ks : Layout} (size : ℕ)
    → IsHeap h ks
    → needed size < 2 ^ 32
    → ((heap_alloc h size).0 ≡ Option.map needed (choose (needed size) 0 ks))
      × IsHeap (heap_alloc h size).1 (allocate (needed size) ks)
unfolding heap_alloc
heap_alloc_refines {h} {ks} size v word =
    let total : u32 (needed size) ≡ needed size = omega arith in
    rw (total, search_lem size v word)
      (elim (Option-cases (choose (needed size) 0 ks)) [
        | inl full ↦ rw full (taken_none size v full)
        | inr (p, hit) ↦ rw hit (taken_some size v hit)
      ])

-- A request that is refused leaves the layout.
pub heap_alloc_null :
    {h : Heap} {ks : Layout} (size : ℕ)
    → IsHeap h ks
    → needed size < 2 ^ 32
    → (heap_alloc h size).0 ≡ none
    → IsHeap (heap_alloc h size).1 ks
heap_alloc_null {h} {ks} size v word e =
    let after = heap_alloc_refines size v word in
    elim (Option-cases (choose (needed size) 0 ks)) [
      | inl full ↦
          subst (IsHeap (heap_alloc h size).1) (allocate-none (needed size) 0 ks full) after.1
      | inr (p, hit) ↦
          let chosen : (heap_alloc h size).0 ≡ some (needed p) =
            after.0 ∙ ap (Option.map needed) hit in
          absurd (ground (arith, chosen, e))
    ]

-- `heap_free` on a block in use frees it and merges it with its free neighbours on both sides, and
-- with nothing else.
pub heap_free_refines :
    {h : Heap} {ks : Layout} (p : ℕ)
    → IsHeap h ks
    → UsedAt p 0 ks
    → IsHeap (heap_free h (some (needed p))) (release p 0 ks)
unfolding heap_free
heap_free_refines {h} {ks} p v used =
    let block : needed p - header_size ≡ p = omega arith in
    rw block (record {
      first = v.first ∙ sym (link-release p 0 0 ks);
      chain =
          free_cells-Chain h.cells 0 p ks (omega (arith, v.valid.whole)) v.valid.roomy used v.chain;
      valid = release-IsValid p v.valid;
    })

-- The block chosen is in use afterwards.
UsedAt-allocate :
    (total at : ℕ) (ks : Layout) {p : ℕ}
    → Roomy ks
    → choose total at ks ≡ some p
    → UsedAt p at (allocate total ks)
unfolding choose allocate
UsedAt-allocate total at [] r e = cc
UsedAt-allocate total at (k ∷ ks) {p} r e = elim (Bool-cases (fits total k)) [
  | inl fit ↦
      let found : some at ≡ some p = rw fit at e in
      let here : (at == p) ≡ true = ground arith in
      rw fit (
        if_elim (UsedAt p at) (ltb (total + header_size) k.size) (λ _. rw here refl)
          (λ _. rw here refl))
  | inr unfit ↦
      let later : choose total (at + k.size) ks ≡ some p = rw unfit at e in
      let there : (at == p) ≡ false = ground (arith, choose-ge total (at + k.size) ks later) in
      rw (unfit, there) (UsedAt-allocate total (at + k.size) ks r.1 later)
]

-- An allocation followed by the release of its block gives back the very layout of before.
pub heap_free-heap_alloc :
    {h : Heap} {ks : Layout} (size : ℕ) {ptr : ℕ}
    → IsHeap h ks
    → needed size < 2 ^ 32
    → (heap_alloc h size).0 ≡ some ptr
    → IsHeap (heap_free (heap_alloc h size).1 (some ptr)) ks
heap_free-heap_alloc {h} {ks} size {ptr} v word e =
    elim (Option-cases (choose (needed size) 0 ks)) [
      | inl full ↦
          let null : (heap_alloc h size).0 ≡ none =
            (heap_alloc_refines size v word).0 ∙ ap (Option.map needed) full in
          cc (null, e)
      | inr (p, hit) ↦
          let chosen : (heap_alloc h size).0 ≡ some (needed p) =
            (heap_alloc_refines size v word).0 ∙ ap (Option.map needed) hit in
          let same : ptr ≡ needed p = cc (chosen, e) in
          let back =
            release-allocate (needed size) 0 ks (omega arith) v.valid.merged v.valid.roomy hit in
          let used = UsedAt-allocate (needed size) 0 ks v.valid.roomy hit in
          rw same (
            subst (IsHeap (heap_free (heap_alloc h size).1 (some (needed p)))) back
              (heap_free_refines p (heap_alloc_refines size v word).1 used))
    ]

room_in_block :
    (total at : ℕ) (ks : Layout) {p : ℕ} → choose total at ks ≡ some p → p + total ≤ at + bytes ks
unfolding choose
room_in_block total at [] e = cc
room_in_block total at (k ∷ ks) {p} e = elim (Bool-cases (fits total k)) [
  | inl fit ↦ let found : some at ≡ some p = rw fit at e in ground arith
  | inr unfit ↦
      let later : choose total (at + k.size) ks ≡ some p = rw unfit at e in
      omega (arith, room_in_block total (at + k.size) ks later)
]

-- A pointer that `heap_alloc` returns has the bytes asked for behind it, all within the heap.
pub heap_alloc_in_heap :
    {h : Heap} {ks : Layout} (size : ℕ) {ptr : ℕ}
    → IsHeap h ks
    → needed size < 2 ^ 32
    → (heap_alloc h size).0 ≡ some ptr
    → (header_size ≤ ptr) × (ptr + size ≤ heap_size)
heap_alloc_in_heap {h} {ks} size {ptr} v word e = elim (Option-cases (choose (needed size) 0 ks)) [
  | inl full ↦
      let null : (heap_alloc h size).0 ≡ none =
        (heap_alloc_refines size v word).0 ∙ ap (Option.map needed) full in
      cc (null, e)
  | inr (p, hit) ↦
      let chosen : (heap_alloc h size).0 ≡ some (needed p) =
        (heap_alloc_refines size v word).0 ∙ ap (Option.map needed) hit in
      let same : ptr ≡ needed p = cc (chosen, e) in
      omega (arith, room_in_block (needed size) 0 ks hit, v.valid.whole)
]

-- The addition of the header size wraps: on a fresh heap a request of 2 ^ 32 - 24 bytes or more, far
-- beyond the heap, is not refused but given the first bytes of it.
pub heap_alloc_wraps :
    (h : Heap) (size : ℕ)
    → 2 ^ 32 ≤ needed size
    → size < 2 ^ 32
    → (heap_alloc (heap_init h) size).0 ≡ some header_size
unfolding heap_alloc search heap_init store take_found first_fit
heap_alloc_wraps h size big word = ground arith
