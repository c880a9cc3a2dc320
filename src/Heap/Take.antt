-- ===== src/Heap/Take.antt =====
-- `heap_alloc` on a chain: the headers that it writes are those of the allocated layout.
use ax_kernel.Prelude.{
  ℕ, ◌+◌, ◌-◌, ◌≤◌, ◌<◌, ◌^◌, ◌≡◌, refl, ap, ◌∙◌, sym, true, false, Option, some, [], ◌∷◌, ltb,
  arith, Bool-cases, inl, inr,
}
use ax_kernel.Prelude.Word.{sub32}
use ax_kernel.Heap.{take_from, header_size, Cells, store, set_prev, take_block}
use ax_kernel.Heap.Layout.{Chunk, chunk, Layout, bytes, fits, carve, choose, allocate, Roomy}
use ax_kernel.Heap.Chain.{
  link, block, Chain, frame_store, store_self, store_ne, set_prev-Chain, set_prev_below,
}

-- The outcome of taking the block at `p`: a chain of the allocated layout, and nothing below it is
-- touched.
abbrev pub IsTaken : Cells → ℕ → Option ℕ → ℕ → Layout → ℕ → Type 0
IsTaken c total prev at ks p =
    Chain (take_block c p total) prev at (allocate total ks)
    × ((a : ℕ) → a < at → take_block c p total a ≡ c a)

-- The two cases of `take_from`, each on the chunk where it happens.
module _ (c : Cells) (total : ℕ) (prev : Option ℕ) (at : ℕ) (k : Chunk) (ks : Layout) where
  abbrev Taken : Cells → Layout → Type 0
  Taken c' ls = Chain c' prev at ls × ((a : ℕ) → a < at → c' a ≡ c a)

  whole-Taken :
      0 < k.size
      → Chain c (some at) (at + k.size) ks
      → Taken
          (store c at (block (chunk k.size true) (link (at + k.size) ks) prev))
          (chunk k.size true ∷ ks)
  whole-Taken pos h = (
    (store_self c at _, frame_store c (some at) (at + k.size) ks at _ (omega arith) h),
    λ a l. store_ne c at _ a (λ e. omega arith),
  )

  -- The memory after the split.
  abbrev left_over : Cells
  left_over =
      store c (at + total)
        (block (chunk (sub32 k.size total) false) (link (at + k.size) ks) (some at))

  abbrev split_cells : Cells
  split_cells =
      store (set_prev left_over (link (at + k.size) ks) (some (at + total))) at
        (block (chunk total true) (some (at + total)) prev)

  split-Taken :
      header_size ≤ total
      → total + header_size < k.size
      → k.size < 2 ^ 32
      → Roomy ks
      → Chain c (some at) (at + k.size) ks
      → Taken split_cells (chunk total true ∷ chunk (k.size - total) false ∷ ks)
  split-Taken big room word roomy h =
      let end : at + total + (k.size - total) ≡ at + k.size = omega arith in
      let size : sub32 k.size total ≡ k.size - total = omega arith in
      (
        (
          store_self _ at _,
          (
            store_ne _ at _ (at + total) (λ e. omega arith)
                ∙ set_prev_below left_over (at + k.size) ks (some (at + total)) (at + total)
                    (omega arith)
                ∙ store_self c (at + total) _
                ∙ rw (end, size) refl,
            rw end (
                frame_store _ (some (at + total)) (at + k.size) ks at _ (omega arith) (
                  set_prev-Chain left_over (some at) (at + k.size) ks (some (at + total)) roomy
                    (frame_store c (some at) (at + k.size) ks (at + total) _ (omega arith) h))),
          ),
        ),
        λ a l.
            store_ne _ at _ a (λ e. omega arith)
            ∙ set_prev_below left_over (at + k.size) ks (some (at + total)) a (omega arith)
            ∙ store_ne c (at + total) _ a (λ e. omega arith),
      )

  take_here :
      header_size ≤ total
      → bytes (k ∷ ks) < 2 ^ 32
      → Roomy (k ∷ ks)
      → Chain c prev at (k ∷ ks)
      → Taken (take_block c at total) (carve total k ks)
  unfolding take_block take_from
  take_here big word roomy h = rw h.0 (elim (Bool-cases (ltb (total + header_size) k.size)) [
    | inl room ↦ rw room (split-Taken big (ground arith) (omega arith) roomy.1 h.1)
    | inr tight ↦ rw tight (whole-Taken (omega arith) h.1)
  ])

link-allocate : (total at : ℕ) (ks : Layout) → link at (allocate total ks) ≡ link at ks
unfolding allocate
link-allocate total at [] = refl
link-allocate total at (k ∷ ks) = ground arith

-- The first chunk that fits is taken where it stands: the memory is a chain of the allocated
-- layout, and nothing below the list is touched.
pub take_block-Chain :
    (c : Cells) (total : ℕ) (prev : Option ℕ) (at : ℕ) (ks : Layout) {p : ℕ}
    → header_size ≤ total
    → bytes ks < 2 ^ 32
    → Roomy ks
    → choose total at ks ≡ some p
    → Chain c prev at ks
    → IsTaken c total prev at ks p
unfolding choose allocate
take_block-Chain c total prev at [] big word roomy e h = cc
take_block-Chain c total prev at (k ∷ ks) {p} big word roomy e h =
    elim (Bool-cases (fits total k)) [
      | inl fit ↦
          let found : some at ≡ some p = rw fit at e in
          let here : at ≡ p = cc in
          rw (← here, fit) (take_here c total prev at k ks big word roomy h)
      | inr unfit ↦
          let later : choose total (at + k.size) ks ≡ some p = rw unfit at e in
          let (chain, same) =
            take_block-Chain c total (some at) (at + k.size) ks big (omega arith) roomy.1 later
              h.1 in
          rw unfit (
            (
              same at (omega arith)
                  ∙ h.0
                  ∙ ap (λ n. block k n prev) (sym (link-allocate total (at + k.size) ks)),
              chain,
            ),
            λ a l. same a (omega arith),
          )
    ]
