-- ===== src/Heap/Chain.antt =====
-- The headers in memory against a layout: sizes, marks, and both links of every block.
use ax_kernel.Prelude.{
  ℕ, zero, suc, ◌+◌, ◌≤◌, ◌<◌, ◌≡◌, ◌≢◌, refl, ap, ◌∙◌, Option, none, some, [], ◌∷◌, arith, length,
}
use ax_kernel.Heap.{HeapBlock, Cells, store, set_prev, Search, found, exhausted, first_fit}
use ax_kernel.Heap.Layout.{Chunk, Layout, choose, Roomy}

-- The link to a list of chunks that begins at `at`.
abbrev pub link : ℕ → Layout → Option ℕ
link at [] = none
link at (k ∷ ks) = some at

abbrev pub block : Chunk → Option ℕ → Option ℕ → HeapBlock
block k next prev = record { size = k.size; is_alloc = k.used; next = next; prev = prev }

abbrev pub Chain : Cells → Option ℕ → ℕ → Layout → Type 0
Chain c prev at [] = Unit
Chain c prev at (k ∷ ks) =
    (c at ≡ block k (link (at + k.size) ks) prev) × Chain c (some at) (at + k.size) ks

-- A chain survives a change below it.
pub frame :
    {c c' : Cells} (prev : Option ℕ) (at : ℕ) (ks : Layout)
    → ((a : ℕ) → at ≤ a → c' a ≡ c a)
    → Chain c prev at ks
    → Chain c' prev at ks
frame prev at [] same h = tt
frame prev at (k ∷ ks) same h = (
  same at (omega arith) ∙ h.0,
  frame (some at) (at + k.size) ks (λ a l. same a (omega arith)) h.1,
)

pub store_self : (c : Cells) (p : ℕ) (b : HeapBlock) → store c p b p ≡ b
unfolding store
store_self c p b = ground arith

pub store_ne : (c : Cells) (p : ℕ) (b : HeapBlock) (a : ℕ) → a ≢ p → store c p b a ≡ c a
unfolding store
store_ne c p b a h = ground arith

pub frame_store :
    (c : Cells) (prev : Option ℕ) (at : ℕ) (ks : Layout) (p : ℕ) (b : HeapBlock)
    → p < at
    → Chain c prev at ks
    → Chain (store c p b) prev at ks
frame_store c prev at ks p b h = frame prev at ks (λ a l. store_ne c p b a (λ e. omega arith))

-- `set_prev` on the first block of a chain changes its back link alone.
pub set_prev-Chain :
    (c : Cells) (prev : Option ℕ) (at : ℕ) (ks : Layout) (q : Option ℕ)
    → Roomy ks
    → Chain c prev at ks
    → Chain (set_prev c (link at ks) q) q at ks
unfolding set_prev
set_prev-Chain c prev at [] q r h = tt
set_prev-Chain c prev at (k ∷ ks) q r h = (
  store_self c at _
      ∙ ap
          (λ (b : HeapBlock). record {
            size = b.size;
            is_alloc = b.is_alloc;
            next = b.next;
            prev = q;
          })
          h.0,
  frame_store c (some at) (at + k.size) ks at _ (omega arith) h.1,
)

-- ... and nothing below it.
pub set_prev_below :
    (c : Cells) (at : ℕ) (ks : Layout) (q : Option ℕ) (a : ℕ)
    → a < at
    → set_prev c (link at ks) q a ≡ c a
unfolding set_prev
set_prev_below c at [] q a h = refl
set_prev_below c at (k ∷ ks) q a h = store_ne c at _ a (λ e. omega arith)

-- Where the walk ends, for a list of chunks.
abbrev pub outcome : Option ℕ → Search
outcome none = exhausted
outcome (some p) = found p

-- The walk of `heap_alloc` ends, and finds the first chunk that fits.
pub first_fit-choose :
    (fuel : ℕ) (c : Cells) (total : ℕ) (prev : Option ℕ) (at : ℕ) (ks : Layout)
    → length ks < fuel
    → Chain c prev at ks
    → first_fit fuel c total (link at ks) ≡ outcome (choose total at ks)
unfolding first_fit choose
first_fit-choose zero c total prev at ks l h = absurd (omega arith)
first_fit-choose (suc fuel) c total prev at [] l h = refl
first_fit-choose (suc fuel) c total prev at (k ∷ ks) l h =
    rw h.0
      (ground (arith, first_fit-choose fuel c total (some at) (at + k.size) ks (omega arith) h.1))

pub choose-ge : (total at : ℕ) (ks : Layout) {p : ℕ} → choose total at ks ≡ some p → at ≤ p
unfolding choose
choose-ge total at [] h = cc
choose-ge total at (k ∷ ks) {p} h = ground (arith, choose-ge total (at + k.size) ks {p = p})
