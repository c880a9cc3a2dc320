-- ===== src/Heap/Release.antt =====
-- `heap_free` on a chain: the headers that it writes are those of the released layout.
use ax_kernel.Prelude.{
  ◌==◌, ap, ◌≤◌, sym, true, subst, ℕ, ◌+◌, ◌<◌, ◌^◌, ◌≡◌, refl, ◌∙◌, false, not, Option, some, [],
  ◌∷◌, if◌then◌else◌, arith, Bool-cases, inl, inr,
}
use ax_kernel.Prelude.Word.{u32}
use ax_kernel.Heap.{
  none, set_prev, Bool, merge_prev_with, merge_next_with, unmark_from, merge_prev_from,
  merge_next_from, absorb, HeapBlock, Cells, store, unmark, merge_next, merge_prev,
}
use ax_kernel.Heap.Layout.{UsedAt, Chunk, chunk, Layout, bytes, join, release, Roomy}
use ax_kernel.Heap.Chain.{
  link, block, Chain, frame_store, store_self, store_ne, set_prev-Chain, set_prev_below,
}

-- The header writes of `heap_free` at block `b`.
abbrev pub free_cells : Cells → ℕ → Cells
free_cells c b = merge_prev (merge_next (unmark c b) b) b

-- A chain of `ls` from `at` on, in a memory that agrees with `c` below `at`.
abbrev pub Becomes : Cells → Option ℕ → ℕ → Cells → Layout → Type 0
Becomes c prev at c' ls = Chain c' prev at ls × ((a : ℕ) → a < at → c' a ≡ c a)

link-join : (at : ℕ) (k : Chunk) (ks : Layout) → link at (join k ks) ≡ some at
unfolding join
link-join at k [] = refl
link-join at k (l ∷ ks) = ground arith

pub link-release : (p at x : ℕ) (ks : Layout) → link x (release p at ks) ≡ link x ks
unfolding release
link-release p at x [] = refl
link-release p at x (k ∷ ks) =
    ground (arith, link-join x (chunk k.size false) ks, link-join x k (release p (at + k.size) ks))

unmark-Chain :
    (c : Cells) (prev : Option ℕ) (at : ℕ) (k : Chunk) (ks : Layout)
    → 0 < k.size
    → Chain c prev at (k ∷ ks)
    → Becomes c prev at (unmark c at) (chunk k.size false ∷ ks)
unfolding unmark unmark_from
unmark-Chain c prev at k ks pos h = rw h.0 (
  (store_self c at _, frame_store c (some at) (at + k.size) ks at _ (omega arith) h.1),
  λ a l. store_ne c at _ a (λ e. omega arith),
)

-- The memory in which the block at `at` has grown over its successor.
abbrev grown : Cells → Option ℕ → ℕ → Chunk → Chunk → Layout → Cells
grown c prev at k l ks =
    absorb c at (block k (some (at + k.size)) prev)
      (block l (link (at + k.size + l.size) ks) (some at)) (some at)

grown_cells :
    (c : Cells) (prev : Option ℕ) (at : ℕ) (k l : Chunk) (ks : Layout)
    → k.size + l.size < 2 ^ 32
    → grown c prev at k l ks
      ≡ set_prev
          (store c at
            (block (chunk (k.size + l.size) k.used) (link (at + (k.size + l.size)) ks) prev))
          (link (at + (k.size + l.size)) ks)
          (some at)
unfolding absorb
grown_cells c prev at k l ks word =
    let end : at + k.size + l.size ≡ at + (k.size + l.size) = omega arith in
    let size : u32 (k.size + l.size) ≡ k.size + l.size = omega arith in rw (end, size) refl

grown-Chain :
    (c : Cells) (prev : Option ℕ) (at : ℕ) (k l : Chunk) (ks : Layout)
    → bytes (k ∷ l ∷ ks) < 2 ^ 32
    → Roomy (k ∷ l ∷ ks)
    → Chain c prev at (k ∷ l ∷ ks)
    → Becomes c prev at (grown c prev at k l ks) (chunk (k.size + l.size) k.used ∷ ks)
grown-Chain c prev at k l ks word roomy h =
    let end : ℕ = at + (k.size + l.size) in
    let regroup : at + k.size + l.size ≡ end = omega arith in
    let rest : Chain c (some (at + k.size)) end ks = rw (← regroup) h.1.1 in
    let b : HeapBlock = block (chunk (k.size + l.size) k.used) (link end ks) prev in
    subst (λ m. Becomes c prev at m (chunk (k.size + l.size) k.used ∷ ks))
      (sym (grown_cells c prev at k l ks (omega arith)))
      (
        (
          set_prev_below (store c at b) end ks (some at) at (omega arith) ∙ store_self c at b,
          set_prev-Chain (store c at b) (some (at + k.size)) end ks (some at) roomy.1.1
              (frame_store c (some (at + k.size)) end ks at b (omega arith) rest),
        ),
        λ a lt.
            set_prev_below (store c at b) end ks (some at) a (omega arith)
            ∙ store_ne c at b a (λ e. omega arith),
      )

Becomes-if :
    (c : Cells) (prev : Option ℕ) (at : ℕ) (b : Bool) (c₁ c₂ : Cells) (l₁ l₂ : Layout)
    → Becomes c prev at c₁ l₁
    → Becomes c prev at c₂ l₂
    → Becomes c prev at (if b then c₁ else c₂) (if b then l₁ else l₂)
Becomes-if c prev at true c₁ c₂ l₁ l₂ h g = h
Becomes-if c prev at false c₁ c₂ l₁ l₂ h g = g

-- The block takes over a free successor.
merge_next-Chain :
    (c : Cells) (prev : Option ℕ) (at : ℕ) (k : Chunk) (ks : Layout)
    → bytes (k ∷ ks) < 2 ^ 32
    → Roomy (k ∷ ks)
    → Chain c prev at (k ∷ ks)
    → Becomes c prev at (merge_next c at) (join k ks)
unfolding merge_next merge_next_from merge_next_with join
merge_next-Chain c prev at k [] word roomy h = rw h.0 (h, λ a l. refl)
merge_next-Chain c prev at k (l ∷ ks) word roomy h =
    rw (h.0, h.1.0)
      (Becomes-if c prev at l.used c (grown c prev at k l ks) (k ∷ l ∷ ks)
        (chunk (k.size + l.size) k.used ∷ ks) (h, λ a l. refl)
        (grown-Chain c prev at k l ks word roomy h))

-- A free predecessor takes over the block behind it.
merge_prev-Chain :
    (c : Cells) (prev : Option ℕ) (at : ℕ) (k l : Chunk) (ks : Layout)
    → bytes (k ∷ l ∷ ks) < 2 ^ 32
    → Roomy (k ∷ l ∷ ks)
    → Chain c prev at (k ∷ l ∷ ks)
    → Becomes c prev at
        (merge_prev c (at + k.size))
        (if k.used then k ∷ l ∷ ks else chunk (k.size + l.size) k.used ∷ ks)
unfolding merge_prev merge_prev_from merge_prev_with
merge_prev-Chain c prev at k l ks word roomy h =
    rw (h.1.0, h.0)
      (Becomes-if c prev at k.used c (grown c prev at k l ks) (k ∷ l ∷ ks)
        (chunk (k.size + l.size) k.used ∷ ks) (h, λ a l. refl)
        (grown-Chain c prev at k l ks word roomy h))

-- The block at the head is unmarked, and takes over a free successor.
half_freed :
    (c : Cells) (prev : Option ℕ) (at : ℕ) (k : Chunk) (ks : Layout)
    → bytes (k ∷ ks) < 2 ^ 32
    → Roomy (k ∷ ks)
    → Chain c prev at (k ∷ ks)
    → Becomes c prev at (merge_next (unmark c at) at) (join (chunk k.size false) ks)
half_freed c prev at k ks word roomy h =
    let (free, same) = unmark-Chain c prev at k ks (omega arith) h in
    let (merged, same') =
      merge_next-Chain (unmark c at) prev at (chunk k.size false) ks word roomy free in
    (merged, λ a l. same' a l ∙ same a l)

pub UsedAt-ge : (p at : ℕ) (ks : Layout) → UsedAt p at ks → at ≤ p
UsedAt-ge p at [] u = elim u [ ]
UsedAt-ge p at (k ∷ ks) u = elim (Bool-cases (at == p)) [
  | inl e ↦ ground arith
  | inr e ↦
      let deeper : UsedAt p (at + k.size) ks = rw e at u in
      omega (arith, UsedAt-ge p (at + k.size) ks deeper)
]

pub bytes-join : (k : Chunk) (ks : Layout) → bytes (join k ks) ≡ bytes (k ∷ ks)
unfolding join
bytes-join k [] = refl
bytes-join k (l ∷ ks) = ground arith

pub Roomy-join : (k : Chunk) (ks : Layout) → Roomy (k ∷ ks) → Roomy (join k ks)
unfolding join
Roomy-join k [] r = r
Roomy-join k (l ∷ ks) r = elim (Bool-cases l.used) [
  | inl used ↦ simp used r
  | inr free ↦ simp free (omega arith, r.1.1)
]

-- A freed block stays free when it has taken over its successor.
join_free :
    (n : ℕ) (ks : Layout)
    → (l : Chunk) × (ls : Layout) × (join (chunk n false) ks ≡ l ∷ ls) × (l.used ≡ false)
unfolding join
join_free n [] = (chunk n false, [], refl, refl)
join_free n (m ∷ ks) = elim (Bool-cases m.used) [
  | inl used ↦ (chunk n false, m ∷ ks, ground arith, refl)
  | inr free ↦ (chunk (n + m.size) false, ks, ground arith, refl)
]

-- The join with a free predecessor, in the two forms of the code and of the layout.
join_second :
    (j l : Chunk) (ls : Layout)
    → l.used ≡ false
    → (if j.used then j ∷ l ∷ ls else chunk (j.size + l.size) j.used ∷ ls)
      ≡ (if not j.used then join j (l ∷ ls) else j ∷ l ∷ ls)
unfolding join
join_second j l ls free = ground arith

-- The same memory, when the block to be freed is the second of the list: `j` may be free.
second_freed :
    (c : Cells) (prev : Option ℕ) (at : ℕ) (j k : Chunk) (ks : Layout)
    → bytes (j ∷ k ∷ ks) < 2 ^ 32
    → Roomy (j ∷ k ∷ ks)
    → Chain c prev at (j ∷ k ∷ ks)
    → Becomes c prev at (free_cells c (at + j.size)) (
        if not j.used
        then join j (join (chunk k.size false) ks)
        else j ∷ join (chunk k.size false) ks)
second_freed c prev at j k ks word roomy h =
    let p : ℕ = at + j.size in
    let c' : Cells = merge_next (unmark c p) p in
    let (half, same) = half_freed c (some at) p k ks (omega arith) roomy.1 h.1 in
    let (l, ls, form, free) = join_free k.size ks in
    let total : bytes (l ∷ ls) ≡ k.size + bytes ks =
      ap bytes (sym form) ∙ bytes-join (chunk k.size false) ks in
    let room : Roomy (l ∷ ls) = rw form at (Roomy-join (chunk k.size false) ks roomy.1) in
    let half' : Chain c' (some at) p (l ∷ ls) = rw form at half in
    let head : c' at ≡ block j (some p) prev = same at (omega arith) ∙ h.0 in
    let (done, same') =
      merge_prev-Chain c' prev at j l ls (omega arith) (roomy.0, room) (head, half') in
    rw form (
      subst (λ s. Chain (free_cells c p) prev at s) (join_second j l ls free) done,
      λ a lt. same' a lt ∙ same a (omega arith),
    )

release_first :
    (p at : ℕ) (k : Chunk) (ks : Layout)
    → (at == p) ≡ true
    → release p at (k ∷ ks) ≡ join (chunk k.size false) ks
unfolding release
release_first p at k ks e = rw e refl

release_second :
    (p at : ℕ) (j k : Chunk) (ks : Layout)
    → (at == p) ≡ false
    → (at + j.size == p) ≡ true
    → (if not j.used
        then join j (join (chunk k.size false) ks)
        else j ∷ join (chunk k.size false) ks)
      ≡ release p at (j ∷ k ∷ ks)
unfolding release
release_second p at j k ks e e' = rw (e, e') refl

release_later :
    (p at : ℕ) (j : Chunk) (ks : Layout)
    → (at == p) ≡ false
    → (at + j.size == p) ≡ false
    → j ∷ release p (at + j.size) ks ≡ release p at (j ∷ ks)
unfolding release
release_later p at j ks e e' = rw (e, e') refl

-- `heap_free` on a block behind the first of the list.
later_freed :
    (c : Cells) (prev : Option ℕ) (at : ℕ) (p : ℕ) (j : Chunk) (ks : Layout)
    → bytes (j ∷ ks) < 2 ^ 32
    → Roomy (j ∷ ks)
    → UsedAt p (at + j.size) ks
    → Chain c prev at (j ∷ ks)
    → Becomes c prev at (free_cells c p) (release p at (j ∷ ks))
later_freed c prev at p j [] word roomy u h = elim u [ ]
later_freed c prev at p j (k ∷ ks) word roomy u h =
    let q : ℕ = at + j.size in
    let not_first : (at == p) ≡ false = ground (arith, UsedAt-ge p q (k ∷ ks)) in
    elim (Bool-cases (q == p)) [
      | inl e ↦
          let here : q ≡ p = ground arith in
          subst (λ s. Becomes c prev at (free_cells c p) s) (release_second p at j k ks not_first e)
            (subst
              (λ r. Becomes c prev at (free_cells c r) (
                if not j.used
                then join j (join (chunk k.size false) ks)
                else j ∷ join (chunk k.size false) ks))
              here (second_freed c prev at j k ks word roomy h))
      | inr e ↦
          let u' : UsedAt p (q + k.size) ks = rw e at u in
          let (chain, same) = later_freed c (some at) q p k ks (omega arith) roomy.1 u' h.1 in
          let head : free_cells c p at ≡ block j (link q (release p q (k ∷ ks))) prev =
            same at (omega arith)
            ∙ h.0
            ∙ ap (λ n. block j n prev) (sym (link-release p q q (k ∷ ks))) in
          subst (λ s. Becomes c prev at (free_cells c p) s)
            (release_later p at j (k ∷ ks) not_first e)
            ((head, chain), λ a lt. same a (omega arith))
    ]

merge_prev_first : (c : Cells) (b : ℕ) → (c b).prev ≡ none → merge_prev c b ≡ c
unfolding merge_prev merge_prev_from
merge_prev_first c b h = rw h refl

-- In a whole heap the first block has no predecessor: freeing a block in use gives a chain of the
-- released layout.
pub free_cells-Chain :
    (c : Cells) (at p : ℕ) (ks : Layout)
    → bytes ks < 2 ^ 32
    → Roomy ks
    → UsedAt p at ks
    → Chain c none at ks
    → Chain (free_cells c p) none at (release p at ks)
free_cells-Chain c at p [] word roomy u h = elim u [ ]
free_cells-Chain c at p (k ∷ ks) word roomy u h = elim (Bool-cases (at == p)) [
  | inl e ↦
      let here : at ≡ p = ground arith in
      let (half, same) = half_freed c none at k ks word roomy h in
      let (l, ls, form, free) = join_free k.size ks in
      let half' : Chain (merge_next (unmark c at) at) none at (l ∷ ls) = rw form at half in
      let first : (merge_next (unmark c at) at at).prev ≡ none = ap (λ b. b.prev) half'.0 in
      subst (λ s. Chain (free_cells c p) none at s) (sym (release_first p at k ks e))
        (subst (λ q. Chain (free_cells c q) none at (join (chunk k.size false) ks)) here
          (rw (merge_prev_first (merge_next (unmark c at) at) at first) half))
  | inr e ↦ (later_freed c none at p k ks word roomy (rw e at u) h).0
]
