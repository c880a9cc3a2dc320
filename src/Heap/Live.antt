-- ===== src/Heap/Live.antt =====
-- The blocks that other callers hold: neither an allocation nor the release of another block moves,
-- resizes or frees one.
use ax_kernel.Prelude.{
  ℕ, ◌+◌, ◌-◌, ◌≤◌, ◌<◌, ◌≡◌, ◌≢◌, refl, true, false, not, ◌&&◌, [], ◌∷◌, ◌==◌, ltb, if◌then◌else◌,
  arith, Bool-cases, if_elim, inl, inr, ◌^◌, some,
}
use ax_kernel.Heap.{header_size, Heap, heap_alloc, heap_free}
use ax_kernel.Heap.Layout.{Chunk, chunk, Layout, fits, carve, allocate, join, release, UsedAt}
use ax_kernel.Heap.Laws.{IsHeap, needed, heap_alloc_refines, heap_free_refines}

-- A block of `n` bytes is in use at address `q`.
abbrev pub LiveAt : ℕ → ℕ → ℕ → Layout → Type 0
LiveAt q n at [] = ⊥
LiveAt q n at (k ∷ ks) =
    if at == q then (k.used ≡ true) × (k.size ≡ n) else LiveAt q n (at + k.size) ks

LiveAt-ge : (q n at : ℕ) (ks : Layout) → LiveAt q n at ks → at ≤ q
LiveAt-ge q n at [] u = elim u [ ]
LiveAt-ge q n at (k ∷ ks) u = elim (Bool-cases (at == q)) [
  | inl e ↦ ground arith
  | inr e ↦
      let deeper : LiveAt q n (at + k.size) ks = rw e at u in
      omega (arith, LiveAt-ge q n (at + k.size) ks deeper)
]

-- A live block is not a free chunk at the head.
LiveAt-tail :
    (q n at : ℕ) (k : Chunk) (ks : Layout)
    → k.used ≡ false
    → LiveAt q n at (k ∷ ks)
    → ((at == q) ≡ false) × LiveAt q n (at + k.size) ks
LiveAt-tail q n at k ks free u = elim (Bool-cases (at == q)) [
  | inl e ↦ let both : (k.used ≡ true) × (k.size ≡ n) = rw e at u in cc (free, both.0)
  | inr e ↦ (e, rw e at u)
]

LiveAt-carve :
    (total q n at : ℕ) (k : Chunk) (ks : Layout)
    → 0 < total
    → fits total k ≡ true
    → LiveAt q n at (k ∷ ks)
    → LiveAt q n at (carve total k ks)
LiveAt-carve total q n at k ks pos fit u =
    let (e, deeper) = LiveAt-tail q n at k ks (ground arith) u in
    let beyond = LiveAt-ge q n (at + k.size) ks deeper in
    if_elim (LiveAt q n at) (ltb (total + header_size) k.size)
      (λ room.
        let e' : (at + total == q) ≡ false = ground arith in
        let end : at + total + (k.size - total) ≡ at + k.size = ground arith in
        rw (e, e', end) deeper)
      (λ tight. rw e deeper)

LiveAt-allocate :
    (total q n at : ℕ) (ks : Layout)
    → 0 < total
    → LiveAt q n at ks
    → LiveAt q n at (allocate total ks)
unfolding allocate
LiveAt-allocate total q n at [] pos u = u
LiveAt-allocate total q n at (k ∷ ks) pos u =
    if_elim (LiveAt q n at) (fits total k) (λ fit. LiveAt-carve total q n at k ks pos fit u)
      (λ unfit. elim (Bool-cases (at == q)) [
        | inl e ↦ rw e (rw e at u)
        | inr e ↦ rw e (LiveAt-allocate total q n (at + k.size) ks pos (rw e at u))
      ])

LiveAt-join :
    (q n at : ℕ) (k : Chunk) (ks : Layout)
    → k.used ≡ false
    → LiveAt q n at (k ∷ ks)
    → LiveAt q n at (join k ks)
unfolding join
LiveAt-join q n at k [] free u = u
LiveAt-join q n at k (l ∷ ks) free u =
    if_elim (LiveAt q n at) l.used (λ used. u)
      (λ spare.
        let (e, deeper) = LiveAt-tail q n at k (l ∷ ks) free u in
        let (e', deepest) = LiveAt-tail q n (at + k.size) l ks spare deeper in
        let end : at + k.size + l.size ≡ at + (k.size + l.size) = omega arith in
        rw e (rw end at deepest))

LiveAt-release :
    (p q n at : ℕ) (ks : Layout) → q ≢ p → LiveAt q n at ks → LiveAt q n at (release p at ks)
unfolding release
LiveAt-release p q n at [] ne u = u
LiveAt-release p q n at (k ∷ ks) ne u =
    if_elim (LiveAt q n at) (at == p)
      (λ here.
        let e : (at == q) ≡ false = ground arith in
        LiveAt-join q n at (chunk k.size false) ks refl (rw e (rw e at u)))
      (λ there.
        let rest : Layout = release p (at + k.size) ks in
        let kept : LiveAt q n at (k ∷ rest) = elim (Bool-cases (at == q)) [
          | inl e ↦ rw e (rw e at u)
          | inr e ↦ rw e (LiveAt-release p q n (at + k.size) ks ne (rw e at u))
        ] in
        if_elim (LiveAt q n at) ((at + k.size == p) && not k.used)
          (λ free. LiveAt-join q n at k rest (ground arith) kept) (λ apart. kept))

-- Neither `heap_alloc` nor the release of another block touches a block in use: it keeps its
-- address, its size and its mark, through an allocation and through `heap_free` of any other block.
pub LiveAt-kept :
    {h : Heap} {ks : Layout} (q n p size : ℕ)
    → IsHeap h ks
    → LiveAt q n 0 ks
    → needed size < 2 ^ 32
    → UsedAt p 0 ks
    → q ≢ p
    → ((ls : Layout) × IsHeap (heap_alloc h size).1 ls × LiveAt q n 0 ls)
      × ((ls : Layout) × IsHeap (heap_free h (some (needed p))) ls × LiveAt q n 0 ls)
LiveAt-kept {h} {ks} q n p size v live word used ne = (
  (
    allocate (needed size) ks,
    (heap_alloc_refines size v word).1,
    LiveAt-allocate (needed size) q n 0 ks (omega arith) live,
  ),
  (release p 0 ks, heap_free_refines p v used, LiveAt-release p q n 0 ks ne live),
)
