-- ===== src/Heap/Valid.antt =====
-- Allocation and release keep a layout valid: no byte is lost, every chunk has room for its header,
-- and free neighbours stay merged.
use ax_kernel.Prelude.{
  if_elim, ℕ, ◌+◌, ◌≤◌, ◌≡◌, refl, ap, ◌∙◌, true, false, not, ◌&&◌, some, [], ◌∷◌, ◌==◌, ltb, arith,
  Bool-cases, inl, inr,
}
use ax_kernel.Heap.{header_size}
use ax_kernel.Heap.Layout.{
  Chunk, chunk, Layout, bytes, fits, carve, choose, allocate, join, release, Roomy, starts_free,
  Merged, IsValid,
}
use ax_kernel.Heap.Chain.{choose-ge}
use ax_kernel.Heap.Release.{bytes-join, Roomy-join}

bytes-allocate : (total : ℕ) (ks : Layout) → bytes (allocate total ks) ≡ bytes ks
unfolding allocate
bytes-allocate total [] = refl
bytes-allocate total (k ∷ ks) = ground (arith, bytes-allocate total ks)

Roomy-allocate :
    (total : ℕ) (ks : Layout) → header_size ≤ total → Roomy ks → Roomy (allocate total ks)
unfolding allocate
Roomy-allocate total [] big r = tt
Roomy-allocate total (k ∷ ks) big r = elim (Bool-cases (fits total k)) [
  | inl fit ↦ elim (Bool-cases (ltb (total + header_size) k.size)) [
    | inl room ↦ rw (fit, room) (big, (ground arith, r.1))
    | inr tight ↦ rw (fit, tight) r
  ]
  | inr unfit ↦ rw unfit (r.0, Roomy-allocate total ks big r.1)
]

starts_free-allocate :
    (total : ℕ) (ks : Layout) → starts_free ks ≡ false → starts_free (allocate total ks) ≡ false
unfolding allocate
starts_free-allocate total [] h = h
starts_free-allocate total (k ∷ ks) h = ground arith

Merged-allocate : (total : ℕ) (ks : Layout) → Merged ks → Merged (allocate total ks)
unfolding allocate
Merged-allocate total [] m = tt
Merged-allocate total (k ∷ ks) m = elim (Bool-cases (fits total k)) [
  | inl fit ↦ elim (Bool-cases (ltb (total + header_size) k.size)) [
    | inl room ↦ rw (fit, room) (refl, (ground arith, m.1))
    | inr tight ↦ rw (fit, tight) (refl, m.1)
  ]
  | inr unfit ↦
      rw unfit (ground (arith, starts_free-allocate total ks), Merged-allocate total ks m.1)
]

-- Allocation keeps a layout valid.
pub allocate-IsValid :
    (total : ℕ) {ks : Layout} → header_size ≤ total → IsValid ks → IsValid (allocate total ks)
allocate-IsValid total {ks} big v = record {
  whole = bytes-allocate total ks ∙ v.whole;
  roomy = Roomy-allocate total ks big v.roomy;
  merged = Merged-allocate total ks v.merged;
}

bytes-release : (p at : ℕ) (ks : Layout) → bytes (release p at ks) ≡ bytes ks
unfolding release
bytes-release p at [] = refl
bytes-release p at (k ∷ ks) = ground (
  arith,
  bytes-release p (at + k.size) ks,
  bytes-join (chunk k.size false) ks,
  bytes-join k (release p (at + k.size) ks),
)

Roomy-release : (p at : ℕ) (ks : Layout) → Roomy ks → Roomy (release p at ks)
unfolding release
Roomy-release p at [] r = tt
Roomy-release p at (k ∷ ks) r = elim (Bool-cases (at == p)) [
  | inl here ↦ rw here (Roomy-join (chunk k.size false) ks r)
  | inr there ↦
      let deeper = Roomy-release p (at + k.size) ks r.1 in
      elim (Bool-cases ((at + k.size == p) && not k.used)) [
        | inl prev ↦ rw (there, prev) (Roomy-join k (release p (at + k.size) ks) (r.0, deeper))
        | inr apart ↦ rw (there, apart) (r.0, deeper)
      ]
]

Merged-join : (k : Chunk) (ks : Layout) → Merged ks → Merged (join k ks)
unfolding join
Merged-join k [] m = (ground arith, tt)
Merged-join k (l ∷ ks) m =
    if_elim Merged l.used (λ used. (ground arith, m)) (λ free. (ground arith, m.1))

starts_free-join : (k : Chunk) (ks : Layout) → starts_free (join k ks) ≡ not k.used
unfolding join
starts_free-join k [] = refl
starts_free-join k (l ∷ ks) = ground arith

-- Freeing a later block leaves the mark of the first one.
starts_free-release :
    (p at : ℕ) (ks : Layout) → (at == p) ≡ false → starts_free (release p at ks) ≡ starts_free ks
unfolding release
starts_free-release p at [] h = refl
starts_free-release p at (k ∷ ks) h =
    ground (arith, starts_free-join k (release p (at + k.size) ks))

Merged-release : (p at : ℕ) (ks : Layout) → Merged ks → Merged (release p at ks)
unfolding release
Merged-release p at [] m = tt
Merged-release p at (k ∷ ks) m = elim (Bool-cases (at == p)) [
  | inl here ↦ rw here (Merged-join (chunk k.size false) ks m.1)
  | inr there ↦
      let deeper = Merged-release p (at + k.size) ks m.1 in
      elim (Bool-cases ((at + k.size == p) && not k.used)) [
        | inl prev ↦ rw (there, prev) (Merged-join k (release p (at + k.size) ks) deeper)
        | inr apart ↦
            let mark = starts_free-release p (at + k.size) ks in
            rw (there, apart) (ground (arith, starts_free-release p (at + k.size) ks), deeper)
      ]
]

-- Release keeps a layout valid.
pub release-IsValid : (p : ℕ) {ks : Layout} → IsValid ks → IsValid (release p 0 ks)
release-IsValid p {ks} v = record {
  whole = bytes-release p 0 ks ∙ v.whole;
  roomy = Roomy-release p 0 ks v.roomy;
  merged = Merged-release p 0 ks v.merged;
}

join_used : (k : Chunk) (ks : Layout) → starts_free ks ≡ false → join k ks ≡ k ∷ ks
unfolding join
join_used k [] h = refl
join_used k (l ∷ ks) h = ground arith

release_carved :
    (total at p : ℕ) (k : Chunk) (ks : Layout)
    → at ≡ p
    → fits total k ≡ true
    → Merged (k ∷ ks)
    → release p at (carve total k ks) ≡ k ∷ ks
unfolding release join
release_carved total at p k ks here fit m = elim (Bool-cases (ltb (total + header_size) k.size)) [
  | inl room ↦ rw room (ground arith)
  | inr tight ↦
      let free : k.used ≡ false = ground arith in
      rw tight (ground (arith, join_used (chunk k.size false) ks))
]

release_behind :
    (p at : ℕ) (k : Chunk) (ks : Layout)
    → (at == p) ≡ false
    → ((at + k.size == p) && not k.used) ≡ false
    → release p at (k ∷ ks) ≡ k ∷ release p (at + k.size) ks
unfolding release
release_behind p at k ks e e' = rw (e, e') refl

-- Only the first chunk of a list lies at its address.
choose_first :
    (total at p : ℕ) (ks : Layout)
    → Roomy ks
    → choose total at ks ≡ some p
    → at ≡ p
    → starts_free ks ≡ true
unfolding choose
choose_first total at p [] r e here = cc
choose_first total at p (k ∷ ks) r e here = elim (Bool-cases (fits total k)) [
  | inl fit ↦ ground arith
  | inr unfit ↦
      let later : choose total (at + k.size) ks ≡ some p = rw unfit at e in
      absurd (omega (arith, choose-ge total (at + k.size) ks later))
]

-- Releasing what was just allocated gives the layout back.
pub release-allocate :
    (total at : ℕ) (ks : Layout) {p : ℕ}
    → header_size ≤ total
    → Merged ks
    → Roomy ks
    → choose total at ks ≡ some p
    → release p at (allocate total ks) ≡ ks
unfolding choose allocate
release-allocate total at [] big m r e = cc
release-allocate total at (k ∷ ks) {p} big m r e = elim (Bool-cases (fits total k)) [
  | inl fit ↦
      let found : some at ≡ some p = rw fit at e in
      let here : at ≡ p = cc in rw fit (release_carved total at p k ks here fit m)
  | inr unfit ↦
      let later : choose total (at + k.size) ks ≡ some p = rw unfit at e in
      let beyond = choose-ge total (at + k.size) ks later in
      rw unfit (
        release_behind p at k (allocate total ks) (ground arith)
          (ground (arith, choose_first total (at + k.size) p ks r.1 later))
        ∙ ap (λ s. k ∷ s) (release-allocate total (at + k.size) ks big m.1 r.1 later))
]
