-- ===== src/Heap/Layout.antt =====
-- The heap as a list of chunks in address order: first fit, and release with both neighbours.
use ax_kernel.Prelude.{
  ℕ, ◌+◌, ◌-◌, ◌≤◌, ◌≡◌, Bool, true, false, not, ◌&&◌, Option, none, some, List, [], ◌∷◌, ◌==◌, leb,
  ltb, if◌then◌else◌,
}
use ax_kernel.Heap.{heap_size, header_size}

pub record Chunk : Type 0 where
  pub size : ℕ
  pub used : Bool

abbrev pub chunk : ℕ → Bool → Chunk
chunk n u = record { size = n; used = u }

abbrev pub Layout : Type 0
Layout = List Chunk

abbrev pub bytes : Layout → ℕ
bytes [] = 0
bytes (k ∷ ks) = k.size + bytes ks

abbrev pub fits : ℕ → Chunk → Bool
fits total k = not k.used && leb total k.size

-- A fitting chunk is taken, and split if more than a header is left.
abbrev pub carve : ℕ → Chunk → Layout → Layout
carve total k ks =
    if ltb (total + header_size) k.size
    then chunk total true ∷ chunk (k.size - total) false ∷ ks
    else chunk k.size true ∷ ks

-- The address of the first chunk that fits, for a list that begins at `at`.
unfoldable pub choose : ℕ → ℕ → Layout → Option ℕ
choose total at [] = none
choose total at (k ∷ ks) = if fits total k then some at else choose total (at + k.size) ks

unfoldable pub allocate : ℕ → Layout → Layout
allocate total [] = []
allocate total (k ∷ ks) = if fits total k then carve total k ks else k ∷ allocate total ks

-- `k` takes over a free successor.
unfoldable pub join : Chunk → Layout → Layout
join k [] = k ∷ []
join k (l ∷ ks) = if l.used then k ∷ l ∷ ks else chunk (k.size + l.size) k.used ∷ ks

-- The chunk at address `p` is freed, and joined to its free neighbours.
unfoldable pub release : ℕ → ℕ → Layout → Layout
unfolding join
release p at [] = []
release p at (k ∷ ks) =
    let rest = release p (at + k.size) ks in
    if at == p
    then join (chunk k.size false) ks
    else if (at + k.size == p) && not k.used
    then join k rest
    else k ∷ rest

-- `p` is the address of a chunk in use.
abbrev pub UsedAt : ℕ → ℕ → Layout → Type 0
UsedAt p at [] = ⊥
UsedAt p at (k ∷ ks) = if at == p then (k.used ≡ true) else UsedAt p (at + k.size) ks

-- Every chunk has room for its header, so no two headers overlap.
abbrev pub Roomy : Layout → Type 0
Roomy [] = Unit
Roomy (k ∷ ks) = (header_size ≤ k.size) × Roomy ks

abbrev pub starts_free : Layout → Bool
starts_free [] = false
starts_free (k ∷ ks) = not k.used

-- No two free chunks are neighbours.
abbrev pub Merged : Layout → Type 0
Merged [] = Unit
Merged (k ∷ ks) = (not k.used && starts_free ks ≡ false) × Merged ks

pub record IsValid (ks : Layout) : Type 0 where
  pub whole : bytes ks ≡ heap_size
  pub roomy : Roomy ks
  pub merged : Merged ks
