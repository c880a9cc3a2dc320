-- ===== src/Tree/Leaf.antt =====
-- The entries of one leaf: reading them after one is put in or taken out.
use ax_kernel.Tree.Shrink.{remove_at}
use ax_kernel.Prelude.{
  ◌-◌, none, if_elim, Bool-cases, inl, inr, ==_iff, subst, sym, ltb→lt, ℕ, zero, suc, ◌+◌, ◌≤◌, ◌<◌,
  ◌≡◌, ◌≢◌, ◌&&◌, Option, some, ltb, ◌==◌, if◌then◌else◌, arith,
}
use ax_kernel.Prelude.Results.{◌>>=◌}
use ax_kernel.Tree.{Node, entry_index}
use ax_kernel.Tree.Grow.{lower_bound, insert_at}

-- The first `n` keys ascend.
abbrev pub IsSorted : (ℕ → ℕ) → ℕ → Type 0
IsSorted keys n = (i j : ℕ) → i < j → j < n → keys i < keys j

-- `r` is from `i` to `i + n`, the keys before it from `i` on are less than `key`, and the one there is
-- not.
abbrev pub Stops : (ℕ → ℕ) → ℕ → ℕ → ℕ → ℕ → Type 0
Stops keys key n i r =
    ((i ≤ r) × (r ≤ i + n))
    × (((m : ℕ) → i ≤ m → m < r → keys m < key) × (r < i + n → key ≤ keys r))

pub lower_bound-Stops : (keys : ℕ → ℕ) (key n i : ℕ) → Stops keys key n i (lower_bound keys key n i)
unfolding lower_bound
lower_bound-Stops keys key zero i = (
  (omega arith, omega arith),
  (λ m lo hi. absurd (omega (arith, lo, hi)), λ h. absurd (omega (arith, h))),
)
lower_bound-Stops keys key (suc n) i =
    if_elim (Stops keys key (suc n) i) (ltb (keys i) key)
      (λ e.
        let rest = lower_bound-Stops keys key n (i + 1) in
        (
          (omega (arith, rest.0.0), omega (arith, rest.0.1)),
          (
            λ m lo hi. elim (Bool-cases (m == i)) [
              | inl same ↦
                  subst (λ x. keys x < key) (sym ((==_iff m i).0 same)) (ltb→lt (keys i) key e)
              | inr other ↦ rest.1.0 m (ground (arith, other, lo)) hi
            ],
            λ h. rest.1.1 (omega (arith, h)),
          ),
        ))
      (λ e. (
        (omega arith, omega arith),
        (λ m lo hi. absurd (omega (arith, lo, hi)), λ h. ground (arith, e)),
      ))

-- The value of a name among the first `n` entries of a leaf.
abbrev pub value_of : Node → ℕ → ℕ → ℕ → Option ℕ
value_of leaf n f d = entry_index leaf f d n 0 >>= λ i. some (leaf.values i)

-- `after` has the first `n` entries of `leaf` and the entry of `f`, `d` and `v`, at `pos`.
pub record IsInserted (leaf after : Node) (n pos f d v : ℕ) : Type 0 where
  pub fnv : (i : ℕ) → after.fnv1a_hash_key i ≡ insert_at leaf.fnv1a_hash_key n pos f i
  pub djb : (i : ℕ) → after.djb2_hash_key i ≡ insert_at leaf.djb2_hash_key n pos d i
  pub value : (i : ℕ) → after.values i ≡ insert_at leaf.values n pos v i

module _ (leaf after : Node) (f d v f' d' : ℕ) where
  abbrev Reads : ℕ → Type 0
  Reads n =
      value_of after (suc n) f' d'
      ≡ (if (f' == f) && (d' == d) then some v else value_of leaf n f' d')

  Reads-zero : IsInserted leaf after 0 0 f d v → Reads 0
  unfolding entry_index insert_at
  Reads-zero h = ground (arith, h.fnv 0, h.djb 0, h.value 0)

  Reads-one :
      (pos : ℕ) → pos ≤ 1 → leaf.fnv1a_hash_key 0 ≢ f → IsInserted leaf after 1 pos f d v → Reads 1
  unfolding entry_index insert_at
  Reads-one pos le u h = ground (arith, h.fnv 0, h.djb 0, h.value 0, h.fnv 1, h.djb 1, h.value 1)

  Reads-two :
      (pos : ℕ)
      → pos ≤ 2
      → leaf.fnv1a_hash_key 0 ≢ f
      → leaf.fnv1a_hash_key 1 ≢ f
      → IsInserted leaf after 2 pos f d v
      → Reads 2
  unfolding entry_index insert_at
  Reads-two pos le u0 u1 h =
      ground (
        arith,
        h.fnv 0,
        h.djb 0,
        h.value 0,
        h.fnv 1,
        h.djb 1,
        h.value 1,
        h.fnv 2,
        h.djb 2,
        h.value 2,
      )

  Reads-three :
      (pos : ℕ)
      → pos ≤ 3
      → (leaf.fnv1a_hash_key 0 ≢ f) × ((leaf.fnv1a_hash_key 1 ≢ f) × (leaf.fnv1a_hash_key 2 ≢ f))
      → IsInserted leaf after 3 pos f d v
      → Reads 3
  unfolding entry_index insert_at
  Reads-three pos le (u0, (u1, u2)) h = ground (
    arith,
    h.fnv 0,
    h.djb 0,
    h.value 0,
    h.fnv 1,
    h.djb 1,
    h.value 1,
    h.fnv 2,
    h.djb 2,
    h.value 2,
    h.fnv 3,
    h.djb 3,
    h.value 3,
  )

  -- One more entry among at most three: the new name reads its value, every other pair of hashes what
  -- it read before.
  pub Reads-inserted :
      (n pos : ℕ)
      → n ≤ 3
      → pos ≤ n
      → ((i : ℕ) → i < n → leaf.fnv1a_hash_key i ≢ f)
      → IsInserted leaf after n pos f d v
      → Reads n
  Reads-inserted zero zero hn hp u h = Reads-zero h
  Reads-inserted zero (suc pos) hn hp u h = absurd (omega (arith, hp))
  Reads-inserted (suc zero) pos hn hp u h = Reads-one pos hp (u 0 (omega arith)) h
  Reads-inserted (suc (suc zero)) pos hn hp u h =
      Reads-two pos hp (u 0 (omega arith)) (u 1 (omega arith)) h
  Reads-inserted (suc (suc (suc zero))) pos hn hp u h =
      Reads-three pos hp (u 0 (omega arith), (u 1 (omega arith), u 2 (omega arith))) h
  Reads-inserted (suc (suc (suc (suc n)))) pos hn hp u h = absurd (omega (arith, hn))

-- Where a sorted list of keys without `key` stops, the keys with it put in are sorted.
pub insert_at-IsSorted :
    (keys : ℕ → ℕ) (key n r : ℕ)
    → IsSorted keys n
    → Stops keys key n 0 r
    → ((i : ℕ) → i < n → keys i ≢ key)
    → IsSorted (insert_at keys n r key) (suc n)
unfolding insert_at
insert_at-IsSorted keys key n r sorted stops u i j lt hj = ground (
  arith,
  sorted i j,
  sorted i (j - 1),
  sorted (i - 1) (j - 1),
  sorted r (j - 1),
  stops.0.1,
  stops.1.0 i,
  stops.1.0 j,
  stops.1.1,
  u r,
)

-- The first of `n` entries that is taken out, and the reading of the others.
pub record IsRemoved (leaf after : Node) (n pos : ℕ) : Type 0 where
  pub fnv : (i : ℕ) → after.fnv1a_hash_key i ≡ remove_at leaf.fnv1a_hash_key n pos i
  pub djb : (i : ℕ) → after.djb2_hash_key i ≡ remove_at leaf.djb2_hash_key n pos i
  pub value : (i : ℕ) → after.values i ≡ remove_at leaf.values n pos i

module _ (leaf after : Node) (f d f' d' : ℕ) where
  abbrev Forgets : ℕ → Type 0
  Forgets n =
      value_of after n f' d'
      ≡ (if (f' == f) && (d' == d) then none else value_of leaf (suc n) f' d')

  Forgets-one :
      (leaf.fnv1a_hash_key 0 ≡ f) × (leaf.djb2_hash_key 0 ≡ d)
      → IsRemoved leaf after 1 0
      → Forgets 0
  unfolding entry_index remove_at
  Forgets-one e h = ground (arith, e)

  Forgets-two :
      (pos : ℕ)
      → pos < 2
      → (leaf.fnv1a_hash_key pos ≡ f) × (leaf.djb2_hash_key pos ≡ d)
      → leaf.fnv1a_hash_key 0 < leaf.fnv1a_hash_key 1
      → IsRemoved leaf after 2 pos
      → Forgets 1
  unfolding entry_index remove_at
  Forgets-two zero lt e s h = ground (arith, e, h.fnv 0, h.djb 0, h.value 0)
  Forgets-two (suc zero) lt e s h = ground (arith, e, h.fnv 0, h.djb 0, h.value 0)
  Forgets-two (suc (suc pos)) lt e s h = absurd (omega (arith, lt))

  Forgets-three :
      (pos : ℕ)
      → pos < 3
      → (leaf.fnv1a_hash_key pos ≡ f) × (leaf.djb2_hash_key pos ≡ d)
      → leaf.fnv1a_hash_key 0 < leaf.fnv1a_hash_key 1
      → leaf.fnv1a_hash_key 1 < leaf.fnv1a_hash_key 2
      → IsRemoved leaf after 3 pos
      → Forgets 2
  unfolding entry_index remove_at
  Forgets-three zero lt e s t h =
      ground (arith, e, h.fnv 0, h.djb 0, h.value 0, h.fnv 1, h.djb 1, h.value 1)
  Forgets-three (suc zero) lt e s t h =
      ground (arith, e, h.fnv 0, h.djb 0, h.value 0, h.fnv 1, h.djb 1, h.value 1)
  Forgets-three (suc (suc zero)) lt e s t h =
      ground (arith, e, h.fnv 0, h.djb 0, h.value 0, h.fnv 1, h.djb 1, h.value 1)
  Forgets-three (suc (suc (suc pos))) lt e s t h = absurd (omega (arith, lt))

  -- One entry of at most three taken out: its name reads nothing, every other pair of hashes what it
  -- read before.
  pub Forgets-removed :
      (n pos : ℕ)
      → n < 3
      → pos < suc n
      → (leaf.fnv1a_hash_key pos ≡ f) × (leaf.djb2_hash_key pos ≡ d)
      → IsSorted leaf.fnv1a_hash_key (suc n)
      → IsRemoved leaf after (suc n) pos
      → Forgets n
  Forgets-removed zero zero hn hp e s h = Forgets-one e h
  Forgets-removed zero (suc pos) hn hp e s h = absurd (omega (arith, hp))
  Forgets-removed (suc zero) pos hn hp e s h =
      Forgets-two pos hp e (s 0 1 (omega arith) (omega arith)) h
  Forgets-removed (suc (suc zero)) pos hn hp e s h =
      Forgets-three pos hp e (s 0 1 (omega arith) (omega arith)) (s 1 2 (omega arith) (omega arith))
        h
  Forgets-removed (suc (suc (suc n))) pos hn hp e s h = absurd (omega (arith, hn))
