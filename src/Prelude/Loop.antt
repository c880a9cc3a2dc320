-- ===== src/Prelude/Loop.antt =====
-- Counting loops that write to an array or a memory, seen as a function of the place.
use ax_kernel.Prelude.{◌⊎◌}
use ax_kernel.Prelude.Tests.{◌==◌, if◌then◌else◌}
use Prim.Native.Nat.{ℕ, zero, suc, ◌+◌, ◌≤◌, ◌<◌}
use mathlib.Core.Path.{ap, ◌≡◌, refl, ◌∙◌}
use mathlib.Core.Logic.{◌⊎◌, ◌≢◌}
use native.Mathlib.Omega.{arith}
use native.Mathlib.Decide.{ℕ_discrete}

-- `for (i = start; i < start + n; i++)`.
unfoldable pub for_range {ℓ} : {A : Type ℓ} → ℕ → ℕ → (ℕ → A → A) → A → A
for_range zero i step a = a
for_range (suc n) i step a = for_range n (i + 1) step (step i a)

-- One place of a memory written.
unfoldable pub write : (ℕ → ℕ) → ℕ → ℕ → ℕ → ℕ
write m p v a = if a == p then v else m a

pub write_self : (m : ℕ → ℕ) (p v a : ℕ) → a ≡ p → write m p v a ≡ v
unfolding write
write_self m p v a e = ground (arith, e)

pub write_other : (m : ℕ → ℕ) (p v a : ℕ) → a ≢ p → write m p v a ≡ m a
unfolding write
write_other m p v a ne = ground (arith, ne)

-- No round writes to `a`.
pub for_range_miss :
    (n i : ℕ) (step : ℕ → (ℕ → ℕ) → ℕ → ℕ) (m : ℕ → ℕ) (a : ℕ)
    → ((j : ℕ) (m' : ℕ → ℕ) → i ≤ j → j < i + n → step j m' a ≡ m' a)
    → for_range n i step m a ≡ m a
unfolding for_range
for_range_miss zero i step m a keep = refl
for_range_miss (suc n) i step m a keep =
    for_range_miss n (i + 1) step (step i m) a
      (λ j m' ge lt. keep j m' (omega (arith, ge)) (omega (arith, lt)))
    ∙ keep i m (omega arith) (omega arith)

-- Round `j` writes `v` to `a`, and the others do not write to `a`.
pub for_range_hit :
    (n i : ℕ) (step : ℕ → (ℕ → ℕ) → ℕ → ℕ) (m : ℕ → ℕ) (a v j : ℕ)
    → i ≤ j
    → j < i + n
    → ((m' : ℕ → ℕ) → step j m' a ≡ v)
    → ((k : ℕ) (m' : ℕ → ℕ) → k ≢ j → i ≤ k → k < i + n → step k m' a ≡ m' a)
    → for_range n i step m a ≡ v
unfolding for_range
for_range_hit zero i step m a v j ge lt hit keep = absurd (omega (arith, ge, lt))
for_range_hit (suc n) i step m a v j ge lt hit keep = elim (ℕ_discrete i j) [
  | yes e ↦
      for_range_miss n (i + 1) step (step i m) a (λ k m' kge klt.
        keep k m' (omega (arith, kge, e)) (omega (arith, kge)) (omega (arith, klt)))
      ∙ (ap (λ x. step x m a) e ∙ hit m)
  | no ne ↦
      for_range_hit n (i + 1) step (step i m) a v j (omega (arith, ge, ne)) (omega (arith, lt)) hit
        (λ k m' kne kge klt. keep k m' kne (omega (arith, kge)) (omega (arith, klt)))
]

-- Two loops, one in the other: `value row col` is written to place `index row col`.
unfoldable pub fill : ℕ → ℕ → (ℕ → ℕ → ℕ) → (ℕ → ℕ → ℕ) → (ℕ → ℕ) → ℕ → ℕ
unfolding for_range write
fill height width index value =
    for_range height 0 (λ row. for_range width 0 (λ col m. write m (index row col) (value row col)))

module _ (height width : ℕ) (index value : ℕ → ℕ → ℕ) (m : ℕ → ℕ) where
  pub fill_miss :
      (a : ℕ)
      → ((row col : ℕ) → row < height → col < width → a ≢ index row col)
      → fill height width index value m a ≡ m a
  unfolding fill
  fill_miss a away = for_range_miss height 0 _ m a (λ row m' _ hr.
      for_range_miss width 0 _ m' a (λ col m'' _ hc.
        write_other m'' (index row col) (value row col) a
          (away row col (omega (arith, hr)) (omega (arith, hc)))))

  pub fill_hit :
      (row col : ℕ)
      → row < height
      → col < width
      → ((r c : ℕ) → r < height → c < width → index row col ≡ index r c → (r ≡ row) × (c ≡ col))
      → fill height width index value m (index row col) ≡ value row col
  unfolding fill
  fill_hit row col hr hc inj =
      for_range_hit height 0 _ m (index row col) (value row col) row (omega arith)
        (omega (arith, hr))
        (λ m'.
          for_range_hit width 0 _ m' (index row col) (value row col) col (omega arith)
            (omega (arith, hc))
            (λ m''. write_self m'' (index row col) (value row col) (index row col) refl)
            (λ c m'' ne _ lt.
              write_other m'' (index row c) (value row c) (index row col)
                (λ e. ne (inj row c hr (omega (arith, lt)) e).1)))
        (λ r m' ne _ lt. for_range_miss width 0 _ m' (index row col) (λ c m'' _ clt.
          write_other m'' (index r c) (value r c) (index row col)
            (λ e. ne (inj r c (omega (arith, lt)) (omega (arith, clt)) e).0)))

-- `n` places from `target` on get what stands from `source` on.
unfoldable pub copy_range : ℕ → ℕ → ℕ → (ℕ → ℕ) → ℕ → ℕ
unfolding for_range write
copy_range n target source = for_range n 0 (λ i m. write m (target + i) (m (source + i)))

copy_from_lem :
    (n i target source : ℕ) (m : ℕ → ℕ) (k : ℕ)
    → (source + (i + n) ≤ target) ⊎ (target + (i + n) ≤ source)
    → i ≤ k
    → k < i + n
    → for_range n i (λ j m. write m (target + j) (m (source + j))) m (target + k) ≡ m (source + k)
unfolding for_range
copy_from_lem zero i target source m k apart ge lt = absurd (omega (arith, ge, lt))
copy_from_lem (suc n) i target source m k apart ge lt = elim (ℕ_discrete i k) [
  | yes e ↦
      for_range_miss n (i + 1) _ (write m (target + i) (m (source + i))) (target + k)
        (λ j m' jge jlt.
          write_other m' (target + j) (m' (source + j)) (target + k) (omega (arith, jge, e)))
      ∙ (write_self m (target + i) (m (source + i)) (target + k) (omega (arith, e))
          ∙ ap (λ x. m (source + x)) e)
  | no ne ↦
      copy_from_lem n (i + 1) target source (write m (target + i) (m (source + i))) k
        (omega (arith, apart)) (omega (arith, ge, ne)) (omega (arith, lt))
      ∙ write_other m (target + i) (m (source + i)) (source + k) (omega (arith, apart, lt))
]

pub copy_range_lem :
    (n target source : ℕ) (m : ℕ → ℕ) (k : ℕ)
    → (source + n ≤ target) ⊎ (target + n ≤ source)
    → k < n
    → copy_range n target source m (target + k) ≡ m (source + k)
unfolding copy_range
copy_range_lem n target source m k apart lt =
    copy_from_lem n 0 target source m k (omega (arith, apart)) (omega arith) (omega (arith, lt))

pub copy_range_miss :
    (n target source : ℕ) (m : ℕ → ℕ) (a : ℕ)
    → (a < target) ⊎ (target + n ≤ a)
    → copy_range n target source m a ≡ m a
unfolding copy_range
copy_range_miss n target source m a out = for_range_miss n 0 _ m a (λ j m' _ lt.
    write_other m' (target + j) (m' (source + j)) a (λ e. absurd (omega (arith, out, lt, e))))
