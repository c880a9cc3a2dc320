-- ===== src/Stack/Refine.antt =====
-- A valid stack behaves as the list of the bytes that it holds, last in first out, at most `size`.
use ax_kernel.Prelude.{
  ℕ, zero, suc, ◌+◌, ◌-◌, ◌^◌, ◌≤◌, ◌<◌, ◌≡◌, refl, ap, ap₂, ◌≢◌, List, [], ◌∷◌, arith, leb,
  if◌then◌else◌, length, set, get_or, length-set,
}
use ax_kernel.Prelude.Array.{get_or-set_self, get_or-set_ne}
use ax_kernel.Stack.{Stack, stack_init, stack_push, stack_pop, stack_empty, stack_full}
use ax_kernel.Queue.Fifo.{Op, Reply, put, get, is_empty, is_full, done, byte, flag, front, rest}

pub record IsValid (s : Stack) : Type 0 where
  pub fits : s.size ≤ length s.buffer
  pub word : s.size < 2 ^ 32
  pub count_in : s.count ≤ s.size
  pub meets : s.head ≡ s.count

-- The `n` bytes below index `n`, the last one first.
abbrev pub below : List ℕ → ℕ → List ℕ
below buffer zero = []
below buffer (suc n) = get_or buffer n 0 ∷ below buffer n

abbrev pub contents : Stack → List ℕ
contents s = below s.buffer s.count

-- The abstract stack.
abbrev pub add : ℕ → List ℕ → ℕ → List ℕ
add size xs x = if leb size (length xs) then xs else x ∷ xs

abbrev pub step_spec : ℕ → List ℕ → Op → Reply × List ℕ
step_spec size xs (put x) = (done, add size xs x)
step_spec size xs get = (byte (front xs), rest xs)
step_spec size xs is_empty = (flag (leb (length xs) 0), xs)
step_spec size xs is_full = (flag (leb size (length xs)), xs)

unfoldable pub run_spec : ℕ → List ℕ → List Op → List Reply
run_spec size xs [] = []
run_spec size xs (op ∷ ops) = let (r, xs') = step_spec size xs op in r ∷ run_spec size xs' ops

-- One call of a client, through the function pointers.
unfoldable pub step : Stack → Op → Reply × Stack
step s (put x) = (done, stack_push s x)
step s get = let (x, s') = stack_pop s in (byte x, s')
step s is_empty = (flag (stack_empty s), s)
step s is_full = (flag (stack_full s), s)

unfoldable pub run : Stack → List Op → List Reply
run s [] = []
run s (op ∷ ops) = let (r, s') = step s op in r ∷ run s' ops

length-below : (buffer : List ℕ) (n : ℕ) → length (below buffer n) ≡ n
length-below buffer zero = refl
length-below buffer (suc n) = ap suc (length-below buffer n)

below-set : (buffer : List ℕ) (n i x : ℕ) → n ≤ i → below (set buffer i x) n ≡ below buffer n
below-set buffer zero i x h = refl
below-set buffer (suc n) i x h =
    ap₂ ◌∷◌ (get_or-set_ne buffer x 0 (λ e. omega arith)) (below-set buffer n i x (omega arith))

below_of_ne_zero :
    (buffer : List ℕ) (n : ℕ)
    → n ≢ 0
    → below buffer n ≡ get_or buffer (n - 1) 0 ∷ below buffer (n - 1)
below_of_ne_zero buffer zero h = absurd (h refl)
below_of_ne_zero buffer (suc n) h = ap (λ k. get_or buffer k 0 ∷ below buffer k) (omega arith)

below-push :
    (buffer : List ℕ) (n x : ℕ)
    → n < length buffer
    → below (set buffer n x) (n + 1) ≡ x ∷ below buffer n
below-push buffer n x h = ground (
  arith,
  below_of_ne_zero (set buffer n x) (n + 1),
  get_or-set_self buffer n x 0,
  below-set buffer n n x,
)

contents-stack_push :
    {s : Stack} (x : ℕ) → IsValid s → contents (stack_push s x) ≡ add s.size (contents s) x
unfolding stack_push
contents-stack_push {s} x v =
    ground (arith, length-below s.buffer s.count, below-push s.buffer s.count x)

contents-stack_pop :
    {s : Stack}
    → IsValid s
    → ((stack_pop s).0 ≡ front (contents s)) × (contents (stack_pop s).1 ≡ rest (contents s))
unfolding stack_pop
contents-stack_pop {s} v = ground (arith, below_of_ne_zero s.buffer s.count)

-- Every call through the function pointers keeps the next free index equal to the count, and the
-- count at most the size.
pub step-IsValid : {s : Stack} (op : Op) → IsValid s → IsValid (step s op).1
unfolding step stack_push stack_pop
step-IsValid {s} (put x) v = ground (arith, length-set s.buffer s.head x)
step-IsValid get v = ground arith
step-IsValid is_empty v = v
step-IsValid is_full v = v

size-step : (s : Stack) (op : Op) → (step s op).1.size ≡ s.size
unfolding step stack_push stack_pop
size-step s (put x) = ground arith
size-step s get = ground arith
size-step s is_empty = refl
size-step s is_full = refl

step_refines :
    {s : Stack} (op : Op)
    → IsValid s
    → let (r, s') = step s op in (r, contents s') ≡ step_spec s.size (contents s) op
unfolding step stack_empty stack_full
step_refines {s} (put x) v = ap (λ c. (done, c)) (contents-stack_push x v)
step_refines {s} get v = ap₂ (λ x c. (byte x, c)) (contents-stack_pop v).0 (contents-stack_pop v).1
step_refines {s} is_empty v = ground (arith, length-below s.buffer s.count)
step_refines {s} is_full v = ground (arith, length-below s.buffer s.count)

run_eq_spec : (ops : List Op) {s : Stack} → IsValid s → run s ops ≡ run_spec s.size (contents s) ops
unfolding run run_spec
run_eq_spec [] v = refl
run_eq_spec (op ∷ ops) v = rw (run_eq_spec ops (step-IsValid op v), ← step_refines op v, size-step)

-- On a stack fresh from `stack_init`, with a buffer of `size` bytes, every sequence of push, pop,
-- empty and full calls gives the client what a list of at most `size` bytes, last in first out,
-- gives.
pub run-stack_init :
    (buffer : List ℕ) (size : ℕ) (ops : List Op)
    → size < 2 ^ 32
    → size ≤ length buffer
    → run (stack_init buffer size) ops ≡ run_spec size [] ops
unfolding stack_init
run-stack_init buffer size ops word fits =
    run_eq_spec ops (record { fits = fits; word = word; count_in = omega arith; meets = refl })
