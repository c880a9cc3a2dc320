-- ===== src/Queue/Refine.antt =====
-- A valid queue behaves as the bounded FIFO of the bytes that it holds.
use ax_kernel.Prelude.{
  ℕ, zero, suc, ◌-◌, ◌^◌, ◌≤◌, ◌<◌, ◌≡◌, refl, ap, ap₂, ◌≢◌, List, [], ◌∷◌, ◌++◌, arith, length,
  set, get_or,
}
use ax_kernel.Prelude.Array.{get_or-set_self, get_or-set_ne}
use ax_kernel.Queue.{Queue, step_index, queue_push, queue_pop, queue_empty, queue_full}
use ax_kernel.Queue.Fifo
use ax_kernel.Queue.Fifo.{Op, Reply, put, get, is_empty, is_full, done, byte, flag}
use ax_kernel.Queue.Inv.{
  advance, IsValid, queue_push-IsValid, queue_pop-IsValid, size-queue_push, size-queue_pop,
}

-- The `n` bytes from index `i` on, going round at `size`.
abbrev pub span : List ℕ → ℕ → ℕ → ℕ → List ℕ
span buffer size i zero = []
span buffer size i (suc n) = get_or buffer i 0 ∷ span buffer size (step_index size i) n

abbrev pub contents : Queue → List ℕ
contents q = span q.buffer q.size q.tail q.count

pub length-span : (buffer : List ℕ) (size i n : ℕ) → length (span buffer size i n) ≡ n
length-span buffer size i zero = refl
length-span buffer size i (suc n) = ap suc (length-span buffer size (step_index size i) n)

-- A write just past a span extends it by the byte.
span-set :
    (buffer : List ℕ) (size x n i j : ℕ)
    → size ≤ length buffer
    → size < 2 ^ 32
    → i < size
    → n < size
    → j ≡ advance size i n
    → span (set buffer j x) size i (suc n) ≡ span buffer size i n ++ (x ∷ [])
span-set buffer size x zero i j fits word hi hn e =
    ap (λ b. b ∷ []) (ground (arith, get_or-set_self buffer j x 0))
span-set buffer size x (suc n) i j fits word hi hn e =
    ap₂ ◌∷◌ (get_or-set_ne buffer x 0 (λ h. ground arith)) (
      span-set buffer size x n (step_index size i) j fits word (ground arith) (omega arith)
        (ground arith))

-- `span` matches on `suc`, the code tests for 0.
span_of_ne_zero :
    (buffer : List ℕ) (size i n : ℕ)
    → n ≢ 0
    → span buffer size i n ≡ get_or buffer i 0 ∷ span buffer size (step_index size i) (n - 1)
span_of_ne_zero buffer size i zero h = absurd (h refl)
span_of_ne_zero buffer size i (suc n) h = ap (λ k. span buffer size i (suc k)) (omega arith)

-- `queue_push` appends to the bytes held, or drops the byte when the queue is full.
pub contents-queue_push :
    {q : Queue} (x : ℕ) → IsValid q → contents (queue_push q x) ≡ Fifo.add q.size (contents q) x
unfolding queue_push
contents-queue_push {q} x v = ground (
  arith,
  length-span q.buffer q.size q.tail q.count,
  span-set q.buffer q.size x q.count q.tail q.head,
)

-- `queue_pop` gives the oldest byte and leaves the others.
pub contents-queue_pop :
    {q : Queue}
    → IsValid q
    → ((queue_pop q).0 ≡ Fifo.front (contents q))
      × (contents (queue_pop q).1 ≡ Fifo.rest (contents q))
unfolding queue_pop
contents-queue_pop {q} v = ground (arith, span_of_ne_zero q.buffer q.size q.tail q.count)

-- One call of a client, through the function pointers.
unfoldable pub step : Queue → Op → Reply × Queue
step q (put x) = (done, queue_push q x)
step q get = let (x, q') = queue_pop q in (byte x, q')
step q is_empty = (flag (queue_empty q), q)
step q is_full = (flag (queue_full q), q)

unfoldable pub run : Queue → List Op → List Reply
run q [] = []
run q (op ∷ ops) = let (r, q') = step q op in r ∷ run q' ops

step_refines :
    {q : Queue} (op : Op)
    → IsValid q
    → let (r, q') = step q op in (r, contents q') ≡ Fifo.step q.size (contents q) op
unfolding step queue_empty queue_full
step_refines {q} (put x) v = ap (λ c. (done, c)) (contents-queue_push x v)
step_refines {q} get v = ap₂ (λ x c. (byte x, c)) (contents-queue_pop v).0 (contents-queue_pop v).1
step_refines {q} is_empty v = ground (arith, length-span q.buffer q.size q.tail q.count)
step_refines {q} is_full v = ground (arith, length-span q.buffer q.size q.tail q.count)

-- Every call through the function pointers keeps the indices inside the buffer, the count at most
-- the size, and `head` just past the bytes held.
pub step-IsValid : {q : Queue} (op : Op) → IsValid q → IsValid (step q op).1
unfolding step
step-IsValid (put x) v = queue_push-IsValid x v
step-IsValid get v = queue_pop-IsValid v
step-IsValid is_empty v = v
step-IsValid is_full v = v

size-step : (q : Queue) (op : Op) → (step q op).1.size ≡ q.size
unfolding step
size-step q (put x) = size-queue_push q x
size-step q get = size-queue_pop q
size-step q is_empty = refl
size-step q is_full = refl

-- No sequence of calls tells a valid queue from the bounded FIFO of the bytes that it holds: every
-- push, pop, empty and full call gives the client what the FIFO gives.
pub run_refines :
    (ops : List Op) {q : Queue} → IsValid q → run q ops ≡ Fifo.run q.size (contents q) ops
unfolding run Fifo.run
run_refines [] v = refl
run_refines (op ∷ ops) v = rw (run_refines ops (step-IsValid op v), ← step_refines op v, size-step)
