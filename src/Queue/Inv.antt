-- ===== src/Queue/Inv.antt =====
-- The representation invariant of `queue`: indices inside the buffer, and `head` just past the
-- `count` bytes that start at `tail`.
use ax_kernel.Prelude.{
  ℕ, ◌+◌, ◌-◌, ◌^◌, ◌≤◌, ◌<◌, ◌≡◌, List, arith, leb, if◌then◌else◌, length, length-set,
}
use ax_kernel.Queue.{Queue, queue_init, queue_push, queue_pop}

-- `k` steps on from index `i`, for `i < size` and `k ≤ size`.
abbrev pub advance : ℕ → ℕ → ℕ → ℕ
advance size i k = if leb size (i + k) then i + k - size else i + k

pub record IsValid (q : Queue) : Type 0 where
  pub fits : q.size ≤ length q.buffer
  pub word : q.size < 2 ^ 32
  pub head_in : q.head < q.size
  pub tail_in : q.tail < q.size
  pub count_in : q.count ≤ q.size
  pub meets : q.head ≡ advance q.size q.tail q.count

-- A buffer of `size` bytes, at least one, is initialised to a valid queue.
pub queue_init-IsValid :
    (buffer : List ℕ) (size : ℕ)
    → 0 < size
    → size < 2 ^ 32
    → size ≤ length buffer
    → IsValid (queue_init buffer size)
unfolding queue_init
queue_init-IsValid buffer size pos word fits = ground arith

pub queue_push-IsValid : {q : Queue} (x : ℕ) → IsValid q → IsValid (queue_push q x)
unfolding queue_push
queue_push-IsValid {q} x v = ground (arith, length-set q.buffer q.head x)

pub queue_pop-IsValid : {q : Queue} → IsValid q → IsValid (queue_pop q).1
unfolding queue_pop
queue_pop-IsValid v = ground arith

pub size-queue_push : (q : Queue) (x : ℕ) → (queue_push q x).size ≡ q.size
unfolding queue_push
size-queue_push q x = ground arith

pub size-queue_pop : (q : Queue) → (queue_pop q).1.size ≡ q.size
unfolding queue_pop
size-queue_pop q = ground arith
