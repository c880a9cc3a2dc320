-- ===== src/Queue/Fifo.antt =====
-- What a byte queue promises: a FIFO of at most `size` bytes, oldest first. A put into a full
-- queue is dropped, a get from an empty one gives 0.
use ax_kernel.Prelude.{ℕ, Bool, List, [], ◌∷◌, ◌++◌, leb, if◌then◌else◌, length}

-- The calls of a client.
pub data Op : Type 0 where
  put : ℕ → Op
  get is_empty is_full : Op

-- What the client sees of a call.
pub data Reply : Type 0 where
  done : Reply
  byte : ℕ → Reply
  flag : Bool → Reply

abbrev pub front : List ℕ → ℕ
front [] = 0
front (x ∷ xs) = x

abbrev pub rest : List ℕ → List ℕ
rest [] = []
rest (x ∷ xs) = xs

abbrev pub add : ℕ → List ℕ → ℕ → List ℕ
add size xs x = if leb size (length xs) then xs else xs ++ (x ∷ [])

abbrev pub step : ℕ → List ℕ → Op → Reply × List ℕ
step size xs (put x) = (done, add size xs x)
step size xs get = (byte (front xs), rest xs)
step size xs is_empty = (flag (leb (length xs) 0), xs)
step size xs is_full = (flag (leb size (length xs)), xs)

unfoldable pub run : ℕ → List ℕ → List Op → List Reply
run size xs [] = []
run size xs (op ∷ ops) = let (r, xs') = step size xs op in r ∷ run size xs' ops
