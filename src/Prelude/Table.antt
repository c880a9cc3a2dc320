-- ===== src/Prelude/Table.antt =====
-- A fact about all numbers below a bound, by evaluation.
use ax_kernel.Prelude.{ℕ, zero, suc, ◌<◌, ◌≡◌, Bool, true, false, if◌then◌else◌, arith}

unfoldable pub each_of : (ℕ → Bool) → ℕ → Bool
each_of test zero = true
each_of test (suc top) = let below = each_of test top in if test top then below else false

pub each_of-at :
    (test : ℕ → Bool) (bound i : ℕ) → i < bound → each_of test bound ≡ true → test i ≡ true
unfolding each_of
each_of-at test zero i lt run = absurd (ground (arith, lt))
each_of-at test (suc top) i lt run =
    let earlier = each_of-at test top i in ground (arith, lt, run, earlier)
