-- ===== src/Prelude/Bytes.antt =====
-- Numbers and strings in a memory, a byte at each address.
use ax_kernel.Prelude.Tests.{◌==◌, if◌then◌else◌}
use Prim.Native.Nat.{ℕ, zero, suc, ◌+◌, ◌*◌, ◌^◌}
use mathlib.Core.List.{List, [], ◌∷◌}

-- `n` bytes from address `a` on as a number.
unfoldable pub little_endian : (ℕ → ℕ) → ℕ → ℕ → ℕ
little_endian memory zero a = 0
little_endian memory (suc n) a = memory a + 2 ^ 8 * little_endian memory n (a + 1)

-- The bytes from `a` on before the first 0, `n` at most.
unfoldable pub string_at : (ℕ → ℕ) → ℕ → ℕ → List ℕ
string_at memory zero a = []
string_at memory (suc n) a =
    let rest = string_at memory n (a + 1) in if memory a == 0 then [] else memory a ∷ rest
