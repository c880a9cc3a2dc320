-- ===== src/Hash.antt =====
-- The two string hashes of src/tools/hash.c. A C string is the list of its bytes before the
-- terminator. `char` is unsigned on the target (AArch64), so a byte adds its value to `djb2`.
pub mod Laws
mod Tests
use ax_kernel.Prelude.{ℕ, ◌+◌, ◌*◌, ◌^◌, List, [], ◌∷◌, bit_xor}
use ax_kernel.Prelude.Word.{u64}

abbrev pub fnv_offset_basis_64 : ℕ
fnv_offset_basis_64 = 0xcbf29ce484222325

abbrev pub fnv_prime_64 : ℕ
fnv_prime_64 = 0x100000001b3

-- The loop of `fnv1a_hash_64`, from a hash so far.
unfoldable pub fnv1a_loop : ℕ → List ℕ → ℕ
fnv1a_loop hash [] = hash
fnv1a_loop hash (c ∷ str) = fnv1a_loop (u64 (bit_xor hash c * fnv_prime_64)) str

unfoldable pub fnv1a_hash_64 : List ℕ → ℕ
fnv1a_hash_64 str = fnv1a_loop fnv_offset_basis_64 str

-- The loop of `djb2_hash_64`: `((hash << 5) + hash) + c`, each step modulo 2 ^ 64.
unfoldable pub djb2_loop : ℕ → List ℕ → ℕ
djb2_loop hash [] = hash
djb2_loop hash (c ∷ str) = djb2_loop (u64 (u64 (u64 (hash * 2 ^ 5) + hash) + c)) str

unfoldable pub djb2_hash_64 : List ℕ → ℕ
djb2_hash_64 str = djb2_loop 5381 str
