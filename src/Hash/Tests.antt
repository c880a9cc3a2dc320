-- ===== src/Hash/Tests.antt =====
-- Published values of the two hashes, and the theorems at concrete names.
use ax_kernel.Prelude.{◌%◌, ◌^◌, ◌≡◌, ◌≢◌, ◌++◌, refl, [], ◌∷◌, arith}
use ax_kernel.Hash.{fnv1a_loop, fnv1a_hash_64, djb2_loop, djb2_hash_64}
use ax_kernel.Hash.Laws.{base33, djb2_hash_64-base33, fnv1a_hash_64_one_byte}

-- "a", and the empty string.
fnv1a_hash_64_values :
    (fnv1a_hash_64 (b'a' ∷ []) ≡ 0xaf63dc4c8601ec8c) × (fnv1a_hash_64 [] ≡ 0xcbf29ce484222325)
unfolding fnv1a_hash_64 fnv1a_loop
fnv1a_hash_64_values = (refl, refl)

djb2_hash_64_value : djb2_hash_64 (b'a' ∷ b'b' ∷ []) ≡ 5863208
unfolding djb2_hash_64 djb2_loop
djb2_hash_64_value = refl

-- "axz" and "ayz".
fnv1a_hash_64_one_byte_example :
    fnv1a_hash_64 ((b'a' ∷ []) ++ (b'x' ∷ b'z' ∷ []))
    ≢ fnv1a_hash_64 ((b'a' ∷ []) ++ (b'y' ∷ b'z' ∷ []))
fnv1a_hash_64_one_byte_example =
    fnv1a_hash_64_one_byte (b'a' ∷ []) (b'z' ∷ []) b'x' b'y' (omega arith) (omega arith)
      (omega arith) (omega arith)

djb2_hash_64-base33_example :
    djb2_hash_64 (b'a' ∷ b'b' ∷ []) ≡ base33 5381 (b'a' ∷ b'b' ∷ []) % 2 ^ 64
djb2_hash_64-base33_example = djb2_hash_64-base33 (b'a' ∷ b'b' ∷ [])
