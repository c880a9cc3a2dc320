-- ===== src/Hash/Laws.antt =====
-- The hashes against closed forms, and what they never confuse.
use ax_kernel.Prelude.{
  ℕ, ◌+◌, ◌*◌, ◌%◌, ◌^◌, ◌<◌, ◌≡◌, refl, ◌∙◌, List, [], ◌∷◌, ◌++◌, ◌≢◌, arith, bit_xor,
}
use ax_kernel.Prelude.Bits.{bit_xor_comm, bit_xor_cancel, bit_xor-lt_pow}
use ax_kernel.Hash.{
  fnv1a_loop, fnv1a_hash_64, fnv_prime_64, fnv_offset_basis_64, djb2_loop, djb2_hash_64,
}

-- The value of a byte string in base 33, the first byte the most significant, with `hash` in front.
abbrev pub base33 : ℕ → List ℕ → ℕ
base33 hash [] = hash
base33 hash (c ∷ str) = base33 (hash * 33 + c) str

mod_base33 :
    (str : List ℕ) (a b : ℕ)
    → a % 2 ^ 64 ≡ b % 2 ^ 64
    → base33 a str % 2 ^ 64 ≡ base33 b str % 2 ^ 64
mod_base33 [] a b h = h
mod_base33 (c ∷ str) a b h = mod_base33 str (a * 33 + c) (b * 33 + c) (omega arith)

djb2_loop-base33 :
    (hash : ℕ) (str : List ℕ) → hash < 2 ^ 64 → djb2_loop hash str ≡ base33 hash str % 2 ^ 64
unfolding djb2_loop
djb2_loop-base33 hash [] h = omega arith
djb2_loop-base33 hash (c ∷ str) h =
    let next : ℕ = (((hash * 2 ^ 5) % 2 ^ 64 + hash) % 2 ^ 64 + c) % 2 ^ 64 in
    djb2_loop-base33 next str (omega arith) ∙ mod_base33 str next (hash * 33 + c) (omega arith)

-- The shifts and wraps of `djb2_hash_64` compute the string as a number in base 33, with 5381 in
-- front, modulo 2 ^ 64.
pub djb2_hash_64-base33 : (str : List ℕ) → djb2_hash_64 str ≡ base33 5381 str % 2 ^ 64
unfolding djb2_hash_64
djb2_hash_64-base33 str = djb2_loop-base33 5381 str (omega arith)

-- The bytes of a C string.
abbrev pub AreBytes : List ℕ → Type 0
AreBytes [] = Unit
AreBytes (c ∷ str) = (c < 2 ^ 8) × AreBytes str

fnv1a_loop-append :
    (hash : ℕ) (s t : List ℕ) → fnv1a_loop hash (s ++ t) ≡ fnv1a_loop (fnv1a_loop hash s) t
unfolding fnv1a_loop
fnv1a_loop-append hash [] t = refl
fnv1a_loop-append hash (c ∷ s) t = fnv1a_loop-append ((bit_xor hash c * fnv_prime_64) % 2 ^ 64) s t

fnv1a_loop-lt : (hash : ℕ) (s : List ℕ) → hash < 2 ^ 64 → fnv1a_loop hash s < 2 ^ 64
unfolding fnv1a_loop
fnv1a_loop-lt hash [] h = h
fnv1a_loop-lt hash (c ∷ s) h =
    fnv1a_loop-lt ((bit_xor hash c * fnv_prime_64) % 2 ^ 64) s (omega arith)

-- The prime is odd, so multiplying by it loses nothing modulo 2 ^ 64.
mul_prime_cancel :
    (x y : ℕ)
    → x < 2 ^ 64
    → y < 2 ^ 64
    → (x * fnv_prime_64) % 2 ^ 64 ≡ (y * fnv_prime_64) % 2 ^ 64
    → x ≡ y
mul_prime_cancel x y hx hy e = omega arith

fnv1a_loop_cancel :
    (x y : ℕ) (s : List ℕ)
    → x < 2 ^ 64
    → y < 2 ^ 64
    → AreBytes s
    → fnv1a_loop x s ≡ fnv1a_loop y s
    → x ≡ y
unfolding fnv1a_loop
fnv1a_loop_cancel x y [] hx hy bytes e = e
fnv1a_loop_cancel x y (c ∷ s) hx hy bytes e =
    let same =
      mul_prime_cancel (bit_xor x c) (bit_xor y c) (bit_xor-lt_pow 64 x c hx (omega arith))
        (bit_xor-lt_pow 64 y c hy (omega arith))
        (fnv1a_loop_cancel ((bit_xor x c * fnv_prime_64) % 2 ^ 64)
          ((bit_xor y c * fnv_prime_64) % 2 ^ 64) s (omega arith) (omega arith) bytes.1 e) in
    cc (same, bit_xor_cancel x c, bit_xor_cancel y c)

bit_xor_left_cancel : (h a b : ℕ) → bit_xor h a ≡ bit_xor h b → a ≡ b
bit_xor_left_cancel h a b e =
    cc (e, bit_xor_comm h a, bit_xor_comm h b, bit_xor_cancel a h, bit_xor_cancel b h)

fnv1a_loop_head :
    (x a b : ℕ) (t : List ℕ)
    → x < 2 ^ 64
    → AreBytes t
    → a < 2 ^ 8
    → b < 2 ^ 8
    → fnv1a_loop x (a ∷ t) ≡ fnv1a_loop x (b ∷ t)
    → a ≡ b
unfolding fnv1a_loop
fnv1a_loop_head x a b t hx bytes ha hb e = bit_xor_left_cancel x a b (
    mul_prime_cancel (bit_xor x a) (bit_xor x b) (bit_xor-lt_pow 64 x a hx (omega arith))
      (bit_xor-lt_pow 64 x b hx (omega arith))
      (fnv1a_loop_cancel ((bit_xor x a * fnv_prime_64) % 2 ^ 64)
        ((bit_xor x b * fnv_prime_64) % 2 ^ 64) t (omega arith) (omega arith) bytes e))

-- Two names that differ in exactly one byte never have the same `fnv1a_hash_64`.
pub fnv1a_hash_64_one_byte :
    (s t : List ℕ) (a b : ℕ)
    → AreBytes t
    → a < 2 ^ 8
    → b < 2 ^ 8
    → a ≢ b
    → fnv1a_hash_64 (s ++ (a ∷ t)) ≢ fnv1a_hash_64 (s ++ (b ∷ t))
unfolding fnv1a_hash_64
fnv1a_hash_64_one_byte s t a b bytes ha hb ne e =
    let same =
      fnv1a_loop_head (fnv1a_hash_64 s) a b t (fnv1a_loop-lt _ s (omega arith)) bytes ha hb (
        cc (
          e,
          fnv1a_loop-append fnv_offset_basis_64 s (a ∷ t),
          fnv1a_loop-append fnv_offset_basis_64 s (b ∷ t),
        )) in
    ne same
