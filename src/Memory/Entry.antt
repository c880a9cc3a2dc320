-- ===== src/Memory/Entry.antt =====
-- The two-bit entries of the map, and what a push does to them.
use ax_kernel.Prelude.{
  ℕ, ◌*◌, ◌/◌, ◌%◌, ◌^◌, ◌<◌, ◌≡◌, refl, Bool, true, ◌&&◌, ◌==◌, ltb, if◌then◌else◌, arith, bit_and,
}
use ax_kernel.Prelude.Bits.{bit_and_mask}
use ax_kernel.Prelude.Table.{each_of, each_of-at}
use ax_kernel.Memory.{MmStack, update, put_bits, regu_push}

-- Entry `i`: two bits of byte `i / 4`.
abbrev pub entry : (ℕ → ℕ) → ℕ → ℕ
entry m i = m (i / 4) / 4 ^ (i % 4) % 4

abbrev pub AreBytes : (ℕ → ℕ) → Type 0
AreBytes m = (i : ℕ) → m i < 256

-- What `put_bits` must do to the four entries of a byte.
abbrev puts_entry : ℕ → ℕ → ℕ → ℕ → Bool
puts_entry s v t byte =
    ltb (put_bits byte (s * 2) v) 256
    && (put_bits byte (s * 2) v / 4 ^ t % 4 == (if t == s then v else byte / 4 ^ t % 4))

put_bits_table :
    each_of (λ s. each_of (λ v. each_of (λ t. each_of (λ byte. puts_entry s v t byte) 256) 4) 4) 4
    ≡ true
unfolding each_of put_bits
put_bits_table = refl

put_bits_entry :
    (s v t byte : ℕ)
    → s < 4
    → v < 4
    → t < 4
    → byte < 256
    → (put_bits byte (s * 2) v < 256)
      × (put_bits byte (s * 2) v / 4 ^ t % 4 ≡ (if t == s then v else byte / 4 ^ t % 4))
put_bits_entry s v t byte hs hv ht hb =
    let a = each_of-at _ 4 s hs put_bits_table in
    let b = each_of-at _ 4 v hv a in
    let c = each_of-at _ 4 t ht b in
    let d : puts_entry s v t byte ≡ true = each_of-at _ 256 byte hb c in ground arith

-- `sp_top & 3` is the remainder by 4.
pub bit_and_three : (a : ℕ) → bit_and a 3 ≡ a % 4
bit_and_three a = bit_and_mask 2 a

same_place : (i j : ℕ) → i / 4 ≡ j / 4 → i % 4 ≡ j % 4 → i ≡ j
same_place i j p q = omega arith

-- A push writes the entry at `sp_top` and no other, and the bytes stay bytes.
pub entry-regu_push :
    (s : MmStack) (v j : ℕ)
    → AreBytes s.mem
    → v < 4
    → entry (regu_push s v).1.mem j ≡ (if j == s.sp_top then v else entry s.mem j)
unfolding regu_push update
entry-regu_push s v j bytes hv =
    let i = s.sp_top in
    let here =
      put_bits_entry (i % 4) v (j % 4) (s.mem (i / 4)) (omega arith) hv (omega arith)
        (bytes (i / 4)) in
    ground (arith, bit_and_three i, here, same_place i j)

pub AreBytes-regu_push :
    (s : MmStack) (v : ℕ) → AreBytes s.mem → v < 4 → AreBytes (regu_push s v).1.mem
unfolding regu_push update
AreBytes-regu_push s v bytes hv j =
    let i = s.sp_top in
    let here =
      put_bits_entry (i % 4) v 0 (s.mem (i / 4)) (omega arith) hv (omega arith) (bytes (i / 4)) in
    ground (arith, bit_and_three i, here.0, bytes j)
