-- ===== src/Text/Number.antt =====
-- The numbers that the text routines print and read.
use ax_kernel.Prelude.{
  sym, ==_iff, if_elim, ℕ, zero, suc, ◌+◌, ◌/◌, ◌%◌, ◌^◌, ◌<◌, ◌≡◌, List, [], ◌∷◌, ap, ◌∙◌, refl,
  arith, ◌==◌,
}
use ax_kernel.Text.{read_digits, write_digits, put_uint, str_to_uint}

one_digit :
    (n : ℕ) (buf : List ℕ)
    → n < 2 ^ 64
    → read_digits (n / 10) ((n % 10 + 48) ∷ buf) ≡ read_digits n buf
unfolding read_digits
one_digit n buf small = ground (arith, small)

-- With places enough, the digits in front of `buf` are read as `n`.
read_digits-write_digits :
    (places n : ℕ) (buf : List ℕ)
    → n < 10 ^ places
    → n < 2 ^ 64
    → read_digits 0 (write_digits places n buf) ≡ read_digits n buf
unfolding write_digits
read_digits-write_digits zero n buf few small = ap (λ m. read_digits m buf) (omega (arith, few))
read_digits-write_digits (suc places) n buf few small =
    if_elim (λ out. read_digits 0 out ≡ read_digits n buf) (n == 0)
      (λ e. ap (λ m. read_digits m buf) ((sym ((==_iff n 0).0 e))))
      (λ e.
        read_digits-write_digits places (n / 10) ((n % 10 + 48) ∷ buf) (omega (arith, few))
          (omega (arith, small))
        ∙ one_digit n buf small)

-- What `put_uint` prints for a 64-bit number, `str_to_uint` reads back as that number.
pub str_to_uint-put_uint : (n : ℕ) → n < 2 ^ 64 → str_to_uint (put_uint n) ≡ n
unfolding put_uint str_to_uint read_digits
str_to_uint-put_uint n small =
    if_elim (λ out. read_digits 0 out ≡ n) (n == 0) (λ e. ground (arith, e))
      (λ e. read_digits-write_digits 20 n [] (omega (arith, small)) small ∙ refl)
