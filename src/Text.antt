-- ===== src/Text.antt =====
-- The string routines and the line editor of src/global/io.c. A C string is the list of its bytes
-- before the terminator; `putchar` and `puts` write to the serial port, and the bytes written are the
-- answer. `getchar` reads from the list of the bytes still to come.
pub mod Number
pub mod Line
pub mod Compare
mod Tests
use ax_kernel.Prelude.Int.{ℤ, of_nat, sub}
use ax_kernel.Prelude.{
  ℕ, zero, suc, ◌+◌, ◌-◌, ◌*◌, ◌/◌, ◌%◌, ◌^◌, List, [], ◌∷◌, ◌++◌, map, Bool, true, false, ◌&&◌,
  ◌||◌, Option, none, some, ◌==◌, leb, ltb, if◌then◌else◌, length, take, drop,
}
use ax_kernel.Prelude.Word.{u64, u8}

unfoldable pub difference : ℕ → ℕ → ℤ
difference a b = sub (of_nat a) (of_nat b)

unfoldable pub strcmp : List ℕ → List ℕ → ℤ
unfolding difference
strcmp [] [] = difference 0 0
strcmp [] (b ∷ s2) = difference 0 b
strcmp (a ∷ s1) [] = difference a 0
strcmp (a ∷ s1) (b ∷ s2) = let rest = strcmp s1 s2 in if a == b then rest else difference a b

unfoldable pub strlen : List ℕ → ℕ
strlen [] = 0
strlen (c ∷ str) = strlen str + 1

-- The inner loop of `strstr`: whether it ends at the terminator of `n`.
unfoldable pub is_prefix : List ℕ → List ℕ → Bool
is_prefix h [] = true
is_prefix [] (b ∷ n) = false
is_prefix (a ∷ h) (b ∷ n) = (a == b) && is_prefix h n

-- The loop of `strstr` over the places of `s`.
unfoldable pub find_prefix : List ℕ → List ℕ → Option (List ℕ)
unfolding is_prefix
find_prefix [] sub = none
find_prefix (c ∷ s) sub =
    let rest = find_prefix s sub in if is_prefix (c ∷ s) sub then some (c ∷ s) else rest

-- The pointer into `s` is what follows there.
unfoldable pub strstr : List ℕ → List ℕ → Option (List ℕ)
unfolding find_prefix
strstr s [] = some s
strstr s (b ∷ sub) = find_prefix s (b ∷ sub)

abbrev pub is_digit : ℕ → Bool
is_digit c = leb 48 c && leb c 57

-- The loop of `str_to_uint`, from a value so far.
unfoldable pub read_digits : ℕ → List ℕ → ℕ
read_digits val [] = val
read_digits val (c ∷ str) =
    let rest = read_digits (u64 (u64 (val * 10) + (c - 48))) str in if is_digit c then rest else val

unfoldable pub str_to_uint : List ℕ → ℕ
unfolding read_digits
str_to_uint str = read_digits 0 str

-- The loop of `put_uint` with `places` places of the buffer left, in front of `buf`.
unfoldable pub write_digits : ℕ → ℕ → List ℕ → List ℕ
write_digits zero n buf = buf
write_digits (suc places) n buf =
    let rest = write_digits places (n / 10) ((n % 10 + 48) ∷ buf) in if n == 0 then buf else rest

unfoldable pub put_uint : ℕ → List ℕ
unfolding write_digits
put_uint n = if n == 0 then write_digits 19 n (48 ∷ []) else write_digits 20 n []

-- "0123456789ABCDEF".
abbrev pub hex_digit : ℕ → ℕ
hex_digit d = if ltb d 10 then 48 + d else 55 + d

unfoldable pub put_hex2 : ℕ → List ℕ
put_hex2 d = hex_digit (u8 d / 2 ^ 4 % 2 ^ 4) ∷ hex_digit (u8 d % 2 ^ 4) ∷ []

-- The digits of `put_hex` from bit `4 * n` down.
unfoldable pub hex_digits : ℕ → ℕ → List ℕ
hex_digits zero d = []
hex_digits (suc n) d = hex_digit (d / 2 ^ (4 * n) % 2 ^ 4) ∷ hex_digits n d

unfoldable pub put_hex : ℕ → List ℕ
unfolding hex_digits
put_hex d = (48 ∷ 120 ∷ []) ++ (hex_digits 16 d ++ (10 ∷ []))

-- On the bytes from `ptr` on.
unfoldable pub memset : List ℕ → ℕ → ℕ → List ℕ
memset ptr value num = map (λ b. u8 value) (take num ptr) ++ drop num ptr

-- The line so far, last byte first, without the last one.
unfoldable pub erase : List ℕ → List ℕ
erase [] = []
erase (c ∷ line) = line

abbrev pub is_enter : ℕ → Bool
is_enter c = (c == 13) || (c == 10)

abbrev pub is_erase : ℕ → Bool
is_erase c = (c == 8) || (c == 127)

abbrev pub is_printable : ℕ → Bool
is_printable c = leb 32 c && ltb c 127

-- One character of the loop of `gets`, other than Enter. A byte from 128 on is negative as `int8_t`.
unfoldable pub edit : List ℕ → ℕ → List ℕ
unfolding erase
edit line c = if is_erase c then erase line else if is_printable c then c ∷ line else line

-- The loop of `gets` with room for `limit` bytes; the line, last byte first, and the input left, or
-- `none` while the input has run out.
unfoldable pub read_line : ℕ → List ℕ → List ℕ → Option (List ℕ × List ℕ)
unfolding edit
read_line limit line [] = if ltb (length line) limit then none else some (line, [])
read_line limit line (c ∷ input) =
    let rest = read_line limit (edit line c) input in
    if ltb (length line) limit
    then if is_enter c then some (line, input) else rest
    else some (line, c ∷ input)

-- `gets` with `max_len` above 0 into a buffer that is not NULL: what it leaves in the buffer, last
-- byte first.
unfoldable pub gets : ℕ → List ℕ → Option (List ℕ × List ℕ)
unfolding read_line
gets max_len input = read_line (max_len - 1) [] input
