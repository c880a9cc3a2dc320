-- ===== src/Text/Tests.antt =====
-- Runs of the string routines and of the line editor.
use ax_kernel.Prelude.{ℕ, ◌<◌, ◌≡◌, List, [], ◌∷◌, ◌++◌, true, some, arith, refl, length}
use ax_kernel.Text.{put_uint, str_to_uint, gets}
use ax_kernel.Text.Number.{str_to_uint-put_uint}
use ax_kernel.Text.Line.{gets_ends, all_printable}

str_to_uint-put_uint_example : str_to_uint (put_uint 18446744073709551615) ≡ 18446744073709551615
str_to_uint-put_uint_example = str_to_uint-put_uint 18446744073709551615 (omega arith)

-- "ab", a backspace, "c", Enter.
gets_ends_example :
    (line : List ℕ) × ((rest : List ℕ) × ((gets 16 ((97 ∷ 98 ∷ 8 ∷ 99 ∷ []) ++ (13 ∷ 100 ∷ []))
          ≡ some (line, rest))
        × ((length line < 16) × (all_printable line ≡ true))))
gets_ends_example = gets_ends 16 (97 ∷ 98 ∷ 8 ∷ 99 ∷ []) 13 (100 ∷ []) (omega arith) refl
