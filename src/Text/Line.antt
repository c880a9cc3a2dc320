-- ===== src/Text/Line.antt =====
-- The line editor `gets`.
use ax_kernel.Prelude.{
  inr, inl, Bool-cases, ℕ, ◌-◌, ◌≤◌, ◌<◌, ◌≡◌, ◌&&◌, Bool, true, List, [], ◌∷◌, ◌++◌, some, refl,
  arith, ltb, length, if_elim,
}
use ax_kernel.Text.{is_enter, is_erase, is_printable, edit, erase, read_line, gets}

-- Every byte is one of 32 to 126.
unfoldable pub all_printable : List ℕ → Bool
all_printable [] = true
all_printable (c ∷ line) = is_printable c && all_printable line

record IsLine (limit : ℕ) (line : List ℕ) : Type 0 where
  short : length line ≤ limit
  clean : all_printable line ≡ true

erase-IsLine : (limit : ℕ) (line : List ℕ) → IsLine limit line → IsLine limit (erase line)
unfolding erase all_printable
erase-IsLine limit [] ok = ok
erase-IsLine limit (c ∷ line) ok = record {
  short = omega (arith, ok.short);
  clean = ground (arith, ok.clean);
}

cons-IsLine :
    (limit c : ℕ) (line : List ℕ)
    → length line < limit
    → is_printable c ≡ true
    → IsLine limit line
    → IsLine limit (c ∷ line)
unfolding all_printable
cons-IsLine limit c line lt p ok = record {
  short = omega (arith, lt);
  clean = ground (arith, p, ok.clean);
}

edit-IsLine :
    (limit : ℕ) (line : List ℕ) (c : ℕ)
    → length line < limit
    → IsLine limit line
    → IsLine limit (edit line c)
unfolding edit
edit-IsLine limit line c lt ok =
    if_elim (IsLine limit) (is_erase c) (λ e. erase-IsLine limit line ok)
      (λ e.
        if_elim (IsLine limit) (is_printable c) (λ p. cons-IsLine limit c line lt p ok) (λ p. ok))

-- What `read_line` answers.
Ends : ℕ → List ℕ → List ℕ → Type 0
Ends limit line input =
    (out : List ℕ) × ((rest : List ℕ) × ((read_line limit line input ≡ some (out, rest))
        × IsLine limit out))

read_line-Ends :
    (limit : ℕ) (pre line : List ℕ) (c : ℕ) (post : List ℕ)
    → is_enter c ≡ true
    → IsLine limit line
    → Ends limit line (pre ++ (c ∷ post))
unfolding read_line Ends
read_line-Ends limit [] line c post enter ok = elim (Bool-cases (ltb (length line) limit)) [
  | inl lt ↦ (line, (post, (rw (lt, enter) refl, ok)))
  | inr ge ↦ (line, (c ∷ post, (rw ge refl, ok)))
]
read_line-Ends limit (a ∷ pre) line c post enter ok = elim (Bool-cases (ltb (length line) limit)) [
  | inl lt ↦ elim (Bool-cases (is_enter a)) [
    | inl stop ↦ (line, (pre ++ (c ∷ post), (rw (lt, stop) refl, ok)))
    | inr go ↦
        let rest =
          read_line-Ends limit pre (edit line a) c post enter
            (edit-IsLine limit line a (ground (arith, lt)) ok) in
        (rest.0, (rest.1.0, (rw (lt, go) rest.1.1.0, rest.1.1.1)))
  ]
  | inr ge ↦ (line, (a ∷ (pre ++ (c ∷ post)), (rw ge refl, ok)))
]

-- When Enter is among the bytes to come, `gets` returns, and what it leaves is a line of printable
-- bytes that fits the buffer together with the terminator.
pub gets_ends :
    (max_len : ℕ) (pre : List ℕ) (c : ℕ) (post : List ℕ)
    → 0 < max_len
    → is_enter c ≡ true
    → (line : List ℕ) × ((rest : List ℕ) × ((gets max_len (pre ++ (c ∷ post)) ≡ some (line, rest))
          × ((length line < max_len) × (all_printable line ≡ true))))
unfolding gets Ends all_printable
gets_ends max_len pre c post room enter =
    let out =
      read_line-Ends (max_len - 1) pre [] c post enter
        (record { short = omega arith; clean = refl }) in
    (out.0, (out.1.0, (out.1.1.0, (omega (arith, room, out.1.1.1.short), out.1.1.1.clean))))
