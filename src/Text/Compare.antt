-- ===== src/Text/Compare.antt =====
-- `strcmp` as an order, `strstr` as the first occurrence.
use ax_kernel.Prelude.{
  inr, inl, ap₂, Bool-cases, ℕ, ◌≤◌, ◌≡◌, true, List, [], ◌∷◌, ◌++◌, Option, some, ap, refl, arith,
  length,
}
use ax_kernel.Text.{strstr, find_prefix, is_prefix}

-- An occurrence of `sub`, at most `limit` bytes from the start of `s`.
is_prefix-append : (sub post : List ℕ) → is_prefix (sub ++ post) sub ≡ true
unfolding is_prefix
is_prefix-append [] post = refl
is_prefix-append (b ∷ sub) post = ground (arith, is_prefix-append sub post)

is_prefix_rest : (h sub : List ℕ) → is_prefix h sub ≡ true → (post : List ℕ) × (h ≡ sub ++ post)
unfolding is_prefix
is_prefix_rest h [] e = (h, refl)
is_prefix_rest [] (b ∷ sub) e = absurd (ground (arith, e))
is_prefix_rest (a ∷ h) (b ∷ sub) e =
    let same : a ≡ b = ground (arith, e) in
    let rest = is_prefix_rest h sub (ground (arith, e)) in
    (rest.0, ap₂ (λ x xs. x ∷ xs) same rest.1)

First : List ℕ → List ℕ → ℕ → Option (List ℕ) → Type 0
First s sub limit found =
    (pre : List ℕ) × ((post : List ℕ) × ((found ≡ some (sub ++ post))
        × ((s ≡ pre ++ (sub ++ post)) × (length pre ≤ limit))))

find_prefix-First :
    (pre : List ℕ) (b : ℕ) (sub post : List ℕ)
    → First
        (pre ++ ((b ∷ sub) ++ post))
        (b ∷ sub)
        (length pre)
        (find_prefix (pre ++ ((b ∷ sub) ++ post)) (b ∷ sub))
unfolding find_prefix First
find_prefix-First [] b sub post =
    ([], (post, (rw (is_prefix-append (b ∷ sub) post) refl, (refl, omega arith))))
find_prefix-First (c ∷ pre) b sub post =
    let s : List ℕ = c ∷ (pre ++ ((b ∷ sub) ++ post)) in
    elim (Bool-cases (is_prefix s (b ∷ sub))) [
      | inl here ↦
          let found = is_prefix_rest s (b ∷ sub) here in
          ([], (found.0, (rw here (ap some found.1), (found.1, omega arith))))
      | inr later ↦
          let found = find_prefix-First pre b sub post in
          (
            c ∷ found.0,
            (
              found.1.0,
              (
                rw later found.1.1.0,
                (ap (λ xs. c ∷ xs) found.1.1.1.0, omega (arith, found.1.1.1.1)),
              ),
            ),
          )
    ]

-- Where `sub` occurs in a string, `strstr` finds an occurrence, and none that comes later.
pub strstr_first :
    (pre sub post : List ℕ)
    → (pre' : List ℕ) × ((post' : List ℕ) × ((strstr (pre ++ (sub ++ post)) sub
            ≡ some (sub ++ post'))
          × ((pre ++ (sub ++ post) ≡ pre' ++ (sub ++ post')) × (length pre' ≤ length pre))))
unfolding strstr First
strstr_first pre [] post = ([], (pre ++ post, (refl, (refl, omega arith))))
strstr_first pre (b ∷ sub) post = find_prefix-First pre b sub post
