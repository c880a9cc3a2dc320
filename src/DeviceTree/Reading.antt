-- ===== src/DeviceTree/Reading.antt =====
-- What the helpers of src/global/dtb.c read where a device tree stands (Layout).
use ax_kernel.Prelude.{
  inr, inl, ap₂, ◌==◌, if_elim, sym, true, zero, ◌/◌, length, refl, suc, ◌%◌, ◌∙◌, [], ap, arith,
  false, ◌*◌, ◌∷◌, ◌≢◌, List, ◌+◌, ◌<◌, ◌^◌, ◌≡◌, ℕ,
}
use ax_kernel.Prelude.Int.{ℤ, of_nat, eq_int}
use ax_kernel.Text.{difference, strcmp}
use ax_kernel.Prelude.Bytes.{string_at, little_endian}
use ax_kernel.DeviceTree.{
  reg_name, interrupts_name, fdt32_to_cpu, fdt64_to_cpu, word_at, fdt_align, fdt_strnlen, is_named,
}
use ax_kernel.DeviceTree.Layout.{
  word32, word64, padded, Spells, Differs, reg_string, interrupts_string, id_register,
}

-- Four bytes, lowest first, and their exchange.
abbrev low_first : (ℕ → ℕ) → ℕ → ℕ
low_first memory a =
    memory a + 2 ^ 8 * memory (a + 1) + 2 ^ 16 * memory (a + 2) + 2 ^ 24 * memory (a + 3)

next_addresses :
    (memory : ℕ → ℕ) (a : ℕ)
    → (memory (a + 1 + 1) ≡ memory (a + 2)) × (memory (a + 1 + 1 + 1) ≡ memory (a + 3))
next_addresses memory a = (ap memory (omega arith), ap memory (omega arith))

pub little_endian-low_first :
    (memory : ℕ → ℕ) (a : ℕ) → little_endian memory 4 a ≡ low_first memory a
unfolding little_endian
little_endian-low_first memory a =
    let (two, three) = next_addresses memory a in omega (arith, two, three)

little_endian_eight :
    (memory : ℕ → ℕ) (a : ℕ)
    → little_endian memory 8 a ≡ low_first memory a + 2 ^ 32 * low_first memory (a + 4)
unfolding little_endian
little_endian_eight memory a =
    let (two, three) = next_addresses memory a in
    let four : a + 1 + 1 + 1 + 1 ≡ a + 4 = omega arith in
    let rest = little_endian-low_first memory (a + 4) in
    let high : little_endian memory 4 (a + 1 + 1 + 1 + 1) ≡ low_first memory (a + 4) =
      ap (little_endian memory 4) four ∙ rest in
    omega (arith, two, three, high)

pub id_register_lem :
    (memory : ℕ → ℕ) (a : ℕ) → little_endian memory 4 (a + 8) ≡ id_register memory a
id_register_lem memory a =
    let nine : memory (a + 8 + 1) ≡ memory (a + 9) = ap memory (omega arith) in
    let ten : memory (a + 8 + 2) ≡ memory (a + 10) = ap memory (omega arith) in
    let eleven : memory (a + 8 + 3) ≡ memory (a + 11) = ap memory (omega arith) in
    omega (arith, little_endian-low_first memory (a + 8), nine, ten, eleven)

swapped :
    (b0 b1 b2 b3 : ℕ)
    → (b0 < 256) × (b1 < 256)
    → (b2 < 256) × (b3 < 256)
    → fdt32_to_cpu (b0 + 2 ^ 8 * b1 + 2 ^ 16 * b2 + 2 ^ 24 * b3)
      ≡ 2 ^ 24 * b0 + 2 ^ 16 * b1 + 2 ^ 8 * b2 + b3
unfolding fdt32_to_cpu
swapped b0 b1 b2 b3 h1 h2 = omega (arith, h1.0, h1.1, h2.0, h2.1)

module _ (memory : ℕ → ℕ) (bytes : (a : ℕ) → memory a < 256) where
  swapped_word : (a : ℕ) → fdt32_to_cpu (low_first memory a) ≡ word32 memory a
  swapped_word a =
      swapped (memory a) (memory (a + 1)) (memory (a + 2)) (memory (a + 3)) (bytes a, bytes (a + 1))
        (bytes (a + 2), bytes (a + 3))

  pub word_at-word32 : (a : ℕ) → word_at memory a ≡ word32 memory a
  unfolding word_at
  word_at-word32 a = ap fdt32_to_cpu (little_endian-low_first memory a) ∙ swapped_word a

  low_first_bound : (a : ℕ) → low_first memory a < 2 ^ 32
  low_first_bound a = omega (arith, bytes a, bytes (a + 1), bytes (a + 2), bytes (a + 3))

  halves :
      (x y : ℕ)
      → x < 2 ^ 32
      → y < 2 ^ 32
      → ((x + 2 ^ 32 * y) % 2 ^ 32 ≡ x) × ((x + 2 ^ 32 * y) / 2 ^ 32 % 2 ^ 32 ≡ y)
  halves x y hx hy = (omega (arith, hx, hy), omega (arith, hx, hy))

  pub fdt64_to_cpu-word64 : (a : ℕ) → fdt64_to_cpu (little_endian memory 8 a) ≡ word64 memory a
  unfolding fdt64_to_cpu
  fdt64_to_cpu-word64 a =
      let (low, high) =
        halves (low_first memory a) (low_first memory (a + 4)) (low_first_bound a)
          (low_first_bound (a + 4)) in
      let first = ap fdt32_to_cpu low ∙ swapped_word a in
      let second = ap fdt32_to_cpu high ∙ swapped_word (a + 4) in
      ap fdt64_to_cpu (little_endian_eight memory a) ∙ omega (arith, first, second)

  pub fdt_align-padded : (n : ℕ) → n + 3 < 2 ^ 32 → fdt_align n ≡ padded n
  unfolding fdt_align
  fdt_align-padded n lt = omega (arith, lt)

  -- The length of a name, with room for `n` bytes.
  pub fdt_strnlen_lem :
      (n a len : ℕ)
      → len < n
      → ((k : ℕ) → k < len → memory (a + k) ≢ 0)
      → memory (a + len) ≡ 0
      → fdt_strnlen memory a n ≡ len
  unfolding fdt_strnlen
  fdt_strnlen_lem zero a len lt full ends = absurd (omega (arith, lt))
  fdt_strnlen_lem (suc n) a zero lt full ends =
      let here : memory a ≡ 0 = ap memory (omega arith) ∙ ends in ground (arith, here)
  fdt_strnlen_lem (suc n) a (suc len) lt full ends =
      let here : memory a ≢ 0 = λ e. full 0 (omega arith) (ap memory (omega arith) ∙ e) in
      let rest =
        fdt_strnlen_lem n (a + 1) len (omega (arith, lt))
          (λ k h e. full (suc k) (omega (arith, h)) (ap memory (omega arith) ∙ e))
          (ap memory (omega arith) ∙ ends) in
      ground (arith, here, rest)

  -- No byte of the string is 0.
  abbrev NonZero : List ℕ → Type 0
  NonZero [] = ◌≡◌ {A = ℕ} 0 0
  NonZero (c ∷ cs) = (c ≢ 0) × NonZero cs

  -- The bytes of a string without a 0 that is spelled.
  string_at-Spells :
      (n a : ℕ) (cs : List ℕ)
      → length cs < n
      → NonZero cs
      → Spells memory a cs
      → string_at memory n a ≡ cs
  unfolding string_at Spells
  string_at-Spells zero a cs lt ok h = absurd (omega (arith, lt))
  string_at-Spells (suc n) a [] lt ok h = ground (arith, h)
  string_at-Spells (suc n) a (c ∷ cs) lt ok h =
      let rest = string_at-Spells n (a + 1) cs (omega (arith, lt)) ok.1 h.1 in
      let here : memory a ≢ 0 = λ z. ok.0 (sym h.0 ∙ z) in
      if_elim (λ (l : List ℕ). l ≡ c ∷ cs) (memory a == 0) (λ z. absurd (ground (arith, z, here)))
        (λ _. ap₂ ◌∷◌ h.0 rest)

  -- A string that differs is not found equal.
  strcmp-Differs :
      (n a : ℕ) (cs : List ℕ)
      → length cs < n
      → NonZero cs
      → Differs memory a cs
      → eq_int (strcmp (string_at memory n a) cs) (of_nat 0) ≡ false
  unfolding string_at Differs strcmp difference
  strcmp-Differs zero a cs lt ok h = absurd (omega (arith, lt))
  strcmp-Differs (suc n) a [] lt ok h =
      if_elim (λ (l : List ℕ). eq_int (strcmp l []) (of_nat 0) ≡ false) (memory a == 0)
        (λ z. absurd (ground (arith, z, h))) (λ _. ground (arith, h))
  strcmp-Differs (suc n) a (c ∷ cs) lt ok h =
      if_elim (λ (l : List ℕ). eq_int (strcmp l (c ∷ cs)) (of_nat 0) ≡ false) (memory a == 0)
        (λ z. ground (arith, ok.0))
        (λ _.
          if_elim (λ (r : ℤ). eq_int r (of_nat 0) ≡ false) (memory a == c)
            (λ same. elim h [
              | inl ne ↦ absurd (ground (arith, same, ne))
              | inr later ↦ strcmp-Differs n (a + 1) cs (omega (arith, lt)) ok.1 later.1
            ])
            (λ ne. ground (arith, ne)))

  reg_letters : NonZero reg_string
  reg_letters = (omega arith, (omega arith, (omega arith, refl)))

  interrupts_letters : NonZero interrupts_string
  interrupts_letters = (
    omega arith,
    (
      omega arith,
      (
        omega arith,
        (
          omega arith,
          (
            omega arith,
            (omega arith, (omega arith, (omega arith, (omega arith, (omega arith, refl))))),
          ),
        ),
      ),
    ),
  )

  pub reg-is_named :
      (name : ℕ)
      → Spells memory name reg_string
      → (is_named memory name reg_name ≡ true) × (is_named memory name interrupts_name ≡ false)
  unfolding is_named strcmp difference
  reg-is_named name h =
      let e = string_at-Spells 11 name reg_string (omega arith) reg_letters h in
      (
        ap (λ l. eq_int (strcmp l reg_name) (of_nat 0)) e,
        ap (λ l. eq_int (strcmp l interrupts_name) (of_nat 0)) e,
      )

  pub interrupts-is_named :
      (name : ℕ)
      → Spells memory name interrupts_string
      → (is_named memory name reg_name ≡ false) × (is_named memory name interrupts_name ≡ true)
  unfolding is_named strcmp difference
  interrupts-is_named name h =
      let e = string_at-Spells 11 name interrupts_string (omega arith) interrupts_letters h in
      (
        ap (λ l. eq_int (strcmp l reg_name) (of_nat 0)) e,
        ap (λ l. eq_int (strcmp l interrupts_name) (of_nat 0)) e,
      )

  pub other-is_named :
      (name : ℕ)
      → Differs memory name reg_string
      → Differs memory name interrupts_string
      → (is_named memory name reg_name ≡ false) × (is_named memory name interrupts_name ≡ false)
  unfolding is_named
  other-is_named name h1 h2 = (
    strcmp-Differs 11 name reg_string (omega arith) reg_letters h1,
    strcmp-Differs 11 name interrupts_string (omega arith) interrupts_letters h2,
  )
