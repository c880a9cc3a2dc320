-- ===== src/Prelude/Bits.antt =====
-- `&`, `|` and `^` on binary digits: the law of the lowest digit, and what follows from it.
use Prim.Native.Nat.{max, differ, digits, bitwise, bit_and-bitwise, bit_or-bitwise, bit_xor-bitwise}
use native.Mathlib.Nat.{pow-suc, one-le-pow}
use ax_kernel.Prelude.{
  ◌-◌, ℕ, zero, suc, ◌+◌, ◌*◌, ◌/◌, ◌%◌, ◌^◌, ◌≤◌, ◌<◌, min, bit_and, bit_or, bit_xor, ◌≡◌, refl,
  ap, ◌∙◌, arith,
}

module _ (end_ : ℕ → ℕ) (op : ℕ → ℕ → ℕ) where
  -- Fuel beyond the first number makes no difference.
  digits_fuel : (x y k l : ℕ) → x ≤ l → x ≤ k → digits end_ op l x y ≡ digits end_ op k x y
  digits_fuel zero y zero zero hl hk = refl
  digits_fuel zero y (suc k) zero hl hk = refl
  digits_fuel zero y zero (suc l) hl hk = refl
  digits_fuel zero y (suc k) (suc l) hl hk = refl
  digits_fuel (suc x) y zero l hl hk = absurd (omega (arith, hk))
  digits_fuel (suc x) y (suc k) zero hl hk = absurd (omega (arith, hl))
  digits_fuel (suc x) y (suc k) (suc l) hl hk =
      let halves = digits_fuel (suc x / 2) (y / 2) k l (ground arith) (ground arith) in
      ap (λ high. high * 2 + op (suc x % 2) (y % 2)) halves

  lowest_digit :
      (x y : ℕ)
      → bitwise end_ op (suc x) y ≡ op (suc x % 2) (y % 2) + 2 * bitwise end_ op (suc x / 2) (y / 2)
  lowest_digit x y =
      let high = digits_fuel (suc x / 2) (y / 2) (suc x / 2) x (ground arith) (ground arith) in
      ap (λ t. t * 2 + op (suc x % 2) (y % 2)) high ∙ omega arith

differ_digits : (x y : ℕ) → x < 2 → y < 2 → differ x y ≡ (x + y) % 2
differ_digits zero y p q = omega arith
differ_digits (suc zero) zero p q = refl
differ_digits (suc zero) (suc zero) p q = refl
differ_digits (suc zero) (suc (suc y)) p q = absurd (omega arith)
differ_digits (suc (suc x)) y p q = absurd (omega arith)

-- The laws of the lowest digit.
pub bit_and_step : (x y : ℕ) → bit_and x y ≡ min (x % 2) (y % 2) + 2 * bit_and (x / 2) (y / 2)
bit_and_step zero y = simp bit_and-bitwise (ground arith)
bit_and_step (suc x) y = simp bit_and-bitwise (lowest_digit (λ t. 0) min x y)

-- A conjunction is at most the second number, for first numbers up to `n`.
pub bit_and_below : (n x y : ℕ) → x ≤ n → bit_and x y ≤ y
bit_and_below zero zero y le =
    let none : bit_and 0 y ≡ 0 = simp bit_and-bitwise (ground arith) in omega (arith, none)
bit_and_below zero (suc x) y le = absurd (omega (arith, le))
bit_and_below (suc n) x y le =
    let rest = bit_and_below n (x / 2) (y / 2) (omega (arith, le)) in
    omega (arith, bit_and_step x y, rest)

pub bit_or_step : (x y : ℕ) → bit_or x y ≡ max (x % 2) (y % 2) + 2 * bit_or (x / 2) (y / 2)
bit_or_step zero y = simp bit_or-bitwise (ground arith)
bit_or_step (suc x) y = simp bit_or-bitwise (lowest_digit (λ t. t) max x y)

pub bit_xor_step : (x y : ℕ) → bit_xor x y ≡ (x % 2 + y % 2) % 2 + 2 * bit_xor (x / 2) (y / 2)
bit_xor_step zero y = simp bit_xor-bitwise (ground arith)
bit_xor_step (suc x) y =
    rw (← differ_digits (suc x % 2) (y % 2) (omega arith) (omega arith))
      (simp bit_xor-bitwise (lowest_digit (λ t. t) differ x y))

bit_xor_cancel_below : (n a b : ℕ) → a ≤ n → b ≤ n → bit_xor (bit_xor a b) b ≡ a
bit_xor_cancel_below zero zero zero p q = refl
bit_xor_cancel_below zero (suc a) b p q = absurd (omega arith)
bit_xor_cancel_below zero zero (suc b) p q = absurd (omega arith)
bit_xor_cancel_below (suc n) a b p q = omega (
  arith,
  bit_xor_step a b,
  bit_xor_step (bit_xor a b) b,
  ap (λ t. bit_xor t (b / 2))
      (let e : bit_xor a b / 2 ≡ bit_xor (a / 2) (b / 2) = omega (arith, bit_xor_step a b) in e),
  bit_xor_cancel_below n (a / 2) (b / 2) (omega arith) (omega arith),
)

pub bit_xor_cancel : (a b : ℕ) → bit_xor (bit_xor a b) b ≡ a
bit_xor_cancel a b = bit_xor_cancel_below (a + b) a b (omega arith) (omega arith)

pub bit_xor-lt_pow : (k a b : ℕ) → a < 2 ^ k → b < 2 ^ k → bit_xor a b < 2 ^ k
bit_xor-lt_pow zero zero zero p q = omega arith
bit_xor-lt_pow zero (suc a) b p q = absurd (omega arith)
bit_xor-lt_pow zero zero (suc b) p q = absurd (omega arith)
bit_xor-lt_pow (suc k) a b p q = omega (
  arith,
  pow-suc 2 k,
  bit_xor_step a b,
  bit_xor-lt_pow k (a / 2) (b / 2) (omega (arith, pow-suc 2 k)) (omega (arith, pow-suc 2 k)),
)

bit_xor_comm_below : (n a b : ℕ) → a ≤ n → b ≤ n → bit_xor a b ≡ bit_xor b a
bit_xor_comm_below zero zero zero p q = refl
bit_xor_comm_below zero (suc a) b p q = absurd (omega arith)
bit_xor_comm_below zero zero (suc b) p q = absurd (omega arith)
bit_xor_comm_below (suc n) a b p q = omega (
  arith,
  bit_xor_step a b,
  bit_xor_step b a,
  bit_xor_comm_below n (a / 2) (b / 2) (omega arith) (omega arith),
)

pub bit_xor_comm : (a b : ℕ) → bit_xor a b ≡ bit_xor b a
bit_xor_comm a b = bit_xor_comm_below (a + b) a b (omega arith) (omega arith)

twice_pow : (w n : ℕ) → 2 * (w * 2 ^ n) ≡ w * 2 ^ suc n
twice_pow w n = ground (arith, ap (λ (p : ℕ). w * p) (pow-suc 2 n))

-- The low `k` digits and those above them are computed apart.
pub bit_and_parts :
    (k x y m n : ℕ)
    → x < 2 ^ k
    → m < 2 ^ k
    → bit_and (x + y * 2 ^ k) (m + n * 2 ^ k) ≡ bit_and x m + bit_and y n * 2 ^ k
bit_and_parts zero zero y zero n p q = ground arith
bit_and_parts zero zero y (suc m) n p q = absurd (omega arith)
bit_and_parts zero (suc x) y m n p q = absurd (omega arith)
bit_and_parts (suc k) x y m n p q = ground (
  arith,
  pow-suc 2 k,
  twice_pow y k,
  twice_pow n k,
  twice_pow (bit_and y n) k,
  bit_and_step (x + y * 2 ^ suc k) (m + n * 2 ^ suc k),
  bit_and_step x m,
  bit_and_parts k (x / 2) y (m / 2) n,
)

zero_within : (x fuel : ℕ) → x ≤ fuel → bit_and x 0 ≡ 0
zero_within zero fuel h = refl
zero_within (suc x) zero h = absurd (omega (arith, h))
zero_within (suc x) (suc fuel) h =
    let half = zero_within (suc x / 2) fuel (ground arith) in
    ground (arith, half, bit_and_step (suc x) 0)

pub bit_and-zero : (x : ℕ) → bit_and x 0 ≡ 0
bit_and-zero x = zero_within x x (omega arith)

low_part : (k q r : ℕ) → r < 2 ^ k → bit_and (r + q * 2 ^ k) (2 ^ k - 1) ≡ r
low_part zero q zero h = rw bit_and-zero refl
low_part zero q (suc r) h = absurd (omega arith)
low_part (suc k) q r h = ground (
  arith,
  pow-suc 2 k,
  one-le-pow k 2,
  twice_pow q k,
  bit_and_step (r + q * 2 ^ suc k) (2 ^ suc k - 1),
  low_part k q (r / 2),
)

-- A mask of the low `k` digits is the remainder by `2 ^ k`.
pub bit_and_mask : (k a : ℕ) → bit_and a (2 ^ k - 1) ≡ a % 2 ^ k
bit_and_mask k a = ground (arith, one-le-pow k 2, low_part k (a / 2 ^ k) (a % 2 ^ k))
