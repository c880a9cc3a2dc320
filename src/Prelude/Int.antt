-- ===== src/Prelude/Int.antt =====
-- The signed numbers of the code, each as a difference of two numbers. They do not overflow where the
-- code uses them.
use Prim.Native.Nat.{ℕ, ◌+◌, ◌-◌, ◌*◌, ◌%◌, ◌^◌}
use ax_kernel.Prelude.Tests.{◌==◌, leb, ltb}
use mathlib.Core.Bool.{Bool}

pub record ℤ : Type 0 where
  pub plus : ℕ
  pub minus : ℕ

abbrev pub of_nat : ℕ → ℤ
of_nat n = record { plus = n; minus = 0 }

abbrev pub neg : ℤ → ℤ
neg a = record { plus = a.minus; minus = a.plus }

abbrev pub add : ℤ → ℤ → ℤ
add a b = record { plus = a.plus + b.plus; minus = a.minus + b.minus }

abbrev pub sub : ℤ → ℤ → ℤ
sub a b = add a (neg b)

abbrev pub le_int : ℤ → ℤ → Bool
le_int a b = leb (a.plus + b.minus) (b.plus + a.minus)

abbrev pub lt_int : ℤ → ℤ → Bool
lt_int a b = ltb (a.plus + b.minus) (b.plus + a.minus)

abbrev pub eq_int : ℤ → ℤ → Bool
eq_int a b = a.plus + b.minus == b.plus + a.minus

-- The conversion to `uint32_t`.
abbrev pub to_u32 : ℤ → ℕ
to_u32 a = (a.plus + (2 ^ 32 - 1) * a.minus) % 2 ^ 32
