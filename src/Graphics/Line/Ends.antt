-- ===== src/Graphics/Line/Ends.antt =====
-- The loop of `gm_line` ends at the other end of the line, and draws in the rectangle of the two ends.
use ax_kernel.Graphics.Line.{step_across, step_down, line_step, le_int, add, Pen, Way}
use ax_kernel.Prelude.Int.{ℤ, of_nat, neg}
use ax_kernel.Prelude.{
  if_elim, inr, false, dec_lt, inl, ◌⊎◌, true, ℕ, suc, ◌+◌, ◌-◌, ◌*◌, ◌≤◌, ◌<◌, ◌≡◌, Bool,
  if◌then◌else◌, arith, ap,
}
use native.Mathlib.Nat.{mul-le-mul_left, mul_comm}

-- Place `i` steps from `x`, upwards or downwards.
abbrev pub at : Bool → ℕ → ℕ → ℕ
at up x i = if up then x + i else x - i

-- A number and its value.
abbrev pub Is : ℤ → ℕ → Type 0
Is a n = a.plus ≡ n + a.minus

-- The line goes over `a` columns and `b` rows; the pen has gone over `i` of the columns and `j` of the
-- rows, and its error is `a * (j + 1) - b * (i + 1)`.
pub record OnLine (up_x up_y : Bool) (x1 y1 a b i j : ℕ) (pen : Pen) : Type 0 where
  pub column : Is pen.x (at up_x x1 i)
  pub row : Is pen.y (at up_y y1 j)
  pub error : pen.error.plus + b + b * i ≡ pen.error.minus + a + a * j
  pub across : i ≤ a
  pub down : j ≤ b

-- The way of a line over `a` columns and `b` rows from `(x1, y1)`.
pub record IsWay (up_x up_y : Bool) (x1 y1 a b : ℕ) (w : Way) : Type 0 where
  pub back_x : (up_x ≡ true) ⊎ (a ≤ x1)
  pub back_y : (up_y ≡ true) ⊎ (b ≤ y1)
  pub end_x : w.end_x ≡ of_nat (at up_x x1 a)
  pub end_y : w.end_y ≡ of_nat (at up_y y1 b)
  pub dx : Is w.dx a
  pub dy : w.dy.plus + b ≡ w.dy.minus
  pub step_x : w.step_x ≡ (if up_x then of_nat 1 else neg (of_nat 1))
  pub step_y : w.step_y ≡ (if up_y then of_nat 1 else neg (of_nat 1))

-- Further products.
next_product : (b i : ℕ) → b * (i + 1) ≡ b * i + b
next_product b i = omega arith

-- The steps that a round takes when the end is not reached: one at least, and none beyond the end.
module _ (a b i j plus minus : ℕ) (error : plus + b + b * i ≡ minus + a + a * j) (across : i ≤ a)
    (down : j ≤ b) where
  stays_in_columns : i ≡ a → j < b → plus + plus + b < minus + minus
  stays_in_columns e lt =
      let product = mul-le-mul_left {m = suc j} {n = b} a (omega (arith, lt)) in
      let same : b * i ≡ b * a = ap (λ k. b * k) e in
      omega (arith, product, same, mul_comm a b, error, lt)

  stays_in_rows : j ≡ b → i < a → minus + minus + a < plus + plus
  stays_in_rows e lt =
      let product = mul-le-mul_left {m = suc i} {n = a} b (omega (arith, lt)) in
      let same : a * j ≡ a * b = ap (λ k. a * k) e in
      omega (arith, product, same, mul_comm a b, error, lt)

step_value :
    (up : Bool) (x a i : ℕ) (c step : ℤ)
    → (up ≡ true) ⊎ (a ≤ x)
    → i < a
    → step ≡ (if up then of_nat 1 else neg (of_nat 1))
    → Is c (at up x i)
    → Is (add c step) (at up x (i + 1))
step_value true x a i c step room lt e h = omega (arith, h, ap (λ s. s.plus) e, ap (λ s. s.minus) e)
step_value false x a i c step (inl e') lt e h = absurd (ground (arith, e'))
step_value false x a i c step (inr le) lt e h =
    omega (arith, h, le, lt, ap (λ s. s.plus) e, ap (λ s. s.minus) e)

module _ (up_x up_y : Bool) (x1 y1 a b : ℕ) (w : Way) (way : IsWay up_x up_y x1 y1 a b w) where
  abbrev pub On : ℕ → ℕ → Pen → Type 0
  On = OnLine up_x up_y x1 y1 a b

  goes_across :
      (i j : ℕ) (pen : Pen)
      → On i j pen
      → i < a
      → On (i + 1) j (record pen { x = add pen.x w.step_x; error = add pen.error w.dy })
  goes_across i j pen on lt = record {
    column = step_value up_x x1 a i pen.x w.step_x way.back_x lt way.step_x on.column;
    row = on.row;
    error = omega (arith, on.error, next_product b i, way.dy);
    across = omega (arith, lt);
    down = on.down;
  }

  goes_down :
      (i j : ℕ) (pen : Pen)
      → On i j pen
      → j < b
      → On i (j + 1) (record pen { y = add pen.y w.step_y; error = add pen.error w.dx })
  goes_down i j pen on lt = record {
    column = on.column;
    row = step_value up_y y1 b j pen.y w.step_y way.back_y lt way.step_y on.row;
    error = omega (arith, on.error, next_product a j, way.dx);
    across = on.across;
    down = omega (arith, lt);
  }

  -- The pen `pen'` has gone further than `n` steps.
  abbrev pub Further : ℕ → Pen → Type 0
  Further n pen' = (i : ℕ) × ((j : ℕ) × (On i j pen' × (n < i + j)))

  module _ (i j : ℕ) (pen : Pen) (on : On i j pen) (short : (i < a) ⊎ (j < b)) where
    doubled : ℤ
    doubled = add pen.error pen.error

    may_go_across : le_int w.dy doubled ≡ true → i < a
    unfolding doubled
    may_go_across c = elim (dec_lt i a) [
      | yes lt ↦ lt
      | no ge ↦
          let rows : j < b = omega (arith, short, ge) in
          let stuck =
            stays_in_columns a b i j pen.error.plus pen.error.minus on.error on.across on.down
              (omega (arith, ge, on.across)) rows in
          absurd (ground (arith, c, stuck, way.dy))
    ]

    may_go_down : le_int doubled w.dx ≡ true → j < b
    unfolding doubled
    may_go_down c = elim (dec_lt j b) [
      | yes lt ↦ lt
      | no ge ↦
          let columns : i < a = omega (arith, short, ge) in
          let stuck =
            stays_in_rows a b i j pen.error.plus pen.error.minus on.error on.across on.down
              (omega (arith, ge, on.down)) columns in
          absurd (ground (arith, c, stuck, way.dx))
    ]

    one_goes : le_int w.dy doubled ≡ false → le_int doubled w.dx ≡ true
    unfolding doubled
    one_goes c = ground (arith, c, way.dx, way.dy)

    after :
        (i' : ℕ) (p : Pen)
        → On i' j p
        → (le_int doubled w.dx ≡ false → i < i')
        → i ≤ i'
        → Further (i + j) (step_down w doubled p)
    unfolding step_down
    after i' p on' ok le =
        if_elim (Further (i + j)) (le_int doubled w.dx)
          (λ c. (i', (j + 1, (goes_down i' j p on' (may_go_down c), omega (arith, le)))))
          (λ c. (i', (j, (on', omega (arith, ok c)))))

    pub line_step-Further : Further (i + j) (line_step w pen)
    unfolding line_step step_across doubled
    line_step-Further =
        if_elim (λ p. Further (i + j) (step_down w doubled p)) (le_int w.dy doubled)
          (λ c.
            after (i + 1) _ (goes_across i j pen on (may_go_across c)) (λ _. omega arith)
              (omega arith))
          (λ c. after i pen on (λ c'. ground (arith, one_goes c, c')) (omega arith))
