-- ===== src/Graphics/Line.antt =====
-- `gm_line` of src/manage/gm.c. The loop runs on fuel, one more than the number of steps to the other
-- end, each of which goes on by a row or a column (Graphics.Line.Ends).
pub mod Ends
pub mod Drawn
pub mod Between
use ax_kernel.Graphics.{Display, gm_pixel, gpu_resource_flush}
use ax_kernel.Prelude.Int.{ℤ, of_nat, neg, add, sub, le_int, lt_int, eq_int, to_u32}
use ax_kernel.Prelude.{
  ℕ, zero, suc, ◌+◌, ◌-◌, Bool, ◌&&◌, ◌||◌, Option, none, some, leb, ltb, if◌then◌else◌,
}
use ax_kernel.Prelude.Results.{◌>>=◌}

pub record Pen : Type 0 where
  pub x : ℤ
  pub y : ℤ
  pub error : ℤ

-- What does not change in the loop.
pub record Way : Type 0 where
  pub end_x : ℤ
  pub end_y : ℤ
  pub dx : ℤ
  pub dy : ℤ
  pub step_x : ℤ
  pub step_y : ℤ

unfoldable pub step_across : Way → ℤ → Pen → Pen
step_across w doubled_error pen =
    if le_int w.dy doubled_error
    then record pen { x = add pen.x w.step_x; error = add pen.error w.dy }
    else pen

unfoldable pub step_down : Way → ℤ → Pen → Pen
step_down w doubled_error pen =
    if le_int doubled_error w.dx
    then record pen { y = add pen.y w.step_y; error = add pen.error w.dx }
    else pen

unfoldable pub line_step : Way → Pen → Pen
unfolding step_across step_down
line_step w pen =
    let doubled_error = add pen.error pen.error in
    step_down w doubled_error (step_across w doubled_error pen)

unfoldable pub draw_line : ℕ → Way → ℕ → Pen → Display → Option Display
unfolding line_step
draw_line zero w color pen d = none
draw_line (suc fuel) w color pen d =
    let d' = gm_pixel (to_u32 pen.x) (to_u32 pen.y) color d in
    let rest = draw_line fuel w color (line_step w pen) d' in
    if eq_int pen.x w.end_x && eq_int pen.y w.end_y then some d' else rest

unfoldable pub line_way : ℕ → ℕ → ℕ → ℕ → Way
line_way x1 y1 x2 y2 =
    let x = of_nat x1 in
    let y = of_nat y1 in
    let end_x = of_nat x2 in
    let end_y = of_nat y2 in
    record {
      end_x = end_x;
      end_y = end_y;
      dx = if le_int x end_x then sub end_x x else sub x end_x;
      dy = if le_int y end_y then sub y end_y else sub end_y y;
      step_x = if lt_int x end_x then of_nat 1 else neg (of_nat 1);
      step_y = if lt_int y end_y then of_nat 1 else neg (of_nat 1);
    }

abbrev pub distance : ℕ → ℕ → ℕ
distance a b = if ltb a b then b - a else a - b

unfoldable pub gm_line : Bool → ℕ → ℕ → ℕ → ℕ → ℕ → Display → Option Display
unfolding draw_line line_way gpu_resource_flush
gm_line ok x1 y1 x2 y2 color d =
    let w = line_way x1 y1 x2 y2 in
    let pen : Pen = record { x = of_nat x1; y = of_nat y1; error = add w.dx w.dy } in
    let left = if ltb x1 x2 then x1 else x2 in
    let top = if ltb y1 y2 then y1 else y2 in
    if leb d.width x1 || (leb d.width x2 || (leb d.height y1 || leb d.height y2))
    then some d
    else (draw_line (suc (distance x1 x2 + distance y1 y2)) w color pen d >>= λ d'.
        some (gpu_resource_flush ok left top (distance x1 x2 + 1) (distance y1 y2 + 1) d'))
