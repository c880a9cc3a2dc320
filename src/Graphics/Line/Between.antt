-- ===== src/Graphics/Line/Between.antt =====
-- `gm_line` from one point of the display to another.
use mathlib.Core.Bool.{true≢false}
use ax_kernel.Graphics.{Display, gpu_resource_flush}
use ax_kernel.Graphics.Screen.{
  IsDisplay, pixel, pixel-gpu_resource_flush, shown, shown-gpu_resource_flush, area_le,
}
use ax_kernel.Graphics.Rect.{in_rect}
use ax_kernel.Graphics.Line.{Pen, Way, line_way, gm_line, distance}
use ax_kernel.Graphics.Line.Ends.{at, IsWay, On}
use ax_kernel.Graphics.Line.Drawn.{Drawing, draw_line-Drawing}
use ax_kernel.Prelude.Int.{of_nat, neg, add, lt_int}
use ax_kernel.Prelude.{
  ◌^◌, min, Bool-cases, ℕ, suc, ◌+◌, ◌≤◌, ◌<◌, ◌≡◌, ◌≢◌, ◌⊎◌, inl, inr, Bool, true, false, ◌||◌,
  Option, some, leb, ltb, if◌then◌else◌, arith, refl, sym, ap, ap₂, ◌∙◌, if_elim,
}
use ax_kernel.Prelude.Results.{◌>>=◌}

at-distance : (x1 x2 : ℕ) → at (ltb x1 x2) x1 (distance x1 x2) ≡ x2
at-distance x1 x2 = ground arith

at_bound : (x1 x2 wd i : ℕ) → x1 < wd → x2 < wd → i ≤ distance x1 x2 → at (ltb x1 x2) x1 i < wd
at_bound x1 x2 wd i h1 h2 le = ground (arith, h1, h2, le)

at_between :
    (x1 x2 i : ℕ)
    → i ≤ distance x1 x2
    → (min x1 x2 ≤ at (ltb x1 x2) x1 i) × (at (ltb x1 x2) x1 i < min x1 x2 + (distance x1 x2 + 1))
at_between x1 x2 i le = (ground (arith, le), ground (arith, le))

inside_rect :
    (x y width height px py : ℕ)
    → (x ≤ px) × (px < x + width)
    → (y ≤ py) × (py < y + height)
    → in_rect x y width height px py ≡ true
inside_rect x y width height px py hx hy = ground (arith, hx.0, hx.1, hy.0, hy.1)

back_bound : (x1 x2 : ℕ) → (ltb x1 x2 ≡ true) ⊎ (distance x1 x2 ≤ x1)
back_bound x1 x2 = elim (Bool-cases (ltb x1 x2)) [ inl e ↦ inl e | inr e ↦ inr (ground (arith, e)) ]

one_step :
    (x1 x2 : ℕ)
    → (if lt_int (of_nat x1) (of_nat x2) then of_nat 1 else neg (of_nat 1))
      ≡ (if ltb x1 x2 then of_nat 1 else neg (of_nat 1))
one_step x1 x2 =
    let same : lt_int (of_nat x1) (of_nat x2) ≡ ltb x1 x2 = ground arith in
    ap (λ b. if b then of_nat 1 else neg (of_nat 1)) same

line_way-IsWay :
    (x1 y1 x2 y2 : ℕ)
    → IsWay (ltb x1 x2) (ltb y1 y2) x1 y1 (distance x1 x2) (distance y1 y2) (line_way x1 y1 x2 y2)
unfolding line_way
line_way-IsWay x1 y1 x2 y2 = record {
  back_x = back_bound x1 x2;
  back_y = back_bound y1 y2;
  end_x = ap of_nat (sym (at-distance x1 x2));
  end_y = ap of_nat (sym (at-distance y1 y2));
  dx = ground arith;
  dy = ground arith;
  step_x = one_step x1 x2;
  step_y = one_step y1 y2;
}

module _ (ok : Bool) (x1 y1 x2 y2 color : ℕ) (d : Display) (px py : ℕ) (h : IsDisplay d)
    (start : (x1 < d.width) × (y1 < d.height)) (finish : (x2 < d.width) × (y2 < d.height))
    (p : (px < d.width) × (py < d.height)) where
  abbrev a : ℕ
  a = distance x1 x2

  abbrev b : ℕ
  b = distance y1 y2

  abbrev w : Way
  w = line_way x1 y1 x2 y2

  abbrev way : IsWay (ltb x1 x2) (ltb y1 y2) x1 y1 a b w
  way = line_way-IsWay x1 y1 x2 y2

  abbrev inside : Bool
  inside = in_rect (min x1 x2) (min y1 y2) (a + 1) (b + 1) px py

  abbrev pen : Pen
  pen = record { x = of_nat x1; y = of_nat y1; error = add w.dx w.dy }

  pen-On : On (ltb x1 x2) (ltb y1 y2) x1 y1 a b w way 0 0 pen
  pen-On = record {
    column = ground arith;
    row = ground arith;
    error = omega (arith, way.dx, way.dy);
    across = omega arith;
    down = omega arith;
  }

  outside :
      (i j : ℕ)
      → i ≤ a
      → j ≤ b
      → inside ≡ false
      → px ≡ at (ltb x1 x2) x1 i
      → py ≢ at (ltb y1 y2) y1 j
  outside i j hi hj out e e' =
      let within =
        ap₂ (in_rect (min x1 x2) (min y1 y2) (a + 1) (b + 1)) e e'
        ∙ inside_rect (min x1 x2) (min y1 y2) (a + 1) (b + 1) _ _ (at_between x1 x2 i hi)
            (at_between y1 y2 j hj) in
      true≢false (sym within ∙ out)

  sw : d.width < 2 ^ 32
  sw =
      omega
        (arith, h.fits, area_le d.width d.height d.width 1 (omega arith) (omega (arith, start.1)))

  sh : d.height < 2 ^ 32
  sh =
      omega
        (arith, h.fits, area_le d.width d.height 1 d.height (omega (arith, start.0)) (omega arith))

  abbrev drawing :
      Drawing
        (ltb x1 x2)
        (ltb y1 y2)
        x1
        y1
        a
        b
        w
        way
        color
        px
        py
        d.width
        d.height
        inside
        sw
        sh
        p.0
        (λ i. at_bound x1 x2 d.width i start.0 finish.0)
        (λ j. at_bound y1 y2 d.height j start.1 finish.1)
        outside
        (suc (a + b))
        pen
        d
  drawing =
      draw_line-Drawing (ltb x1 x2) (ltb y1 y2) x1 y1 a b w way color px py d.width d.height inside
        sw sh p.0 (λ i. at_bound x1 x2 d.width i start.0 finish.0)
        (λ j. at_bound y1 y2 d.height j start.1 finish.1) outside (suc (a + b)) 0 0 pen d pen-On
        (record { wide = refl; high = refl; display = h }) (omega arith)

  abbrev flushed : Display
  flushed =
      gpu_resource_flush ok (if ltb x1 x2 then x1 else x2) (if ltb y1 y2 then y1 else y2) (a + 1)
        (b + 1) drawing.0

  gm_line_lem : gm_line ok x1 y1 x2 y2 color d ≡ some flushed
  unfolding gm_line
  gm_line_lem =
      if_elim (λ (r : Option Display). r ≡ some flushed)
        (leb d.width x1 || (leb d.width x2 || (leb d.height y1 || leb d.height y2)))
        (λ off. absurd (ground (arith, off, start.0, start.1, finish.0, finish.1)))
        (λ _.
          ap
            (λ (o : Option Display). o >>= λ d'. some (
              gpu_resource_flush ok (if ltb x1 x2 then x1 else x2) (if ltb y1 y2 then y1 else y2)
                (a + 1) (b + 1) d'))
            drawing.1.0)

  pixel-flushed :
      (qx qy : ℕ) → qx < d.width → qy < d.height → pixel flushed qx qy ≡ pixel drawing.0 qx qy
  pixel-flushed qx qy hx hy =
      let done = drawing.1.1 in
      pixel-gpu_resource_flush ok (if ltb x1 x2 then x1 else x2) (if ltb y1 y2 then y1 else y2)
        (a + 1) (b + 1) drawing.0 qx qy done.display (omega (arith, hx, done.wide))
        (omega (arith, hy, done.high))

  end_drawn : pixel flushed x2 y2 ≡ color
  end_drawn =
      pixel-flushed x2 y2 finish.0 finish.1
      ∙ (ap₂ (pixel drawing.0) (sym (at-distance x1 x2)) (sym (at-distance y1 y2))
          ∙ drawing.1.1.last)

  fits_across : (if ltb x1 x2 then x1 else x2) + (a + 1) ≤ drawing.0.width
  fits_across = ground (arith, start.0, finish.0, drawing.1.1.wide)

  fits_down : (if ltb y1 y2 then y1 else y2) + (b + 1) ≤ drawing.0.height
  fits_down = ground (arith, start.1, finish.1, drawing.1.1.high)

  end_shown : shown flushed x2 y2 ≡ (if ok then color else shown d x2 y2)
  end_shown =
      let done = drawing.1.1 in
      shown-gpu_resource_flush ok (if ltb x1 x2 then x1 else x2) (if ltb y1 y2 then y1 else y2)
        (a + 1) (b + 1) drawing.0 x2 y2 done.display (fits_across, fits_down)
        (omega (arith, finish.0, done.wide)) (omega (arith, finish.1, done.high))
      ∙ ap₂ (λ p s. if ok then p else s)
          (ap₂ (pixel drawing.0) (sym (at-distance x1 x2)) (sym (at-distance y1 y2)) ∙ done.last)
          (done.front x2 y2 finish.0 finish.1)

  others_drawn : (inside ≡ true) ⊎ (pixel flushed px py ≡ pixel d px py)
  others_drawn = elim (Bool-cases inside) [
    | inl e ↦ inl e
    | inr e ↦ inr (pixel-flushed px py p.0 p.1 ∙ drawing.1.1.kept e)
  ]

-- Both ends lie on the display: the loop ends within the steps that the rows and columns between them
-- allow, whatever the device answers to the flush. Afterwards the second end has the colour in the back
-- buffer, to which the line is drawn, and there a pixel outside the rectangle of the two ends is what
-- it was. On the screen, in the front buffer, the second end has the colour if the device takes the
-- flush, and is what it was if not.
pub gm_line_ends :
    (ok : Bool) (x1 y1 x2 y2 color : ℕ) (d : Display) (px py : ℕ)
    → IsDisplay d
    → (x1 < d.width) × (y1 < d.height)
    → (x2 < d.width) × (y2 < d.height)
    → (px < d.width) × (py < d.height)
    → (d' : Display) × ((gm_line ok x1 y1 x2 y2 color d ≡ some d')
        × (((pixel d' x2 y2 ≡ color) × (shown d' x2 y2 ≡ (if ok then color else shown d x2 y2)))
            × ((in_rect (min x1 x2) (min y1 y2) (distance x1 x2 + 1) (distance y1 y2 + 1) px py
                  ≡ true)
                ⊎ (pixel d' px py ≡ pixel d px py))))
gm_line_ends ok x1 y1 x2 y2 color d px py h start finish p = (
  flushed ok x1 y1 x2 y2 color d px py h start finish p,
  (
    gm_line_lem ok x1 y1 x2 y2 color d px py h start finish p,
    (
      (
        end_drawn ok x1 y1 x2 y2 color d px py h start finish p,
        end_shown ok x1 y1 x2 y2 color d px py h start finish p,
      ),
      others_drawn ok x1 y1 x2 y2 color d px py h start finish p,
    ),
  ),
)
