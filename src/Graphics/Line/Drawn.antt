-- ===== src/Graphics/Line/Drawn.antt =====
-- What `gm_line` draws.
use ax_kernel.Graphics.{Display, gm_pixel, pixel_index}
use ax_kernel.Graphics.Screen.{IsDisplay, pixel, pixel_index_lem, place_inj, shown, front_apart}
use ax_kernel.Graphics.Line.{Pen, Way, line_step, draw_line}
use ax_kernel.Graphics.Line.Ends.{at, Is, IsWay, On, line_step-Further}
use ax_kernel.Prelude.Int.{ℤ, eq_int, to_u32}
use ax_kernel.Prelude.Loop.{write, write_self, write_other}
use ax_kernel.Prelude.{
  dec_lt, Bool-cases, ◌^◌, ℕ, zero, suc, ◌+◌, ◌*◌, ◌≤◌, ◌<◌, ◌≡◌, ◌≢◌, ◌⊎◌, inl, inr, Bool, true,
  false, ◌&&◌, ◌||◌, some, leb, arith, refl, sym, ap, ap₂, ◌∙◌, if_elim,
}

-- One pixel of the display set.
abbrev plot : ℕ → ℕ → ℕ → Display → Display
plot x y color d = record d { storage = write d.storage (d.framebuffer + pixel_index d x y) color }

gm_pixel_lem :
    (x y color : ℕ) (d : Display)
    → x < d.width
    → y < d.height
    → gm_pixel x y color d ≡ plot x y color d
unfolding gm_pixel
gm_pixel_lem x y color d hx hy =
    if_elim (λ (r : Display). r ≡ plot x y color d) (leb d.width x || leb d.height y)
      (λ off. absurd (ground (arith, off, hx, hy))) (λ _. refl)

module _ (x y color : ℕ) (d : Display) (h : IsDisplay d) (hx : x < d.width)
    (hy : y < d.height) where
  plot-IsDisplay : IsDisplay (plot x y color d)
  plot-IsDisplay = record { fits = h.fits; back = h.back; front = h.front; place = h.place }

  spot : d.framebuffer + pixel_index d x y ≡ d.framebuffer + (y * d.width + x)
  spot = ap (λ p. d.framebuffer + p) (pixel_index_lem d x y h hx hy)

  plot_self : pixel (plot x y color d) x y ≡ color
  plot_self = write_self d.storage _ color _ (sym spot)

  plot_other :
      (px py : ℕ)
      → px < d.width
      → (px ≡ x → py ≢ y)
      → pixel (plot x y color d) px py ≡ pixel d px py
  plot_other px py hp away = write_other d.storage _ color _ (λ e.
      let same = place_inj d.width px py x y hp hx (omega (arith, e, spot)) in
      away (sym same.1) (sym same.0))

  shown-plot :
      (px py : ℕ) → px < d.width → py < d.height → shown (plot x y color d) px py ≡ shown d px py
  shown-plot px py hp hq =
      write_other d.storage _ color _ (λ e. front_apart d x y px py h (hx, hy) (hp, hq) (e ∙ spot))

to_u32_lem : (a : ℤ) (n : ℕ) → Is a n → n < 2 ^ 32 → to_u32 a ≡ n
to_u32_lem a n e lt = omega (arith, e, lt)

module _ (up_x up_y : Bool) (x1 y1 a b : ℕ) (w : Way) (way : IsWay up_x up_y x1 y1 a b w)
    (color px py wd ht : ℕ) (inside : Bool) (sw : wd < 2 ^ 32) (sh : ht < 2 ^ 32) (hpx : px < wd)
    (in_width : (i : ℕ) → i ≤ a → at up_x x1 i < wd)
    (in_height : (j : ℕ) → j ≤ b → at up_y y1 j < ht)
    (outside : (i j : ℕ)
      → i ≤ a
      → j ≤ b
      → inside ≡ false
      → px ≡ at up_x x1 i
      → py ≢ at up_y y1 j) where
  pub record Done (d d' : Display) : Type 0 where
    pub wide : d'.width ≡ wd
    pub high : d'.height ≡ ht
    pub display : IsDisplay d'
    pub last : pixel d' (at up_x x1 a) (at up_y y1 b) ≡ color
    pub kept : inside ≡ false → pixel d' px py ≡ pixel d px py
    pub front : (qx qy : ℕ) → qx < wd → qy < ht → shown d' qx qy ≡ shown d qx qy

  pub record Ready (d : Display) : Type 0 where
    pub wide : d.width ≡ wd
    pub high : d.height ≡ ht
    pub display : IsDisplay d

  module _ (i j : ℕ) (pen : Pen) (d : Display) (on : On up_x up_y x1 y1 a b w way i j pen)
      (ready : Ready d) where
    abbrev here : Display
    here = plot (at up_x x1 i) (at up_y y1 j) color d

    on_width : at up_x x1 i < d.width
    on_width = omega (arith, in_width i on.across, ready.wide)

    on_height : at up_y y1 j < d.height
    on_height = omega (arith, in_height j on.down, ready.high)

    drawn_lem : gm_pixel (to_u32 pen.x) (to_u32 pen.y) color d ≡ here
    drawn_lem =
        ap₂ (λ x y. gm_pixel x y color d)
          (to_u32_lem pen.x (at up_x x1 i) on.column (omega (arith, in_width i on.across, sw)))
          (to_u32_lem pen.y (at up_y y1 j) on.row (omega (arith, in_height j on.down, sh)))
        ∙ gm_pixel_lem (at up_x x1 i) (at up_y y1 j) color d on_width on_height

    here-Ready : Ready here
    here-Ready = record {
      wide = ready.wide;
      high = ready.high;
      display = plot-IsDisplay _ _ color d ready.display on_width on_height;
    }

    here_kept : inside ≡ false → pixel here px py ≡ pixel d px py
    here_kept e =
        plot_other _ _ color d ready.display on_width on_height px py
          (omega (arith, hpx, ready.wide)) (outside i j on.across on.down e)

    here_front : (qx qy : ℕ) → qx < wd → qy < ht → shown here qx qy ≡ shown d qx qy
    here_front qx qy hq hr =
        shown-plot _ _ color d ready.display on_width on_height qx qy
          (omega (arith, hq, ready.wide)) (omega (arith, hr, ready.high))

    at_end : Bool
    at_end = eq_int pen.x w.end_x && eq_int pen.y w.end_y

    ends_x : w.end_x.plus ≡ at up_x x1 a + w.end_x.minus
    ends_x = omega (arith, ap (λ e. e.plus) way.end_x, ap (λ e. e.minus) way.end_x)

    ends_y : w.end_y.plus ≡ at up_y y1 b + w.end_y.minus
    ends_y = omega (arith, ap (λ e. e.plus) way.end_y, ap (λ e. e.minus) way.end_y)

    last_lem : at_end ≡ true → pixel here (at up_x x1 a) (at up_y y1 b) ≡ color
    unfolding at_end
    last_lem e =
        let column = on.column in
        let row = on.row in
        let same_x : at up_x x1 a ≡ at up_x x1 i = ground (arith, e, ends_x, column) in
        let same_y : at up_y y1 b ≡ at up_y y1 j = ground (arith, e, ends_y, row) in
        ap₂ (pixel here) same_x same_y
        ∙ plot_self (at up_x x1 i) (at up_y y1 j) color d ready.display on_width on_height

    short_lem : at_end ≡ false → (i < a) ⊎ (j < b)
    unfolding at_end
    short_lem e = elim (dec_lt i a) [
      | yes lt ↦ inl lt
      | no ge ↦ elim (dec_lt j b) [
        | yes lt ↦ inr lt
        | no ge' ↦
            let column : i ≡ a = omega (arith, ge, on.across) in
            let row : j ≡ b = omega (arith, ge', on.down) in
            let at_x : at up_x x1 i ≡ at up_x x1 a = ap (at up_x x1) column in
            let at_y : at up_y y1 j ≡ at up_y y1 b = ap (at up_y y1) row in
            absurd (ground (arith, e, ends_x, ends_y, at_x, at_y, on.column, on.row))
      ]
    ]

  abbrev pub Drawing : ℕ → Pen → Display → Type 0
  Drawing fuel pen d = (d' : Display) × ((draw_line fuel w color pen d ≡ some d') × Done d d')

  pub draw_line-Drawing :
      (fuel i j : ℕ) (pen : Pen) (d : Display)
      → On up_x up_y x1 y1 a b w way i j pen
      → Ready d
      → a + b < fuel + (i + j)
      → Drawing fuel pen d
  unfolding draw_line at_end
  draw_line-Drawing zero i j pen d on ready enough =
      absurd (omega (arith, enough, on.across, on.down))
  draw_line-Drawing (suc fuel) i j pen d on ready enough =
      elim (Bool-cases (at_end i j pen d on ready)) [
        | inl e ↦ (
          here i j pen d on ready,
          (
            rw e (ap some (drawn_lem i j pen d on ready)),
            record {
              wide = ready.wide;
              high = ready.high;
              display = (here-Ready i j pen d on ready).display;
              last = last_lem i j pen d on ready e;
              kept = here_kept i j pen d on ready;
              front = here_front i j pen d on ready;
            },
          ),
        )
        | inr e ↦
            let next =
              line_step-Further up_x up_y x1 y1 a b w way i j pen on
                (short_lem i j pen d on ready e) in
            let rest =
              draw_line-Drawing fuel next.0 next.1.0 (line_step w pen) (here i j pen d on ready)
                next.1.1.0 (here-Ready i j pen d on ready) (omega (arith, enough, next.1.1.1)) in
            (
              rest.0,
              (
                rw e (
                    ap (draw_line fuel w color (line_step w pen)) (drawn_lem i j pen d on ready)
                    ∙ rest.1.0),
                record {
                  wide = rest.1.1.wide;
                  high = rest.1.1.high;
                  display = rest.1.1.display;
                  last = rest.1.1.last;
                  kept = λ out. rest.1.1.kept out ∙ here_kept i j pen d on ready out;
                  front = λ qx qy hq hr.
                      rest.1.1.front qx qy hq hr ∙ here_front i j pen d on ready qx qy hq hr;
                },
              ),
            )
      ]
