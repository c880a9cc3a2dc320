-- ===== src/Graphics/Rect.antt =====
-- `draw` and `gm_rect` of src/manage/gm.c, pixel by pixel.
use ax_kernel.Prelude.{
  true, refl, inr, ap₂, inl, ◌==◌, Bool-cases, ◌||◌, ◌-◌, if_elim, if◌then◌else◌, sym, ℕ, ◌+◌, ◌*◌,
  ◌≤◌, ◌<◌, ◌≡◌, Bool, false, ◌&&◌, arith, ◌∙◌, ap,
}
use ax_kernel.Graphics.{gm_rect, draw, cut_length, ltb, leb, Display, pixel_index}
use ax_kernel.Graphics.Screen.{
  pixel-gpu_resource_flush, gpu_resource_flush_lem, IsDisplay, pixel, pixel_index_lem, place_inj,
  shown, front_apart, shown-gpu_resource_flush,
}
use ax_kernel.Prelude.Loop.{fill, fill_hit, fill_miss}

-- Whether pixel `(px, py)` lies in the rectangle.
abbrev pub in_rect : ℕ → ℕ → ℕ → ℕ → ℕ → ℕ → Bool
in_rect x y width height px py =
    (leb x px && ltb px (x + width)) && (leb y py && ltb py (y + height))

module _ (d : Display) (x y width height : ℕ) (value : ℕ → ℕ → ℕ) (h : IsDisplay d)
    (hx : x + width ≤ d.width) (hy : y + height ≤ d.height) where
  abbrev place : ℕ → ℕ → ℕ
  place row col = d.framebuffer + pixel_index d (x + col) (y + row)

  abbrev drawn : Display
  drawn = record d { storage = fill height width place value d.storage }

  place_lem :
      (row col : ℕ)
      → row < height
      → col < width
      → place row col ≡ d.framebuffer + ((y + row) * d.width + (x + col))
  place_lem row col hr hc =
      ap (λ p. d.framebuffer + p)
        (pixel_index_lem d (x + col) (y + row) h (omega (arith, hx, hc)) (omega (arith, hy, hr)))

  drawn-IsDisplay : IsDisplay drawn
  drawn-IsDisplay = record { fits = h.fits; back = h.back; front = h.front; place = h.place }

  apart :
      (row col px py : ℕ)
      → row < height
      → col < width
      → px < d.width
      → d.framebuffer + (py * d.width + px) ≡ place row col
      → (y + row ≡ py) × (x + col ≡ px)
  apart row col px py hr hc hp e =
      place_inj d.width px py (x + col) (y + row) hp (omega (arith, hx, hc))
        (omega (arith, e, place_lem row col hr hc))

  drawn_inside :
      (row col : ℕ) → row < height → col < width → pixel drawn (x + col) (y + row) ≡ value row col
  drawn_inside row col hr hc =
      ap drawn.storage (sym (place_lem row col hr hc))
      ∙ fill_hit height width place value d.storage row col hr hc (λ r c hr' hc' e.
        let same =
          apart r c (x + col) (y + row) hr' hc' (omega (arith, hx, hc))
            (sym (place_lem row col hr hc) ∙ e) in
        (omega (arith, same.0), omega (arith, same.1)))

  drawn_outside :
      (px py : ℕ)
      → px < d.width
      → in_rect x y width height px py ≡ false
      → pixel drawn px py ≡ pixel d px py
  drawn_outside px py hp out =
      fill_miss height width place value d.storage (d.framebuffer + (py * d.width + px))
        (λ row col hr hc e.
          let same = apart row col px py hr hc hp e in ground (arith, same.0, same.1, out, hr, hc))

  pub pixel-draw :
      (ok : Bool) (px py : ℕ)
      → px < d.width
      → py < d.height
      → pixel (draw ok x y width height value d) px py
        ≡ (if in_rect x y width height px py then value (py - y) (px - x) else pixel d px py)
  unfolding draw
  pixel-draw ok px py hp hq =
      pixel-gpu_resource_flush ok x y width height drawn px py drawn-IsDisplay hp hq
      ∙ elim (Bool-cases (in_rect x y width height px py)) [
        | inl inside ↦
            let right : x + (px - x) ≡ px = ground (arith, inside) in
            let down : y + (py - y) ≡ py = ground (arith, inside) in
            ap₂ (pixel drawn) (sym right) (sym down)
            ∙ (drawn_inside (py - y) (px - x) (ground (arith, inside)) (ground (arith, inside))
                ∙ rw inside refl)
        | inr outside ↦ drawn_outside px py hp outside ∙ rw outside refl
      ]

  -- Drawing leaves the front buffer alone.
  shown-drawn : (px py : ℕ) → px < d.width → py < d.height → shown drawn px py ≡ shown d px py
  shown-drawn px py hp hq =
      fill_miss height width place value d.storage
        (d.front_buffer * (d.width * d.height) + (py * d.width + px))
        (λ row col hr hc e.
          front_apart d (x + col) (y + row) px py h (omega (arith, hx, hc), omega (arith, hy, hr))
            (hp, hq) (e ∙ place_lem row col hr hc))

  pub shown-draw :
      (ok : Bool) (px py : ℕ)
      → px < d.width
      → py < d.height
      → shown (draw ok x y width height value d) px py
        ≡ (if ok then pixel (draw ok x y width height value d) px py else shown d px py)
  unfolding draw
  shown-draw ok px py hp hq =
      shown-gpu_resource_flush ok x y width height drawn px py drawn-IsDisplay (hx, hy) hp hq
      ∙ ap₂ (λ p s. if ok then p else s)
          (sym (pixel-gpu_resource_flush ok x y width height drawn px py drawn-IsDisplay hp hq))
          (shown-drawn px py hp hq)

  pub draw-IsDisplay : (ok : Bool) → IsDisplay (draw ok x y width height value d)
  unfolding draw
  draw-IsDisplay ok = gpu_resource_flush_lem ok x y width height drawn drawn-IsDisplay

pub cut_length_fits : (limit x width : ℕ) → x < limit → x + cut_length limit x width ≤ limit
cut_length_fits limit x width lt = ground (arith, lt)

-- The rectangle cut at the edges has the pixels that the whole one has on the display.
pub in_rect-cut_length :
    (w h x y width height px py : ℕ)
    → px < w
    → py < h
    → x < w
    → y < h
    → in_rect x y (cut_length w x width) (cut_length h y height) px py
      ≡ in_rect x y width height px py
in_rect-cut_length w h x y width height px py hp hq hx hy = ground (arith, hp, hq, hx, hy)

-- Whether a rectangle has a pixel on the display.
abbrev pub meets : Display → ℕ → ℕ → ℕ → ℕ → Bool
meets d x y width height = (ltb x d.width && ltb y d.height) && (ltb 0 width && ltb 0 height)

-- After `gm_rect`, a pixel of the back buffer has the colour if it lies in the rectangle, also in one
-- that reaches over the edges, and is what it was if it does not. The same pixel of the front buffer,
-- the one on the screen, is that of the back buffer if the rectangle has a pixel on the display and
-- the device takes the flush, and what it was otherwise. The state of the two buffers stays
-- consistent.
pub pixel-gm_rect :
    (ok : Bool) (x y width height color : ℕ) (d : Display) (px py : ℕ)
    → IsDisplay d
    → px < d.width
    → py < d.height
    → let d' = gm_rect ok x y width height color d in
      (pixel d' px py ≡ (if in_rect x y width height px py then color else pixel d px py))
      × ((shown d' px py
            ≡ (if meets d x y width height && ok then pixel d' px py else shown d px py))
          × IsDisplay d')
unfolding gm_rect
pixel-gm_rect ok x y width height color d px py h hp hq =
    let Good : Display → Type 0 = λ d'.
      (pixel d' px py ≡ (if in_rect x y width height px py then color else pixel d px py))
      × ((shown d' px py
            ≡ (if meets d x y width height && ok then pixel d' px py else shown d px py))
          × IsDisplay d') in
    if_elim Good (leb d.width x || (leb d.height y || ((width == 0) || (height == 0))))
      (λ off. (ground (arith, off, hp, hq), (ground (arith, off), h)))
      (λ on.
        let hx : x < d.width = ground (arith, on) in
        let hy : y < d.height = ground (arith, on) in
        let on_screen : meets d x y width height ≡ true = ground (arith, on) in
        let fx = cut_length_fits d.width x width hx in
        let fy = cut_length_fits d.height y height hy in
        (
          pixel-draw d x y (cut_length d.width x width) (cut_length d.height y height)
                (λ row col. color) h fx fy ok px py hp hq
              ∙ ap (λ b. if b then color else pixel d px py)
                  (in_rect-cut_length d.width d.height x y width height px py hp hq hx hy),
          (
            rw on_screen (
                shown-draw d x y (cut_length d.width x width) (cut_length d.height y height)
                  (λ row col. color) h fx fy ok px py hp hq),
            draw-IsDisplay d x y (cut_length d.width x width) (cut_length d.height y height)
                (λ row col. color) h fx fy ok,
          ),
        ))
