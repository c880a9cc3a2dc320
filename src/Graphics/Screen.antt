-- ===== src/Graphics/Screen.antt =====
-- The two framebuffers of a display, the one that is drawn to and the one that is shown, and what a
-- flush does to them.
use ax_kernel.Prelude.{
  true, false, if◌then◌else◌, ◌≢◌, dec_lt, ◌⊎◌, sym, inr, inl, ℕ, zero, suc, ◌+◌, ◌-◌, ◌*◌, ◌^◌,
  ◌≤◌, ◌<◌, ◌≡◌, Bool, ◌&&◌, if_elim, arith, refl, ◌∙◌, ap,
}
use native.Mathlib.Nat.{mul-le-mul_left, mul-le-mul_right, mul_comm}
use ax_kernel.Graphics.{u32, Display, swap_buffers, gpu_resource_flush, pixel_index, in_display}
use ax_kernel.Prelude.Loop.{copy_range_lem, copy_range_miss}

-- Two framebuffers fit the address range, drawing goes to the back buffer, and the front buffer is the
-- other one.
pub record IsDisplay (d : Display) : Type 0 where
  pub fits : d.width * d.height * 8 < 2 ^ 32
  pub back : d.back_buffer ≤ 1
  pub front : d.front_buffer ≡ 1 - d.back_buffer
  pub place : d.framebuffer ≡ d.back_buffer * (d.width * d.height)

-- A pixel of the back buffer, to which the drawing routines write.
abbrev pub pixel : Display → ℕ → ℕ → ℕ
pixel d x y = d.storage (d.framebuffer + (y * d.width + x))

-- A pixel of the front buffer, from which the device reads the picture on the screen.
abbrev pub shown : Display → ℕ → ℕ → ℕ
shown d x y = d.storage (d.front_buffer * (d.width * d.height) + (y * d.width + x))

pub area_le : (w h a b : ℕ) → a ≤ w → b ≤ h → a * b ≤ w * h
area_le w h a b ha hb =
    omega (arith, mul-le-mul_right {m = a} {n = w} b ha, mul-le-mul_left {m = b} {n = h} w hb)

-- A pixel of row `y` lies before the end of a buffer of more than `y` rows.
pub row_end : (w h y : ℕ) → y < h → y * w + w ≤ w * h
row_end w h y lt =
    omega (arith, mul-le-mul_right {m = suc y} {n = h} w (omega (arith, lt)), mul_comm w h)

pub pixel_index_lem :
    (d : Display) (x y : ℕ)
    → IsDisplay d
    → x < d.width
    → y < d.height
    → pixel_index d x y ≡ y * d.width + x
pixel_index_lem d x y ok hx hy = omega (arith, row_end d.width d.height y hy, ok.fits, hx)

-- The place in a rectangle of rows of `w` tells row and column.
pub place_inj : (w x y x' y' : ℕ) → x < w → x' < w → y * w + x ≡ y' * w + x' → (y' ≡ y) × (x' ≡ x)
place_inj w x y x' y' hx hx' e =
    let row : y' ≡ y = elim (dec_lt y y') [
      | yes lt ↦
          absurd (omega (arith, mul-le-mul_right {m = suc y} {n = y'} w (omega (arith, lt)), hx, e))
      | no le ↦ elim (dec_lt y' y) [
        | yes lt ↦
            absurd
              (omega (arith, mul-le-mul_right {m = suc y'} {n = y} w (omega (arith, lt)), hx', e))
        | no ge ↦ omega (arith, le, ge)
      ]
    ] in
    (row, omega (arith, ap (λ r. r * w) row, e))

-- Where the two buffers lie, `b` being the one that is drawn to.
record Apart (b n : ℕ) : Type 0 where
  front : u32 (b * u32 n) ≡ b * n
  back : u32 ((1 - b) * u32 n) ≡ (1 - b) * n
  apart :
      (u32 (b * u32 n) + u32 n ≤ u32 ((1 - b) * u32 n))
      ⊎ (u32 ((1 - b) * u32 n) + u32 n ≤ u32 (b * u32 n))

buffers-Apart : (b n : ℕ) → b ≤ 1 → n * 8 < 2 ^ 32 → Apart b n
buffers-Apart zero n le fits = record {
  front = omega arith;
  back = omega (arith, fits);
  apart = inl (omega (arith, fits));
}
buffers-Apart (suc zero) n le fits = record {
  front = omega (arith, fits);
  back = omega arith;
  apart = inr (omega (arith, fits));
}
buffers-Apart (suc (suc b)) n le fits = absurd (omega (arith, le))

pub swap_buffers-IsDisplay : (d : Display) → IsDisplay d → IsDisplay (swap_buffers d)
unfolding swap_buffers
swap_buffers-IsDisplay d ok = record {
  fits = ok.fits;
  back = omega arith;
  front = omega (arith, ok.back);
  place = (buffers-Apart d.back_buffer (d.width * d.height) ok.back ok.fits).back;
}

pub pixel-swap_buffers :
    (d : Display) (x y : ℕ)
    → IsDisplay d
    → x < d.width
    → y < d.height
    → pixel (swap_buffers d) x y ≡ pixel d x y
unfolding swap_buffers
pixel-swap_buffers d x y ok hx hy =
    let n = d.width * d.height in
    let parts = buffers-Apart d.back_buffer n ok.back ok.fits in
    copy_range_lem (u32 n) (u32 ((1 - d.back_buffer) * u32 n)) (u32 (d.back_buffer * u32 n))
      d.storage (y * d.width + x) parts.apart
      (omega (arith, row_end d.width d.height y hy, ok.fits, hx))
    ∙ ap (λ p. d.storage (p + (y * d.width + x))) (parts.front ∙ sym ok.place)

-- The exchange shows what was drawn.
shown-swap_buffers :
    (d : Display) (x y : ℕ)
    → IsDisplay d
    → x < d.width
    → y < d.height
    → shown (swap_buffers d) x y ≡ pixel d x y
unfolding swap_buffers
shown-swap_buffers d x y ok hx hy =
    let n = d.width * d.height in
    let parts = buffers-Apart d.back_buffer n ok.back ok.fits in
    let row = row_end d.width d.height y hy in
    let place = y * d.width + x in
    copy_range_miss (u32 n) (u32 ((1 - d.back_buffer) * u32 n)) (u32 (d.back_buffer * u32 n))
      d.storage (d.back_buffer * n + place)
      (elim parts.apart [
        | inl le ↦ inl (omega (arith, le, parts.front, row, hx, ok.fits))
        | inr le ↦ inr (omega (arith, le, parts.front, row, hx, ok.fits))
      ])
    ∙ ap (λ p. d.storage (p + place)) (sym ok.place)

other_buffer : (b f n i j : ℕ) → b ≤ 1 → f ≡ 1 - b → i < n → j < n → f * n + i ≢ b * n + j
other_buffer zero f n i j le e hi hj same = absurd (omega (arith, ap (λ k. k * n) e, same, hj))
other_buffer (suc zero) f n i j le e hi hj same =
    absurd (omega (arith, ap (λ k. k * n) e, same, hi))
other_buffer (suc (suc b)) f n i j le e hi hj same = absurd (omega (arith, le))

-- No place of the front buffer is one of the back buffer.
pub front_apart :
    (d : Display) (x y px py : ℕ)
    → IsDisplay d
    → (x < d.width) × (y < d.height)
    → (px < d.width) × (py < d.height)
    → d.front_buffer * (d.width * d.height) + (py * d.width + px)
      ≢ d.framebuffer + (y * d.width + x)
front_apart d x y px py ok h hp e =
    other_buffer d.back_buffer d.front_buffer (d.width * d.height) (py * d.width + px)
      (y * d.width + x) ok.back ok.front (omega (arith, row_end d.width d.height py hp.1, hp.0))
      (omega (arith, row_end d.width d.height y h.1, h.0))
      (e ∙ ap (λ p. p + (y * d.width + x)) ok.place)

-- A flush of a rectangle on the display shows what was drawn if the device takes it, and nothing new
-- if not.
pub shown-gpu_resource_flush :
    (ok : Bool) (x y width height : ℕ) (d : Display) (px py : ℕ)
    → IsDisplay d
    → (x + width ≤ d.width) × (y + height ≤ d.height)
    → px < d.width
    → py < d.height
    → shown (gpu_resource_flush ok x y width height d) px py
      ≡ (if ok then pixel d px py else shown d px py)
unfolding gpu_resource_flush in_display
shown-gpu_resource_flush false x y width height d px py h fits hx hy =
    if_elim (λ d'. shown d' px py ≡ shown d px py) (in_display d x y width height && false)
      (λ e. absurd (ground (arith, e))) (λ _. refl)
shown-gpu_resource_flush true x y width height d px py h fits hx hy =
    if_elim (λ d'. shown d' px py ≡ pixel d px py) (in_display d x y width height && true)
      (λ _. shown-swap_buffers d px py h hx hy) (λ e. absurd (ground (arith, e, fits.0, fits.1)))

-- A flush keeps the picture and the state of the buffers, whatever the device answers.
pub gpu_resource_flush_lem :
    (ok : Bool) (x y width height : ℕ) (d : Display)
    → IsDisplay d
    → IsDisplay (gpu_resource_flush ok x y width height d)
unfolding gpu_resource_flush
gpu_resource_flush_lem ok x y width height d h =
    if_elim IsDisplay (in_display d x y width height && ok) (λ _. swap_buffers-IsDisplay d h)
      (λ _. h)

pub pixel-gpu_resource_flush :
    (ok : Bool) (x y width height : ℕ) (d : Display) (px py : ℕ)
    → IsDisplay d
    → px < d.width
    → py < d.height
    → pixel (gpu_resource_flush ok x y width height d) px py ≡ pixel d px py
unfolding gpu_resource_flush
pixel-gpu_resource_flush ok x y width height d px py h hx hy =
    if_elim (λ d'. pixel d' px py ≡ pixel d px py) (in_display d x y width height && ok)
      (λ _. pixel-swap_buffers d px py h hx hy) (λ _. refl)
