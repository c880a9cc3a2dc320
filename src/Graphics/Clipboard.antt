-- ===== src/Graphics/Clipboard.antt =====
-- `gm_copy` and `gm_paste`.
use ax_kernel.Graphics.Screen.{
  area_le, IsDisplay, pixel, row_end, pixel_index_lem, place_inj, shown,
}
use ax_kernel.Graphics.{
  paste_from, leb, ltb, Graphics, gm_copy, gm_paste, copy_rect, take_clipboard, paste_clipboard,
  cut_length, pixel_index,
}
use ax_kernel.Graphics.Rect.{shown-draw, pixel-draw, in_rect, cut_length_fits}
use ax_kernel.Heap.{heap_alloc, Heap}
use ax_kernel.Prelude.Loop.{fill_hit}
use ax_kernel.Prelude.Word.{u32, u64}
use ax_kernel.Prelude.Results.{some_inj}
use ax_kernel.Prelude.{
  Option, none, ap₂, sym, subst, ◌||◌, if◌then◌else◌, ℕ, ◌+◌, ◌-◌, ◌*◌, ◌^◌, ◌≤◌, ◌<◌, ◌≡◌, Bool,
  true, if_elim, arith, refl, ◌∙◌, ap, some,
}

-- The word of a clipboard at `p`, of rows of `width` pixels.
abbrev word_place : ℕ → ℕ → ℕ → ℕ → ℕ
word_place p width row col = p + u32 (u32 (row * width) + col) * 4

-- The words of a clipboard of less than 2 ^ 30 pixels are apart from each other.
word_place_inj :
    (p width height row col r c : ℕ)
    → width * height * 4 < 2 ^ 32
    → row < height
    → col < width
    → r < height
    → c < width
    → word_place p width row col ≡ word_place p width r c
    → (r ≡ row) × (c ≡ col)
word_place_inj p width height row col r c small hr hc hr' hc' e =
    place_inj width col row c r hc hc'
      (omega (arith, row_end width height row hr, row_end width height r hr', small, hc, hc', e))

-- What a clipboard holds, pixel by pixel.
record Holds (g : Graphics) (p width height : ℕ) (picture : ℕ → ℕ → ℕ) : Type 0 where
  clipboard : g.clipboard ≡ some p
  wide : g.clipboard_width ≡ width
  high : g.clipboard_height ≡ height
  kept :
      (row col : ℕ)
      → row < height
      → col < width
      → g.words (word_place p width row col) ≡ picture row col

-- The rectangle lies on the display, the clipboard fits the sizes of the heap, and the heap has room.
pub record CanCopy (g : Graphics) (x1 y1 x2 y2 p : ℕ) : Type 0 where
  pub display : IsDisplay g.display
  pub left : x1 ≤ x2
  pub top : y1 ≤ y2
  pub right : x2 < g.display.width
  pub bottom : y2 < g.display.height
  pub room : (heap_alloc g.heap ((x2 - x1 + 1) * (y2 - y1 + 1) * 4)).0 ≡ some p

module _ (g : Graphics) (x1 y1 x2 y2 p : ℕ) (can : CanCopy g x1 y1 x2 y2 p) where
  abbrev w : ℕ
  w = x2 - x1 + 1

  abbrev h : ℕ
  h = y2 - y1 + 1

  small : w * h * 8 < 2 ^ 32
  small = omega (
    arith,
    area_le g.display.width g.display.height w h (omega (arith, can.right))
        (omega (arith, can.bottom)),
    can.display.fits,
  )

  copy_rect_lem : copy_rect g x1 y1 w h ≡ take_clipboard g x1 y1 w h (heap_alloc g.heap (w * h * 4))
  unfolding copy_rect
  copy_rect_lem =
      let bytes : u64 (w * h * 4) ≡ w * h * 4 = omega (arith, small) in
      if_elim (λ r. r ≡ take_clipboard g x1 y1 w h (heap_alloc g.heap (w * h * 4)))
        (ltb (2 ^ 32 - 1 - 24) (u64 (w * h * 4)))
        (λ big. absurd (ground (arith, big, small, bytes)))
        (λ _. ap (λ n. take_clipboard g x1 y1 w h (heap_alloc g.heap n)) (omega (arith, small)))

  gm_copy_lem : gm_copy x1 y1 x2 y2 g ≡ take_clipboard g x1 y1 w h (heap_alloc g.heap (w * h * 4))
  unfolding gm_copy
  gm_copy_lem =
      if_elim (λ r. r ≡ take_clipboard g x1 y1 w h (heap_alloc g.heap (w * h * 4)))
        (ltb x2 x1 || (ltb y2 y1 || (leb g.display.width x2 || leb g.display.height y2)))
        (λ off. absurd (ground (arith, off, can.left, can.top, can.right, can.bottom)))
        (λ _.
          let area = row_end g.display.width g.display.height y2 can.bottom in
          let wide =
            area_le g.display.width g.display.height g.display.width 1 (omega arith)
              (omega (arith, can.bottom)) in
          let high =
            area_le g.display.width g.display.height 1 g.display.height (omega (arith, can.right))
              (omega arith) in
          ap₂ (copy_rect g x1 y1) (omega (arith, wide, can.left, can.right, can.display.fits))
            (omega (arith, high, can.top, can.bottom, can.display.fits))
          ∙ copy_rect_lem)

  taken-Holds :
      (q : ℕ) (heap' : Heap)
      → Holds
          (take_clipboard g x1 y1 w h (some q, heap'))
          q
          w
          h
          (λ row col. pixel g.display (x1 + col) (y1 + row))
  unfolding take_clipboard
  taken-Holds q heap' = record {
    clipboard = refl;
    wide = refl;
    high = refl;
    kept = λ row col hr hc.
        fill_hit h w (word_place q w)
          (λ row col.
            g.display.storage (g.display.framebuffer + pixel_index g.display (x1 + col) (y1 + row)))
          g.words row col hr hc
          (λ r c hr' hc'. word_place_inj q w h row col r c (omega (arith, small)) hr hc hr' hc')
        ∙ ap (λ i. g.display.storage (g.display.framebuffer + i))
            (pixel_index_lem g.display (x1 + col) (y1 + row) can.display
              (omega (arith, hc, can.left, can.right)) (omega (arith, hr, can.top, can.bottom)));
  }

  answered-Holds :
      (o : Option ℕ × Heap)
      → o.0 ≡ some p
      → Holds
          (take_clipboard g x1 y1 w h o)
          p
          w
          h
          (λ row col. pixel g.display (x1 + col) (y1 + row))
  answered-Holds (none, heap') e = absurd (ground (arith, e))
  answered-Holds (some q, heap') e =
      subst
        (λ a.
          Holds (take_clipboard g x1 y1 w h (some q, heap')) a w h
            (λ row col. pixel g.display (x1 + col) (y1 + row)))
        (some_inj q p e) (taken-Holds q heap')

  gm_copy-Holds :
      Holds (gm_copy x1 y1 x2 y2 g) p w h (λ row col. pixel g.display (x1 + col) (y1 + row))
  gm_copy-Holds =
      subst (λ r. Holds r p w h (λ row col. pixel g.display (x1 + col) (y1 + row)))
        (sym gm_copy_lem) (answered-Holds (heap_alloc g.heap (w * h * 4)) can.room)

  answered_display : (o : Option ℕ × Heap) → (take_clipboard g x1 y1 w h o).display ≡ g.display
  unfolding take_clipboard
  answered_display (none, heap') = refl
  answered_display (some q, heap') = refl

  copied_display : (gm_copy x1 y1 x2 y2 g).display ≡ g.display
  copied_display =
      ap (λ r. r.display) gm_copy_lem ∙ answered_display (heap_alloc g.heap (w * h * 4))

-- A paste draws the clipboard, as far as it is on the display, and a flush that succeeds shows it.
module _ (ok : Bool) (x y : ℕ) (g : Graphics) (p width height : ℕ) (picture : ℕ → ℕ → ℕ)
    (row col : ℕ) (h : IsDisplay g.display) (held : Holds g p width height picture)
    (hr : row < height) (hc : col < width) (hx : x + col < g.display.width)
    (hy : y + row < g.display.height) where
  abbrev wide : ℕ
  wide = cut_length g.display.width x g.clipboard_width

  abbrev high : ℕ
  high = cut_length g.display.height y g.clipboard_height

  inside : in_rect x y wide high (x + col) (y + row) ≡ true
  inside = ground (arith, held.wide, held.high, hr, hc, hx, hy)

  word : g.words (word_place p g.clipboard_width (y + row - y) (x + col - x)) ≡ picture row col
  word =
      let down : y + row - y ≡ row = omega arith in
      let right : x + col - x ≡ col = omega arith in
      ap₂ (λ r c. g.words (word_place p g.clipboard_width r c)) down right
      ∙ (ap (λ w. g.words (word_place p w row col)) held.wide ∙ held.kept row col hr hc)

  pasted : pixel (paste_clipboard ok x y p g).display (x + col) (y + row) ≡ picture row col
  unfolding paste_clipboard
  pasted =
      pixel-draw g.display x y wide high
        (λ row col. g.words (word_place p g.clipboard_width row col)) h
        (cut_length_fits g.display.width x g.clipboard_width (omega (arith, hx)))
        (cut_length_fits g.display.height y g.clipboard_height (omega (arith, hy))) ok (x + col)
        (y + row) hx hy
      ∙ (ap
            (λ b.
              if b
              then g.words (word_place p g.clipboard_width (y + row - y) (x + col - x))
              else pixel g.display (x + col) (y + row))
            inside
          ∙ word)

  pasted_shown :
      shown (paste_clipboard ok x y p g).display (x + col) (y + row)
      ≡ (if ok then picture row col else shown g.display (x + col) (y + row))
  unfolding paste_clipboard
  pasted_shown =
      shown-draw g.display x y wide high
        (λ row col. g.words (word_place p g.clipboard_width row col)) h
        (cut_length_fits g.display.width x g.clipboard_width (omega (arith, hx)))
        (cut_length_fits g.display.height y g.clipboard_height (omega (arith, hy))) ok (x + col)
        (y + row) hx hy
      ∙ ap (λ v. if ok then v else shown g.display (x + col) (y + row)) pasted

  -- What is drawn, and what is on the screen.
  abbrev Pasted : Graphics → Type 0
  Pasted g' =
      (pixel g'.display (x + col) (y + row) ≡ picture row col)
      × (shown g'.display (x + col) (y + row)
          ≡ (if ok then picture row col else shown g.display (x + col) (y + row)))

  gm_paste_lem : Pasted (gm_paste ok x y g)
  unfolding gm_paste paste_from
  gm_paste_lem =
      subst (λ c. Pasted (paste_from ok x y g c)) (sym held.clipboard)
        (if_elim Pasted (leb g.display.width x || leb g.display.height y)
          (λ off. absurd (ground (arith, off, hx, hy))) (λ _. (pasted, pasted_shown)))

-- A rectangle that lies on the display is copied from the back buffer, the heap having room for it,
-- and then pasted at `(x, y)`: every pixel of it that comes to lie on the display is drawn there in
-- the back buffer. It is also on the screen, in the front buffer, if the device takes the flush; if
-- not, the screen shows what it showed before.
pub gm_paste-gm_copy :
    (ok : Bool) (g : Graphics) (x1 y1 x2 y2 p x y row col : ℕ)
    → CanCopy g x1 y1 x2 y2 p
    → row ≤ y2 - y1
    → col ≤ x2 - x1
    → x + col < g.display.width
    → y + row < g.display.height
    → let after = (gm_paste ok x y (gm_copy x1 y1 x2 y2 g)).display in
      let copied = pixel g.display (x1 + col) (y1 + row) in
      (pixel after (x + col) (y + row) ≡ copied)
      × (shown after (x + col) (y + row)
          ≡ (if ok then copied else shown g.display (x + col) (y + row)))
gm_paste-gm_copy ok g x1 y1 x2 y2 p x y row col can hr hc hx hy =
    let same = copied_display g x1 y1 x2 y2 p can in
    let copied = pixel g.display (x1 + col) (y1 + row) in
    let done =
      gm_paste_lem ok x y (gm_copy x1 y1 x2 y2 g) p (x2 - x1 + 1) (y2 - y1 + 1)
        (λ row col. pixel g.display (x1 + col) (y1 + row)) row col
        (subst IsDisplay (sym same) can.display) (gm_copy-Holds g x1 y1 x2 y2 p can)
        (omega (arith, hr)) (omega (arith, hc)) (subst (λ d. x + col < d.width) (sym same) hx)
        (subst (λ d. y + row < d.height) (sym same) hy) in
    (done.0, done.1 ∙ ap (λ d. if ok then copied else shown d (x + col) (y + row)) same)
