-- ===== src/Graphics/Tests.antt =====
-- A display of eight by six pixels.
use ax_kernel.Graphics.{Display, Graphics, gm_rect, gm_copy, gm_paste}
use ax_kernel.Graphics.Screen.{IsDisplay, pixel, shown}
use ax_kernel.Graphics.Rect.{in_rect, pixel-gm_rect}
use ax_kernel.Graphics.Clipboard.{CanCopy, gm_paste-gm_copy}
use ax_kernel.Graphics.Line.{gm_line, distance}
use ax_kernel.Graphics.Line.Between.{gm_line_ends}
use ax_kernel.Heap.{heap_init, heap_alloc, take_found, search, first_fit, store}
use ax_kernel.Prelude.{◌+◌, ◌≡◌, ◌⊎◌, min, true, false, some, none, arith, refl}

abbrev board : Display
board = record {
  width = 8;
  height = 6;
  storage = λ i. i;
  front_buffer = 0;
  back_buffer = 1;
  framebuffer = 48;
}

board-IsDisplay : IsDisplay board
board-IsDisplay = record { fits = omega arith; back = omega arith; front = refl; place = refl }

-- The rectangle reaches over the right edge.
pixel-gm_rect_example :
    let board' = gm_rect true 6 1 5 2 255 board in
    (pixel board' 7 2 ≡ 255) × ((shown board' 7 2 ≡ pixel board' 7 2) × IsDisplay board')
pixel-gm_rect_example =
    pixel-gm_rect true 6 1 5 2 255 board 7 2 board-IsDisplay (omega arith) (omega arith)

abbrev studio : Graphics
studio = record {
  display = board;
  heap = heap_init (record {
    heap_head = none;
    cells = λ a. record { size = 0; is_alloc = false; next = none; prev = none };
  });
  words = λ i. 0;
  clipboard = none;
  clipboard_width = 0;
  clipboard_height = 0;
}

studio-CanCopy : CanCopy studio 1 1 2 3 24
unfolding heap_alloc take_found search first_fit heap_init store
studio-CanCopy = record {
  display = board-IsDisplay;
  left = omega arith;
  top = omega arith;
  right = omega arith;
  bottom = omega arith;
  room = refl;
}

gm_paste-gm_copy_example :
    let board' = (gm_paste false 6 3 (gm_copy 1 1 2 3 studio)).display in
    (pixel board' 7 5 ≡ pixel board 2 3) × (shown board' 7 5 ≡ shown board 7 5)
gm_paste-gm_copy_example =
    gm_paste-gm_copy false studio 1 1 2 3 24 6 3 2 1 studio-CanCopy (omega arith) (omega arith)
      (omega arith) (omega arith)

gm_line_ends_example :
    (d' : Display) × ((gm_line true 6 1 1 3 255 board ≡ some d')
      × (((pixel d' 1 3 ≡ 255) × (shown d' 1 3 ≡ 255))
          × ((in_rect (min 6 1) (min 1 3) (distance 6 1 + 1) (distance 1 3 + 1) 7 5 ≡ true)
              ⊎ (pixel d' 7 5 ≡ pixel board 7 5))))
gm_line_ends_example =
    gm_line_ends true 6 1 1 3 255 board 7 5 board-IsDisplay (omega arith, omega arith)
      (omega arith, omega arith) (omega arith, omega arith)
