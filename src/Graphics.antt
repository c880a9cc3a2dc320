-- ===== src/Graphics.antt =====
-- The drawing routines of src/manage/gm.c, and the exchange of the two framebuffers in
-- `gpu_resource_flush` of src/tools/vgpu.c. The device's answer to the commands of a flush is a
-- parameter: `ok` tells whether all of them succeed.
pub mod Line
pub mod Screen
pub mod Rect
pub mod Clipboard
mod Tests
use ax_kernel.Heap.{Heap, heap_alloc, heap_free}
use ax_kernel.Prelude.Loop.{fill, copy_range, for_range, write}
use ax_kernel.Prelude.{
  ℕ, zero, suc, ◌+◌, ◌-◌, ◌*◌, ◌^◌, Bool, true, false, ◌&&◌, ◌||◌, Option, none, some, ◌==◌, leb,
  ltb, if◌then◌else◌,
}
use ax_kernel.Prelude.Word.{u32, u64, sub32}

-- `gpu_display_width`, `gpu_display_height`, the words from `gpu_framebuffer_storage` on, the numbers
-- of the two buffers, and `gpu_framebuffer` as a distance from the storage.
pub record Display : Type 0 where
  pub width : ℕ
  pub height : ℕ
  pub storage : ℕ → ℕ
  pub front_buffer : ℕ
  pub back_buffer : ℕ
  pub framebuffer : ℕ

-- Whether the rectangle lies on the display.
unfoldable pub in_display : Display → ℕ → ℕ → ℕ → ℕ → Bool
in_display d x y width height =
    leb x d.width && (leb width (d.width - x) && (leb y d.height && leb height (d.height - y)))

-- The buffers after the commands have succeeded.
unfoldable pub swap_buffers : Display → Display
unfolding copy_range
swap_buffers d =
    let pixel_count = u32 (d.width * d.height) in
    let front = d.back_buffer in
    let back = 1 - front in
    record d {
      storage =
          copy_range pixel_count (u32 (back * pixel_count)) (u32 (front * pixel_count)) d.storage;
      front_buffer = front;
      back_buffer = back;
      framebuffer = u32 (back * pixel_count);
    }

unfoldable pub gpu_resource_flush : Bool → ℕ → ℕ → ℕ → ℕ → Display → Display
unfolding in_display swap_buffers
gpu_resource_flush ok x y width height d =
    if in_display d x y width height && ok then swap_buffers d else d

-- The place of a pixel in the framebuffer.
abbrev pub pixel_index : Display → ℕ → ℕ → ℕ
pixel_index d x y = u32 (u32 (y * d.width) + x)

unfoldable pub gm_pixel : ℕ → ℕ → ℕ → Display → Display
unfolding write
gm_pixel x y color d =
    if leb d.width x || leb d.height y
    then d
    else record d { storage = write d.storage (d.framebuffer + pixel_index d x y) color }

unfoldable pub gm_full : Bool → ℕ → Display → Display
unfolding for_range write gpu_resource_flush
gm_full ok color d = gpu_resource_flush ok 0 0 d.width d.height (record d {
  storage =
      for_range (u32 (d.width * d.height)) 0 (λ i m. write m (d.framebuffer + i) color) d.storage;
})

-- A length cut at the edge of the display.
abbrev pub cut_length : ℕ → ℕ → ℕ → ℕ
cut_length limit x width = if ltb (limit - x) width then limit - x else width

-- The loops of `gm_rect` and `gm_paste`, and the flush.
unfoldable pub draw : Bool → ℕ → ℕ → ℕ → ℕ → (ℕ → ℕ → ℕ) → Display → Display
unfolding fill gpu_resource_flush
draw ok x y width height value d = gpu_resource_flush ok x y width height (record d {
  storage =
      fill height width (λ row col. d.framebuffer + pixel_index d (x + col) (y + row)) value
        d.storage;
})

unfoldable pub gm_rect : Bool → ℕ → ℕ → ℕ → ℕ → ℕ → Display → Display
unfolding draw
gm_rect ok x y width height color d =
    if leb d.width x || (leb d.height y || ((width == 0) || (height == 0)))
    then d
    else draw ok x y (cut_length d.width x width) (cut_length d.height y height) (λ row col. color)
        d

-- The display with the clipboard. The words of a clipboard stand in the kernel heap at byte addresses,
-- apart from the framebuffers.
pub record Graphics : Type 0 where
  pub display : Display
  pub heap : Heap
  pub words : ℕ → ℕ
  pub clipboard : Option ℕ
  pub clipboard_width : ℕ
  pub clipboard_height : ℕ

-- A new clipboard is filled, and takes the place of the old one.
unfoldable pub take_clipboard : Graphics → ℕ → ℕ → ℕ → ℕ → Option ℕ × Heap → Graphics
unfolding fill
take_clipboard g x1 y1 width height (none, heap') = record g { heap = heap' }
take_clipboard g x1 y1 width height (some p, heap') = record g {
  heap = heap_free heap' g.clipboard;
  words =
      fill height width (λ row col. p + u32 (u32 (row * width) + col) * 4)
        (λ row col.
          g.display.storage (g.display.framebuffer + pixel_index g.display (x1 + col) (y1 + row)))
        g.words;
  clipboard = some p;
  clipboard_width = width;
  clipboard_height = height;
}

-- The block header of the heap has 24 bytes.
unfoldable pub copy_rect : Graphics → ℕ → ℕ → ℕ → ℕ → Graphics
unfolding take_clipboard
copy_rect g x1 y1 width height =
    let byte_count = u64 (width * height * 4) in
    if ltb (2 ^ 32 - 1 - 24) byte_count
    then g
    else take_clipboard g x1 y1 width height (heap_alloc g.heap (u32 byte_count))

unfoldable pub gm_copy : ℕ → ℕ → ℕ → ℕ → Graphics → Graphics
unfolding copy_rect
gm_copy x1 y1 x2 y2 g =
    if ltb x2 x1 || (ltb y2 y1 || (leb g.display.width x2 || leb g.display.height y2))
    then g
    else copy_rect g x1 y1 (u32 (sub32 x2 x1 + 1)) (u32 (sub32 y2 y1 + 1))

-- Clipboard `p` at a place on the display.
unfoldable pub paste_clipboard : Bool → ℕ → ℕ → ℕ → Graphics → Graphics
unfolding draw
paste_clipboard ok x y p g = record g {
  display =
      draw ok x y (cut_length g.display.width x g.clipboard_width)
        (cut_length g.display.height y g.clipboard_height)
        (λ row col. g.words (p + u32 (u32 (row * g.clipboard_width) + col) * 4)) g.display;
}

unfoldable pub paste_from : Bool → ℕ → ℕ → Graphics → Option ℕ → Graphics
unfolding paste_clipboard
paste_from ok x y g none = g
paste_from ok x y g (some p) =
    if leb g.display.width x || leb g.display.height y then g else paste_clipboard ok x y p g

unfoldable pub gm_paste : Bool → ℕ → ℕ → Graphics → Graphics
unfolding paste_from
gm_paste ok x y g = paste_from ok x y g g.clipboard
