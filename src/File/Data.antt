-- ===== src/File/Data.antt =====
-- The bytes of files: `fm_write` and `fm_read` of src/manage/fm.c on the memory, a byte at each
-- address, with `memcpy` of include/tools/_asm.h, which copies upwards, byte by byte.
use ax_kernel.Prelude.{
  sym, refl, ◌∙◌, ap, false, if_elim, arith, ◌⊎◌, ◌≡◌, ◌≤◌, ◌<◌, ℕ, ◌+◌, ◌-◌, ◌*◌, ◌^◌, Option,
  none, some, leb, ltb, if◌then◌else◌,
}
use ax_kernel.Prelude.Loop.{copy_range, copy_range_lem, copy_range_miss}
use ax_kernel.Prelude.Word.{u32}
use ax_kernel.File.{FileBlock, FmRecord, fm_data_addr}

unfoldable pub memcpy : (ℕ → ℕ) → ℕ → ℕ → ℕ → ℕ → ℕ
unfolding copy_range
memcpy mem dst src n = copy_range n dst src mem

-- The size in bytes of a file, and the bytes of a request that fit behind `offset`.
abbrev pub file_size : FileBlock → ℕ
file_size file = u32 (file.lens * 2 ^ 10)

unfoldable pub clip : FileBlock → ℕ → ℕ → ℕ
clip file size offset =
    if leb (file_size file) offset
    then 0
    else if ltb (file_size file - offset) size
    then file_size file - offset
    else size

module _ {Node : Type 0} (reco : FmRecord Node) where
  unfoldable pub fm_write : (ℕ → ℕ) → Option ℕ → ℕ → ℕ → ℕ → ℕ × (ℕ → ℕ)
  unfolding memcpy clip fm_data_addr
  fm_write mem none buf size offset = (0, mem)
  fm_write mem (some slot) buf size offset =
      let file = reco.files slot in
      let n = clip file size offset in
      if leb (file_size file) offset
      then (0, mem)
      else (n, memcpy mem (fm_data_addr reco file + offset) buf n)

  unfoldable pub fm_read : (ℕ → ℕ) → Option ℕ → ℕ → ℕ → ℕ → ℕ × (ℕ → ℕ)
  unfolding memcpy clip fm_data_addr
  fm_read mem none buf size offset = (0, mem)
  fm_read mem (some slot) buf size offset =
      let file = reco.files slot in
      let n = clip file size offset in
      if leb (file_size file) offset
      then (0, mem)
      else (n, memcpy mem buf (fm_data_addr reco file + offset) n)

-- Two ranges of addresses that have no address in common.
abbrev pub AreApart : ℕ → ℕ → ℕ → ℕ → Type 0
AreApart a n b m = (a + n ≤ b) ⊎ (b + m ≤ a)

memcpy_hit :
    (mem : ℕ → ℕ) (dst src n i size : ℕ)
    → AreApart src size dst size
    → n ≤ size
    → i < n
    → memcpy mem dst src n (dst + i) ≡ mem (src + i)
unfolding memcpy
memcpy_hit mem dst src n i size apart le lt =
    copy_range_lem n dst src mem i (omega (arith, apart, le)) lt

pub memcpy_miss :
    (mem : ℕ → ℕ) (dst src n a : ℕ) → (a < dst) ⊎ (dst + n ≤ a) → memcpy mem dst src n a ≡ mem a
unfolding memcpy
memcpy_miss mem dst src n a out = copy_range_miss n dst src mem a out

pub clip_le : (file : FileBlock) (size offset : ℕ) → clip file size offset ≤ size
unfolding clip
clip_le file size offset = ground arith

clip_in_file :
    (file : FileBlock) (size offset : ℕ)
    → leb (file_size file) offset ≡ false
    → offset + clip file size offset ≤ file_size file
unfolding clip
clip_in_file file size offset e = ground (arith, e)

clip_pos :
    (file : FileBlock) (size offset i : ℕ)
    → i < clip file size offset
    → leb (file_size file) offset ≡ false
unfolding clip
clip_pos file size offset i lt = ground (arith, lt)

module _ {Node : Type 0} (reco : FmRecord Node) (mem : ℕ → ℕ) (slot buf size offset : ℕ)
    (inside : leb (file_size (reco.files slot)) offset ≡ false) where
  abbrev n : ℕ
  n = clip (reco.files slot) size offset

  abbrev place : ℕ
  place = fm_data_addr reco (reco.files slot) + offset

  fm_write_lem : fm_write reco mem (some slot) buf size offset ≡ (n, memcpy mem place buf n)
  unfolding fm_write
  fm_write_lem =
      if_elim (λ (r : ℕ × (ℕ → ℕ)). r ≡ (n, memcpy mem place buf n))
        (leb (file_size (reco.files slot)) offset) (λ past. absurd (ground (arith, past, inside)))
        (λ _. refl)

  fm_read_lem : fm_read reco mem (some slot) buf size offset ≡ (n, memcpy mem buf place n)
  unfolding fm_read
  fm_read_lem =
      if_elim (λ (r : ℕ × (ℕ → ℕ)). r ≡ (n, memcpy mem buf place n))
        (leb (file_size (reco.files slot)) offset) (λ past. absurd (ground (arith, past, inside)))
        (λ _. refl)

module _ {Node : Type 0} (reco : FmRecord Node) where
  abbrev pub data_start : ℕ → ℕ
  data_start slot = fm_data_addr reco (reco.files slot)

  -- Data is read back as it was written: after a write of `size` bytes at `offset` of a file,
  -- reading as many at the same place gives the same count, which is the part of the request that
  -- lies within the file, and puts the bytes that were written at `buf` into `target`. The buffers
  -- are apart from the bytes of the file that are touched.
  pub fm_read-fm_write :
      (mem : ℕ → ℕ) (slot buf target size offset i : ℕ)
      → AreApart buf size (data_start slot + offset) size
      → AreApart target size (data_start slot + offset) size
      → i < clip (reco.files slot) size offset
      → let written = fm_write reco mem (some slot) buf size offset in
        let read = fm_read reco written.1 (some slot) target size offset in
        ((written.0 ≡ clip (reco.files slot) size offset) × (read.0 ≡ written.0))
        × (read.1 (target + i) ≡ mem (buf + i))
  fm_read-fm_write mem slot buf target size offset i h1 h2 h =
      let file = reco.files slot in
      let n = clip file size offset in
      let place = data_start slot + offset in
      let inside = clip_pos file size offset i h in
      let le = clip_le file size offset in
      let written = fm_write reco mem (some slot) buf size offset in
      let w = fm_write_lem reco mem slot buf size offset inside in
      let r = fm_read_lem reco written.1 slot target size offset inside in
      let apart : AreApart place size target size = omega (arith, h2) in
      (
        (ap (λ t. t.0) w, ap (λ t. t.0) r ∙ sym (ap (λ t. t.0) w)),
        ap (λ t. t.1 (target + i)) r
            ∙ (memcpy_hit written.1 target place n i size apart le h
                ∙ (ap (λ t. t.1 (place + i)) w ∙ memcpy_hit mem place buf n i size h1 le h)),
      )

  -- A write of any size and offset to a file changes no byte outside the file's
  -- `lens` KB.
  pub fm_write_bound :
      (mem : ℕ → ℕ) (slot buf size offset a : ℕ)
      → (a < data_start slot) ⊎ (data_start slot + file_size (reco.files slot) ≤ a)
      → (fm_write reco mem (some slot) buf size offset).1 a ≡ mem a
  unfolding fm_write
  fm_write_bound mem slot buf size offset a h =
      let file = reco.files slot in
      if_elim (λ (r : ℕ × (ℕ → ℕ)). r.1 a ≡ mem a) (leb (file_size file) offset) (λ _. refl)
        (λ e.
          memcpy_miss mem (data_start slot + offset) buf (clip file size offset) a
            (omega (arith, h, clip_in_file file size offset e)))
