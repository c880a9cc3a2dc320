-- ===== src/Loader/Bounds.antt =====
-- What `elf_load_image` does to the memory and to the process.
use ax_kernel.Loader.{
  ElfEhdr, ElfPhdr, Placement, Extent, no_extent, read_ehdr, read_phdr, phdr_size, elf_valid_header,
  layout, clear_bits, measure, load_segments, start_proc, load_at, load_extent, elf_load_image,
  process_size, proc_stack_reserve,
}
use ax_kernel.Loader.Region.{Agree-refl, Agree-at, Agree, Outside, Fits}
use ax_kernel.Loader.Segments.{Seen, Measured, measure-Measured, load_segments-Agree}
use ax_kernel.Memory.{MmStack, mm_find}
use ax_kernel.Proc.{Pcb}
use ax_kernel.Prelude.Bits.{bit_and_below}
use ax_kernel.Prelude.Results.{Every}
use ax_kernel.Prelude.Word.{u64, sub64}
use ax_kernel.Prelude.{
  ℕ, ◌+◌, ◌-◌, ◌*◌, ◌^◌, ◌≤◌, ◌<◌, ◌≡◌, ◌⊎◌, inl, inr, not, ◌||◌, arith, refl, if_elim,
  if◌then◌else◌, ltb, some, none, Option, ◌==◌,
}

clear_bits_above : (x mask : ℕ) → x - mask ≤ clear_bits x mask
clear_bits_above x mask = omega (arith, bit_and_below x x mask (omega arith))

clear_bits_below : (x mask : ℕ) → clear_bits x mask ≤ x
clear_bits_below x mask = omega arith

-- The start of the image after alignment.
base_lem :
    (real align : ℕ)
    → real + process_size ≤ 2 ^ 62
    → align ≤ 2 ^ 62
    → (real
        ≤ (if ltb 1 align then clear_bits (u64 (real + sub64 align 1)) (sub64 align 1) else real))
      × ((if ltb 1 align then clear_bits (u64 (real + sub64 align 1)) (sub64 align 1) else real)
          < 2 ^ 63)
base_lem real align room small =
    if_elim (λ (b : ℕ). (real ≤ b) × (b < 2 ^ 63)) (ltb 1 align)
      (λ more.
        let mask = sub64 align 1 in
        let big : 1 < align = ground (arith, more) in
        let above = clear_bits_above (u64 (real + mask)) mask in
        let below = clear_bits_below (u64 (real + mask)) mask in
        (omega (arith, above, big, room, small), omega (arith, below, big, room, small)))
      (λ _. (omega arith, omega (arith, room)))

-- The image is laid out above the start of the process memory.
record IsLaid (real size : ℕ) (l : Placement) : Type 0 where
  origin : l.real_addr ≡ real
  base : real ≤ l.load_base
  small : l.load_base < 2 ^ 63 + 2 ^ 62
  start : l.load_base + size ≤ l.heap_start
  limit : l.heap_limit + proc_stack_reserve ≡ real + process_size

layout-IsLaid :
    (real : ℕ) (e : Extent)
    → real + process_size ≤ 2 ^ 62
    → e.max_align ≤ 2 ^ 62
    → sub64 e.max_vaddr e.min_vaddr ≤ process_size
    → IsLaid real (sub64 e.max_vaddr e.min_vaddr) (layout real e)
unfolding layout
layout-IsLaid real e room align size =
    let base = base_lem real e.max_align room align in
    let extent = sub64 e.max_vaddr e.min_vaddr in
    record {
      origin = refl;
      base = base.0;
      small = omega (arith, base.1);
      start = omega (
        arith,
        base.1,
        size,
        clear_bits_above (u64 (u64 ((layout real e).load_base + extent) + 15)) 15,
      );
      limit = omega (arith, room);
    }

-- What the loader leaves of the memory and of the process.
module _ (real : ℕ) (memory : ℕ → ℕ) where
  IsPlaced : Pcb → Type 0
  IsPlaced proc =
      ((real ≤ proc.heap_start) × (proc.heap_start ≤ proc.heap_limit))
      × ((proc.heap_break ≡ proc.heap_start)
          × (proc.heap_limit + proc_stack_reserve ≡ real + process_size))

  Loaded : Option Pcb × (ℕ → ℕ) → Type 0
  Loaded r = Agree real r.1 memory × ((r.0 ≡ none) ⊎ ((p : Pcb) × ((r.0 ≡ some p) × IsPlaced p)))

  refused : Loaded (none, memory)
  unfolding Loaded
  refused = (Agree-refl real memory, inl refl)

  module _ (ehdr : ElfEhdr) (proc : Pcb) (image : ℕ) (room : real + process_size ≤ 2 ^ 62)
      (apart : (u64 (image + ehdr.e_phoff) + phdr_size * ehdr.e_phnum ≤ real)
        ⊎ (real + process_size ≤ u64 (image + ehdr.e_phoff)))
      (plain : (i : ℕ)
        → i < ehdr.e_phnum
        → ((read_phdr memory (u64 (image + ehdr.e_phoff) + phdr_size * i)).p_vaddr
              + (read_phdr memory (u64 (image + ehdr.e_phoff) + phdr_size * i)).p_memsz
            < 2 ^ 64)
          × ((read_phdr memory (u64 (image + ehdr.e_phoff) + phdr_size * i)).p_align
              ≤ 2 ^ 62)) where
    abbrev table : ℕ
    table = u64 (image + ehdr.e_phoff)

    Seen-Fits :
        (e : Extent) (phdr : ElfPhdr)
        → Seen e phdr
        → e.max_vaddr < 2 ^ 64
        → phdr.p_vaddr + phdr.p_memsz < 2 ^ 64
        → sub64 e.max_vaddr e.min_vaddr ≤ process_size
        → Fits e.min_vaddr phdr
    Seen-Fits e phdr seen top sum size = record {
      order = seen.order;
      above = seen.above;
      within = omega (arith, seen.above, seen.below, top, sum, size);
      address = omega (arith, sum);
    }

    load_at-Loaded :
        (e : Extent)
        → Measured memory ehdr.e_phnum table (2 ^ 62) no_extent e
        → sub64 e.max_vaddr e.min_vaddr ≤ process_size
        → Loaded (load_at ehdr e real proc image memory)
    unfolding load_at Loaded IsPlaced start_proc
    load_at-Loaded e seen size =
        let l = layout real e in
        let laid = layout-IsLaid real e room seen.aligned size in
        let same =
          load_segments-Agree l e.min_vaddr image memory laid.base laid.small (omega (arith, room))
            ehdr.e_phnum table memory (Agree-refl real memory) apart
            (λ i lt on.
              Seen-Fits e (read_phdr memory (table + phdr_size * i)) (seen.segments i lt on)
                seen.bounded (plain i lt).0 size) in
        let segments = load_segments ehdr.e_phnum l e.min_vaddr image table memory in
        if_elim Loaded (ltb l.heap_limit l.heap_start) (λ _. refused)
          (λ fits.
            if_elim Loaded (not segments.0 || ltb ehdr.e_entry e.min_vaddr) (λ _. (same, inl refl))
              (λ _. (
                same,
                inr (
                  start_proc l e.min_vaddr ehdr.e_entry proc,
                  (
                    refl,
                    (
                      (omega (arith, laid.base, laid.start), ground (arith, fits)),
                      (refl, laid.limit),
                    ),
                  ),
                ),
              )))

    load_extent-Loaded :
        (o : Option Extent)
        → Every (Measured memory ehdr.e_phnum table (2 ^ 62) no_extent) o
        → Loaded (load_extent ehdr real proc image memory o)
    unfolding load_extent
    load_extent-Loaded none seen = refused
    load_extent-Loaded (some e) seen =
        if_elim Loaded
          ((e.min_vaddr == 2 ^ 64 - 1) || ltb process_size (sub64 e.max_vaddr e.min_vaddr))
          (λ _. refused) (λ ok. load_at-Loaded e (seen e refl) (ground (arith, ok)))

-- What the theorem needs of the image: the memory of the process lies below 2 ^ 62, the program
-- headers do not lie in it, no end of a segment wraps around, and no alignment is above 2 ^ 62.
pub record IsSane (real : ℕ) (memory : ℕ → ℕ) (image : ℕ) : Type 0 where
  pub room : real + process_size ≤ 2 ^ 62
  pub apart :
      (u64 (image + (read_ehdr memory image).e_phoff) + phdr_size * (read_ehdr memory image).e_phnum
        ≤ real)
      ⊎ (real + process_size ≤ u64 (image + (read_ehdr memory image).e_phoff))
  pub plain :
      (i : ℕ)
      → i < (read_ehdr memory image).e_phnum
      → ((read_phdr memory (u64 (image + (read_ehdr memory image).e_phoff) + phdr_size * i)).p_vaddr
            + (read_phdr memory
                (u64 (image + (read_ehdr memory image).e_phoff) + phdr_size * i)).p_memsz
          < 2 ^ 64)
        × ((read_phdr memory
              (u64 (image + (read_ehdr memory image).e_phoff) + phdr_size * i)).p_align
            ≤ 2 ^ 62)

elf_load_image-Loaded :
    (mm : MmStack) (proc : Pcb) (image image_size : ℕ) (memory : ℕ → ℕ)
    → IsSane (mm_find mm proc.mm_addr 0) memory image
    → Loaded (mm_find mm proc.mm_addr 0) memory (elf_load_image mm proc image image_size memory)
unfolding elf_load_image
elf_load_image-Loaded mm proc image image_size memory sane =
    let ehdr = read_ehdr memory image in
    let real = mm_find mm proc.mm_addr 0 in
    let table = u64 (image + ehdr.e_phoff) in
    if_elim (Loaded real memory) (not (elf_valid_header ehdr image_size)) (λ _. refused real memory)
      (λ _.
        load_extent-Loaded real memory ehdr proc image sane.room sane.apart sane.plain
          (measure ehdr.e_phnum memory table image_size no_extent)
          (measure-Measured ehdr.e_phnum memory table image_size (2 ^ 62) no_extent (omega arith)
            (omega arith) (λ i lt. (sane.plain i lt).1)))

-- For an image that is sane in the sense of `IsSane`: no byte outside the memory of the process, less
-- what is reserved for its stack, is changed, also when the load is refused half-way; and either the
-- answer is NULL, or the process gets an empty heap that starts in its memory and whose limit is the
-- start of the stack reserve.
pub elf_load_image_bounds :
    (mm : MmStack) (proc : Pcb) (image image_size : ℕ) (memory : ℕ → ℕ) (b : ℕ)
    → IsSane (mm_find mm proc.mm_addr 0) memory image
    → Outside (mm_find mm proc.mm_addr 0) b
    → ((elf_load_image mm proc image image_size memory).1 b ≡ memory b)
      × (((elf_load_image mm proc image image_size memory).0 ≡ none)
          ⊎ ((p : Pcb) × (((elf_load_image mm proc image image_size memory).0 ≡ some p)
                × (((mm_find mm proc.mm_addr 0 ≤ p.heap_start) × (p.heap_start ≤ p.heap_limit))
                    × ((p.heap_break ≡ p.heap_start)
                        × (p.heap_limit + proc_stack_reserve
                            ≡ mm_find mm proc.mm_addr 0 + process_size))))))
unfolding Loaded IsPlaced
elf_load_image_bounds mm proc image image_size memory b sane out =
    let done = elf_load_image-Loaded mm proc image image_size memory sane in
    (
      Agree-at (mm_find mm proc.mm_addr 0) (elf_load_image mm proc image image_size memory).1 memory
          b done.0 out,
      done.1,
    )
