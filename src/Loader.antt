-- ===== src/Loader.antt =====
-- The ELF loader of src/global/meta.c. The bytes of the memory are a function of the address, and the
-- image is the bytes from an address on. Numbers in it are little-endian. The fields of the header are
-- read once, at the start; the code reads e_phnum, e_phoff and e_entry again between the segments, so
-- an image whose segment overwrites its own header is not covered.
pub mod Region
pub mod Segments
pub mod Bounds
pub mod Exec
mod Tests
use ax_kernel.Prelude.Bytes.{little_endian}
use ax_kernel.Memory.{MmStack, mm_find}
use ax_kernel.Proc.{Pcb, ProcRegs}
use ax_kernel.Prelude.{
  ℕ, zero, suc, ◌+◌, ◌-◌, ◌*◌, ◌^◌, ◌%◌, Bool, true, false, ◌&&◌, ◌||◌, Option, none, some, ◌==◌,
  leb, ltb, not, if◌then◌else◌, bit_and,
}
use ax_kernel.Prelude.Loop.{for_range, write}
use ax_kernel.Prelude.Word.{u32, u64, sub64}

-- The fields of the ELF header that the loader reads.
pub record ElfEhdr : Type 0 where
  pub e_ident : ℕ → ℕ
  pub e_machine : ℕ
  pub e_entry : ℕ
  pub e_phoff : ℕ
  pub e_phentsize : ℕ
  pub e_phnum : ℕ

pub record ElfPhdr : Type 0 where
  pub p_type : ℕ
  pub p_offset : ℕ
  pub p_vaddr : ℕ
  pub p_filesz : ℕ
  pub p_memsz : ℕ
  pub p_align : ℕ

unfoldable pub read_ehdr : (ℕ → ℕ) → ℕ → ElfEhdr
unfolding little_endian
read_ehdr memory image = record {
  e_ident = λ i. memory (image + i);
  e_machine = little_endian memory 2 (image + 18);
  e_entry = little_endian memory 8 (image + 24);
  e_phoff = little_endian memory 8 (image + 32);
  e_phentsize = little_endian memory 2 (image + 54);
  e_phnum = little_endian memory 2 (image + 56);
}

unfoldable pub read_phdr : (ℕ → ℕ) → ℕ → ElfPhdr
unfolding little_endian
read_phdr memory a = record {
  p_type = little_endian memory 4 a;
  p_offset = little_endian memory 8 (a + 8);
  p_vaddr = little_endian memory 8 (a + 16);
  p_filesz = little_endian memory 8 (a + 32);
  p_memsz = little_endian memory 8 (a + 40);
  p_align = little_endian memory 8 (a + 48);
}

-- `sizeof(elf_ehdr_t)` and `sizeof(elf_phdr_t)`.
abbrev pub ehdr_size : ℕ
ehdr_size = 64

abbrev pub phdr_size : ℕ
phdr_size = 56

unfoldable pub elf_valid_header : ElfEhdr → ℕ → Bool
elf_valid_header ehdr image_size =
    let magic =
      (ehdr.e_ident 0 == 0x7F)
      && ((ehdr.e_ident 1 == 69) && ((ehdr.e_ident 2 == 76) && (ehdr.e_ident 3 == 70))) in
    let class = (ehdr.e_ident 4 == 2) && (ehdr.e_ident 5 == 1) in
    let fits = leb (u64 (ehdr.e_phoff + ehdr.e_phnum * phdr_size)) image_size in
    leb ehdr_size image_size
    && (magic && (class && ((ehdr.e_machine == 183) && ((ehdr.e_phentsize == phdr_size) && fits))))

-- `min_vaddr`, `max_vaddr` and `max_align`.
pub record Extent : Type 0 where
  pub min_vaddr : ℕ
  pub max_vaddr : ℕ
  pub max_align : ℕ

abbrev pub no_extent : Extent
no_extent = record { min_vaddr = 2 ^ 64 - 1; max_vaddr = 0; max_align = 1 }

unfoldable pub widen : Extent → ElfPhdr → Extent
widen e phdr = record {
  min_vaddr = if ltb phdr.p_vaddr e.min_vaddr then phdr.p_vaddr else e.min_vaddr;
  max_vaddr =
      if ltb e.max_vaddr (u64 (phdr.p_vaddr + phdr.p_memsz))
      then u64 (phdr.p_vaddr + phdr.p_memsz)
      else e.max_vaddr;
  max_align = if ltb e.max_align phdr.p_align then phdr.p_align else e.max_align;
}

-- The tests on a segment in the first loop.
unfoldable pub bad_segment : ElfPhdr → ℕ → Bool
bad_segment phdr image_size =
    ltb phdr.p_memsz phdr.p_filesz || ltb image_size (u64 (phdr.p_offset + phdr.p_filesz))

abbrev pub is_load : ElfPhdr → Bool
is_load phdr = phdr.p_type == 1

-- The first loop, over the `n` program headers from address `a` on.
unfoldable pub measure : ℕ → (ℕ → ℕ) → ℕ → ℕ → Extent → Option Extent
unfolding widen bad_segment
measure zero memory a image_size e = some e
measure (suc n) memory a image_size e =
    let phdr = read_phdr memory a in
    let skip = measure n memory (a + phdr_size) image_size e in
    let rest = measure n memory (a + phdr_size) image_size (widen e phdr) in
    if not (is_load phdr) then skip else if bad_segment phdr image_size then none else rest

-- `x & ~mask`.
abbrev pub clear_bits : ℕ → ℕ → ℕ
clear_bits x mask = x - bit_and x mask

-- `INITIAL_PROC_SIZE << 10` and `PROC_STACK_RESERVE`.
abbrev pub process_size : ℕ
process_size = 1024 * 2 ^ 10

abbrev pub proc_stack_reserve : ℕ
proc_stack_reserve = 16 * 1024

-- Where the image goes.
pub record Placement : Type 0 where
  pub real_addr : ℕ
  pub load_base : ℕ
  pub heap_start : ℕ
  pub heap_limit : ℕ

unfoldable pub layout : ℕ → Extent → Placement
layout real_addr e =
    let align_mask = sub64 e.max_align 1 in
    let load_base =
      if ltb 1 e.max_align
      then clear_bits (u64 (real_addr + align_mask)) align_mask
      else real_addr in
    let image_end = u64 (load_base + sub64 e.max_vaddr e.min_vaddr) in
    record {
      real_addr = real_addr;
      load_base = load_base;
      heap_start = clear_bits (u64 (image_end + 15)) 15;
      heap_limit = sub64 (u64 (real_addr + process_size)) proc_stack_reserve;
    }

-- `memcpy` of the file's bytes and the zeros behind them.
unfoldable pub put_segment : (ℕ → ℕ) → ℕ → ℕ → ElfPhdr → ℕ → ℕ
unfolding for_range write
put_segment memory image dest phdr =
    let copied =
      for_range (u32 phdr.p_filesz) 0
        (λ i m. write m (u64 (dest + i)) (m (u64 (image + phdr.p_offset + i)))) memory in
    for_range (phdr.p_memsz - phdr.p_filesz) phdr.p_filesz (λ j m. write m (u64 (dest + j)) 0)
      copied

-- The test on a segment in the second loop.
unfoldable pub too_long : Placement → ℕ → ℕ → Bool
too_long l seg_offset memsz =
    ltb (process_size - proc_stack_reserve)
      (u64 (sub64 l.load_base l.real_addr + seg_offset + memsz))

-- The second loop, over the `n` program headers from address `a` on: whether it comes to its end, and
-- the memory.
unfoldable pub load_segments : ℕ → Placement → ℕ → ℕ → ℕ → (ℕ → ℕ) → Bool × (ℕ → ℕ)
unfolding put_segment too_long
load_segments zero l min_vaddr image a memory = (true, memory)
load_segments (suc n) l min_vaddr image a memory =
    let phdr = read_phdr memory a in
    let seg_offset = sub64 phdr.p_vaddr min_vaddr in
    let loaded = put_segment memory image (u64 (l.load_base + seg_offset)) phdr in
    let skip = load_segments n l min_vaddr image (a + phdr_size) memory in
    let rest = load_segments n l min_vaddr image (a + phdr_size) loaded in
    if not (is_load phdr)
    then skip
    else if too_long l seg_offset phdr.p_memsz
    then (false, memory)
    else rest

-- The process that starts in the image.
unfoldable pub start_proc : Placement → ℕ → ℕ → Pcb → Pcb
start_proc l min_vaddr e_entry proc = record proc {
  regs = record (proc.regs) { elr_el1 = u64 (l.load_base + (e_entry - min_vaddr)) };
  heap_start = l.heap_start;
  heap_break = l.heap_start;
  heap_limit = l.heap_limit;
}

-- After both tests on the extent, at a process memory from `real_addr` on.
unfoldable pub load_at : ElfEhdr → Extent → ℕ → Pcb → ℕ → (ℕ → ℕ) → Option Pcb × (ℕ → ℕ)
unfolding layout load_segments start_proc
load_at ehdr e real_addr proc image memory =
    let l = layout real_addr e in
    let (whole, memory') =
      load_segments ehdr.e_phnum l e.min_vaddr image (u64 (image + ehdr.e_phoff)) memory in
    if ltb l.heap_limit l.heap_start
    then (none, memory)
    else if not whole || ltb ehdr.e_entry e.min_vaddr
    then (none, memory')
    else (some (start_proc l e.min_vaddr ehdr.e_entry proc), memory')

unfoldable pub load_extent : ElfEhdr → ℕ → Pcb → ℕ → (ℕ → ℕ) → Option Extent → Option Pcb × (ℕ → ℕ)
unfolding load_at
load_extent ehdr real_addr proc image memory none = (none, memory)
load_extent ehdr real_addr proc image memory (some e) =
    if (e.min_vaddr == 2 ^ 64 - 1) || ltb process_size (sub64 e.max_vaddr e.min_vaddr)
    then (none, memory)
    else load_at ehdr e real_addr proc image memory

-- `none` in the answer for NULL. `real_addr` is what `mm_find` answers for the process.
unfoldable pub elf_load_image : MmStack → Pcb → ℕ → ℕ → (ℕ → ℕ) → Option Pcb × (ℕ → ℕ)
unfolding read_ehdr elf_valid_header measure load_extent
elf_load_image mm proc image image_size memory =
    let ehdr = read_ehdr memory image in
    let extent = measure ehdr.e_phnum memory (u64 (image + ehdr.e_phoff)) image_size no_extent in
    if not (elf_valid_header ehdr image_size)
    then (none, memory)
    else load_extent ehdr (mm_find mm proc.mm_addr 0) proc image memory extent
