-- ===== src/Loader/Tests.antt =====
-- An image of one header and one segment of eight bytes, at address 0.
use ax_kernel.Prelude.Bytes.{little_endian}
use ax_kernel.Prelude.{
  ◌^◌, ◌*◌, ◌<◌, ℕ, zero, suc, ◌+◌, ◌≤◌, ◌≡◌, ◌⊎◌, inl, List, [], ◌∷◌, ◌++◌, none, some, arith,
  refl, replicate, get_or,
}
use ax_kernel.Loader.{
  phdr_size, elf_load_image, process_size, proc_stack_reserve, read_ehdr, read_phdr,
}
use ax_kernel.Loader.Bounds.{IsSane, elf_load_image_bounds}
use ax_kernel.Memory.{MmStack, mm_find, units_before}
use ax_kernel.Proc.{Pcb, null}

abbrev blank : ℕ → List ℕ
blank n = replicate n 0

abbrev ident : List ℕ
ident = 0x7F ∷ 69 ∷ 76 ∷ 70 ∷ 2 ∷ 1 ∷ blank 10

-- The entry is 0x1000, the program header at 64, of 56 bytes, one of them.
abbrev ehdr_bytes : List ℕ
ehdr_bytes =
    ident
    ++ ((0 ∷ 0 ∷ 183 ∷ 0 ∷ blank 4)
        ++ ((0 ∷ 16 ∷ blank 6) ++ ((64 ∷ blank 7) ++ (blank 14 ++ (56 ∷ 0 ∷ 1 ∷ 0 ∷ blank 6)))))

-- Eight bytes of the file and sixteen of memory from 0x1000 on, aligned to 4096.
abbrev phdr_bytes : List ℕ
phdr_bytes =
    (1 ∷ blank 7)
    ++ ((120 ∷ blank 7)
        ++ ((0 ∷ 16 ∷ blank 6)
            ++ (blank 8 ++ ((8 ∷ blank 7) ++ ((16 ∷ blank 7) ++ (0 ∷ 16 ∷ blank 6))))))

abbrev ram : ℕ → ℕ
ram a = get_or (ehdr_bytes ++ (phdr_bytes ++ (1 ∷ 2 ∷ 3 ∷ 4 ∷ 5 ∷ 6 ∷ 7 ∷ 8 ∷ []))) a 0

abbrev mm : MmStack
mm = record {
  base = 0x40000000;
  sp_top = 0;
  sp_bot = 0;
  sp_temp = 0;
  mem = λ i. 0;
  sp = 0;
  submem = λ i. 0;
}

abbrev loading : Pcb
loading = record {
  regs = record { reg_x = λ j. 0; sp = 0; spsr = 0; elr_el1 = 0 };
  id = 2;
  p_id = 0;
  mm_addr = 0;
  state = 0;
  heap_start = 0;
  heap_break = 0;
  heap_limit = 0;
  msgs = record { from = 0; is_call = 0; is_msgbox = 0; len = 0; msgbox = λ j. 0 };
  control = λ j. record { is_ctrl_alloc = 0; is_file = 0; file_offset = 0; handle = null };
  page_i = none;
}

mm_find_lem : mm_find mm 0 0 ≡ 0x40000000
unfolding mm_find units_before
mm_find_lem = refl

phdr_lem :
    ((read_phdr ram 64).p_vaddr ≡ 0x1000)
    × (((read_phdr ram 64).p_memsz ≡ 16) × ((read_phdr ram 64).p_align ≡ 0x1000))
unfolding read_phdr little_endian
phdr_lem = (refl, (refl, refl))

ram_plain :
    (i : ℕ)
    → i < 1
    → ((read_phdr ram (64 + phdr_size * i)).p_vaddr + (read_phdr ram (64 + phdr_size * i)).p_memsz
        < 2 ^ 64)
      × ((read_phdr ram (64 + phdr_size * i)).p_align ≤ 2 ^ 62)
ram_plain zero lt =
    let phdr = phdr_lem in (omega (arith, phdr.0, phdr.1.0), omega (arith, phdr.1.1))
ram_plain (suc i) lt = absurd (omega (arith, lt))

ram-IsSane : IsSane (mm_find mm 0 0) ram 0
unfolding read_ehdr little_endian
ram-IsSane = record {
  room = omega (arith, mm_find_lem);
  apart = inl (omega (arith, mm_find_lem));
  plain = ram_plain;
}

elf_load_image_bounds_example :
    ((elf_load_image mm loading 0 128 ram).1 5 ≡ ram 5)
    × (((elf_load_image mm loading 0 128 ram).0 ≡ none)
        ⊎ ((p : Pcb) × (((elf_load_image mm loading 0 128 ram).0 ≡ some p)
              × (((mm_find mm 0 0 ≤ p.heap_start) × (p.heap_start ≤ p.heap_limit))
                  × ((p.heap_break ≡ p.heap_start)
                      × (p.heap_limit + proc_stack_reserve ≡ mm_find mm 0 0 + process_size))))))
elf_load_image_bounds_example =
    elf_load_image_bounds mm loading 0 128 ram 5 ram-IsSane (inl (omega (arith, mm_find_lem)))
