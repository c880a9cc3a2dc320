-- ===== src/Loader/Region.antt =====
-- What the loader writes to.
use ax_kernel.Prelude.Bytes.{little_endian}
use ax_kernel.Loader.{
  ElfPhdr, Placement, read_phdr, phdr_size, put_segment, too_long, process_size, proc_stack_reserve,
}
use ax_kernel.Prelude.Loop.{for_range_miss, write_other}
use ax_kernel.Prelude.Word.{u32, u64, sub64}
use ax_kernel.Prelude.{
  ℕ, zero, suc, ◌+◌, ◌-◌, ◌*◌, ◌^◌, ◌≤◌, ◌<◌, ◌≡◌, ◌⊎◌, false, arith, refl, ap₂, ◌∙◌,
}

-- Address `b` is not in the memory of `process_size - proc_stack_reserve` bytes from `real` on.
abbrev pub Outside : ℕ → ℕ → Type 0
Outside real b = (b < real) ⊎ (real + (process_size - proc_stack_reserve) ≤ b)

-- The bytes outside are the same.
pub Agree : ℕ → (ℕ → ℕ) → (ℕ → ℕ) → Type 0
Agree real m m0 = (b : ℕ) → Outside real b → m b ≡ m0 b

pub Agree-refl : (real : ℕ) (m : ℕ → ℕ) → Agree real m m
unfolding Agree
Agree-refl real m b out = refl

pub Agree-at : (real : ℕ) (m m0 : ℕ → ℕ) (b : ℕ) → Agree real m m0 → Outside real b → m b ≡ m0 b
unfolding Agree
Agree-at real m m0 b same out = same b out

pub Agree-trans :
    (real : ℕ) (m' m m0 : ℕ → ℕ) → Agree real m' m → Agree real m m0 → Agree real m' m0
unfolding Agree
Agree-trans real m' m m0 after before b out = after b out ∙ before b out

little_endian-Agree :
    (real : ℕ) (m m0 : ℕ → ℕ) (n a : ℕ)
    → Agree real m m0
    → (a + n ≤ real) ⊎ (real + process_size ≤ a)
    → little_endian m n a ≡ little_endian m0 n a
unfolding Agree little_endian
little_endian-Agree real m m0 zero a same apart = refl
little_endian-Agree real m m0 (suc n) a same apart =
    ap₂ (λ x y. x + 2 ^ 8 * y) (same a (omega (arith, apart)))
      (little_endian-Agree real m m0 n (a + 1) same (omega (arith, apart)))

pub read_phdr-Agree :
    (real : ℕ) (m m0 : ℕ → ℕ) (a : ℕ)
    → Agree real m m0
    → (a + phdr_size ≤ real) ⊎ (real + process_size ≤ a)
    → read_phdr m a ≡ read_phdr m0 a
unfolding read_phdr
read_phdr-Agree real m m0 a same apart =
    let field : (n k : ℕ)
        → k + n ≤ phdr_size
        → little_endian m n (a + k) ≡ little_endian m0 n (a + k) =
      λ n k le. little_endian-Agree real m m0 n (a + k) same (omega (arith, apart, le)) in
    let first : little_endian m 4 a ≡ little_endian m0 4 a =
      little_endian-Agree real m m0 4 a same (omega (arith, apart)) in
    λ i. record {
      p_type = first i;
      p_offset = field 8 8 (omega arith) i;
      p_vaddr = field 8 16 (omega arith) i;
      p_filesz = field 8 32 (omega arith) i;
      p_memsz = field 8 40 (omega arith) i;
      p_align = field 8 48 (omega arith) i;
    }

-- A segment that the loader can place: the sizes are in order and the extent holds it.
pub record Fits (min_vaddr : ℕ) (phdr : ElfPhdr) : Type 0 where
  pub order : phdr.p_filesz ≤ phdr.p_memsz
  pub above : min_vaddr ≤ phdr.p_vaddr
  pub within : phdr.p_vaddr + phdr.p_memsz ≤ min_vaddr + process_size
  pub address : phdr.p_vaddr < 2 ^ 64

pub put_segment-Agree :
    (real : ℕ) (m : ℕ → ℕ) (image dest : ℕ) (phdr : ElfPhdr)
    → phdr.p_filesz ≤ phdr.p_memsz
    → real ≤ dest
    → dest + phdr.p_memsz ≤ real + (process_size - proc_stack_reserve)
    → real + process_size ≤ 2 ^ 64
    → Agree real (put_segment m image dest phdr) m
unfolding Agree put_segment
put_segment-Agree real m image dest phdr order low high small b out =
    for_range_miss (phdr.p_memsz - phdr.p_filesz) phdr.p_filesz _ _ b (λ j m' ge lt.
      write_other m' (u64 (dest + j)) 0 b (omega (arith, out, order, low, high, small, lt)))
    ∙ for_range_miss (u32 phdr.p_filesz) 0 _ m b (λ i m' _ lt.
      write_other m' (u64 (dest + i)) (m' (u64 (image + phdr.p_offset + i))) b
        (omega (arith, out, order, low, high, small, lt)))

-- A segment that passes the test of the second loop lies in the process memory.
pub dest_lem :
    (l : Placement) (min_vaddr : ℕ) (phdr : ElfPhdr)
    → Fits min_vaddr phdr
    → l.real_addr ≤ l.load_base
    → l.load_base < 2 ^ 63 + 2 ^ 62
    → too_long l (sub64 phdr.p_vaddr min_vaddr) phdr.p_memsz ≡ false
    → (l.real_addr ≤ u64 (l.load_base + sub64 phdr.p_vaddr min_vaddr))
      × (u64 (l.load_base + sub64 phdr.p_vaddr min_vaddr) + phdr.p_memsz
          ≤ l.real_addr + (process_size - proc_stack_reserve))
unfolding too_long
dest_lem l min_vaddr phdr fits low small ok =
    let offset : sub64 phdr.p_vaddr min_vaddr ≡ phdr.p_vaddr - min_vaddr =
      omega (arith, fits.above, fits.address) in
    let base : sub64 l.load_base l.real_addr ≡ l.load_base - l.real_addr =
      omega (arith, low, small) in
    (
      ground (arith, ok, offset, base, low, small, fits.above, fits.within),
      ground (arith, ok, offset, base, low, small, fits.above, fits.within),
    )
