-- ===== src/Loader/Segments.antt =====
-- The two loops of the loader over the program headers.
use ax_kernel.Loader.{
  ElfPhdr, Placement, Extent, read_phdr, phdr_size, widen, bad_segment, measure, too_long,
  load_segments, is_load, process_size,
}
use ax_kernel.Loader.Region.{Agree-trans, Agree, Fits, read_phdr-Agree, put_segment-Agree, dest_lem}
use ax_kernel.Prelude.Results.{Every, Every-if, Every-some, Every-none}
use ax_kernel.Prelude.Word.{u64, sub64}
use ax_kernel.Prelude.{
  ℕ, zero, suc, ◌+◌, ◌*◌, ◌^◌, ◌≤◌, ◌<◌, ◌≡◌, ◌⊎◌, Bool, true, false, not, arith, sym, ap, subst,
  ◌∙◌, if_elim,
}

-- What holds of the first of the headers and of the `n` others holds of all of them.
all_headers :
    (P : ℕ → Type 0) (n a : ℕ)
    → P a
    → ((i : ℕ) → i < n → P (a + phdr_size + phdr_size * i))
    → (i : ℕ) → i < suc n
    → P (a + phdr_size * i)
all_headers P n a first others zero lt = subst P (omega arith) first
all_headers P n a first others (suc i) lt = subst P (omega arith) (others i (omega (arith, lt)))

-- What the first loop has found out about a segment.
pub record Seen (e : Extent) (phdr : ElfPhdr) : Type 0 where
  pub order : phdr.p_filesz ≤ phdr.p_memsz
  pub above : e.min_vaddr ≤ phdr.p_vaddr
  pub below : u64 (phdr.p_vaddr + phdr.p_memsz) ≤ e.max_vaddr

pub record Measured (memory : ℕ → ℕ) (n a align : ℕ) (before after : Extent) : Type 0 where
  pub low : after.min_vaddr ≤ before.min_vaddr
  pub high : before.max_vaddr ≤ after.max_vaddr
  pub aligned : after.max_align ≤ align
  pub bounded : after.max_vaddr < 2 ^ 64
  pub segments :
      (i : ℕ)
      → i < n
      → is_load (read_phdr memory (a + phdr_size * i)) ≡ true
      → Seen after (read_phdr memory (a + phdr_size * i))

widen-Seen :
    (e after : Extent) (phdr : ElfPhdr) (size : ℕ)
    → bad_segment phdr size ≡ false
    → after.min_vaddr ≤ (widen e phdr).min_vaddr
    → (widen e phdr).max_vaddr ≤ after.max_vaddr
    → Seen after phdr
unfolding widen bad_segment
widen-Seen e after phdr size ok low high = record {
  order = ground (arith, ok);
  above = ground (arith, low);
  below = ground (arith, high);
}

widen_low : (e : Extent) (phdr : ElfPhdr) → (widen e phdr).min_vaddr ≤ e.min_vaddr
unfolding widen
widen_low e phdr = ground arith

widen_high : (e : Extent) (phdr : ElfPhdr) → e.max_vaddr ≤ (widen e phdr).max_vaddr
unfolding widen
widen_high e phdr = ground arith

widen_bounded :
    (e : Extent) (phdr : ElfPhdr) → e.max_vaddr < 2 ^ 64 → (widen e phdr).max_vaddr < 2 ^ 64
unfolding widen
widen_bounded e phdr h = ground (arith, h)

widen_align :
    (e : Extent) (phdr : ElfPhdr) (align : ℕ)
    → e.max_align ≤ align
    → phdr.p_align ≤ align
    → (widen e phdr).max_align ≤ align
unfolding widen
widen_align e phdr align h h' = ground (arith, h, h')

pub measure-Measured :
    (n : ℕ) (memory : ℕ → ℕ) (a size align : ℕ) (e : Extent)
    → e.max_align ≤ align
    → e.max_vaddr < 2 ^ 64
    → ((i : ℕ) → i < n → (read_phdr memory (a + phdr_size * i)).p_align ≤ align)
    → Every (Measured memory n a align e) (measure n memory a size e)
unfolding measure
measure-Measured zero memory a size align e small top aligns = Every-some _ e (record {
  low = omega arith;
  high = omega arith;
  aligned = small;
  bounded = top;
  segments = λ i lt _. absurd (omega (arith, lt));
})
measure-Measured (suc n) memory a size align e small top aligns =
    let phdr = read_phdr memory a in
    let here : phdr.p_align ≤ align =
      subst (λ p. (read_phdr memory p).p_align ≤ align) (omega arith) (aligns 0 (omega arith)) in
    let later : (i : ℕ)
        → i < n
        → (read_phdr memory (a + phdr_size + phdr_size * i)).p_align ≤ align =
      λ i lt.
        subst (λ p. (read_phdr memory p).p_align ≤ align) (omega arith)
          (aligns (suc i) (omega (arith, lt))) in
    Every-if _ (not (is_load phdr))
      (λ off after found.
        let rest =
          measure-Measured n memory (a + phdr_size) size align e small top later after found in
        record {
          low = rest.low;
          high = rest.high;
          aligned = rest.aligned;
          bounded = rest.bounded;
          segments =
              all_headers
                (λ p. is_load (read_phdr memory p) ≡ true → Seen after (read_phdr memory p)) n a
                (λ on. absurd (ground (arith, on, off))) rest.segments;
        })
      (λ on.
        Every-if _ (bad_segment phdr size) (λ _. Every-none _)
          (λ ok after found.
            let rest =
              measure-Measured n memory (a + phdr_size) size align (widen e phdr)
                (widen_align e phdr align small here) (widen_bounded e phdr top) later after
                found in
            record {
              low = omega (arith, rest.low, widen_low e phdr);
              high = omega (arith, rest.high, widen_high e phdr);
              aligned = rest.aligned;
              bounded = rest.bounded;
              segments =
                  all_headers
                    (λ p. is_load (read_phdr memory p) ≡ true → Seen after (read_phdr memory p)) n a
                    (λ _. widen-Seen e after phdr size ok rest.low rest.high) rest.segments;
            }))

module _ (l : Placement) (min_vaddr image : ℕ) (m0 : ℕ → ℕ) (low : l.real_addr ≤ l.load_base)
    (small : l.load_base < 2 ^ 63 + 2 ^ 62) (room : l.real_addr + process_size ≤ 2 ^ 64) where
  pub load_segments-Agree :
      (n a : ℕ) (m : ℕ → ℕ)
      → Agree l.real_addr m m0
      → (a + phdr_size * n ≤ l.real_addr) ⊎ (l.real_addr + process_size ≤ a)
      → ((i : ℕ)
          → i < n
          → is_load (read_phdr m0 (a + phdr_size * i)) ≡ true
          → Fits min_vaddr (read_phdr m0 (a + phdr_size * i)))
      → Agree l.real_addr (load_segments n l min_vaddr image a m).1 m0
  unfolding load_segments
  load_segments-Agree zero a m same apart fits = same
  load_segments-Agree (suc n) a m same apart fits =
      let phdr = read_phdr m a in
      let seg_offset = sub64 phdr.p_vaddr min_vaddr in
      let known : read_phdr m a ≡ read_phdr m0 (a + phdr_size * 0) =
        read_phdr-Agree l.real_addr m m0 a same (omega (arith, apart))
        ∙ ap (read_phdr m0) (omega arith) in
      let later : (i : ℕ)
          → i < n
          → is_load (read_phdr m0 (a + phdr_size + phdr_size * i)) ≡ true
          → Fits min_vaddr (read_phdr m0 (a + phdr_size + phdr_size * i)) =
        λ i lt.
          subst (λ p. is_load (read_phdr m0 p) ≡ true → Fits min_vaddr (read_phdr m0 p))
            (omega arith) (fits (suc i) (omega (arith, lt))) in
      let Good : Bool × (ℕ → ℕ) → Type 0 = λ r. Agree l.real_addr r.1 m0 in
      if_elim Good (not (is_load phdr))
        (λ _. load_segments-Agree n (a + phdr_size) m same (omega (arith, apart)) later)
        (λ on.
          let held : Fits min_vaddr phdr =
            subst (λ p. is_load p ≡ true → Fits min_vaddr p) (sym known) (fits 0 (omega arith))
              (ground (arith, on)) in
          if_elim Good (too_long l seg_offset phdr.p_memsz) (λ _. same)
            (λ ok.
              let dest = dest_lem l min_vaddr phdr held low small ok in
              let put =
                put_segment-Agree l.real_addr m image (u64 (l.load_base + seg_offset)) phdr
                  held.order dest.0 dest.1 room in
              load_segments-Agree n (a + phdr_size) _ (Agree-trans l.real_addr _ m m0 put same)
                (omega (arith, apart)) later))
