-- ===== src/Memory.antt =====
-- The memory manager: src/manage/mm.c, src/manage/exmm.c, include/manage/_mm.h, and `cnt` of
-- include/tools/_asm.h. A map entry is two bits of `MMv5_mem`, a count of 128 KB units.
-- The arrays are functions of the index: `sp_top` and the arguments are 16-bit, so an index is below
-- 16384 for `MMv5_mem` (`Memory.Entry`). The field `pages` of the struct is never read or written.
pub mod Entry
pub mod Creat
pub mod Release
mod Tests
use ax_kernel.Prelude.{
  ℕ, zero, suc, ◌+◌, ◌-◌, ◌*◌, ◌/◌, ◌%◌, ◌^◌, Bool, true, false, not, ◌&&◌, ◌||◌, Option, none,
  some, ◌==◌, leb, ltb, if◌then◌else◌, bit_and, bit_or, bit_xor,
}
use ax_kernel.Prelude.Word.{u8, u16, u32, u64, sub64}

pub record MmStack : Type 0 where
  pub base : ℕ
  pub sp_top : ℕ
  pub sp_bot : ℕ
  pub sp_temp : ℕ
  pub mem : ℕ → ℕ
  pub sp : ℕ
  pub submem : ℕ → ℕ

abbrev pub mem_size : ℕ
mem_size = 16384

abbrev pub submem_size : ℕ
submem_size = 5

unfoldable pub update : (ℕ → ℕ) → ℕ → ℕ → ℕ → ℕ
update m i v j = if j == i then v else m j

unfoldable pub mm_init : MmStack → ℕ → MmStack
mm_init s addr = record {
  base = addr;
  sp_top = 0;
  sp_bot = 0xFFFF;
  sp_temp = 0;
  mem = λ i. if ltb i mem_size then 0 else s.mem i;
  sp = 0;
  submem = λ i. if ltb i submem_size then 0 else s.submem i;
}

-- The byte with the two bits at `pos` cleared, and `val & 3` put there. `~` is that of a 32-bit int.
unfoldable pub put_bits : ℕ → ℕ → ℕ → ℕ
put_bits byte pos val =
    let cleared = u8 (bit_and byte (2 ^ 32 - 1 - 3 * 2 ^ pos)) in
    u8 (bit_or cleared (bit_and val 3 * 2 ^ pos))

unfoldable pub regu_push : MmStack → ℕ → ℕ × MmStack
unfolding update put_bits
regu_push s val =
    let byte_idx = s.sp_top / 4 in
    let bit_pos = bit_and s.sp_top 3 * 2 in
    (
      s.sp_top,
      record s {
        mem = update s.mem byte_idx (put_bits (s.mem byte_idx) bit_pos val);
        sp_top = u16 (s.sp_top + 1);
      },
    )

-- The loop of `mm_creat`: entries of at most three units. The units left bound the rounds.
unfoldable pub push_units : ℕ → MmStack → ℕ → MmStack
push_units zero s remaining = s
push_units (suc k) s remaining =
    let units = if ltb 3 remaining then 3 else u8 remaining in
    let rest = push_units k (regu_push s units).1 (remaining - units) in
    if remaining == 0 then s else rest

-- 128 KB units for a request in KB, and map entries for them.
abbrev pub units_of : ℕ → ℕ
units_of val16 = u32 (val16 + 127) / 128

abbrev pub entries_of : ℕ → ℕ
entries_of val16 = u32 (units_of val16 + 2) / 3

-- The guard of `mm_creat`. `0xFFFF - sp_top` does not wrap, as `sp_top` is 16-bit.
unfoldable pub no_room : MmStack → ℕ → Bool
no_room s entries =
    leb s.sp_bot s.sp_top
    || (ltb (0xFFFF - s.sp_top) entries || ltb (mem_size * 4) (u32 (s.sp_top + entries)))

-- The stack is not NULL.
unfoldable pub mm_creat : MmStack → ℕ → ℕ × MmStack
unfolding push_units no_room
mm_creat s val16 =
    if val16 == 0
    then (0, s)
    else if no_room s (entries_of val16)
    then (0, s)
    else (s.sp_top, push_units (units_of val16) s (units_of val16))

-- The population count, by sums of neighbouring fields in one 64-bit word.
unfoldable pub cnt : ℕ → ℕ
cnt val =
    let a = sub64 val (bit_and (val / 2) 0x5555555555555555) in
    let b = u64 (bit_and a 0x3333333333333333 + bit_and (a / 4) 0x3333333333333333) in
    let c = bit_and (u64 (b + b / 16)) 0x0F0F0F0F0F0F0F0F in
    u8 (u64 (c * 0x0101010101010101) / 2 ^ 56)

-- Eight bytes from index `i` on, the first the least significant.
abbrev pub chunk_at : (ℕ → ℕ) → ℕ → ℕ → ℕ
chunk_at mem i zero = 0
chunk_at mem i (suc n) = mem i + 256 * chunk_at mem (i + 1) n

-- The units that a word of entries stands for, as a 16-bit number.
unfoldable pub weigh : ℕ → ℕ
unfolding cnt
weigh chunk =
    u16 (cnt (bit_and chunk 0x5555555555555555) + cnt (bit_and chunk 0xAAAAAAAAAAAAAAAA) * 2)

pub sum_chunks : ℕ → (ℕ → ℕ) → ℕ → ℕ → ℕ
sum_chunks zero mem i acc = acc
sum_chunks (suc n) mem i acc = sum_chunks n mem (i + 8) (u16 (acc + weigh (chunk_at mem i 8)))

-- The units before entry `val16`.
unfoldable pub units_before : MmStack → ℕ → ℕ
unfolding sum_chunks weigh
units_before s val16 =
    let quo = val16 / 32 in
    let rem = bit_and val16 0x1F in
    let whole = sum_chunks quo s.mem 0 0 in
    let last = bit_and (chunk_at s.mem (quo * 8) 8) (2 ^ (rem * 2) - 1) in
    if ltb 0 rem then u16 (whole + weigh last) else whole

unfoldable pub mm_find : MmStack → ℕ → ℕ → ℕ
unfolding units_before
mm_find s val16 indi_addr =
    u64 (s.base + u64 (128 * u64 (units_before s val16 * 2 ^ 10)) + indi_addr)

-- `none` is the value of a function that returns none, which the caller then returns.
unfoldable pub regu_substack_push : MmStack → ℕ → Option ℕ × MmStack
unfolding update
regu_substack_push s val =
    (none, record s { submem = update s.submem s.sp val; sp = u8 (s.sp + 1) })

unfoldable pub regu_pop : MmStack → ℕ → ℕ × MmStack
regu_pop s val = if s.sp_top == 0 then (0xFF, s) else (s.mem (val / 4), record s { sp_temp = val })

-- The two tests of `mm_free`. In `a ^ b != 0` the comparison binds first.
unfoldable pub one_each : ℕ → Bool
unfolding cnt
one_each byte = leb (cnt (bit_and byte 0xAA)) 1 && leb (cnt (bit_and byte 0x55)) 1

unfoldable pub one_piece : ℕ → Bool
unfolding cnt
one_piece byte =
    not (bit_xor (cnt (bit_and byte 0x0F)) (if cnt (bit_and byte 0xF0) == 0 then 0 else 1) == 0)
    || not (cnt (bit_and byte 0x33) == 1)

-- The two stacks are one object for the only caller, so the pop is seen by the push.
unfoldable pub mm_free : MmStack → ℕ → Option ℕ × MmStack
unfolding regu_pop regu_substack_push one_each one_piece
mm_free s val16 =
    let (remain, s') = regu_pop s val16 in
    if one_each remain && one_piece remain
    then (if leb 5 s'.sp then (some 0, s') else regu_substack_push s' remain)
    else (some 0, s')
