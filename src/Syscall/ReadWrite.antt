-- ===== src/Syscall/ReadWrite.antt =====
-- What read and write do to files and to the memory of the caller.
use ax_kernel.Prelude.{
  ◌≤◌, if◌then◌else◌, ◌-◌, leb, sym, ltb, subst, ◌+◌, ◌||◌, ◌==◌, ◌∙◌, if_elim, Option, ◌^◌, ap,
  ◌<◌, arith, some, ◌≢◌, ◌≡◌, ℕ,
}
use ax_kernel.File.{FileBlock, put_at}
use ax_kernel.Prelude.Results.{◌>>=◌}
use ax_kernel.Prelude.Word.{u32}
use ax_kernel.File.Data.{AreApart, clip, data_start, fm_write, fm_read, fm_read-fm_write}
use ax_kernel.Proc.{Ctrl, Handle, use_file}
use ax_kernel.Syscall.{max_control_num, set_control}
use ax_kernel.Syscall.System.{System, returned, Result, sign_extend, set_proc, as_current}
use ax_kernel.Syscall.Transfer.{
  advanced, write_call, read_call, write_at, read_at, write_file, read_file, file_of,
}

-- Descriptor `fd` of the running process `c` is the file in `slot`.
pub record IsOpen {Node : Type 0} (s : System Node) (c fd slot : ℕ) : Type 0 where
  pub running : s.current_proc ≡ some c
  pub in_range : fd < max_control_num
  pub alloc : ((s.pm.procs c).control fd).is_ctrl_alloc ≢ 0
  pub file : ((s.pm.procs c).control fd).is_file ≢ 0
  pub at_slot : ((s.pm.procs c).control fd).handle ≡ use_file slot

module _ {Node : Type 0} (s : System Node) (c arg1 slot : ℕ) (o : IsOpen s c (u32 arg1) slot) where
  write_call-file :
      (buf len : ℕ)
      → write_call s arg1 buf len
        ≡ write_file s c (s.pm.procs c) (u32 arg1) (some (some slot)) buf (u32 len)
  unfolding write_call write_at as_current
  write_call-file buf len =
      let p = s.pm.procs c in
      let fd = u32 arg1 in
      let result = write_file s c p fd (some (some slot)) buf (u32 len) in
      ap (λ (m : Option ℕ). m >>= λ k. write_at s fd buf (u32 len) k (s.pm.procs k)) o.running
      ∙ if_elim (λ (r : Result Node). r ≡ result) (ltb fd max_control_num)
          (λ _.
            if_elim (λ (r : Result Node). r ≡ result) ((p.control fd).is_file == 0)
              (λ none_open. absurd (o.file (ground (arith, none_open))))
              (λ _. ap (λ (h : Handle). write_file s c p fd (file_of h) buf (u32 len)) o.at_slot))
          (λ out. absurd (ground (arith, out, o.in_range)))

  read_call-file :
      (buf count offset : ℕ)
      → count ≢ 0
      → count < 2 ^ 32
      → buf ≢ 0
      → read_call s arg1 buf count offset
        ≡ read_file s c (s.pm.procs c) (u32 arg1) (some (some slot)) buf count (u32 offset)
  unfolding read_call read_at as_current
  read_call-file buf count offset some_bytes word place =
      let p = s.pm.procs c in
      let fd = u32 arg1 in
      let result = read_file s c p fd (some (some slot)) buf count (u32 offset) in
      let P : Result Node → Type 0 = λ r. r ≡ result in
      if_elim P (count == 0) (λ e. absurd (some_bytes (ground (arith, e))))
        (λ _.
          if_elim P ((buf == 0) || leb max_control_num fd)
            (λ bad. absurd (ground (arith, bad, place, o.in_range)))
            (λ _.
              ap (λ (m : Option ℕ). m >>= λ k. read_at s fd buf count (u32 offset) k (s.pm.procs k))
                o.running
              ∙ if_elim P ((p.control fd).is_ctrl_alloc == 0)
                  (λ free. absurd (o.alloc (ground (arith, free))))
                  (λ _.
                    if_elim P ((p.control fd).is_file == 0)
                      (λ none_open. absurd (o.file (ground (arith, none_open))))
                      (λ _.
                        if_elim P (ltb (2 ^ 32 - 1) count)
                          (λ long. absurd (ground (arith, long, word)))
                          (λ _.
                            ap
                              (λ (h : Handle).
                                read_file s c p fd (file_of h) buf count (u32 offset))
                              o.at_slot)))))

-- The system after `n` bytes have been written to descriptor `fd`.
abbrev moved : {Node : Type 0} → System Node → ℕ → ℕ → ℕ × (ℕ → ℕ) → System Node
moved s c fd (n, memory) =
    set_proc (record s { memory = memory }) c
      (set_control (s.pm.procs c) fd (advanced ((s.pm.procs c).control fd) n))

moved_control :
    {Node : Type 0} (s : System Node) (c fd : ℕ) (w : ℕ × (ℕ → ℕ))
    → ((moved s c fd w).pm.procs c).control fd ≡ advanced ((s.pm.procs c).control fd) w.0
unfolding set_proc set_control put_at
moved_control s c fd w = ground arith

module _ {Node : Type 0} (s : System Node) (c arg1 slot : ℕ) (o : IsOpen s c (u32 arg1) slot) where
  -- The descriptor stays open while it moves.
  moved-IsOpen : (w : ℕ × (ℕ → ℕ)) → IsOpen (moved s c (u32 arg1) w) c (u32 arg1) slot
  unfolding set_proc
  moved-IsOpen w =
      let same = moved_control s c (u32 arg1) w in
      record {
        running = o.running;
        in_range = o.in_range;
        alloc = subst (λ (k : Ctrl). k.is_ctrl_alloc ≢ 0) (sym same) o.alloc;
        file = subst (λ (k : Ctrl). k.is_file ≢ 0) (sym same) o.file;
        at_slot = subst (λ (k : Ctrl). k.handle ≡ use_file slot) (sym same) o.at_slot;
      }

clip_le : (file : FileBlock) (size offset : ℕ) → clip file size offset ≤ size
unfolding clip
clip_le file size offset = ground arith

-- The first byte of descriptor `fd` of process `c` that is not yet written.
abbrev pub offset_of : {Node : Type 0} → System Node → ℕ → ℕ → ℕ
offset_of s c fd = ((s.pm.procs c).control fd).file_offset

-- A process writes `count` bytes to an open file, and reads as many from the place where it began: both
-- calls answer the number of bytes that lie within the file, and the bytes come back as they were
-- written. The buffers are apart from the part of the file that is touched.
pub read_call-write_call :
    {Node : Type 0} (s : System Node) (c arg1 slot buf target count i : ℕ)
    → IsOpen s c (u32 arg1) slot
    → AreApart buf count (data_start s.fm slot + offset_of s c (u32 arg1)) count
    → AreApart target count (data_start s.fm slot + offset_of s c (u32 arg1)) count
    → i < clip (s.fm.files slot) count (offset_of s c (u32 arg1))
    → (count < 2 ^ 31) × (offset_of s c (u32 arg1) + count < 2 ^ 32)
    → target ≢ 0
    → let n = clip (s.fm.files slot) count (offset_of s c (u32 arg1)) in
      (s1 : System Node) × ((write_call s arg1 buf count ≡ some (returned n, s1))
        × ((s2 : System Node) × ((read_call s1 arg1 target count (offset_of s c (u32 arg1))
                ≡ some (returned n, s2))
              × (s2.memory (target + i) ≡ s.memory (buf + i)))))
unfolding set_proc write_file read_file sign_extend
read_call-write_call s c arg1 slot buf target count i o apart1 apart2 lt small place =
    let fd = u32 arg1 in
    let offset = offset_of s c fd in
    let n = clip (s.fm.files slot) count offset in
    let w = fm_write s.fm s.memory (some slot) buf count offset in
    let r = fm_read s.fm w.1 (some slot) target count offset in
    let s1 = moved s c fd w in
    let o1 = moved-IsOpen s c arg1 slot o w in
    let back = fm_read-fm_write s.fm s.memory slot buf target count offset i apart1 apart2 lt in
    let le = clip_le (s.fm.files slot) count offset in
    let word : u32 count ≡ count = omega (arith, small.0) in
    let at_start : u32 offset ≡ offset = omega (arith, small.1) in
    let answer : sign_extend w.0 ≡ n = ground (arith, back.0.0, small.0, le) in
    let end = offset_of s1 c fd in
    let end_lem : end ≡ u32 (offset + w.0) =
      ap (λ (k : Ctrl). k.file_offset) (moved_control s c fd w) in
    let at_offset : (if leb end offset then end else offset) ≡ offset =
      ground (arith, end_lem, back.0.0, le, small.1) in
    (
      s1,
      (
        write_call-file s c arg1 slot o buf count
            ∙ (ap (λ len. write_file s c (s.pm.procs c) fd (some (some slot)) buf len) word
                ∙ ap (λ k. some (returned k, s1)) answer),
        (
          moved s1 c fd r,
          (
            read_call-file s1 c arg1 slot o1 target count offset (omega (arith, lt, le))
                  (omega (arith, small.0)) place
                ∙ (ap (λ k. read_file s1 c (s1.pm.procs c) fd (some (some slot)) target count k)
                      at_start
                    ∙ (ap
                          (λ k.
                            let r' = fm_read s.fm w.1 (some slot) target count k in
                            some (returned r'.0, moved s1 c fd r'))
                          at_offset
                        ∙ ap (λ k. some (returned k, moved s1 c fd r)) (back.0.1 ∙ back.0.0))),
            back.1,
          ),
        ),
      ),
    )
