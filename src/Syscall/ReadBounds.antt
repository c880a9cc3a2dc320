-- ===== src/Syscall/ReadBounds.antt =====
-- What read can answer and change at most.
use ax_kernel.Prelude.{
  [], ◌∙◌, ◌-◌, ◌^◌, leb, ltb, ◌||◌, Bool, if◌then◌else◌, inl, inr, refl, ◌==◌, if_elim, none, ◌∷◌,
  arith, ◌+◌, Option, some, ◌⊎◌, List, ◌<◌, ◌≡◌, ◌≤◌, ℕ,
}
use ax_kernel.Prelude.Loop.{write, write_other}
use ax_kernel.Prelude.Results.{Every-chain, Every-none, Every-some, Every}
use ax_kernel.Text.{is_enter}
use ax_kernel.Prelude.Word.{u32}
use ax_kernel.Syscall.Transfer.{Console, read_keys, read_call, read_at, read_file, read_device}
use ax_kernel.File.{FmRecord, fm_data_addr}
use ax_kernel.File.Data.{clip, fm_read, clip_le, memcpy_miss, file_size}
use ax_kernel.Proc.{Pcb}
use ax_kernel.Syscall.{fault, max_control_num}
use ax_kernel.Syscall.System.{System, Reply, returned, stopped, waiting, as_current, set_proc}

-- An answer of read: a count of bytes, -1, or it still waits for a key.
unfoldable pub IsCount : ℕ → Reply → Type 0
IsCount count (returned n) = (n ≤ count) ⊎ (n ≡ fault)
IsCount count stopped = ⊥
IsCount count waiting = Unit

-- At most `n` bytes are read, and the byte at `a` is outside the `n` bytes at `buf`.
read_keys_bounds :
    (keys : List ℕ) (n buf : ℕ) (memory : ℕ → ℕ) (serial : List ℕ) (a : ℕ)
    → (a < buf) ⊎ (buf + n ≤ a)
    → let (ended, (read_bytes, after)) = read_keys keys n buf memory serial in
      (read_bytes ≤ n) × (after.memory a ≡ memory a)
unfolding read_keys
read_keys_bounds [] n buf memory serial a out = (omega arith, refl)
read_keys_bounds (c ∷ keys) n buf memory serial a out =
    let P : Bool × (ℕ × Console) → Type 0 =
      λ (r : Bool × (ℕ × Console)). (r.1.0 ≤ n) × (r.1.1.memory a ≡ memory a) in
    if_elim P (n == 0) (λ _. (omega arith, refl))
      (λ more.
        let away = write_other memory buf c a (ground (arith, out, more)) in
        if_elim P (is_enter c) (λ _. (ground (arith, more), away))
          (λ _.
            let rest =
              read_keys_bounds keys (n - 1) (buf + 1) (write memory buf c) (c ∷ serial) a
                (ground (arith, out, more)) in
            (ground (arith, rest.0, more), rest.1 ∙ away)))

fm_read_bounds :
    {Node : Type 0} (reco : FmRecord Node) (memory : ℕ → ℕ) (file : Option ℕ)
    (buf size offset a : ℕ)
    → (a < buf) ⊎ (buf + size ≤ a)
    → let (n, memory') = fm_read reco memory file buf size offset in
      (n ≤ size) × (memory' a ≡ memory a)
unfolding fm_read
fm_read_bounds reco memory none buf size offset a out = (omega arith, refl)
fm_read_bounds reco memory (some slot) buf size offset a out =
    let file = reco.files slot in
    let le = clip_le file size offset in
    if_elim (λ (r : ℕ × (ℕ → ℕ)). (r.0 ≤ size) × (r.1 a ≡ memory a)) (leb (file_size file) offset)
      (λ _. (omega arith, refl))
      (λ _. (
        le,
        memcpy_miss memory buf (fm_data_addr reco file + offset) (clip file size offset) a
            (omega (arith, out, le)),
      ))

module _ {Node : Type 0} (s : System Node) (buf count a : ℕ)
    (out : (a < buf) ⊎ (buf + count ≤ a)) where
  abbrev Bounded : Reply × System Node → Type 0
  Bounded r = IsCount count r.0 × (r.1.memory a ≡ s.memory a)

  refused : Every Bounded (some (returned fault, s))
  unfolding IsCount
  refused = Every-some _ _ (inr refl, refl)

  read_device-Bounded : Every Bounded (read_device s buf count)
  unfolding read_device IsCount
  read_device-Bounded =
      let h = read_keys_bounds s.keys count buf s.memory s.serial a out in
      let (ended, (read_bytes, after)) = read_keys s.keys count buf s.memory s.serial in
      Every-some _ _ (if_elim (IsCount count) ended (λ _. inl h.0) (λ _. tt), h.1)

  read_file-Bounded :
      (c fd offset : ℕ) (p : Pcb) (file : Option (Option ℕ))
      → Every Bounded (read_file s c p fd file buf count offset)
  unfolding read_file set_proc IsCount
  read_file-Bounded c fd offset p none = Every-none _
  read_file-Bounded c fd offset p (some file) =
      let end = (p.control fd).file_offset in
      let h =
        fm_read_bounds s.fm s.memory file buf count (if leb end offset then end else offset) a
          out in
      Every-some _ _ (inl h.0, h.1)

  read_at-Bounded : (fd offset c : ℕ) (p : Pcb) → Every Bounded (read_at s fd buf count offset c p)
  unfolding read_at
  read_at-Bounded fd offset c p =
      if_elim (Every Bounded) ((p.control fd).is_ctrl_alloc == 0) (λ _. refused)
        (λ _.
          if_elim (Every Bounded) ((p.control fd).is_file == 0) (λ _. read_device-Bounded)
            (λ _.
              if_elim (Every Bounded) (ltb (2 ^ 32 - 1) count) (λ _. refused)
                (λ _. read_file-Bounded c fd offset p _)))

-- Whatever the arguments, a read that is defined answers at most the count that was asked for, or -1, or
-- waits for a key, and it changes no byte of the memory outside the buffer of that size.
pub read_call_bounds :
    {Node : Type 0} (s : System Node) (arg1 arg2 arg3 arg4 a : ℕ) (r : Reply × System Node)
    → read_call s arg1 arg2 arg3 arg4 ≡ some r
    → (a < arg2) ⊎ (arg2 + arg3 ≤ a)
    → IsCount arg3 r.0 × (r.1.memory a ≡ s.memory a)
unfolding read_call as_current IsCount
read_call_bounds s arg1 arg2 arg3 arg4 a r h out =
    let Q : Option (Reply × System _) → Type 0 = Every (Bounded s arg2 arg3 a out) in
    if_elim Q (arg3 == 0) (λ _. Every-some _ _ (inl (omega arith), refl))
      (λ _.
        if_elim Q ((arg2 == 0) || leb max_control_num (u32 arg1)) (λ _. refused s arg2 arg3 a out)
          (λ _.
            Every-chain (Bounded s arg2 arg3 a out) s.current_proc
              (λ c. read_at s (u32 arg1) arg2 arg3 (u32 arg4) c (s.pm.procs c))
              (λ c _. read_at-Bounded s arg2 arg3 a out (u32 arg1) (u32 arg4) c (s.pm.procs c))))
      r h
