-- ===== src/Syscall/Transfer.antt =====
-- The calls that move bytes: write and read of src/handler/syscall.c, with `uart_dev_write` of
-- src/tools/device.c.
use ax_kernel.Prelude.{
  [], true, zero, ◌-◌, ◌^◌, ◌||◌, ◌∷◌, Bool, leb, ltb, none, suc, ◌+◌, ◌==◌, List, Option,
  if◌then◌else◌, some, ℕ,
}
use ax_kernel.Prelude.Word.{u32}
use ax_kernel.Prelude.Loop.{write}
use ax_kernel.File.Data.{fm_write, fm_read}
use ax_kernel.Proc.{Pcb, Ctrl, Handle, null, uart, use_dev, use_file}
use ax_kernel.Syscall.{fault, max_control_num, set_control}
use ax_kernel.Syscall.System.{System, returned, waiting, Result, sign_extend, set_proc, as_current}
use ax_kernel.Text.{is_enter}

-- The loop of `uart_dev_write` over `n` bytes.
unfoldable pub send_bytes : (ℕ → ℕ) → ℕ → ℕ → List ℕ → List ℕ
send_bytes memory buf zero serial = serial
send_bytes memory buf (suc n) serial = send_bytes memory (buf + 1) n (memory buf ∷ serial)

-- A length from 2^31 on is negative as an `int`.
unfoldable pub uart_dev_write : (ℕ → ℕ) → ℕ → ℕ → List ℕ → ℕ × List ℕ
unfolding send_bytes sign_extend
uart_dev_write memory buf len serial =
    (sign_extend len, send_bytes memory buf (if ltb len (2 ^ 31) then len else 0) serial)

-- The file of a descriptor, `some none` for NULL. `none` is a device that is taken for a file.
abbrev pub file_of : Handle → Option (Option ℕ)
file_of null = some none
file_of uart = none
file_of (use_dev d) = none
file_of (use_file slot) = some (some slot)

-- A descriptor after `n` bytes.
abbrev pub advanced : Ctrl → ℕ → Ctrl
advanced c n = record c { file_offset = u32 (c.file_offset + n) }

-- What `getchar` and `putchar` work on.
pub record Console : Type 0 where
  pub memory : ℕ → ℕ
  pub keys : List ℕ
  pub serial : List ℕ

-- The loop of `read_call` with `n` bytes left: whether it has ended, and the bytes it has read.
unfoldable pub read_keys : List ℕ → ℕ → ℕ → (ℕ → ℕ) → List ℕ → Bool × (ℕ × Console)
unfolding write
read_keys [] n buf memory serial =
    (n == 0, (0, record { memory = memory; keys = []; serial = serial }))
read_keys (c ∷ keys) n buf memory serial =
    let (ended, (read_bytes, after)) =
      read_keys keys (n - 1) (buf + 1) (write memory buf c) (c ∷ serial) in
    if n == 0
    then (true, (0, record { memory = memory; keys = c ∷ keys; serial = serial }))
    else if is_enter c
    then (true, (1, record { memory = write memory buf c; keys = keys; serial = 10 ∷ serial }))
    else (ended, (read_bytes + 1, after))

module _ {Node : Type 0} where
  -- `none` is a call of a function of another device.
  unfoldable pub write_device : System Node → Handle → ℕ → ℕ → Result Node
  unfolding uart_dev_write
  write_device s uart buf len =
      let (answer, serial') = uart_dev_write s.memory buf len s.serial in
      some (returned answer, record s { serial = serial' })
  write_device s null buf len = none
  write_device s (use_dev d) buf len = none
  write_device s (use_file slot) buf len = none

  unfoldable pub write_file : System Node → ℕ → Pcb → ℕ → Option (Option ℕ) → ℕ → ℕ → Result Node
  unfolding fm_write set_proc set_control sign_extend
  write_file s c p fd none buf len = none
  write_file s c p fd (some file) buf len =
      let (written, memory') = fm_write s.fm s.memory file buf len (p.control fd).file_offset in
      some (
        returned (sign_extend written),
        set_proc (record s { memory = memory' }) c
            (set_control p fd (advanced (p.control fd) written)),
      )

  -- `none` is also a descriptor outside the array, which is not tested.
  unfoldable pub write_at : System Node → ℕ → ℕ → ℕ → ℕ → Pcb → Result Node
  unfolding write_device write_file
  write_at s fd buf len c p =
      if ltb fd max_control_num
      then (if (p.control fd).is_file == 0
          then (if fd == 0
              then write_device s (p.control 0).handle buf len
              else some (returned 1, s))
          else write_file s c p fd (file_of (p.control fd).handle) buf len)
      else none

  unfoldable pub write_call : System Node → ℕ → ℕ → ℕ → Result Node
  unfolding write_at as_current
  write_call s arg1 arg2 arg3 = as_current s (write_at s (u32 arg1) arg2 (u32 arg3))

  unfoldable pub read_device : System Node → ℕ → ℕ → Result Node
  unfolding read_keys
  read_device s buf count =
      let (ended, (read_bytes, after)) = read_keys s.keys count buf s.memory s.serial in
      some (
        if ended then returned read_bytes else waiting,
        record s { memory = after.memory; keys = after.keys; serial = after.serial },
      )

  unfoldable pub read_file : System Node → ℕ → Pcb → ℕ → Option (Option ℕ) → ℕ → ℕ → ℕ → Result Node
  unfolding fm_read set_proc set_control
  read_file s c p fd none buf count offset = none
  read_file s c p fd (some file) buf count offset =
      let end = (p.control fd).file_offset in
      let (read_bytes, memory') =
        fm_read s.fm s.memory file buf count (if leb end offset then end else offset) in
      some (
        returned read_bytes,
        set_proc (record s { memory = memory' }) c
            (set_control p fd (advanced (p.control fd) read_bytes)),
      )

  -- Behind the tests of the arguments.
  unfoldable pub read_at : System Node → ℕ → ℕ → ℕ → ℕ → ℕ → Pcb → Result Node
  unfolding read_device read_file
  read_at s fd buf count offset c p =
      if (p.control fd).is_ctrl_alloc == 0
      then some (returned fault, s)
      else if (p.control fd).is_file == 0
      then read_device s buf count
      else if ltb (2 ^ 32 - 1) count
      then some (returned fault, s)
      else read_file s c p fd (file_of (p.control fd).handle) buf count offset

  -- A descriptor that is negative as an `int` is not below MAX_CONTROL_NUM here either.
  unfoldable pub read_call : System Node → ℕ → ℕ → ℕ → ℕ → Result Node
  unfolding read_at as_current
  read_call s arg1 arg2 arg3 arg4 =
      if arg3 == 0
      then some (returned 0, s)
      else if (arg2 == 0) || leb max_control_num (u32 arg1)
      then some (returned fault, s)
      else as_current s (read_at s (u32 arg1) arg2 arg3 (u32 arg4))
