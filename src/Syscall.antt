-- ===== src/Syscall.antt =====
-- System calls on the running process: src/handler/syscall.c. The descriptors of a process are the
-- array `control` of its block, of MAX_CONTROL_NUM elements; an access outside it gives `none`.
-- `dm_find` and the file manager answer a name, and are arguments here.
pub mod Heap
pub mod Files
pub mod System
pub mod Transfer
pub mod Calls
pub mod Table
pub mod Stable
pub mod Mailbox
pub mod Descriptors
pub mod ReadWrite
pub mod ReadBounds
mod CallTests
use ax_kernel.Prelude.{
  ℕ, zero, suc, ◌+◌, ◌-◌, ◌*◌, ◌/◌, ◌%◌, ◌^◌, Bool, true, false, ◌&&◌, ◌||◌, Option, none, some,
  ◌==◌, leb, ltb, if◌then◌else◌,
}
use ax_kernel.Prelude.Word.{u8, u32, u64}
use ax_kernel.Proc.{Pcb, Ctrl, Handle, null, uart, use_dev, use_file}

abbrev pub max_control_num : ℕ
max_control_num = 3

-- `(uint64_t)-1`.
abbrev pub fault : ℕ
fault = 2 ^ 64 - 1

-- The running process is not NULL.
unfoldable pub brk_call : Pcb → ℕ → ℕ × Pcb
brk_call p arg1 =
    if p.heap_start == 0
    then (fault, p)
    else if arg1 == 0
    then (p.heap_break, p)
    else if ltb p.heap_limit p.heap_break || ltb (p.heap_limit - p.heap_break) arg1
    then (fault, p)
    else (p.heap_break, record p { heap_break = u64 (p.heap_break + arg1) })

-- The loop of `open_call`: `n` descriptors are left from `i` on.
unfoldable pub free_descriptor : (ℕ → Ctrl) → ℕ → ℕ → Option ℕ
free_descriptor control i zero = none
free_descriptor control i (suc n) =
    let rest = free_descriptor control (i + 1) n in
    if (control i).is_ctrl_alloc == 0 then some i else rest

unfoldable pub set_control : Pcb → ℕ → Ctrl → Pcb
set_control p fd c = record p { control = λ i. if i == fd then c else p.control i }

-- A device that was found, or not, goes into descriptor `fd`.
unfoldable pub open_device : Pcb → ℕ → Option ℕ → ℕ × Pcb
unfolding set_control
open_device p fd none = (fault, set_control p fd (record (p.control fd) { is_ctrl_alloc = 0 }))
open_device p fd (some dev) = (
  fd,
  set_control p fd
      (record { is_ctrl_alloc = 1; is_file = 0; file_offset = 0; handle = use_dev dev }),
)

-- A file that was found goes into descriptor `fd`, with its size in KB; bit 3 of the flags appends.
unfoldable pub open_file : Pcb → ℕ → ℕ → Option (ℕ × ℕ) → ℕ × Pcb
unfolding set_control
open_file p fd flags none = (fault, set_control p fd (record (p.control fd) { is_ctrl_alloc = 0 }))
open_file p fd flags (some (slot, lens)) =
    let offset = if flags / 2 ^ 3 % 2 == 0 then 0 else lens * 1024 in
    (
      fd,
      set_control p fd
          (record { is_ctrl_alloc = 1; is_file = 1; file_offset = offset; handle = use_file slot }),
    )

unfoldable pub open_at : Pcb → Option ℕ → ℕ → Option ℕ → Option (ℕ × ℕ) → ℕ × Pcb
unfolding open_device open_file
open_at p none flags device file = (fault, p)
open_at p (some fd) flags device file =
    if flags % 2 == 0 then open_file p fd flags file else open_device p fd device

-- `device` and `file` are what `dm_find` and `fm_find` answer to the path.
unfoldable pub open_call : Pcb → ℕ → Option ℕ → Option (ℕ × ℕ) → ℕ × Pcb
unfolding open_at free_descriptor
open_call p flags device file = open_at p (free_descriptor p.control 1 2) (u8 flags) device file

unfoldable pub close_call : Pcb → ℕ → Option (ℕ × Pcb)
unfolding set_control
close_call p fd =
    if fd == 0
    then some (1, set_control p 0 (record (p.control 0) { handle = uart }))
    else if ltb fd max_control_num
    then some (1, set_control p fd (record (p.control fd) { is_ctrl_alloc = 0; handle = null }))
    else none
