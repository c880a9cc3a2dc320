-- ===== src/Syscall/Files.antt =====
-- `open_call` and `close_call`: the descriptors of a process.
use ax_kernel.Prelude.{◌⊎◌, if◌then◌else◌, ◌==◌, ℕ, ◌<◌, ◌≡◌, Option, none, some, arith}
use ax_kernel.Proc.{Pcb}
use ax_kernel.Syscall.{
  open_call, open_at, open_device, open_file, set_control, free_descriptor, fault,
}

-- `open_call` either answers -1, or gives a descriptor, 1 or 2, that was free and is in use afterwards,
-- and leaves the other descriptors of the process as they were.
pub open_call_fresh :
    (p : Pcb) (flags : ℕ) (device : Option ℕ) (file : Option (ℕ × ℕ)) (j : ℕ)
    → let (fd, p') = open_call p flags device file in
      (fd ≡ fault)
      ⊎ (((0 < fd) × (fd < 3))
          × (((p.control fd).is_ctrl_alloc ≡ 0)
              × (((p'.control fd).is_ctrl_alloc ≡ 1)
                  × (p'.control j ≡ (if j == fd then p'.control fd else p.control j)))))
unfolding open_call open_at open_device open_file set_control free_descriptor
open_call_fresh p flags none none j = ground arith
open_call_fresh p flags none (some (slot, lens)) j = ground arith
open_call_fresh p flags (some dev) none j = ground arith
open_call_fresh p flags (some dev) (some (slot, lens)) j = ground arith
