-- ===== src/Syscall/Mailbox.antt =====
-- The message boxes under the system calls.
use ax_kernel.Prelude.Results.{Every-none, Every-some, Every}
use ax_kernel.Prelude.{
  refl, none, some, ltb, ◌==◌, if_elim, inl, arith, ◌⊎◌, Option, inr, ◌≡◌, ◌≢◌, ℕ,
}
use ax_kernel.File.{Bpt}
use ax_kernel.Proc.{Pcb, delivered}
use ax_kernel.Syscall.{
  brk_call, open_call, open_at, open_device, open_file, close_call, set_control, max_control_num,
}
use ax_kernel.Syscall.System.{System, Image, Args, Reply}
use ax_kernel.Syscall.Table.{svc_a64_handle}
use ax_kernel.Syscall.Stable.{IsStable, svc_a64_handle-After}

-- A call either leaves the messages of a process alone, or its box was empty.
abbrev Undisturbed : Pcb → Pcb → Type 0
Undisturbed p p' = (p.msgs.is_msgbox ≡ 0) ⊎ (p'.msgs ≡ p.msgs)

open_call-msgs :
    (p : Pcb) (flags : ℕ) (device : Option ℕ) (file : Option (ℕ × ℕ))
    → (open_call p flags device file).1.msgs ≡ p.msgs
unfolding open_call open_at open_device open_file set_control
open_call-msgs p flags none none = ground arith
open_call-msgs p flags none (some (slot, lens)) = ground arith
open_call-msgs p flags (some dev) none = ground arith
open_call-msgs p flags (some dev) (some (slot, lens)) = ground arith

Undisturbed-IsStable : IsStable Undisturbed
unfolding brk_call close_call set_control delivered
Undisturbed-IsStable = record {
  same = λ p. inr refl;
  brk_step = λ p n. inr (ground arith);
  open_step = λ p flags device file. inr (open_call-msgs p flags device file);
  close_step = λ p fd.
      if_elim (Every (λ (r : ℕ × Pcb). Undisturbed p r.1)) (fd == 0)
        (λ _. Every-some _ _ (inr refl))
        (λ _.
          if_elim (Every (λ (r : ℕ × Pcb). Undisturbed p r.1)) (ltb fd max_control_num)
            (λ _. Every-some _ _ (inr refl)) (λ _. Every-none _));
  move_step = λ p fd n. inr refl;
  message_step = λ p who msg len empty. inl empty;
}

-- Whatever call any process makes: a message box that is full stays full, with the same message. No
-- call, ipc_rece included, empties a box.
pub svc_a64_handle-msgs :
    {Node : Type 0} (bpt : Bpt Node) (im : Image) (syscall_num : ℕ) (s : System Node) (x : Args)
    (j : ℕ)
    → (s.pm.procs j).msgs.is_msgbox ≢ 0
    → (r : Reply × System Node) → svc_a64_handle bpt im syscall_num s x ≡ some r
    → (r.1.pm.procs j).msgs ≡ (s.pm.procs j).msgs
svc_a64_handle-msgs bpt im syscall_num s x j full r h =
    elim (svc_a64_handle-After Undisturbed Undisturbed-IsStable bpt im syscall_num s x r h j) [
      | inl empty ↦ absurd (full empty)
      | inr same ↦ same
    ]
