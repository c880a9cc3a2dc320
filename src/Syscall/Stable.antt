-- ===== src/Syscall/Stable.antt =====
-- What every call does to the control blocks of the processes, one by one.
use ax_kernel.Prelude.{
  ◌+◌, refl, ◌-◌, ◌^◌, ◌∙◌, ap, leb, arith, get_or, ◌||◌, ltb, none, sym, ◌==◌, if_elim, some,
  subst, ◌≡◌, Option, ℕ,
}
use ax_kernel.Prelude.Word.{u8, u16, u32}
use ax_kernel.Syscall.Calls.{
  found_device, found_file, dir_pointer, with_fm, brk_of, setup_of, close_of, rece_of, send_of,
  open_of, setup_call, sys_brk, sys_open, sys_close, ipc_send_call, ipc_rece_call, sys_l2_send,
  sys_l2_rece, file_create_call, file_del_call, dir_create_call, dir_del_call, give_back, with_nic,
}
use ax_kernel.Syscall.System.{
  name_at, stopped, returned, System, Image, Args, Reply, Result, set_proc, as_current,
}
use ax_kernel.File.{fm_dir_create, fm_create, Bpt, put_at}
use ax_kernel.Syscall.{fault, brk_call, open_call, close_call, set_control, max_control_num}
use ax_kernel.Prelude.Results.{Every-chain, Every-some, Every-none, Every}
use ax_kernel.Network.{Nic}
use ax_kernel.Proc.{Pcb, PmObject, Handle, null, uart, use_dev, use_file, ptp, at_proc, delivered}
use ax_kernel.Syscall.Transfer.{
  advanced, write_call, read_call, write_at, read_at, write_file, read_file, write_device,
  read_device,
}
use ax_kernel.Syscall.Table.{
  Call, reserved, exit, empty, brk, setup, write, read, open_file, close, file_create, file_del,
  dir_create, dir_del, ipc_send, ipc_rece, l2_send, l2_rece, call_table, perform, svc_a64_handle,
}

-- A relation between a block and what a call makes of it.
pub record IsStable (R : Pcb → Pcb → Type 0) : Type 0 where
  pub same : (p : Pcb) → R p p
  pub brk_step : (p : Pcb) (n : ℕ) → R p (brk_call p n).1
  pub open_step :
      (p : Pcb) (flags : ℕ) (device : Option ℕ) (file : Option (ℕ × ℕ))
      → R p (open_call p flags device file).1
  pub close_step : (p : Pcb) (fd : ℕ) → Every (λ (r : ℕ × Pcb). R p r.1) (close_call p fd)
  pub move_step : (p : Pcb) (fd n : ℕ) → R p (set_control p fd (advanced (p.control fd) n))
  pub message_step :
      (p : Pcb) (who : ℕ) (msg : ℕ → ℕ) (len : ℕ)
      → p.msgs.is_msgbox ≡ 0
      → R p (delivered who msg len p)

-- Every block of the second state is related to that of the first.
abbrev pub Steps : (Pcb → Pcb → Type 0) → PmObject → PmObject → Type 0
Steps R pm pm' = (j : ℕ) → R (pm.procs j) (pm'.procs j)

module _ (R : Pcb → Pcb → Type 0) (stable : IsStable R) where
  after-ptp :
      (pm : PmObject) (who towho : ℕ) (msg : ℕ → ℕ) (len : ℕ)
      → Steps R pm (ptp pm who towho msg len)
  unfolding ptp at_proc
  after-ptp pm who towho msg len = λ j.
      let old = pm.procs towho in
      let P : PmObject → Type 0 = λ pm'. R (pm.procs j) (pm'.procs j) in
      if_elim P (old.msgs.is_msgbox == 0)
        (λ room.
          if_elim P (ltb 64 len) (λ _. stable.same (pm.procs j))
            (λ _.
              if_elim (R (pm.procs j)) (j == towho)
                (λ here.
                  let at : j ≡ towho = ground (arith, here) in
                  stable.message_step (pm.procs j) who msg len
                    (ap (λ k. (pm.procs k).msgs.is_msgbox) at ∙ ground (arith, room)))
                (λ _. stable.same (pm.procs j))))
        (λ _. stable.same (pm.procs j))

module _ {Node : Type 0} (R : Pcb → Pcb → Type 0) (stable : IsStable R) where
  abbrev pub After : System Node → Reply × System Node → Type 0
  After s r = Steps R s.pm r.1.pm

  After-same : (s : System Node) (r : Reply × System Node) → r.1.pm.procs ≡ s.pm.procs → After s r
  After-same s r e = λ j.
      subst (λ (procs : ℕ → Pcb). R (s.pm.procs j) (procs j)) (sym e) (stable.same (s.pm.procs j))

  steps_same : (s : System Node) (j : ℕ) → R (s.pm.procs j) (s.pm.procs j)
  steps_same s j = stable.same (s.pm.procs j)

  unchanged : (s : System Node) (reply : Reply) → Every (After s) (some (reply, s))
  unchanged s reply = Every-some _ _ (After-same s (reply, s) refl)

  After-set_proc :
      (s s' : System Node) (c : ℕ) (p : Pcb) (reply : Reply)
      → s'.pm.procs ≡ s.pm.procs
      → R (s.pm.procs c) p
      → Every (After s) (some (reply, set_proc s' c p))
  unfolding set_proc put_at
  After-set_proc s s' c p reply e h = Every-some _ _ (λ j.
      if_elim (R (s.pm.procs j)) (j == c)
        (λ here. subst (λ k. R (s.pm.procs k) p) (sym (ground (arith, here))) h)
        (λ _. After-same s (reply, s') e j))

  current-After :
      (s : System Node) (call : ℕ → Pcb → Result Node)
      → ((c : ℕ) → Every (After s) (call c (s.pm.procs c)))
      → Every (After s) (as_current s call)
  unfolding as_current
  current-After s call h = Every-chain _ s.current_proc _ (λ c _. h c)

  write_device-After :
      (s : System Node) (h : Handle) (buf len : ℕ) → Every (After s) (write_device s h buf len)
  unfolding write_device
  write_device-After s null buf len = Every-none _
  write_device-After s uart buf len = Every-some _ _ (steps_same s)
  write_device-After s (use_dev d) buf len = Every-none _
  write_device-After s (use_file slot) buf len = Every-none _

  write_file-After :
      (s : System Node) (c fd : ℕ) (file : Option (Option ℕ)) (buf len : ℕ)
      → Every (After s) (write_file s c (s.pm.procs c) fd file buf len)
  unfolding write_file
  write_file-After s c fd none buf len = Every-none _
  write_file-After s c fd (some file) buf len =
      After-set_proc s _ c _ _ refl (stable.move_step (s.pm.procs c) fd _)

  read_file-After :
      (s : System Node) (c fd : ℕ) (file : Option (Option ℕ)) (buf count offset : ℕ)
      → Every (After s) (read_file s c (s.pm.procs c) fd file buf count offset)
  unfolding read_file
  read_file-After s c fd none buf count offset = Every-none _
  read_file-After s c fd (some file) buf count offset =
      After-set_proc s _ c _ _ refl (stable.move_step (s.pm.procs c) fd _)

  write_at-After :
      (s : System Node) (fd buf len c : ℕ)
      → Every (After s) (write_at s fd buf len c (s.pm.procs c))
  unfolding write_at
  write_at-After s fd buf len c =
      if_elim (Every (After s)) (ltb fd max_control_num)
        (λ _.
          if_elim (Every (After s)) (((s.pm.procs c).control fd).is_file == 0)
            (λ _.
              if_elim (Every (After s)) (fd == 0) (λ _. write_device-After s _ buf len)
                (λ _. unchanged s (returned 1)))
            (λ _. write_file-After s c fd _ buf len))
        (λ _. Every-none _)

  write_call-After :
      (s : System Node) (arg1 arg2 arg3 : ℕ) → Every (After s) (write_call s arg1 arg2 arg3)
  unfolding write_call
  write_call-After s arg1 arg2 arg3 =
      current-After s (write_at s (u32 arg1) arg2 (u32 arg3))
        (write_at-After s (u32 arg1) arg2 (u32 arg3))

  read_at-After :
      (s : System Node) (fd buf count offset c : ℕ)
      → Every (After s) (read_at s fd buf count offset c (s.pm.procs c))
  unfolding read_at read_device
  read_at-After s fd buf count offset c =
      if_elim (Every (After s)) (((s.pm.procs c).control fd).is_ctrl_alloc == 0)
        (λ _. unchanged s (returned fault))
        (λ _.
          if_elim (Every (After s)) (((s.pm.procs c).control fd).is_file == 0)
            (λ _. Every-some _ _ (steps_same s))
            (λ _.
              if_elim (Every (After s)) (ltb (2 ^ 32 - 1) count) (λ _. unchanged s (returned fault))
                (λ _. read_file-After s c fd _ buf count offset)))

  read_call-After :
      (s : System Node) (arg1 arg2 arg3 arg4 : ℕ)
      → Every (After s) (read_call s arg1 arg2 arg3 arg4)
  unfolding read_call
  read_call-After s arg1 arg2 arg3 arg4 =
      if_elim (Every (After s)) (arg3 == 0) (λ _. unchanged s (returned 0))
        (λ _.
          if_elim (Every (After s)) ((arg2 == 0) || leb max_control_num (u32 arg1))
            (λ _. unchanged s (returned fault))
            (λ _.
              current-After s (read_at s (u32 arg1) arg2 arg3 (u32 arg4))
                (read_at-After s (u32 arg1) arg2 arg3 (u32 arg4))))

  with_nic-After : (s : System Node) (o : Option (ℕ × Nic)) → Every (After s) (with_nic s o)
  unfolding with_nic
  with_nic-After s none = Every-none _
  with_nic-After s (some (answer, nic')) = Every-some _ _ (steps_same s)

  brk_of-After : (s : System Node) (o : Option ℕ) (n : ℕ) → Every (After s) (brk_of s o n)
  unfolding brk_of give_back
  brk_of-After s none n = unchanged s (returned fault)
  brk_of-After s (some c) n = After-set_proc s s c _ _ refl (stable.brk_step (s.pm.procs c) n)

  sys_close-After : (s : System Node) (fd : ℕ) → Every (After s) (sys_close s fd)
  unfolding sys_close close_of give_back
  sys_close-After s fd = current-After s (close_of s fd) (λ c.
      Every-chain _ (close_call (s.pm.procs c) (u32 fd)) (give_back s c) (λ r e.
        After-set_proc s s c r.1 (returned r.0) refl
          (stable.close_step (s.pm.procs c) (u32 fd) r e)))

  module _ (bpt : Bpt Node) (im : Image) where
    perform-After :
        (call : Call) (s : System Node) (x : Args) → Every (After s) (perform bpt im call s x)
    unfolding perform sys_brk setup_call setup_of sys_open open_of ipc_send_call send_of
        ipc_rece_call rece_of sys_l2_send sys_l2_rece file_create_call file_del_call dir_create_call
        dir_del_call give_back
    perform-After reserved s x = unchanged s (returned fault)
    perform-After exit s x = unchanged s stopped
    perform-After empty s x = Every-none _
    perform-After brk s x = brk_of-After s s.current_proc x.arg1
    perform-After setup s x =
        current-After s (setup_of s x.arg1 x.arg2) (λ c. Every-some _ _ (steps_same s))
    perform-After write s x = write_call-After s x.arg1 x.arg2 x.arg3
    perform-After read s x = read_call-After s x.arg1 x.arg2 x.arg3 x.arg4
    perform-After open_file s x = current-After s (open_of bpt s x.arg1 x.arg2) (λ c.
        let device = found_device bpt s x.arg1 in
        let file = found_file bpt s x.arg1 in
        After-set_proc s s c (open_call (s.pm.procs c) x.arg2 device file).1
          (returned (open_call (s.pm.procs c) x.arg2 device file).0) refl
          (stable.open_step (s.pm.procs c) x.arg2 device file))
    perform-After close s x = sys_close-After s x.arg1
    perform-After file_create s x =
        Every-chain _ (fm_create bpt s.fm (name_at s.memory x.arg1) (u32 x.arg3) (u16 x.arg2))
          (λ (file, fm'). with_fm s 1 fm') (λ r _. Every-some _ _ (steps_same s))
    perform-After file_del s x = Every-some _ _ (steps_same s)
    perform-After dir_create s x =
        Every-chain _
          (fm_dir_create bpt s.fm (name_at s.memory x.arg1) (u32 x.arg2) (u16 x.arg3) (u16 x.arg4))
          (λ (dir, fm'). with_fm s (dir_pointer im dir) fm') (λ r _. Every-some _ _ (steps_same s))
    perform-After dir_del s x = Every-some _ _ (steps_same s)
    perform-After ipc_send s x = current-After s (send_of s x.arg1 x.arg2 x.arg3) (λ c.
        Every-some _ _ (
          after-ptp R stable s.pm (s.pm.procs c).id (u8 x.arg3) (λ i. s.memory (x.arg1 + i))
            (u8 x.arg2)))
    perform-After ipc_rece s x = current-After s (rece_of s x.arg1) (λ c.
        if_elim (Every (After s)) (ltb 64 (s.pm.procs c).msgs.len) (λ _. Every-none _)
          (λ _. Every-some _ _ (steps_same s)))
    perform-After l2_send s x = with_nic-After s _
    perform-After l2_rece s x = with_nic-After s _

    pub svc_a64_handle-After :
        (syscall_num : ℕ) (s : System Node) (x : Args)
        → Every (After s) (svc_a64_handle bpt im syscall_num s x)
    unfolding svc_a64_handle
    svc_a64_handle-After syscall_num s x =
        if_elim (Every (After s)) (ltb syscall_num 64)
          (λ _. perform-After (get_or call_table syscall_num reserved) s x)
          (λ _. unchanged s stopped)
