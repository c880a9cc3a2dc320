-- ===== src/Syscall/Descriptors.antt =====
-- The descriptors of a process have the kind that `is_file` says, so a call never takes a device for a
-- file.
use ax_kernel.Prelude.Results.{◌>>=◌, Every-some, Every-none, Every}
use ax_kernel.Prelude.{
  leb, ◌||◌, ◌-◌, ◌<◌, ◌^◌, zero, ltb, ◌+◌, refl, sym, none, subst, suc, ◌%◌, ◌==◌, if_elim, some,
  ◌∙◌, Option, arith, ap, ◌≢◌, ◌≡◌, ℕ,
}
use ax_kernel.Syscall.System.{as_current, Reply, Args, Image, System}
use ax_kernel.Syscall.Stable.{svc_a64_handle-After, IsStable}
use ax_kernel.Syscall.Transfer.{
  read_file, write_file, read_device, write_device, file_of, read_at, write_at, write_call,
  read_call,
}
use ax_kernel.Syscall.Table.{svc_a64_handle}
use ax_kernel.Prelude.Word.{u32, u8}
use ax_kernel.Syscall.{
  open_call, max_control_num, brk_call, close_call, free_descriptor, open_at, open_device,
  open_file, set_control,
}
use ax_kernel.File.{Bpt}
use ax_kernel.Proc.{Ctrl, delivered, Pcb, Handle, null, uart, use_dev, use_file}

-- A descriptor: a file or NULL when `is_file` is set, otherwise no file.
unfoldable pub IsHandle : ℕ → Handle → Type 0
IsHandle is_file null = Unit
IsHandle is_file uart = is_file ≡ 0
IsHandle is_file (use_dev d) = is_file ≡ 0
IsHandle is_file (use_file slot) = is_file ≢ 0

-- The descriptors of a process; descriptor 0 is the serial port.
pub record IsTyped (p : Pcb) : Type 0 where
  pub console : (p.control 0).handle ≡ uart
  pub kinds : (fd : ℕ) → IsHandle (p.control fd).is_file (p.control fd).handle

set_control-IsTyped :
    (p : Pcb) (fd : ℕ) (c : Ctrl)
    → IsTyped p
    → IsHandle c.is_file c.handle
    → (fd ≡ 0 → c.handle ≡ uart)
    → IsTyped (set_control p fd c)
unfolding set_control
set_control-IsTyped p fd c h typed first = record {
  console =
      if_elim (λ (k : Ctrl). k.handle ≡ uart) (0 == fd) (λ e. first (ground (arith, e)))
        (λ _. h.console);
  kinds = λ i.
      if_elim (λ (k : Ctrl). IsHandle k.is_file k.handle) (i == fd) (λ _. typed) (λ _. h.kinds i);
}

-- The descriptors that `open_call` looks at are not the first.
free_descriptor-pos :
    (control : ℕ → Ctrl) (i n : ℕ)
    → i ≢ 0
    → Every (λ (fd : ℕ). fd ≢ 0) (free_descriptor control i n)
unfolding free_descriptor
free_descriptor-pos control i zero pos = Every-none _
free_descriptor-pos control i (suc n) pos =
    if_elim (Every (λ (fd : ℕ). fd ≢ 0)) ((control i).is_ctrl_alloc == 0) (λ _. Every-some _ i pos)
      (λ _. free_descriptor-pos control (i + 1) n (omega arith))

open_device-IsTyped :
    (p : Pcb) (fd : ℕ) (device : Option ℕ)
    → IsTyped p
    → fd ≢ 0
    → IsTyped (open_device p fd device).1
unfolding open_device IsHandle
open_device-IsTyped p fd none h pos =
    set_control-IsTyped p fd _ h (h.kinds fd) (λ e. absurd (pos e))
open_device-IsTyped p fd (some dev) h pos = set_control-IsTyped p fd _ h refl (λ e. absurd (pos e))

open_file-IsTyped :
    (p : Pcb) (fd flags : ℕ) (file : Option (ℕ × ℕ))
    → IsTyped p
    → fd ≢ 0
    → IsTyped (open_file p fd flags file).1
unfolding open_file IsHandle
open_file-IsTyped p fd flags none h pos =
    set_control-IsTyped p fd _ h (h.kinds fd) (λ e. absurd (pos e))
open_file-IsTyped p fd flags (some (slot, lens)) h pos =
    set_control-IsTyped p fd _ h (omega arith) (λ e. absurd (pos e))

open_at-IsTyped :
    (p : Pcb) (free : Option ℕ) (flags : ℕ) (device : Option ℕ) (file : Option (ℕ × ℕ))
    → IsTyped p
    → Every (λ (fd : ℕ). fd ≢ 0) free
    → IsTyped (open_at p free flags device file).1
unfolding open_at
open_at-IsTyped p none flags device file h pos = h
open_at-IsTyped p (some fd) flags device file h pos =
    if_elim (λ (r : ℕ × Pcb). IsTyped r.1) (flags % 2 == 0)
      (λ _. open_file-IsTyped p fd flags file h (pos fd refl))
      (λ _. open_device-IsTyped p fd device h (pos fd refl))

-- A call keeps the descriptors of a process well typed.
abbrev KeepsTyped : Pcb → Pcb → Type 0
KeepsTyped p p' = IsTyped p → IsTyped p'

same_control : (p p' : Pcb) → p'.control ≡ p.control → IsTyped p → IsTyped p'
same_control p p' e h = record {
  console = ap (λ (control : ℕ → Ctrl). (control 0).handle) e ∙ h.console;
  kinds =
      subst (λ (control : ℕ → Ctrl). (fd : ℕ) → IsHandle (control fd).is_file (control fd).handle)
        (sym e) h.kinds;
}

brk_call-control : (p : Pcb) (n : ℕ) → (brk_call p n).1.control ≡ p.control
unfolding brk_call
brk_call-control p n = ground arith

close_call-IsTyped :
    (p : Pcb) (fd : ℕ) → IsTyped p → Every (λ (r : ℕ × Pcb). IsTyped r.1) (close_call p fd)
unfolding close_call IsHandle
close_call-IsTyped p fd h =
    let Q : Option (ℕ × Pcb) → Type 0 = Every (λ (r : ℕ × Pcb). IsTyped r.1) in
    if_elim Q (fd == 0)
      (λ _. Every-some _ _ (
        set_control-IsTyped p 0 _ h (subst (IsHandle (p.control 0).is_file) h.console (h.kinds 0))
          (λ _. refl)))
      (λ other.
        if_elim Q (ltb fd max_control_num)
          (λ _.
            Every-some _ _
              (set_control-IsTyped p fd _ h tt (λ e. absurd (ground (arith, e, other)))))
          (λ _. Every-none _))

KeepsTyped-IsStable : IsStable KeepsTyped
unfolding delivered open_call
KeepsTyped-IsStable = record {
  same = λ p h. h;
  brk_step = λ p n. same_control p _ (brk_call-control p n);
  open_step = λ p flags device file h.
      open_at-IsTyped p (free_descriptor p.control 1 2) (u8 flags) device file h
        (free_descriptor-pos p.control 1 2 (omega arith));
  close_step = λ p fd r e h. close_call-IsTyped p fd h r e;
  move_step = λ p fd n h.
      set_control-IsTyped p fd _ h (h.kinds fd) (λ e. ap (λ k. (p.control k).handle) e ∙ h.console);
  message_step = λ p who msg len empty. same_control p _ refl;
}

-- Every call that comes back leaves the descriptors of every process of the kind that `is_file` says,
-- with descriptor 0 the serial port, if they were so before.
pub svc_a64_handle-IsTyped :
    {Node : Type 0} (bpt : Bpt Node) (im : Image) (syscall_num : ℕ) (s : System Node) (x : Args)
    (j : ℕ)
    → IsTyped (s.pm.procs j)
    → (r : Reply × System Node) → svc_a64_handle bpt im syscall_num s x ≡ some r
    → IsTyped (r.1.pm.procs j)
svc_a64_handle-IsTyped bpt im syscall_num s x j typed r h =
    svc_a64_handle-After KeepsTyped KeepsTyped-IsStable bpt im syscall_num s x r h j typed

-- A computation that is not undefined.
abbrev IsDefined {ℓ} : {A : Type ℓ} → Option A → Type ℓ
IsDefined {A = A} o = (a : A) × (o ≡ some a)

file_of-IsDefined :
    (is_file : ℕ) (h : Handle) → IsHandle is_file h → is_file ≢ 0 → IsDefined (file_of h)
unfolding IsHandle
file_of-IsDefined is_file null h ne = (_, refl)
file_of-IsDefined is_file uart h ne = absurd (ne h)
file_of-IsDefined is_file (use_dev d) h ne = absurd (ne h)
file_of-IsDefined is_file (use_file slot) h ne = (_, refl)

module _ {Node : Type 0} (s : System Node) (c : ℕ) (typed : IsTyped (s.pm.procs c)) where
  write_at-IsDefined :
      (fd buf len : ℕ) → fd < max_control_num → IsDefined (write_at s fd buf len c (s.pm.procs c))
  unfolding write_at write_device write_file
  write_at-IsDefined fd buf len lt =
      let p = s.pm.procs c in
      if_elim IsDefined (ltb fd max_control_num)
        (λ _.
          if_elim IsDefined ((p.control fd).is_file == 0)
            (λ _.
              if_elim IsDefined (fd == 0)
                (λ _.
                  subst (λ (h : Handle). IsDefined (write_device s h buf len)) (sym typed.console)
                    (_, refl))
                (λ _. (_, refl)))
            (λ file.
              let found =
                file_of-IsDefined (p.control fd).is_file (p.control fd).handle (typed.kinds fd)
                  (ground (arith, file)) in
              subst (λ (o : Option (Option ℕ)). IsDefined (write_file s c p fd o buf len))
                (sym found.1) (_, refl)))
        (λ out. absurd (ground (arith, out, lt)))

  read_at-IsDefined :
      (fd buf count offset : ℕ) → IsDefined (read_at s fd buf count offset c (s.pm.procs c))
  unfolding read_at read_device read_file
  read_at-IsDefined fd buf count offset =
      let p = s.pm.procs c in
      if_elim IsDefined ((p.control fd).is_ctrl_alloc == 0) (λ _. (_, refl))
        (λ _.
          if_elim IsDefined ((p.control fd).is_file == 0) (λ _. (_, refl))
            (λ file.
              let found =
                file_of-IsDefined (p.control fd).is_file (p.control fd).handle (typed.kinds fd)
                  (ground (arith, file)) in
              if_elim IsDefined (ltb (2 ^ 32 - 1) count) (λ _. (_, refl))
                (λ _.
                  subst
                    (λ (o : Option (Option ℕ)). IsDefined (read_file s c p fd o buf count offset))
                    (sym found.1) (_, refl))))

-- With well-typed descriptors, read and write are defined for every buffer, count and offset, if the
-- descriptor is one of 0 to 2: neither takes a device for a file or calls through NULL.
pub transfer_IsDefined :
    {Node : Type 0} (s : System Node) (c arg1 arg2 arg3 arg4 : ℕ)
    → s.current_proc ≡ some c
    → IsTyped (s.pm.procs c)
    → u32 arg1 < max_control_num
    → ((r : Reply × System Node) × (read_call s arg1 arg2 arg3 arg4 ≡ some r))
      × ((r : Reply × System Node) × (write_call s arg1 arg2 arg3 ≡ some r))
unfolding read_call write_call as_current
transfer_IsDefined s c arg1 arg2 arg3 arg4 running typed lt =
    let fd = u32 arg1 in
    (
      if_elim IsDefined (arg3 == 0) (λ _. (_, refl))
          (λ _.
            if_elim IsDefined ((arg2 == 0) || leb max_control_num fd) (λ _. (_, refl))
              (λ _.
                subst
                  (λ (o : Option ℕ).
                    IsDefined (o >>= λ k. read_at s fd arg2 arg3 (u32 arg4) k (s.pm.procs k)))
                  (sym running) (read_at-IsDefined s c typed fd arg2 arg3 (u32 arg4)))),
      subst
          (λ (o : Option ℕ). IsDefined (o >>= λ k. write_at s fd arg2 (u32 arg3) k (s.pm.procs k)))
          (sym running) (write_at-IsDefined s c typed fd arg2 (u32 arg3) lt),
    )
