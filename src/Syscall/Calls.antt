-- ===== src/Syscall/Calls.antt =====
-- The calls of src/handler/syscall.c that pass their arguments on to the managers.
use ax_kernel.Prelude.Results.{◌>>=◌}
use ax_kernel.Prelude.{
  zero, ◌-◌, length, ◌&&◌, leb, ltb, ◌==◌, Option, if◌then◌else◌, none, some, suc, ◌+◌, ℕ,
}
use ax_kernel.Prelude.Word.{u16, u8, u32}
use ax_kernel.Network.{Nic}
use ax_kernel.Prelude.Loop.{write}
use ax_kernel.Prelude.Bytes.{string_at}
use ax_kernel.Device.{Driver, dm_find}
use ax_kernel.File.{
  Bpt, FmRecord, fm_find, fm_create, fm_delete, fm_dir_create, fm_dir_delete, fm_dir_in, fm_dir_out,
}
use ax_kernel.Proc.{Pcb, ptp}
use ax_kernel.Syscall.{fault, brk_call, open_call, close_call}
use ax_kernel.Syscall.System.{
  System, Image, returned, stopped, Result, name_at, set_proc, as_current,
}
use ax_kernel.Network

-- One more than the longest name of the `n` devices from the start of the table: `strcmp` reads no
-- further, whatever stands behind.
unfoldable pub longest : Driver → ℕ → ℕ
longest driv zero = 1
longest driv (suc n) = elim (driv n).name [
  | none ↦ longest driv n
  | some name ↦
      let rest = longest driv n in if ltb rest (length name + 1) then length name + 1 else rest
]

-- A message box has 64 bytes.
unfoldable pub take_message : (ℕ → ℕ) → (ℕ → ℕ) → ℕ → ℕ → ℕ → ℕ
take_message memory msgbox len addr a =
    if leb addr a && ltb a (addr + len) then msgbox (a - addr) else memory a

-- The pointer to a directory block, 0 for NULL.
abbrev pub dir_pointer : Image → Option ℕ → ℕ
dir_pointer im none = 0
dir_pointer im (some value) = im.dir_addr value

module _ {Node : Type 0} where
  -- `full_stop` is the first thing it calls, and never returns.
  abbrev pub exit_call : System Node → Result Node
  exit_call s = some (stopped, s)

  -- The calls with an empty body, whose answer is never set: abort, yield, proc_creat, proc_del, l2_find,
  -- disk_load and disk_store.
  abbrev pub empty_call : System Node → Result Node
  empty_call s = none

  abbrev pub reserved_call : System Node → Result Node
  reserved_call s = some (returned fault, s)

  unfoldable pub setup_of : System Node → ℕ → ℕ → ℕ → Pcb → Result Node
  setup_of s addr rule c p = some (
    returned 1,
    record s {
      pm = record s.pm {
        proto_arr =
            λ j. if j == p.id then record { rule = u8 rule; addr = addr } else s.pm.proto_arr j;
      };
    },
  )

  unfoldable pub setup_call : System Node → ℕ → ℕ → Result Node
  unfolding as_current setup_of
  setup_call s addr rule = as_current s (setup_of s addr rule)

  -- What a call on the running process answers and leaves.
  unfoldable pub give_back : System Node → ℕ → ℕ × Pcb → Result Node
  unfolding set_proc
  give_back s c (answer, p') = some (returned answer, set_proc s c p')

  unfoldable pub brk_of : System Node → Option ℕ → ℕ → Result Node
  unfolding brk_call give_back
  brk_of s none arg1 = some (returned fault, s)
  brk_of s (some c) arg1 = give_back s c (brk_call (s.pm.procs c) arg1)

  unfoldable pub sys_brk : System Node → ℕ → Result Node
  unfolding brk_of
  sys_brk s arg1 = brk_of s s.current_proc arg1

  unfoldable pub close_of : System Node → ℕ → ℕ → Pcb → Result Node
  unfolding close_call give_back
  close_of s fd c p = close_call p (u32 fd) >>= give_back s c

  unfoldable pub sys_close : System Node → ℕ → Result Node
  unfolding close_of as_current
  sys_close s fd = as_current s (close_of s fd)

  -- `none` is a length that the box does not have.
  unfoldable pub rece_of : System Node → ℕ → ℕ → Pcb → Result Node
  unfolding take_message
  rece_of s addr c p =
      if ltb 64 p.msgs.len
      then none
      else some
          (returned 1, record s { memory = take_message s.memory p.msgs.msgbox p.msgs.len addr })

  unfoldable pub ipc_rece_call : System Node → ℕ → Result Node
  unfolding as_current rece_of
  ipc_rece_call s addr = as_current s (rece_of s addr)

  -- The receiver is told by a 3 at the address of its protocol, also when `ptp` has refused.
  unfoldable pub send_of : System Node → ℕ → ℕ → ℕ → ℕ → Pcb → Result Node
  unfolding ptp write
  send_of s message len towho c p = some (
    returned 1,
    record s {
      pm = ptp s.pm p.id (u8 towho) (λ i. s.memory (message + i)) (u8 len);
      memory = write s.memory (s.pm.proto_arr (u8 towho)).addr 3;
    },
  )

  unfoldable pub ipc_send_call : System Node → ℕ → ℕ → ℕ → Result Node
  unfolding as_current send_of
  ipc_send_call s message len towho = as_current s (send_of s message len towho)

  -- The answer of the network manager.
  unfoldable pub with_nic : System Node → Option (ℕ × Nic) → Result Node
  with_nic s none = none
  with_nic s (some (answer, nic')) = some (returned answer, record s { nic = nic' })

  unfoldable pub sys_l2_send : Image → System Node → ℕ → ℕ → ℕ → ℕ → Result Node
  unfolding with_nic Network.l2_send_call
  sys_l2_send im s message id len type = with_nic s (
      Network.l2_send_call im.pkt_addr im.used s.nic (λ i. s.memory (message + i)) (u8 id) (u8 len)
        (u16 type))

  unfoldable pub sys_l2_rece : Image → System Node → Result Node
  unfolding with_nic Network.l2_rece_call
  sys_l2_rece im s = with_nic s (Network.l2_rece_call im.payload_base s.nic)

  -- An answer of the file manager with its record.
  abbrev pub with_fm : System Node → ℕ → FmRecord Node → Result Node
  with_fm s answer fm' = some (returned answer, record s { fm = fm' })

  -- The calls dir_in and dir_out, which the table does not have. `dir` is the block that the pointer
  -- leads to.
  unfoldable pub dir_in_call : System Node → Option ℕ → ℕ → Result Node
  unfolding fm_dir_in
  dir_in_call s dir file_id =
      fm_dir_in s.fm dir (u16 file_id) >>= λ (answer, fm'). with_fm s answer fm'

  unfoldable pub dir_out_call : System Node → Option ℕ → ℕ → Result Node
  unfolding fm_dir_out
  dir_out_call s dir file_id =
      fm_dir_out s.fm dir (u16 file_id) >>= λ (answer, fm'). with_fm s answer fm'

module _ {Node : Type 0} (bpt : Bpt Node) where
  unfoldable pub file_create_call : System Node → ℕ → ℕ → ℕ → Result Node
  unfolding fm_create
  file_create_call s path mode size =
      fm_create bpt s.fm (name_at s.memory path) (u32 size) (u16 mode) >>= λ (file, fm').
      with_fm s 1 fm'

  unfoldable pub file_del_call : System Node → ℕ → Result Node
  unfolding fm_delete
  file_del_call s name =
      let (done, fm') = fm_delete bpt s.fm (name_at s.memory name) in with_fm s done fm'

  unfoldable pub dir_create_call : Image → System Node → ℕ → ℕ → ℕ → ℕ → Result Node
  unfolding fm_dir_create
  dir_create_call im s name p_fid depth auth =
      fm_dir_create bpt s.fm (name_at s.memory name) (u32 p_fid) (u16 depth) (u16 auth)
      >>= λ (dir, fm'). with_fm s (dir_pointer im dir) fm'

  unfoldable pub dir_del_call : System Node → ℕ → Result Node
  unfolding fm_dir_delete
  dir_del_call s name =
      let (done, fm') = fm_dir_delete bpt s.fm (name_at s.memory name) in with_fm s done fm'

  -- The file at a path, with its size in KB.
  unfoldable pub found_file : System Node → ℕ → Option (ℕ × ℕ)
  unfolding fm_find
  found_file s path =
      fm_find bpt s.fm (name_at s.memory path) >>= λ slot. some (slot, (s.fm.files slot).lens)

  unfoldable pub found_device : System Node → ℕ → Option ℕ
  unfolding dm_find longest string_at
  found_device s path = dm_find s.driver (string_at s.memory (longest s.driver 32) path)

  unfoldable pub open_of : System Node → ℕ → ℕ → ℕ → Pcb → Result Node
  unfolding open_call found_file found_device give_back
  open_of s path flags c p =
      give_back s c (open_call p flags (found_device s path) (found_file s path))

  unfoldable pub sys_open : System Node → ℕ → ℕ → Result Node
  unfolding as_current open_of
  sys_open s path flags = as_current s (open_of s path flags)
