-- ===== src/Syscall/Table.antt =====
-- The table of calls and `svc_a64_handle` of src/handler/syscall.c. What an unknown call prints is left
-- out.
use ax_kernel.Prelude.{some, [], get_or, ltb, ◌++◌, ◌∷◌, List, if◌then◌else◌, ℕ}
use ax_kernel.File.{Bpt}
use ax_kernel.Syscall.System.{System, Image, Args, stopped, Result}
use ax_kernel.Syscall.Transfer.{write_call, read_call}
use ax_kernel.Syscall.Calls.{
  exit_call, empty_call, reserved_call, setup_call, sys_brk, sys_open, sys_close, ipc_send_call,
  ipc_rece_call, sys_l2_send, sys_l2_rece, file_create_call, file_del_call, dir_create_call,
  dir_del_call,
}

-- The functions of the table. `empty` is any of those with an empty body.
pub data Call : Type 0 where
  reserved exit empty brk setup write read : Call
  open_file close file_create file_del dir_create dir_del : Call
  ipc_send ipc_rece l2_send l2_rece : Call

abbrev pub eight_reserved : List Call
eight_reserved =
    reserved ∷ reserved ∷ reserved ∷ reserved ∷ reserved ∷ reserved ∷ reserved ∷ reserved ∷ []

-- In the order of the numbers, eight to a group.
abbrev pub general_calls : List Call
general_calls = reserved ∷ exit ∷ empty ∷ brk ∷ empty ∷ setup ∷ write ∷ read ∷ []

abbrev pub file_calls : List Call
file_calls =
    open_file ∷ close ∷ file_create ∷ file_del ∷ reserved ∷ reserved ∷ dir_create ∷ dir_del ∷ []

abbrev pub proc_calls : List Call
proc_calls = empty ∷ empty ∷ reserved ∷ reserved ∷ reserved ∷ reserved ∷ reserved ∷ reserved ∷ []

abbrev pub ipc_calls : List Call
ipc_calls =
    ipc_send ∷ ipc_rece ∷ reserved ∷ reserved ∷ reserved ∷ reserved ∷ reserved ∷ reserved ∷ []

abbrev pub network_calls : List Call
network_calls =
    l2_send ∷ l2_rece ∷ empty ∷ reserved ∷ reserved ∷ reserved ∷ reserved ∷ reserved ∷ []

abbrev pub virtio_calls : List Call
virtio_calls = empty ∷ empty ∷ reserved ∷ reserved ∷ reserved ∷ reserved ∷ reserved ∷ reserved ∷ []

abbrev pub call_table : List Call
call_table =
    general_calls
    ++ (file_calls
        ++ (proc_calls
            ++ (ipc_calls
                ++ (network_calls ++ (eight_reserved ++ (virtio_calls ++ eight_reserved))))))

module _ {Node : Type 0} (bpt : Bpt Node) (im : Image) where
  unfoldable pub perform : Call → System Node → Args → Result Node
  unfolding write_call read_call setup_call sys_brk sys_open sys_close ipc_send_call ipc_rece_call
      sys_l2_send sys_l2_rece file_create_call file_del_call dir_create_call dir_del_call
  perform reserved s x = reserved_call s
  perform exit s x = exit_call s
  perform empty s x = empty_call s
  perform brk s x = sys_brk s x.arg1
  perform setup s x = setup_call s x.arg1 x.arg2
  perform write s x = write_call s x.arg1 x.arg2 x.arg3
  perform read s x = read_call s x.arg1 x.arg2 x.arg3 x.arg4
  perform open_file s x = sys_open bpt s x.arg1 x.arg2
  perform close s x = sys_close s x.arg1
  perform file_create s x = file_create_call bpt s x.arg1 x.arg2 x.arg3
  perform file_del s x = file_del_call bpt s x.arg1
  perform dir_create s x = dir_create_call bpt im s x.arg1 x.arg2 x.arg3 x.arg4
  perform dir_del s x = dir_del_call bpt s x.arg1
  perform ipc_send s x = ipc_send_call s x.arg1 x.arg2 x.arg3
  perform ipc_rece s x = ipc_rece_call s x.arg1
  perform l2_send s x = sys_l2_send im s x.arg1 x.arg2 x.arg3 x.arg4
  perform l2_rece s x = sys_l2_rece im s

  -- No entry of the table is NULL.
  unfoldable pub svc_a64_handle : ℕ → System Node → Args → Result Node
  unfolding perform
  svc_a64_handle syscall_num s x =
      if ltb syscall_num 64
      then perform (get_or call_table syscall_num reserved) s x
      else some (stopped, s)
