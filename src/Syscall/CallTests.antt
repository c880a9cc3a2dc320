-- ===== src/Syscall/CallTests.antt =====
-- System calls of a process with one file open, next to a process whose message box is full.
use ax_kernel.Prelude.{
  ◌^◌, [], inl, ◌%◌, inr, ltb, none, refl, some, ◌==◌, ◌∷◌, Option, arith, if_elim, if◌then◌else◌,
  ◌≡◌, ℕ,
}
use ax_kernel.Network.{Ring}
use ax_kernel.Queue.{Queue}
use ax_kernel.File.{Bpt, FmRecord, FileBlock, DirBlock, Name}
use ax_kernel.Proc.{Pcb, Ctrl, null, uart, use_file}
use ax_kernel.Syscall.System.{System, Image, Args, Reply, returned}
use ax_kernel.Syscall.Transfer.{write_call, read_call}
use ax_kernel.Syscall.Table.{svc_a64_handle, perform}
use ax_kernel.Syscall.Mailbox.{svc_a64_handle-msgs}
use ax_kernel.Syscall.Descriptors.{IsTyped, IsHandle, svc_a64_handle-IsTyped, transfer_IsDefined}
use ax_kernel.Syscall.ReadWrite.{IsOpen, read_call-write_call}
use ax_kernel.Syscall.ReadBounds.{IsCount, read_call_bounds}

-- A tree with one name.
abbrev one_name : Bpt (Option ℕ)
one_name = record {
  create_node = λ leaf. none;
  bpt_insert = λ n name v. (1, some v);
  bpt_search = λ n name. n;
  bpt_delete = λ n name. (1, none);
}

abbrev control : ℕ → Ctrl
control i =
    if i == 0
    then record { is_ctrl_alloc = 1; is_file = 0; file_offset = 0; handle = uart }
    else if i == 1
    then record { is_ctrl_alloc = 1; is_file = 1; file_offset = 10; handle = use_file 5 }
    else record { is_ctrl_alloc = 0; is_file = 0; file_offset = 0; handle = null }

abbrev process : ℕ → Pcb
process i = record {
  regs = record { reg_x = λ j. 0; sp = 0; spsr = 0; elr_el1 = 0 };
  id = i;
  p_id = 0;
  mm_addr = 0;
  state = 0;
  heap_start = 0;
  heap_break = 0;
  heap_limit = 0;
  msgs = record {
    from = 0;
    is_call = 0;
    is_msgbox = if i == 3 then 1 else 0;
    len = 2;
    msgbox = λ j. 66;
  };
  control = control;
  page_i = none;
}

abbrev empty_queue : Queue
empty_queue = record { buffer = 0 ∷ 0 ∷ []; size = 2; head = 0; tail = 0; count = 0 }

abbrev file : FileBlock
file = record { alias = λ i. 0; lens = 4; fid = 1; depth = 0; auth = 0; is_alloc = 1 }

abbrev directory : DirBlock
directory = record {
  alias = λ i. 0;
  files = λ i. 0;
  dirs = λ i. 0;
  p_fid = 0;
  fid = 0;
  depth = 0;
  auth = 0;
  dir_num = 0;
  dir_dnum = 0;
}

abbrev idle_ring : Ring
idle_ring = record {
  desc = record { addr = 0; len = 0; flags = 0; next = 0 };
  avail_flags = 0;
  avail_idx = 0;
  avail_ring = λ i. 0;
  used_idx = 0;
  used_ring = λ i. 0;
}

-- Process 2 runs. Byte `a` of the memory is the last byte of `a`.
abbrev system : System (Option ℕ)
system = record {
  pm = record {
    is_alloc = λ i. if ltb i 3 then 1 else 0;
    lowqueue = empty_queue;
    highqueue = empty_queue;
    procs = process;
    proto_arr = λ i. record { rule = 0; addr = 0x3000 };
  };
  current_proc = some 2;
  fm = record {
    base = 0x100000;
    cur_ptr = 0;
    all_file_num = 6;
    all_dir_num = 1;
    root = some 5;
    dir_root = some 0;
    files = λ i. file;
    dirs = λ i. directory;
  };
  memory = λ a. a % 2 ^ 8;
  driver = λ i. record { name = none; base_addr = 0; irq_nr = 0; init = none };
  nic = record {
    nm_connect = record {
      is_dst = λ i. 0;
      dst_buf = λ i k. 0;
      is_alloc = λ i. 0;
      nmqueue = empty_queue;
      payload_buf = λ i k. 0;
    };
    pkt = record {
      vhdr = λ i. 0;
      dst_mac = λ i. 0;
      src_mac = λ i. 0;
      ethertype = 0;
      payload = λ i. 0;
    };
    tx_queue = idle_ring;
    rx_queue = idle_ring;
    last_tx_used_idx = 0;
    last_rx_used_idx = 0;
    rx_packet_buffer = λ i. 0;
    device_buffer = λ i. 0;
    notified = [];
  };
  keys = 104 ∷ 105 ∷ 13 ∷ 120 ∷ [];
  serial = [];
}

abbrev image : Image
image = record { dir_addr = λ i. 0; payload_base = 0; pkt_addr = 0; used = λ i. 0 }

-- ipc_send of three bytes to process 3.
abbrev arguments : Args
arguments = record { arg1 = 0x1000; arg2 = 3; arg3 = 3; arg4 = 0; arg5 = 0 }

sent :
    (r : Reply × System (Option ℕ)) × (svc_a64_handle one_name image 24 system arguments ≡ some r)
unfolding svc_a64_handle perform ax_kernel.Syscall.Calls.ipc_send_call
    ax_kernel.Syscall.Calls.send_of ax_kernel.Syscall.System.as_current
sent = (_, refl)

system-IsTyped : (j : ℕ) → IsTyped (process j)
unfolding IsHandle
system-IsTyped j = record {
  console = refl;
  kinds = λ fd.
      if_elim (λ (k : Ctrl). IsHandle k.is_file k.handle) (fd == 0) (λ _. refl)
        (λ _.
          if_elim (λ (k : Ctrl). IsHandle k.is_file k.handle) (fd == 1) (λ _. omega arith)
            (λ _. tt));
}

svc_a64_handle-msgs_example : (sent.0.1.pm.procs 3).msgs ≡ (process 3).msgs
svc_a64_handle-msgs_example =
    svc_a64_handle-msgs one_name image 24 system arguments 3 (omega arith) sent.0 sent.1

svc_a64_handle-IsTyped_example : IsTyped (sent.0.1.pm.procs 2)
svc_a64_handle-IsTyped_example =
    svc_a64_handle-IsTyped one_name image 24 system arguments 2 (system-IsTyped 2) sent.0 sent.1

transfer_IsDefined_example :
    ((r : Reply × System (Option ℕ)) × (read_call system 1 0x1000 4 0 ≡ some r))
    × ((r : Reply × System (Option ℕ)) × (write_call system 1 0x1000 4 ≡ some r))
transfer_IsDefined_example =
    transfer_IsDefined system 2 1 0x1000 4 0 refl (system-IsTyped 2) (omega arith)

file-IsOpen : IsOpen system 2 1 5
file-IsOpen = record {
  running = refl;
  in_range = omega arith;
  alloc = omega arith;
  file = omega arith;
  at_slot = refl;
}

read_call-write_call_example :
    (s1 : System (Option ℕ)) × ((write_call system 1 0x1000 4 ≡ some (returned 4, s1))
      × ((s2 : System (Option ℕ)) × ((read_call s1 1 0x2000 4 10 ≡ some (returned 4, s2))
            × (s2.memory 0x2003 ≡ system.memory 0x1003))))
unfolding ax_kernel.File.Data.clip ax_kernel.File.fm_data_addr
read_call-write_call_example =
    read_call-write_call system 2 1 5 0x1000 0x2000 4 3 file-IsOpen (inl (omega arith))
      (inl (omega arith)) (omega arith) (omega arith, omega arith) (omega arith)

-- Three keys, the last of which is Enter.
typed_in :
    (s' : System (Option ℕ)) × ((read_call system 0 0x1000 8 0 ≡ some (returned 3, s'))
      × ((s'.memory 0x1001 ≡ 105) × (s'.keys ≡ 120 ∷ [])))
unfolding read_call ax_kernel.Syscall.Transfer.read_at ax_kernel.Syscall.Transfer.read_device
    ax_kernel.Syscall.Transfer.read_keys ax_kernel.Syscall.System.as_current
    ax_kernel.Prelude.Loop.write
typed_in = (_, (refl, (refl, refl)))

read_call_bounds_example :
    IsCount 8 (returned 3) × (typed_in.0.memory 0x1008 ≡ system.memory 0x1008)
read_call_bounds_example =
    read_call_bounds system 0 0x1000 8 0 0x1008 (returned 3, typed_in.0) typed_in.1.0
      (inr (omega arith))
