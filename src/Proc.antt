-- ===== src/Proc.antt =====
-- The process manager: include/manage/_pm.h, src/manage/expm.c, `pm_init` of src/manage/pm.c and
-- `schedule_proc` of src/global/meta.c. A pointer to a control block is its index in `PMv1_mem`.
-- The only object is `pm_object`. `log` and `dump` print, and are left out.
pub mod Create
pub mod Rollback
pub mod Start
pub mod Page
pub mod Schedule
pub mod Message
mod Tests
use ax_kernel.Prelude.{Option, ℕ, ◌^◌, Bool, true, false, ◌||◌, ◌==◌, leb, ltb, if◌then◌else◌, List}
use ax_kernel.Prelude.Word.{u8}
use ax_kernel.Memory.{MmStack, mm_free}
use ax_kernel.Queue.{Queue, queue_init, queue_push, queue_pop, queue_empty}

pub record ProcRegs : Type 0 where
  pub reg_x : ℕ → ℕ
  pub sp : ℕ
  pub spsr : ℕ
  pub elr_el1 : ℕ

pub record ProcMsg : Type 0 where
  pub from : ℕ
  pub is_call : ℕ
  pub is_msgbox : ℕ
  pub len : ℕ
  pub msgbox : ℕ → ℕ

-- The union of `ctrl_t`: a device of the driver table, the UART, or a file of the file manager.
pub data Handle : Type 0 where
  null uart : Handle
  use_dev : ℕ → Handle
  use_file : ℕ → Handle

pub record Ctrl : Type 0 where
  pub is_ctrl_alloc : ℕ
  pub is_file : ℕ
  pub file_offset : ℕ
  pub handle : Handle

pub record Pcb : Type 0 where
  pub regs : ProcRegs
  pub id : ℕ
  pub p_id : ℕ
  pub mm_addr : ℕ
  pub state : ℕ
  pub heap_start : ℕ
  pub heap_break : ℕ
  pub heap_limit : ℕ
  pub msgs : ProcMsg
  pub control : ℕ → Ctrl
  pub page_i : Option ℕ

pub record Proto : Type 0 where
  pub rule : ℕ
  pub addr : ℕ

pub record PmObject : Type 0 where
  pub is_alloc : ℕ → ℕ
  pub lowqueue : Queue
  pub highqueue : Queue
  pub procs : ℕ → Pcb
  pub proto_arr : ℕ → Proto

abbrev pub max_pcb_size : ℕ
max_pcb_size = 0x100

abbrev pub pmv1_max_proc : ℕ
pmv1_max_proc = 0xFF

abbrev pub root_proc_sect : ℕ
root_proc_sect = 1

abbrev pub proc_signal : ℕ
proc_signal = 0xFF

-- `lowbuf` and `highbuf` are the buffers of the queues.
unfoldable pub pm_init : PmObject → List ℕ → List ℕ → PmObject
pm_init obj lowbuf highbuf = record obj {
  lowqueue = queue_init lowbuf 255;
  highqueue = queue_init highbuf 255;
}

-- The process that a byte from a queue names.
abbrev pub chosen : ℕ → ℕ
chosen data_id = if leb pmv1_max_proc data_id || (data_id == 0) then root_proc_sect else data_id

unfoldable pub pm_run : PmObject → ℕ × PmObject
pm_run obj =
    let (high, highqueue') = queue_pop obj.highqueue in
    let (low, lowqueue') = queue_pop obj.lowqueue in
    if queue_empty obj.highqueue
    then (if queue_empty obj.lowqueue
        then (root_proc_sect, obj)
        else (chosen low, record obj { lowqueue = lowqueue' }))
    else (chosen high, record obj { highqueue = highqueue' })

-- A change of one control block.
unfoldable pub at_proc : (ℕ → Pcb) → ℕ → (Pcb → Pcb) → ℕ → Pcb
at_proc procs i change j = if j == i then change (procs j) else procs j

-- The state that `cmd` asks for: asleep, stopped or zombie.
abbrev pub parked : ℕ → Pcb → Pcb
parked cmd p = if (cmd == 1) || ((cmd == 2) || (cmd == 3)) then record p { state = cmd } else p

unfoldable pub pm_awake : PmObject → ℕ → ℕ → PmObject
unfolding at_proc
pm_awake obj cmd proc =
    if cmd == 0
    then record obj { lowqueue = queue_push obj.lowqueue (obj.procs proc).id }
    else record obj { procs = at_proc obj.procs proc (parked cmd) }

unfoldable pub delivered : ℕ → (ℕ → ℕ) → ℕ → Pcb → Pcb
delivered who msg len p = record p {
  msgs = record p.msgs {
    is_msgbox = 1;
    from = who;
    len = len;
    msgbox = λ i. if ltb i len then msg i else p.msgs.msgbox i;
  };
}

unfoldable pub ptp : PmObject → ℕ → ℕ → (ℕ → ℕ) → ℕ → PmObject
unfolding at_proc delivered
ptp obj who towho msg len =
    if (obj.procs towho).msgs.is_msgbox == 0
    then (if ltb 64 len then obj else record obj {
      procs = at_proc obj.procs towho (delivered who msg len);
      lowqueue = (queue_pop obj.lowqueue).1;
      highqueue = queue_push obj.highqueue towho;
    })
    else obj

pub record Scheduler : Type 0 where
  pub pm : PmObject
  pub mm_stack : MmStack
  pub current_proc : ℕ

-- The answer and the state after it.
unfoldable pub schedule_proc : Scheduler → ℕ → ℕ × Scheduler
schedule_proc s proc =
    let (next, pm1) = pm_run s.pm in
    let pm2 = pm_awake pm1 0 proc in
    let (other, pm3) = pm_run pm2 in
    if (pm1.procs next).state == proc_signal
    then (
      next,
      record {
        pm = pm3;
        mm_stack = (mm_free s.mm_stack (pm2.procs proc).mm_addr).1;
        current_proc = other;
      },
    )
    else (next, record s { pm = pm2; current_proc = next })
