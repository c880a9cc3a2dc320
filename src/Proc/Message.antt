-- ===== src/Proc/Message.antt =====
-- `ptp`: what a message does to the receiver and to the ready queues.
use ax_kernel.Prelude.{refl, ℕ, ◌≤◌, ◌<◌, ◌≡◌, ◌⊎◌, ◌≢◌, arith}
use ax_kernel.Queue.{queue_push, queue_pop}
use ax_kernel.Queue.Fifo
use ax_kernel.Queue.Inv.{IsValid}
use ax_kernel.Queue.Refine.{contents, contents-queue_push, contents-queue_pop}
use ax_kernel.Proc.{Pcb, PmObject, ptp, at_proc, delivered}

-- A message is refused when the box is full or it is longer than the box, and then nothing changes.
abbrev pub Accepts : PmObject → ℕ → ℕ → Type 0
Accepts obj towho len = ((obj.procs towho).msgs.is_msgbox ≡ 0) × (len ≤ 64)

ptp_step :
    (obj : PmObject) (who towho : ℕ) (msg : ℕ → ℕ) (len : ℕ)
    → Accepts obj towho len
    → ptp obj who towho msg len ≡ record obj {
      procs = at_proc obj.procs towho (delivered who msg len);
      lowqueue = (queue_pop obj.lowqueue).1;
      highqueue = queue_push obj.highqueue towho;
    }
unfolding ptp
ptp_step obj who towho msg len ok = ground (arith, ok.0, ok.1)

at_proc_self : (procs : ℕ → Pcb) (i : ℕ) (f : Pcb → Pcb) → at_proc procs i f i ≡ f (procs i)
unfolding at_proc
at_proc_self procs i f = ground arith

at_proc_ne : (procs : ℕ → Pcb) (i j : ℕ) (f : Pcb → Pcb) → j ≢ i → at_proc procs i f j ≡ procs j
unfolding at_proc
at_proc_ne procs i j f h = ground arith

-- A message of at most 64 bytes to a process with an empty box: the box is then full and holds the
-- sender, the length and the bytes of the message, all other control blocks are as they were, the
-- receiver is queued with high priority, and the low queue loses the process at its front, whichever
-- that is.
pub ptp_delivers :
    (obj : PmObject) (who towho : ℕ) (msg : ℕ → ℕ) (len i j : ℕ)
    → IsValid obj.lowqueue
    → IsValid obj.highqueue
    → Accepts obj towho len
    → i < len
    → j ≢ towho
    → let after = ptp obj who towho msg len in
      let box = (after.procs towho).msgs in
      (((box.is_msgbox ≡ 1) × ((box.from ≡ who) × (box.len ≡ len)))
        × ((box.msgbox i ≡ msg i) × (after.procs j ≡ obj.procs j)))
      × ((contents after.highqueue ≡ Fifo.add obj.highqueue.size (contents obj.highqueue) towho)
          × (contents after.lowqueue ≡ Fifo.rest (contents obj.lowqueue)))
unfolding delivered
ptp_delivers obj who towho msg len i j low high ok hi hj =
    rw
      (
        ptp_step obj who towho msg len ok,
        at_proc_self obj.procs towho (delivered who msg len),
        at_proc_ne obj.procs towho j (delivered who msg len) hj,
      )
      (
        ((refl, (refl, refl)), (ground arith, refl)),
        (contents-queue_push towho high, (contents-queue_pop low).1),
      )

-- A message to a process whose box is full, or of more than 64 bytes, changes nothing.
pub ptp_refuses :
    (obj : PmObject) (who towho : ℕ) (msg : ℕ → ℕ) (len : ℕ)
    → ((obj.procs towho).msgs.is_msgbox ≢ 0) ⊎ (64 < len)
    → ptp obj who towho msg len ≡ obj
unfolding ptp
ptp_refuses obj who towho msg len h = ground arith
