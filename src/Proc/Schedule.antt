-- ===== src/Proc/Schedule.antt =====
-- Scheduling: the ready processes as a ring, the running one first.
use ax_kernel.Proc.{
  Pcb, pm_awake, schedule_proc, queue_push, Scheduler, PmObject, pm_run, pmv1_max_proc, proc_signal,
}
use mathlib.Core.List.{append_assoc, append-nil, head-eq_of_cons-eq, tail-eq_of_cons-eq}
use ax_kernel.Prelude.{
  sym, subst, zero, length-append, suc, refl, ◌++◌, ℕ, ◌<◌, ◌≡◌, ◌≢◌, ap, ◌∙◌, List, [], ◌∷◌,
  length, arith,
}
use ax_kernel.Queue.{Queue, queue_pop, queue_empty}
use ax_kernel.Queue.Inv.{
  size-queue_pop, size-queue_push, queue_push-IsValid, queue_pop-IsValid, IsValid,
}
use ax_kernel.Queue.Refine.{contents-queue_push, contents, contents-queue_pop, length-span}
use ax_kernel.Queue.Fifo

-- A process that was created, with its index as id, and not in the state that asks for another choice.
pub record IsReady (procs : ℕ → Pcb) (x : ℕ) : Type 0 where
  pub pos : 0 < x
  pub in_range : x < pmv1_max_proc
  pub own_id : (procs x).id ≡ x
  pub ordinary : (procs x).state ≢ proc_signal

abbrev pub AreReady : (ℕ → Pcb) → List ℕ → Type 0
AreReady procs [] = ◌≡◌ {A = ℕ} 0 0
AreReady procs (x ∷ xs) = IsReady procs x × AreReady procs xs

-- The high queue is empty, and the low one is valid and of the size that `pm_init` gives it.
pub record IsCalm (pm : PmObject) : Type 0 where
  pub low : IsValid pm.lowqueue
  pub size : pm.lowqueue.size ≡ 255
  pub high : pm.highqueue.count ≡ 0

length-contents : (q : Queue) → length (contents q) ≡ q.count
length-contents q = length-span q.buffer q.size q.tail q.count

-- Taking the first of a low queue that is not empty.
pm_run_low :
    (pm : PmObject) (x : ℕ) (xs : List ℕ)
    → IsCalm pm
    → contents pm.lowqueue ≡ x ∷ xs
    → IsReady pm.procs x
    → pm_run pm ≡ (x, record pm { lowqueue = (queue_pop pm.lowqueue).1 })
unfolding pm_run queue_empty
pm_run_low pm x xs calm e ready =
    let count : pm.lowqueue.count ≢ 0 =
      λ z. ground (arith, length-contents pm.lowqueue, ap length e, z) in
    let first : (queue_pop pm.lowqueue).0 ≡ x =
      (contents-queue_pop calm.low).0 ∙ ap (λ l. elim l [ [] ↦ 0 | y ∷ ys ↦ y ]) e in
    ground (arith, calm.high, count, first, ready.pos, ready.in_range)

AreReady-append :
    (procs : ℕ → Pcb) (xs : List ℕ) (p : ℕ)
    → AreReady procs xs
    → IsReady procs p
    → AreReady procs (xs ++ (p ∷ []))
AreReady-append procs [] p h hp = (hp, refl)
AreReady-append procs (x ∷ xs) p h hp = (h.0, AreReady-append procs xs p h.1 hp)

-- The running process and those in the low queue, the next first; these are ready, and nothing is
-- asked of the other control blocks.
abbrev pub IsRing : Scheduler → ℕ → List ℕ → Type 0
IsRing s p xs = (contents s.pm.lowqueue ≡ xs) × (IsCalm s.pm × AreReady s.pm.procs (p ∷ xs))

-- The process object after a turn: the first ready process is out, `p` is in.
after_turn : PmObject → ℕ → PmObject
after_turn pm p =
    let popped = (queue_pop pm.lowqueue).1 in record pm { lowqueue = queue_push popped p }

schedule_proc_lem :
    (s : Scheduler) (p x : ℕ) (xs : List ℕ)
    → IsRing s p (x ∷ xs)
    → schedule_proc s p ≡ (x, record s { pm = after_turn s.pm p; current_proc = x })
unfolding schedule_proc pm_awake after_turn
schedule_proc_lem s p x xs (e, (calm, ready)) =
    let run = pm_run_low s.pm x xs calm e ready.1.0 in
    rw (run, ready.0.own_id) (ground (arith, ready.1.0.ordinary))

add_room :
    (size : ℕ) (ys xs : List ℕ) (p : ℕ)
    → size ≡ 255
    → ys ≡ xs
    → length xs < 255
    → Fifo.add size ys p ≡ xs ++ (p ∷ [])
add_room size ys xs p e e2 h = rw (e, e2) (ground arith)

turn-IsRing :
    (s : Scheduler) (p x : ℕ) (xs : List ℕ)
    → IsRing s p (x ∷ xs)
    → IsRing (record s { pm = after_turn s.pm p; current_proc = x }) x (xs ++ (p ∷ []))
unfolding after_turn
turn-IsRing s p x xs (e, (calm, ready)) =
    let q = s.pm.lowqueue in
    let popped = queue_pop-IsValid calm.low in
    let rest : contents (queue_pop q).1 ≡ xs = (contents-queue_pop calm.low).1 ∙ ap Fifo.rest e in
    let room : length xs < 255 =
      omega (arith, ap length e, length-contents q, calm.low.count_in, calm.size) in
    (
      contents-queue_push p popped
          ∙ add_room (queue_pop q).1.size (contents (queue_pop q).1) xs p
              (size-queue_pop q ∙ calm.size) rest room,
      (
        record {
          low = queue_push-IsValid p popped;
          size = size-queue_push (queue_pop q).1 p ∙ (size-queue_pop q ∙ calm.size);
          high = calm.high;
        },
        (ready.1.0, AreReady-append s.pm.procs xs p ready.1.1 ready.0),
      ),
    )

-- `n` turns of the scheduler, each from the running process, as the timer interrupt makes them.
unfoldable pub turns : ℕ → Scheduler → Scheduler
turns zero s = s
turns (suc n) s = turns n (schedule_proc s s.current_proc).1

-- Each ready process gets its turn: the high queue is empty, and the running process and those in
-- the low queue, a valid queue of 255 places, have their indices as ids and ordinary states. Then in
-- the ring of the running process and the low queue the one behind `n` others runs after exactly `n`
-- turns, and the ring is then rotated by `n`, so none is lost and none is passed over.
pub turns_rotate :
    (before : List ℕ) (s : Scheduler) (p x : ℕ) (xs after : List ℕ)
    → IsRing s p xs
    → s.current_proc ≡ p
    → p ∷ xs ≡ before ++ (x ∷ after)
    → ((turns (length before) s).current_proc ≡ x)
      × IsRing (turns (length before) s) x (after ++ before)
unfolding turns
turns_rotate [] s p x xs after ring run e =
    let same = head-eq_of_cons-eq e in
    (
      run ∙ same,
      subst (IsRing s x) (tail-eq_of_cons-eq e ∙ sym (append-nil after))
          (subst (λ q. IsRing s q xs) same ring),
    )
turns_rotate (b ∷ bs) s p x [] after ring run e =
    absurd (omega (arith, ap length (tail-eq_of_cons-eq e), length-append bs (x ∷ after)))
turns_rotate (b ∷ bs) s p x (y ∷ ys) after ring run e =
    let s' = record s { pm = after_turn s.pm p; current_proc = y } in
    let turn : (schedule_proc s s.current_proc).1 ≡ s' =
      ap (λ q. (schedule_proc s q).1) run ∙ ap (λ t. t.1) (schedule_proc_lem s p y ys ring) in
    let e' : y ∷ (ys ++ (p ∷ [])) ≡ bs ++ (x ∷ (after ++ (p ∷ []))) =
      ap (λ l. l ++ (p ∷ [])) (tail-eq_of_cons-eq e) ∙ append_assoc bs (x ∷ after) (p ∷ []) in
    let rest =
      turns_rotate bs s' y x (ys ++ (p ∷ [])) (after ++ (p ∷ [])) (turn-IsRing s p y ys ring) refl
        e' in
    let shape : (after ++ (p ∷ [])) ++ bs ≡ after ++ (b ∷ bs) =
      append_assoc after (p ∷ []) bs ∙ ap (λ q. after ++ (q ∷ bs)) (head-eq_of_cons-eq e) in
    subst
      (λ t.
        ((turns (length bs) t).current_proc ≡ x)
        × IsRing (turns (length bs) t) x (after ++ (b ∷ bs)))
      (sym turn) (rest.0, subst (IsRing (turns (length bs) s') x) shape rest.1)
