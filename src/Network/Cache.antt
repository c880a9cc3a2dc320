-- ===== src/Network/Cache.antt =====
-- How many received frames the cache takes.
use ax_kernel.Prelude.Results.{some_inj, >>=-eq-some, Every-none, Every-some, Every, ◌>>=◌}
use ax_kernel.Prelude.{
  subst, refl, ◌∙◌, ap, ltb, [], ◌-◌, arith, none, zero, ◌^◌, ◌∷◌, some, ◌+◌, ◌==◌, ◌≢◌, ◌≤◌, List,
  Option, if_elim, if◌then◌else◌, suc, ◌<◌, ◌≡◌, ℕ,
}
use native.Mathlib.Decide.{ℕ_discrete}
use ax_kernel.Queue.{queue_pop}
use ax_kernel.Network.{
  Nic, network_cache_size, free_place, place_frame, keep_frame, nm_discap, l2_rece_call,
}

-- The free places among the `n` from `i` on.
unfoldable pub free_places : (ℕ → ℕ) → ℕ → ℕ → ℕ
free_places is_alloc i zero = 0
free_places is_alloc i (suc n) = (if is_alloc i == 0 then 1 else 0) + free_places is_alloc (i + 1) n

abbrev pub free_of : Nic → ℕ
free_of nic = free_places nic.nm_connect.is_alloc 0 network_cache_size

-- What a search for a free place answers.
unfoldable pub IsPlace : (ℕ → ℕ) → ℕ → ℕ → Option ℕ → Type 0
IsPlace is_alloc i n none = free_places is_alloc i n ≡ 0
IsPlace is_alloc i n (some id) =
    ((is_alloc id ≡ 0) × ((i ≤ id) × (id < i + n))) × (0 < free_places is_alloc i n)

IsPlace-later :
    (is_alloc : ℕ → ℕ) (i n : ℕ) (o : Option ℕ)
    → IsPlace is_alloc (i + 1) n o
    → is_alloc i ≢ 0
    → IsPlace is_alloc i (suc n) o
unfolding free_places IsPlace
IsPlace-later is_alloc i n none h taken = ground (arith, h, taken)
IsPlace-later is_alloc i n (some id) h taken =
    ((h.0.0, (omega (arith, h.0.1.0), omega (arith, h.0.1.1))), ground (arith, h.1, taken))

pub free_place-IsPlace :
    (is_alloc : ℕ → ℕ) (i n : ℕ) → IsPlace is_alloc i n (free_place is_alloc i n)
unfolding free_place free_places IsPlace
free_place-IsPlace is_alloc i zero = refl
free_place-IsPlace is_alloc i (suc n) =
    if_elim (IsPlace is_alloc i (suc n)) (is_alloc i == 0)
      (λ free. ((ground (arith, free), (omega arith, omega arith)), ground (arith, free)))
      (λ taken.
        IsPlace-later is_alloc i n _ (free_place-IsPlace is_alloc (i + 1) n)
          (ground (arith, taken)))

abbrev taken : (ℕ → ℕ) → ℕ → ℕ → ℕ
taken is_alloc id i = if i == id then 1 else is_alloc i

free_places-taken_before :
    (is_alloc : ℕ → ℕ) (id i n : ℕ)
    → id < i
    → free_places (taken is_alloc id) i n ≡ free_places is_alloc i n
unfolding free_places
free_places-taken_before is_alloc id i zero lt = refl
free_places-taken_before is_alloc id i (suc n) lt =
    let rest = free_places-taken_before is_alloc id (i + 1) n (omega (arith, lt)) in
    ground (arith, rest, lt)

free_places-taken :
    (is_alloc : ℕ → ℕ) (id i n : ℕ)
    → is_alloc id ≡ 0
    → i ≤ id
    → id < i + n
    → 1 + free_places (taken is_alloc id) i n ≡ free_places is_alloc i n
unfolding free_places
free_places-taken is_alloc id i zero free le lt = absurd (omega (arith, le, lt))
free_places-taken is_alloc id i (suc n) free le lt = elim (ℕ_discrete i id) [
  | yes e ↦
      let rest = free_places-taken_before is_alloc id (i + 1) n (omega (arith, e)) in
      let here : is_alloc i ≡ 0 = ap is_alloc e ∙ free in ground (arith, rest, e, here)
  | no ne ↦
      let rest =
        free_places-taken is_alloc id (i + 1) n free (omega (arith, le, ne)) (omega (arith, lt)) in
      ground (arith, rest, ne)
]

-- What `nm_discap` answers, and what becomes of the free places.
abbrev Discapped : Nic → ℕ × Nic → Type 0
Discapped nic r =
    (r.0 ≡ (
      if nic.rx_queue.used_idx == nic.last_rx_used_idx
      then 0
      else if free_of nic == 0
      then 2 ^ 64 - 1
      else 1))
    × ((if r.0 == 1 then 1 else 0) + free_of r.1 ≡ free_of nic)

place_frame-Discapped :
    (nic : Nic) (o : Option ℕ)
    → nic.rx_queue.used_idx ≢ nic.last_rx_used_idx
    → IsPlace nic.nm_connect.is_alloc 0 network_cache_size o
    → Discapped nic (place_frame nic o)
unfolding place_frame keep_frame IsPlace
place_frame-Discapped nic none pending h = (ground (arith, pending, h), omega arith)
place_frame-Discapped nic (some id) pending h =
    let fewer =
      free_places-taken nic.nm_connect.is_alloc id 0 network_cache_size h.0.0 (omega arith)
        (omega (arith, h.0.1.1)) in
    (ground (arith, pending, h.1), fewer)

nm_discap-Discapped : (nic : Nic) → Discapped nic (nm_discap nic)
unfolding nm_discap
nm_discap-Discapped nic =
    if_elim (Discapped nic) (nic.rx_queue.used_idx == nic.last_rx_used_idx)
      (λ idle. (ground (arith, idle), omega arith))
      (λ pending.
        place_frame-Discapped nic _ (ground (arith, pending))
          (free_place-IsPlace nic.nm_connect.is_alloc 0 network_cache_size))

-- The device has written a frame into the buffer that it was given, and moved its index.
abbrev pub arrived : Nic → ℕ → (ℕ → ℕ) → (ℕ → ℕ) → Nic
arrived nic used_idx used_ring frame = record nic {
  rx_queue = record nic.rx_queue { used_idx = used_idx; used_ring = used_ring };
  device_buffer = frame;
}

-- What can happen to the receiving side: the device writes frames and moves its index, its interrupt
-- runs `nm_discap`, and a process calls l2_rece.
pub data Event : Type 0 where
  arrival : ℕ → (ℕ → ℕ) → (ℕ → ℕ) → Event
  interrupt receive : Event

-- The state after an event, and 1 when it took in a frame.
unfoldable pub step : ℕ → Event → Nic → Option (ℕ × Nic)
unfolding nm_discap l2_rece_call
step base (arrival used_idx used_ring frame) nic = some (0, arrived nic used_idx used_ring frame)
step base interrupt nic =
    let (answer, nic') = nm_discap nic in some (if answer == 1 then 1 else 0, nic')
step base receive nic = l2_rece_call base nic >>= λ r. some (0, r.1)

-- The number of frames taken in.
unfoldable pub run : ℕ → List Event → Nic → Option (ℕ × Nic)
unfolding step
run base [] nic = some (0, nic)
run base (e ∷ es) nic = step base e nic >>= λ r. run base es r.1 >>= λ s. some (r.0 + s.0, s.1)

l2_rece_free :
    (base : ℕ) (nic : Nic)
    → Every (λ (r : ℕ × Nic). free_of r.1 ≡ free_of nic) (l2_rece_call base nic)
unfolding l2_rece_call
l2_rece_free base nic =
    if_elim (Every (λ (r : ℕ × Nic). free_of r.1 ≡ free_of nic))
      (ltb (queue_pop nic.nm_connect.nmqueue).0 network_cache_size) (λ _. Every-some _ _ refl)
      (λ _. Every-none _)

step_free :
    (base : ℕ) (e : Event) (nic : Nic)
    → Every (λ (r : ℕ × Nic). r.0 + free_of r.1 ≡ free_of nic) (step base e nic)
unfolding step l2_rece_call
step_free base (arrival used_idx used_ring frame) nic = Every-some _ _ (omega arith)
step_free base interrupt nic = Every-some _ _ (nm_discap-Discapped nic).1
step_free base receive nic = λ r h.
    let (got, (one, same)) = >>=-eq-some (l2_rece_call base nic) _ h in
    let kept = l2_rece_free base nic got one in
    subst (λ (r : ℕ × Nic). r.0 + free_of r.1 ≡ free_of nic) (some_inj _ _ same)
      (omega (arith, kept))

run_free :
    (base : ℕ) (es : List Event) (nic : Nic)
    → Every (λ (r : ℕ × Nic). r.0 + free_of r.1 ≡ free_of nic) (run base es nic)
unfolding run
run_free base [] nic = Every-some _ _ (omega arith)
run_free base (e ∷ es) nic = λ r h.
    let ((k, nic1), (one, h1)) = >>=-eq-some (step base e nic) _ h in
    let ((m, nic2), (rest, h2)) = >>=-eq-some (run base es nic1) _ h1 in
    let first = step_free base e nic (k, nic1) one in
    let others = run_free base es nic1 (m, nic2) rest in
    subst (λ (r : ℕ × Nic). r.0 + free_of r.1 ≡ free_of nic) (some_inj _ _ h2)
      (omega (arith, first, others))

-- However the frames, the interrupts and the calls of l2_rece follow each other: each frame that is
-- taken in uses up a free place of the cache for good, so at most ten are; and when no place is left,
-- a frame that waits is refused.
pub run_bound :
    (base : ℕ) (es : List Event) (nic nic' : Nic) (n : ℕ)
    → run base es nic ≡ some (n, nic')
    → (n + free_of nic' ≡ free_of nic)
      × ((nm_discap nic').0 ≡ (
          if nic'.rx_queue.used_idx == nic'.last_rx_used_idx
          then 0
          else if free_of nic' == 0
          then 2 ^ 64 - 1
          else 1))
unfolding run
run_bound base es nic nic' n h = (run_free base es nic (n, nic') h, (nm_discap-Discapped nic').0)
