-- ===== src/Network/Receive.antt =====
-- What becomes of a received frame: `nm_discap` of src/manage/nm.c and then the call l2_rece.
use ax_kernel.Network.Cache.{arrived, free_of, IsPlace, free_place-IsPlace}
use ax_kernel.Prelude.{
  if◌then◌else◌, refl, ◌==◌, none, ◌*◌, arith, ltb, ◌+◌, ◌∙◌, Option, ap, if_elim, some, [], ◌<◌,
  ◌≢◌, ◌≡◌, ℕ,
}
use ax_kernel.Network.{
  Nic, network_cache_size, free_place, place_frame, keep_frame, nm_discap, l2_rece_call, copy,
  vhdr_size, eth_size, payload_size,
}
use ax_kernel.Queue.{Queue, queue_push, queue_pop}
use ax_kernel.Queue.Inv.{IsValid, queue_push-IsValid}
use ax_kernel.Queue.Refine.{contents, contents-queue_push, contents-queue_pop}
use ax_kernel.Queue.Fifo

-- What is pushed onto an empty queue is popped.
queue_pop-queue_push :
    (q : Queue) (x : ℕ) → IsValid q → q.count ≡ 0 → (queue_pop (queue_push q x)).0 ≡ x
queue_pop-queue_push q x v e =
    let none_held : contents q ≡ [] =
      ap (λ n. ax_kernel.Queue.Refine.span q.buffer q.size q.tail n) e in
    (contents-queue_pop (queue_push-IsValid x v)).0
    ∙ (ap Fifo.front (contents-queue_push x v)
        ∙ (ap (λ c. Fifo.front (Fifo.add q.size c x)) none_held ∙ ground (arith, v.head_in)))

-- The row `id` is handed out, with the bytes of the frame.
abbrev Received : ℕ → Nic → ℕ → Nic → ℕ → Type 0
Received base nic k after id =
    ((nic.nm_connect.is_alloc id ≡ 0) × (id < network_cache_size))
    × ((nic' : Nic) × ((l2_rece_call base after ≡ some (base + payload_size * id, nic'))
          × (nic'.nm_connect.payload_buf id k ≡ nic.rx_packet_buffer (vhdr_size + eth_size + k))))

keep_frame-Received :
    (nic : Nic) (base k id : ℕ)
    → IsValid nic.nm_connect.nmqueue
    → nic.nm_connect.nmqueue.count ≡ 0
    → k < payload_size
    → (nic.nm_connect.is_alloc id ≡ 0) × (id < network_cache_size)
    → Received base nic k (keep_frame nic id) id
unfolding keep_frame l2_rece_call copy
keep_frame-Received nic base k id v none_held lt place =
    let q = queue_push nic.nm_connect.nmqueue id in
    let got : (queue_pop q).0 ≡ id = queue_pop-queue_push nic.nm_connect.nmqueue id v none_held in
    let after = keep_frame nic id in
    let nic' : Nic = record after {
      nm_connect = record after.nm_connect { nmqueue = (queue_pop q).1 };
    } in
    let answer : (if ltb (queue_pop q).0 network_cache_size
          then some (base + payload_size * (queue_pop q).0, nic')
          else none)
        ≡ some (base + payload_size * id, nic') =
      ground (arith, got, place.1) in
    (place, (nic', (answer, ground (arith, lt))))

placed :
    (nic : Nic) (base k : ℕ)
    → IsValid nic.nm_connect.nmqueue
    → nic.nm_connect.nmqueue.count ≡ 0
    → free_of nic ≢ 0
    → k < payload_size
    → (o : Option ℕ) → IsPlace nic.nm_connect.is_alloc 0 network_cache_size o
    → ((place_frame nic o).0 ≡ 1) × ((id : ℕ) × Received base nic k (place_frame nic o).1 id)
unfolding place_frame IsPlace
placed nic base k v none_held room lt none h = absurd (room h)
placed nic base k v none_held room lt (some id) h =
    (refl, (id, keep_frame-Received nic base k id v none_held lt (h.0.0, omega (arith, h.0.1.1))))

-- A frame has arrived, of whatever bytes, in the buffer that the device was given, and waits; the
-- queue of the cache is empty and a place is free. Then `nm_discap` answers 1, and the next call of
-- l2_rece hands out exactly the row that `nm_discap` has just taken, which was free before. Each of
-- the 1500 bytes of the row is the one that stands behind the headers in nm.c's own buffer, which
-- is not the device's: the bytes of the frame do not matter to them.
pub l2_rece_call-nm_discap :
    (nic : Nic) (used_idx : ℕ) (used_ring frame : ℕ → ℕ) (base k : ℕ)
    → IsValid nic.nm_connect.nmqueue
    → nic.nm_connect.nmqueue.count ≡ 0
    → used_idx ≢ nic.last_rx_used_idx
    → free_of nic ≢ 0
    → k < payload_size
    → let (answer, after) = nm_discap (arrived nic used_idx used_ring frame) in
      (answer ≡ 1)
      × ((id : ℕ) × (((nic.nm_connect.is_alloc id ≡ 0) × (id < network_cache_size))
            × ((nic' : Nic) × ((l2_rece_call base after ≡ some (base + payload_size * id, nic'))
                  × (nic'.nm_connect.payload_buf id k
                      ≡ nic.rx_packet_buffer (vhdr_size + eth_size + k))))))
unfolding nm_discap
l2_rece_call-nm_discap nic used_idx used_ring frame base k v none_held pending room lt =
    let nic1 = arrived nic used_idx used_ring frame in
    let place = free_place nic.nm_connect.is_alloc 0 network_cache_size in
    if_elim (λ (r : ℕ × Nic). (r.0 ≡ 1) × ((id : ℕ) × Received base nic1 k r.1 id))
      (used_idx == nic.last_rx_used_idx) (λ idle. absurd (ground (arith, idle, pending)))
      (λ _.
        placed nic1 base k v none_held room lt place
          (free_place-IsPlace nic.nm_connect.is_alloc 0 network_cache_size))
