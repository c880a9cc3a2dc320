-- ===== src/Network/Tests.antt =====
-- A network manager with one of its ten places taken, and a frame that waits.
use ax_kernel.Network.Cache.{
  arrived, run, run_bound, free_of, free_places, Event, interrupt, receive,
}
use ax_kernel.Prelude.{arith, [], refl, ◌*◌, some, ◌<◌, ◌==◌, ◌∷◌, List, if◌then◌else◌, ◌+◌, ◌≡◌, ℕ}
use ax_kernel.Network.{Nic, Connect, Ring, nm_init, nm_cap, nm_discap, l2_send_call, l2_rece_call}
use ax_kernel.Network.Receive.{l2_rece_call-nm_discap}

abbrev silent : Ring
silent = record {
  desc = record { addr = 0; len = 0; flags = 0; next = 0 };
  avail_flags = 0;
  avail_idx = 1;
  avail_ring = λ i. 0;
  used_idx = 0;
  used_ring = λ i. 0;
}

-- Byte `a` of the buffer is `a`.
abbrev nic : Nic
nic = record {
  nm_connect = record {
    is_dst = λ i. if i == 0 then 1 else 0;
    dst_buf = λ i k. 0xFF;
    is_alloc = λ i. if i == 0 then 1 else 0;
    nmqueue = record {
      buffer = 0 ∷ 0 ∷ 0 ∷ 0 ∷ 0 ∷ 0 ∷ 0 ∷ 0 ∷ 0 ∷ 0 ∷ [];
      size = 10;
      head = 1;
      tail = 1;
      count = 0;
    };
    payload_buf = λ i k. 0;
  };
  pkt = record {
    vhdr = λ i. 0;
    dst_mac = λ i. 0;
    src_mac = λ i. 0;
    ethertype = 0;
    payload = λ i. 0;
  };
  tx_queue = silent;
  rx_queue = record silent { used_idx = 1 };
  last_tx_used_idx = 0;
  last_rx_used_idx = 0;
  rx_packet_buffer = λ a. a;
  device_buffer = λ a. 0;
  notified = [];
}

-- A message of three bytes to the broadcast address, which the device takes at once.
sent :
    (nic' : Nic) × ((l2_send_call 0x5000 (λ i. 1) nic (λ i. 65 + i) 0 3 8 ≡ some (0, nic'))
      × ((nic'.tx_queue.desc.len ≡ 29) × ((nic'.pkt.payload 2 ≡ 67) × (nic'.last_tx_used_idx ≡ 1))))
unfolding l2_send_call nm_cap ax_kernel.Network.wait_sent ax_kernel.Network.is_sent
    ax_kernel.Network.fill_packet ax_kernel.Network.copy ax_kernel.Network.offer
sent = (_, (refl, (refl, (refl, refl))))

l2_rece_call-nm_discap_example :
    let (answer, after) = nm_discap (arrived nic 1 (λ i. 0) (λ a. 0x77)) in
    (answer ≡ 1)
    × ((id : ℕ) × (((nic.nm_connect.is_alloc id ≡ 0) × (id < 10))
          × ((nic' : Nic) × ((l2_rece_call 0x9000 after ≡ some (0x9000 + 1500 * id, nic'))
                × (nic'.nm_connect.payload_buf id 7 ≡ nic.rx_packet_buffer (12 + 14 + 7))))))
unfolding free_places
l2_rece_call-nm_discap_example =
    l2_rece_call-nm_discap nic 1 (λ i. 0) (λ a. 0x77) 0x9000 7 (omega arith) refl (omega arith)
      (omega arith) (omega arith)

-- Two interrupts for one frame, and a call of l2_rece.
abbrev events : List Event
events = interrupt ∷ interrupt ∷ receive ∷ []

run-events : (nic' : Nic) × (run 0x9000 events nic ≡ some (1, nic'))
unfolding run ax_kernel.Network.Cache.step nm_discap l2_rece_call ax_kernel.Network.free_place
    ax_kernel.Network.place_frame ax_kernel.Network.keep_frame ax_kernel.Queue.queue_push
    ax_kernel.Queue.queue_pop
run-events = (_, refl)
