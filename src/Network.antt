-- ===== src/Network.antt =====
-- The network manager: src/manage/nm.c, include/manage/_nm.h and `nm_init` of src/frm/net.c, and the
-- calls l2_send and l2_rece of src/handler/syscall.c. A frame goes through a ring that the device
-- reads or fills: what the device writes, the used part of a ring, is part of the state, and its
-- answer to a frame that is sent is an argument.
pub mod Cache
pub mod Receive
mod Tests
use ax_kernel.Prelude.{
  ◌*◌, ◌-◌, ℕ, zero, suc, ◌+◌, ◌%◌, ◌^◌, Bool, true, false, Option, none, some, List, [], ◌∷◌, ◌++◌,
  ◌==◌, ltb, if◌then◌else◌,
}
use ax_kernel.Prelude.Word.{u16, u32}
use ax_kernel.Virtio.{virtio_queue_size}
use ax_kernel.Queue.{Queue, queue_init, queue_push, queue_pop}

abbrev pub network_cache_size : ℕ
network_cache_size = 10

abbrev pub dst_cache_size : ℕ
dst_cache_size = 10

-- The bytes of a frame behind its headers.
abbrev pub payload_size : ℕ
payload_size = 1500

-- `sizeof(virtio_net_hdr_t)` and `sizeof(eth_frame_t)`: the fields are packed.
abbrev pub vhdr_size : ℕ
vhdr_size = 12

abbrev pub eth_size : ℕ
eth_size = 14

pub record Packet : Type 0 where
  pub vhdr : ℕ → ℕ
  pub dst_mac : ℕ → ℕ
  pub src_mac : ℕ → ℕ
  pub ethertype : ℕ
  pub payload : ℕ → ℕ

-- `virtq_desc`.
pub record Desc : Type 0 where
  pub addr : ℕ
  pub len : ℕ
  pub flags : ℕ
  pub next : ℕ

-- `tx_queue` or `rx_queue`: descriptor 0, the available and the used ring with the index of each.
pub record Ring : Type 0 where
  pub desc : Desc
  pub avail_flags : ℕ
  pub avail_idx : ℕ
  pub avail_ring : ℕ → ℕ
  pub used_idx : ℕ
  pub used_ring : ℕ → ℕ

pub record Connect : Type 0 where
  pub is_dst : ℕ → ℕ
  pub dst_buf : ℕ → ℕ → ℕ
  pub is_alloc : ℕ → ℕ
  pub nmqueue : Queue
  pub payload_buf : ℕ → ℕ → ℕ

-- All that the network manager keeps. `notified` lists the writes to VIRTIO_QUEUE_NOTIFY, the last one
-- first; `rx_packet_buffer` is the one of nm.c, and `device_buffer` the rx_packet_buffer of net.c, which
-- prepare_rx_buffer hands to the device.
pub record Nic : Type 0 where
  pub nm_connect : Connect
  pub pkt : Packet
  pub tx_queue : Ring
  pub rx_queue : Ring
  pub last_tx_used_idx : ℕ
  pub last_rx_used_idx : ℕ
  pub rx_packet_buffer : ℕ → ℕ
  pub device_buffer : ℕ → ℕ
  pub notified : List ℕ

-- The first `n` elements from `source`, the others as in `old`.
unfoldable pub copy : ℕ → (ℕ → ℕ) → (ℕ → ℕ) → ℕ → ℕ
copy n source old i = if ltb i n then source i else old i

-- Entry `id` is put into the available ring.
unfoldable pub offer : Ring → ℕ → Ring
offer r id = record r {
  avail_ring = λ i. if i == r.avail_idx % virtio_queue_size then id else r.avail_ring i;
  avail_idx = u16 (r.avail_idx + 1);
}

-- The address of this computer, 02:00:00:00:00:01.
abbrev pub src_mac_bytes : ℕ → ℕ
src_mac_bytes i = if i == 0 then 2 else if i == 5 then 1 else 0

unfoldable pub fill_packet : Packet → (ℕ → ℕ) → (ℕ → ℕ) → ℕ → ℕ → Packet
unfolding copy
fill_packet pkt dst message len type = record {
  vhdr = λ i. 0;
  dst_mac = copy 6 dst pkt.dst_mac;
  src_mac = copy 6 src_mac_bytes pkt.src_mac;
  ethertype = type;
  payload = copy len message pkt.payload;
}

-- `pkt_addr` is the address of the frame. `none` is a payload that is longer than the frame, which is
-- copied behind its end.
unfoldable pub nm_cap : ℕ → Nic → (ℕ → ℕ) → (ℕ → ℕ) → ℕ → ℕ → Option Nic
unfolding fill_packet offer
nm_cap pkt_addr nic dst message len type =
    if ltb payload_size len
    then none
    else some (record nic {
      pkt = fill_packet nic.pkt dst message len type;
      tx_queue =
          offer
            (record nic.tx_queue {
              desc = record {
                addr = pkt_addr;
                len = u32 (vhdr_size + eth_size + len);
                flags = 0;
                next = 0;
              };
              avail_flags = 0;
            })
            0;
      notified = 1 ∷ nic.notified;
    })

-- The loop of `nm_discap` over the cache: `n` places are left from `i` on.
unfoldable pub free_place : (ℕ → ℕ) → ℕ → ℕ → Option ℕ
free_place is_alloc i zero = none
free_place is_alloc i (suc n) =
    let rest = free_place is_alloc (i + 1) n in if is_alloc i == 0 then some i else rest

-- A received frame goes into place `id` of the cache, and its descriptor back to the device.
unfoldable pub keep_frame : Nic → ℕ → Nic
unfolding copy offer
keep_frame nic id =
    let c = nic.nm_connect in
    record nic {
      nm_connect = record c {
        is_alloc = λ i. if i == id then 1 else c.is_alloc i;
        nmqueue = queue_push c.nmqueue id;
        payload_buf = λ i.
            if i == id
            then copy payload_size (λ k. nic.rx_packet_buffer (vhdr_size + eth_size + k))
                (c.payload_buf i)
            else c.payload_buf i;
      };
      rx_queue =
          offer nic.rx_queue
            (nic.rx_queue.used_ring (nic.last_rx_used_idx % virtio_queue_size) % 2 ^ 16);
      notified = 0 ∷ nic.notified;
      last_rx_used_idx = u16 (nic.last_rx_used_idx + 1);
    }

unfoldable pub place_frame : Nic → Option ℕ → ℕ × Nic
unfolding keep_frame
place_frame nic none = (2 ^ 64 - 1, nic)
place_frame nic (some id) = (1, keep_frame nic id)

unfoldable pub nm_discap : Nic → ℕ × Nic
unfolding free_place place_frame
nm_discap nic =
    if nic.rx_queue.used_idx == nic.last_rx_used_idx
    then (0, nic)
    else place_frame nic (free_place nic.nm_connect.is_alloc 0 network_cache_size)

-- The manager's part of `nm_init`, with `nmbuf` the buffer of the queue: the broadcast address is
-- destination 0.
unfoldable pub nm_init : Nic → List ℕ → Nic
unfolding copy
nm_init nic nmbuf =
    let c = nic.nm_connect in
    record nic {
      nm_connect = record c {
        dst_buf = λ i. if i == 0 then copy 6 (λ k. 0xFF) (c.dst_buf 0) else c.dst_buf i;
        is_dst = λ i. if i == 0 then 1 else c.is_dst i;
        nmqueue = queue_init nmbuf network_cache_size;
      };
    }

-- The loop that waits for the device, `n` rounds at most: `used i` is the index of the used ring that
-- is read when `i` rounds are left.
unfoldable pub is_sent : ℕ → (ℕ → ℕ) → ℕ → Bool
is_sent zero used last = false
is_sent (suc n) used last = elim (used n == last) [ true ↦ is_sent n used last | false ↦ true ]

unfoldable pub wait_sent : ℕ → (ℕ → ℕ) → Nic → ℕ × Nic
unfolding is_sent
wait_sent timeout used nic =
    if is_sent timeout used nic.last_tx_used_idx
    then (0, record nic { last_tx_used_idx = u16 (nic.last_tx_used_idx + 1) })
    else (2 ^ 64 - 1, nic)

-- The arguments are those after the conversions: `id` and `len` have 8 bits, `type` 16. A row of
-- `dst_buf` is never NULL. `none` is an `id` outside the arrays.
unfoldable pub l2_send_call : ℕ → (ℕ → ℕ) → Nic → (ℕ → ℕ) → ℕ → ℕ → ℕ → Option (ℕ × Nic)
unfolding nm_cap wait_sent
l2_send_call pkt_addr used nic message id len type =
    if ltb id dst_cache_size
    then (if nic.nm_connect.is_dst id == 0
        then some (2 ^ 64 - 1, nic)
        else elim (nm_cap pkt_addr nic (nic.nm_connect.dst_buf id) message len type) [
          | none ↦ none
          | some nic' ↦ some (wait_sent 10000000 used nic')
        ])
    else none

-- The answer is the address of the row of `payload_buf` that starts at `base`. An empty queue answers
-- 0, as if row 0 had been received. `none` is a row outside the array.
unfoldable pub l2_rece_call : ℕ → Nic → Option (ℕ × Nic)
l2_rece_call base nic =
    let (ret, nmqueue') = queue_pop nic.nm_connect.nmqueue in
    if ltb ret network_cache_size
    then some (
      base + payload_size * ret,
      record nic { nm_connect = record nic.nm_connect { nmqueue = nmqueue' } },
    )
    else none
