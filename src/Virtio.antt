-- ===== src/Virtio.antt =====
-- The queues of the Virtio devices: src/tools/virtio.c and include/tools/_virtio.h. A device is known by
-- its registers: `Mmio` is what a read of one gives and what a write makes of the device. A barrier has
-- no effect in the model, where each access is one step.
pub mod Registers
pub mod Layout
mod Tests
use ax_kernel.Prelude.{
  true, ◌%◌, false, zero, ◌^◌, ◌||◌, ltb, not, ◌/◌, ◌==◌, Bool, bit_or, if◌then◌else◌, suc, ◌*◌,
  ◌+◌, ℕ,
}
use ax_kernel.Prelude.Loop.{for_range, write}
use ax_kernel.Prelude.Word.{u16, u32}

-- The registers of the devices, at the addresses of the memory where they are.
pub record Mmio (Side : Type 0) : Type 0 where
  pub load : Side → ℕ → ℕ
  pub store : Side → ℕ → ℕ → Side

abbrev pub mmio_version : ℕ
mmio_version = 0x004

abbrev pub mmio_device_features : ℕ
mmio_device_features = 0x010

abbrev pub mmio_device_features_sel : ℕ
mmio_device_features_sel = 0x014

abbrev pub mmio_driver_features : ℕ
mmio_driver_features = 0x020

abbrev pub mmio_driver_features_sel : ℕ
mmio_driver_features_sel = 0x024

abbrev pub mmio_guest_page_size : ℕ
mmio_guest_page_size = 0x028

abbrev pub mmio_queue_sel : ℕ
mmio_queue_sel = 0x030

abbrev pub mmio_queue_num_max : ℕ
mmio_queue_num_max = 0x034

abbrev pub mmio_queue_num : ℕ
mmio_queue_num = 0x038

abbrev pub mmio_queue_align : ℕ
mmio_queue_align = 0x03C

abbrev pub mmio_queue_pfn : ℕ
mmio_queue_pfn = 0x040

abbrev pub mmio_queue_ready : ℕ
mmio_queue_ready = 0x044

abbrev pub mmio_queue_notify : ℕ
mmio_queue_notify = 0x050

abbrev pub mmio_status : ℕ
mmio_status = 0x070

abbrev pub mmio_queue_desc_low : ℕ
mmio_queue_desc_low = 0x080

abbrev pub mmio_queue_driver_low : ℕ
mmio_queue_driver_low = 0x090

abbrev pub mmio_queue_device_low : ℕ
mmio_queue_device_low = 0x0A0

abbrev pub mmio_config : ℕ
mmio_config = 0x100

abbrev pub status_acknowledge : ℕ
status_acknowledge = 1

abbrev pub status_driver : ℕ
status_driver = 2

abbrev pub status_driver_ok : ℕ
status_driver_ok = 4

abbrev pub status_features_ok : ℕ
status_features_ok = 8

abbrev pub status_failed : ℕ
status_failed = 0x80

abbrev pub virtio_queue_size : ℕ
virtio_queue_size = 256

-- `(val + 4095) & ~4095`.
unfoldable pub align_4k : ℕ → ℕ
align_4k val = (val + 4095) / 4096 * 4096

abbrev pub virtio_desc_bytes : ℕ
virtio_desc_bytes = 16 * virtio_queue_size

abbrev pub virtio_avail_bytes : ℕ
virtio_avail_bytes = 4 + 2 * virtio_queue_size

abbrev pub virtio_used_bytes : ℕ
virtio_used_bytes = 4 + 8 * virtio_queue_size

-- VIRTIO_USED_OFFSET and VIRTIO_QUEUE_STORAGE, both aligned.
abbrev pub virtio_used_offset : ℕ
virtio_used_offset = 8192

abbrev pub virtio_queue_storage : ℕ
virtio_queue_storage = 12288

-- `virtio_queue_state`, with addresses for the pointers.
pub record QueueState : Type 0 where
  pub desc : ℕ
  pub avail : ℕ
  pub used : ℕ
  pub storage : ℕ
  pub size : ℕ

-- What the set-up of a queue works on; `ok` tells 0 from -1.
pub record Setup (Side : Type 0) : Type 0 where
  pub ok : Bool
  pub side : Side
  pub memory : ℕ → ℕ
  pub vq : QueueState

-- The loop that zeroes `n` bytes, and the storage.
unfoldable pub clear_bytes : ℕ → (ℕ → ℕ) → ℕ → ℕ → ℕ
clear_bytes n memory storage = for_range n 0 (λ i m. write m (storage + i) 0) memory

unfoldable pub clear_storage : (ℕ → ℕ) → ℕ → ℕ → ℕ
clear_storage memory storage = clear_bytes virtio_queue_storage memory storage

-- `while (queue_size > queue_max) queue_size >>= 1;` on fuel.
unfoldable pub halve : ℕ → ℕ → ℕ → ℕ
halve zero queue_size queue_max = queue_size
halve (suc fuel) queue_size queue_max =
    let rest = halve fuel (queue_size / 2) queue_max in
    if ltb queue_max queue_size then rest else queue_size

-- The size that the loop comes to: nine halvings take 256 to 0.
unfoldable pub pick_size : ℕ → ℕ
unfolding halve
pick_size queue_max = halve 9 virtio_queue_size queue_max

-- The rings of version 1 lie one behind the other.
unfoldable pub queue_v1 : ℕ → ℕ → QueueState
unfolding align_4k
queue_v1 storage queue_size = record {
  desc = storage;
  avail = storage + queue_size * 16;
  used = storage + align_4k (queue_size * 16 + 2 * 2 + queue_size * 2);
  storage = storage;
  size = u16 queue_size;
}

-- Those of version 2 have fixed places.
unfoldable pub queue_v2 : ℕ → ℕ → QueueState
queue_v2 storage queue_size = record {
  desc = storage;
  avail = storage + virtio_desc_bytes;
  used = storage + virtio_used_offset;
  storage = storage;
  size = u16 queue_size;
}
