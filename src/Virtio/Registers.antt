-- ===== src/Virtio/Registers.antt =====
-- The accesses to the registers of a device that set it and its queues up, in the order of
-- src/tools/virtio.c.
use ax_kernel.Prelude.{
  true, ◌%◌, false, ◌^◌, ◌||◌, ltb, not, ◌/◌, ◌==◌, Bool, bit_or, if◌then◌else◌, ◌+◌, ℕ,
}
use ax_kernel.Prelude.Word.{u32}
use ax_kernel.Virtio.{
  Mmio, Setup, mmio_version, mmio_device_features, mmio_device_features_sel, mmio_driver_features,
  mmio_driver_features_sel, mmio_guest_page_size, mmio_queue_sel, mmio_queue_num_max,
  mmio_queue_num, mmio_queue_align, mmio_queue_pfn, mmio_queue_ready, mmio_queue_notify,
  mmio_status, mmio_queue_desc_low, mmio_queue_driver_low, mmio_queue_device_low, mmio_config,
  status_acknowledge, status_driver, status_driver_ok, status_features_ok, status_failed,
  virtio_queue_size, clear_storage, pick_size, queue_v1, queue_v2,
}

module _ {Side : Type 0} (mmio : Mmio Side) (v_base_addr : ℕ) where
  unfoldable pub reg : Side → ℕ → ℕ
  reg d offset = mmio.load d (v_base_addr + offset)

  unfoldable pub set_reg : ℕ → ℕ → Side → Side
  set_reg offset value d = mmio.store d (v_base_addr + offset) value

  -- `|=`.
  unfoldable pub or_reg : ℕ → ℕ → Side → Side
  unfolding reg set_reg
  or_reg offset bits d = set_reg offset (bit_or (reg d offset) bits) d

  unfoldable pub virtio_mmio_version : Side → ℕ
  unfolding reg
  virtio_mmio_version d = reg d mmio_version

  unfoldable pub virtio_mmio_notify_queue : ℕ → Side → Side
  unfolding set_reg
  virtio_mmio_notify_queue q_index = set_reg mmio_queue_notify q_index

  unfoldable pub virtio_mmio_read_config32 : Side → ℕ → ℕ
  unfolding reg
  virtio_mmio_read_config32 d offset = reg d (mmio_config + offset)

  unfoldable pub vq_init : Side → Side
  unfolding set_reg or_reg
  vq_init d0 =
      let d1 = set_reg mmio_status 0 d0 in
      let d2 = set_reg mmio_status status_acknowledge d1 in
      let d3 = or_reg mmio_status status_driver d2 in
      let d4 = set_reg mmio_driver_features 0 d3 in set_reg mmio_guest_page_size 4096 d4

  -- It always succeeds.
  unfoldable pub vq_setup : ℕ → ℕ → Setup Side → Setup Side
  unfolding set_reg or_reg reg clear_storage queue_v2
  vq_setup q_index storage s =
      let d1 = set_reg mmio_queue_sel (u32 q_index) s.side in
      let max = reg d1 mmio_queue_num_max in
      let vq_size = if ltb max virtio_queue_size then max else virtio_queue_size in
      let d2 = set_reg mmio_guest_page_size 4096 d1 in
      let d3 = set_reg mmio_queue_align 4096 d2 in
      let d4 = set_reg mmio_queue_num vq_size d3 in
      let d5 = set_reg mmio_queue_pfn (u32 (storage / 2 ^ 12)) d4 in
      record {
        ok = true;
        side = or_reg mmio_status status_driver_ok d5;
        memory = clear_storage s.memory storage;
        vq = queue_v2 storage vq_size;
      }

  unfoldable pub vq_setup_v1 : ℕ → ℕ → Setup Side → Setup Side
  unfolding set_reg reg pick_size clear_storage queue_v1
  vq_setup_v1 q_index storage s =
      let d1 = set_reg mmio_queue_sel q_index s.side in
      let queue_max = reg d1 mmio_queue_num_max in
      let queue_size = pick_size queue_max in
      let d2 = set_reg mmio_guest_page_size 4096 d1 in
      let d3 = set_reg mmio_queue_align 4096 d2 in
      let d4 = set_reg mmio_queue_num queue_size d3 in
      if (queue_max == 0) || (queue_size == 0) then record s { ok = false; side = d1 } else record {
        ok = true;
        side = set_reg mmio_queue_pfn (u32 (storage / 2 ^ 12)) d4;
        memory = clear_storage s.memory storage;
        vq = queue_v1 storage queue_size;
      }

  unfoldable pub vq_start_v1 : Side → Side
  unfolding or_reg
  vq_start_v1 = or_reg mmio_status status_driver_ok

  -- The answer tells 0 from -1.
  unfoldable pub vq_init_v2 : Side → Bool × Side
  unfolding set_reg or_reg reg
  vq_init_v2 d0 =
      let d1 = set_reg mmio_status 0 d0 in
      let d2 = set_reg mmio_status status_acknowledge d1 in
      let d3 = or_reg mmio_status status_driver d2 in
      let d4 = set_reg mmio_device_features_sel 1 d3 in
      let d5 = set_reg mmio_driver_features_sel 0 d4 in
      let d6 = set_reg mmio_driver_features 0 d5 in
      let d7 = set_reg mmio_driver_features_sel 1 d6 in
      let d8 = set_reg mmio_driver_features 1 d7 in
      let d9 = or_reg mmio_status status_features_ok d8 in
      if not (reg d0 mmio_version == 2)
      then (false, d0)
      else if reg d4 mmio_device_features % 2 == 0
      then (false, or_reg mmio_status status_failed d4)
      else if reg d9 mmio_status / 2 ^ 3 % 2 == 0
      then (false, or_reg mmio_status status_failed d9)
      else (true, d9)

  -- A register of 64 bits in two halves.
  unfoldable pub set_reg64 : ℕ → ℕ → Side → Side
  unfolding set_reg
  set_reg64 low value d = set_reg (low + 4) (u32 (value / 2 ^ 32)) (set_reg low (u32 value) d)

  unfoldable pub vq_setup_v2 : ℕ → ℕ → Setup Side → Setup Side
  unfolding set_reg set_reg64 or_reg reg pick_size clear_storage queue_v2
  vq_setup_v2 q_index storage s =
      let d1 = set_reg mmio_queue_sel q_index s.side in
      let queue_max = reg d1 mmio_queue_num_max in
      let queue_size = pick_size queue_max in
      let vq = queue_v2 storage queue_size in
      let d2 = set_reg mmio_queue_num queue_size d1 in
      let d3 = set_reg64 mmio_queue_desc_low vq.desc d2 in
      let d4 = set_reg64 mmio_queue_driver_low vq.avail d3 in
      let d5 = set_reg64 mmio_queue_device_low vq.used d4 in
      if (queue_max == 0) || (queue_size == 0)
      then record s { ok = false; side = or_reg mmio_status status_failed d1 }
      else record {
        ok = true;
        side = set_reg mmio_queue_ready 1 d5;
        memory = clear_storage s.memory storage;
        vq = vq;
      }

  unfoldable pub vq_start_v2 : Side → Side
  unfolding or_reg
  vq_start_v2 = or_reg mmio_status status_driver_ok
