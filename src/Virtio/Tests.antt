-- ===== src/Virtio/Tests.antt =====
-- A device at 0x0a003e00 with queues of at most 100 entries.
use ax_kernel.Prelude.{refl, ◌==◌, arith, false, if◌then◌else◌, ◌≡◌, ℕ}
use ax_kernel.Virtio.{Mmio, Setup, pick_size, halve}
use ax_kernel.Virtio.Registers.{vq_setup_v1}
use ax_kernel.Virtio.Layout.{IsReady, vq_setup_v1-IsReady}

-- The last value written is the state of the device.
abbrev device : Mmio ℕ
device = record { load = λ d a. if a == 0x0a003e34 then 100 else d; store = λ d a v. v }

abbrev before : Setup ℕ
before = record {
  ok = false;
  side = 0;
  memory = λ a. 255;
  vq = record { desc = 0; avail = 0; used = 0; storage = 0; size = 0 };
}

pick_size_100 : pick_size 100 ≡ 64
unfolding pick_size halve
pick_size_100 = refl

vq_setup_v1-IsReady_example :
    IsReady before (vq_setup_v1 device 0x0a003e00 0 0x5000 before) 0x5000 100
vq_setup_v1-IsReady_example = vq_setup_v1-IsReady device 0x0a003e00 0 0x5000 before (omega arith)
