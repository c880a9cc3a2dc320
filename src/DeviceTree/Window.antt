-- ===== src/DeviceTree/Window.antt =====
-- What the reader can find, whatever the memory holds.
use ax_kernel.DeviceTree.{
  fdt64_to_cpu, NodeInfo, Found, Cursor, Step, more, finished, virtio_input_max_devices,
  fdt_begin_node, fdt_end_node, fdt_prop, fdt_nop, fdt_magic, word_at, add_input, end_node,
  set_kind, put_reg, read_reg, put_interrupts, is_named, reg_name, interrupts_name, read_prop,
  next_token, after_step, parse_loop, parse_dtb_tokens, parse_dtb,
}
use ax_kernel.Prelude.Results.{Every, Every-some, Every-none}
use ax_kernel.Prelude.Bytes.{little_endian}
use ax_kernel.Prelude.{
  ℕ, zero, suc, ◌+◌, ◌≤◌, ◌<◌, ◌≡◌, ◌⊎◌, inl, inr, not, ◌&&◌, Option, some, if_elim, if◌then◌else◌,
  refl, arith, ◌==◌, ltb, leb,
}

-- No address, or one of the window where the Virtio devices are.
abbrev pub InWindow : ℕ → Type 0
InWindow a = (a ≡ 0) ⊎ ((0x0a000000 ≤ a) × (a < 0x0a200000))

-- The findings `f` are in order, and nothing behind the arrays of `f0` has changed.
pub record IsFound (f0 f : Found) : Type 0 where
  pub net : InWindow f.virtio_net_base
  pub gpu : InWindow f.virtio_gpu_base
  pub blk : InWindow f.virtio_blk_base
  pub snd : InWindow f.virtio_snd_base
  pub inputs : (i : ℕ) → i < f.virtio_input_count → InWindow (f.virtio_input_bases i)
  pub count : f.virtio_input_count ≤ virtio_input_max_devices
  pub bases :
      (i : ℕ) → virtio_input_max_devices ≤ i → f.virtio_input_bases i ≡ f0.virtio_input_bases i
  pub irqs : (i : ℕ) → virtio_input_max_devices ≤ i → f.virtio_input_irqs i ≡ f0.virtio_input_irqs i

module _ (f0 : Found) (n : NodeInfo) (f : Found) (place : InWindow n.node_mmio_addr)
    (h : IsFound f0 f) where
  add_input-IsFound : IsFound f0 (add_input n f)
  unfolding add_input
  add_input-IsFound =
      if_elim (IsFound f0) (ltb f.virtio_input_count virtio_input_max_devices)
        (λ room. record {
          net = h.net;
          gpu = h.gpu;
          blk = h.blk;
          snd = h.snd;
          inputs = λ i lt.
              if_elim InWindow (i == f.virtio_input_count) (λ _. place)
                (λ other. h.inputs i (ground (arith, lt, other)));
          count = ground (arith, room);
          bases = λ i out. ground (arith, room, out, h.bases i out);
          irqs = λ i out. ground (arith, room, out, h.irqs i out);
        })
        (λ _. h)

  end_node-IsFound : IsFound f0 (end_node n f)
  unfolding end_node
  end_node-IsFound =
      let placed = not (n.node_mmio_addr == 0) in
      if_elim (IsFound f0) (n.is_net && placed)
        (λ _. record {
          net = place;
          gpu = h.gpu;
          blk = h.blk;
          snd = h.snd;
          inputs = h.inputs;
          count = h.count;
          bases = h.bases;
          irqs = h.irqs;
        })
        (λ _.
          if_elim (IsFound f0) (n.is_gpu && placed)
            (λ _. record {
              net = h.net;
              gpu = place;
              blk = h.blk;
              snd = h.snd;
              inputs = h.inputs;
              count = h.count;
              bases = h.bases;
              irqs = h.irqs;
            })
            (λ _.
              if_elim (IsFound f0) (n.is_blk && placed)
                (λ _. record {
                  net = h.net;
                  gpu = h.gpu;
                  blk = place;
                  snd = h.snd;
                  inputs = h.inputs;
                  count = h.count;
                  bases = h.bases;
                  irqs = h.irqs;
                })
                (λ _.
                  if_elim (IsFound f0) (n.is_snd && placed)
                    (λ _. record {
                      net = h.net;
                      gpu = h.gpu;
                      blk = h.blk;
                      snd = place;
                      inputs = h.inputs;
                      count = h.count;
                      bases = h.bases;
                      irqs = h.irqs;
                    })
                    (λ _.
                      if_elim (IsFound f0) (n.is_input && placed) (λ _. add_input-IsFound)
                        (λ _. h)))))

put_reg-InWindow :
    (mmio_addr device_id : ℕ) (n : NodeInfo)
    → InWindow n.node_mmio_addr
    → InWindow (put_reg mmio_addr device_id n).node_mmio_addr
unfolding put_reg set_kind
put_reg-InWindow mmio_addr device_id n h =
    if_elim (λ (n' : NodeInfo). InWindow n'.node_mmio_addr)
      (leb 0x0a000000 mmio_addr && ltb mmio_addr 0x0a200000)
      (λ window. inr (ground (arith, window), ground (arith, window))) (λ _. h)

read_prop-InWindow :
    (memory : ℕ → ℕ) (name prop_val : ℕ) (n : NodeInfo)
    → InWindow n.node_mmio_addr
    → InWindow (read_prop memory name prop_val n).node_mmio_addr
unfolding read_prop read_reg put_interrupts
read_prop-InWindow memory name prop_val n h =
    let P : NodeInfo → Type 0 = λ n'. InWindow n'.node_mmio_addr in
    let read : P (if is_named memory name reg_name then read_reg memory prop_val n else n) =
      if_elim P (is_named memory name reg_name)
        (λ _.
          put_reg-InWindow (fdt64_to_cpu (little_endian memory 8 prop_val))
            (little_endian memory 4 (fdt64_to_cpu (little_endian memory 8 prop_val) + 8)) n h)
        (λ _. h) in
    if_elim P (is_named memory name interrupts_name) (λ _. read) (λ _. read)

-- A step of the loop keeps the findings in order.
IsInOrder : Found → Cursor → Type 0
IsInOrder f0 c = InWindow c.node.node_mmio_addr × IsFound f0 c.found

StepInOrder : Found → Step → Type 0
StepInOrder f0 (more c) = IsInOrder f0 c
StepInOrder f0 (finished f) = IsFound f0 f

next_token-StepInOrder :
    (f0 : Found) (memory : ℕ → ℕ) (strings_ptr : ℕ) (c : Cursor)
    → IsInOrder f0 c
    → StepInOrder f0 (next_token memory strings_ptr c)
unfolding next_token StepInOrder IsInOrder
next_token-StepInOrder f0 memory strings_ptr c h =
    let token = word_at memory c.p in
    if_elim (StepInOrder f0) (token == fdt_begin_node) (λ _. (inl refl, h.1))
      (λ _.
        if_elim (StepInOrder f0) (token == fdt_end_node)
          (λ _. (h.0, end_node-IsFound f0 c.node c.found h.0 h.1))
          (λ _.
            if_elim (StepInOrder f0) (token == fdt_prop)
              (λ _. (read_prop-InWindow memory _ _ c.node h.0, h.1))
              (λ _. if_elim (StepInOrder f0) (token == fdt_nop) (λ _. h) (λ _. h.1))))

after_step-IsFound :
    (f0 : Found) (go : Cursor → Option Found)
    → ((c : Cursor) → IsInOrder f0 c → Every (IsFound f0) (go c))
    → (s : Step) → StepInOrder f0 s
    → Every (IsFound f0) (after_step go s)
unfolding StepInOrder
after_step-IsFound f0 go keeps (more c) h = keeps c h
after_step-IsFound f0 go keeps (finished f) h = Every-some _ f h

parse_loop-IsFound :
    (fuel : ℕ) (f0 : Found) (memory : ℕ → ℕ) (strings_ptr : ℕ) (c : Cursor)
    → IsInOrder f0 c
    → Every (IsFound f0) (parse_loop fuel memory strings_ptr c)
unfolding parse_loop
parse_loop-IsFound zero f0 memory strings_ptr c h = Every-none _
parse_loop-IsFound (suc fuel) f0 memory strings_ptr c h =
    after_step-IsFound f0 (parse_loop fuel memory strings_ptr)
      (parse_loop-IsFound fuel f0 memory strings_ptr) (next_token memory strings_ptr c)
      (next_token-StepInOrder f0 memory strings_ptr c h)

-- Whatever the memory holds, each device that the reader has found when it ends lies in the window of
-- the Virtio devices, there are at most as many input devices as the arrays have places, and nothing
-- behind the arrays is written to.
pub parse_dtb-IsFound :
    (fuel : ℕ) (memory : ℕ → ℕ) (dtb_addr : ℕ) (f f' : Found)
    → IsFound f f
    → parse_dtb fuel memory dtb_addr f ≡ some f'
    → IsFound f f'
unfolding parse_dtb parse_dtb_tokens IsInOrder
parse_dtb-IsFound fuel memory dtb_addr f f' h =
    let addr = if dtb_addr == 0 then 0x40000000 else dtb_addr in
    let same : Every (IsFound f) (some f) = Every-some _ f h in
    if_elim (Every (IsFound f)) (word_at memory addr == fdt_magic)
      (λ _.
        if_elim (Every (IsFound f)) (word_at memory addr == fdt_magic)
          (λ _. parse_loop-IsFound fuel f memory _ _ (inl refl, h)) (λ _. same))
      (λ _. same) f'
