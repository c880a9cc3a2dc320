-- ===== src/DeviceTree/Nodes.antt =====
-- What a list of tokens says about the Virtio devices, without the state of the reader of
-- src/global/dtb.c: each end of a node enters the device that the properties since the last start of a
-- node describe. And how the reader's notes stand to these properties.
use ax_kernel.Prelude.{
  inr, ◌^◌, arith, inl, ◌%◌, Bool-cases, ltb, true, ◌+◌, ◌||◌, false, leb, not, refl, ◌&&◌, ◌==◌,
  ◌∷◌, Bool, [], if◌then◌else◌, none, some, ◌≡◌, List, Option, ℕ,
}
use ax_kernel.DeviceTree.{
  NodeInfo, Found, no_info, add_input, end_node, set_kind, put_reg, put_interrupts,
}
use ax_kernel.DeviceTree.Layout.{
  Property, reg, interrupts, other, Token, begin_token, end_token, prop_token, nop_token,
}

-- Whether the registers are in the window of the Virtio devices.
abbrev pub in_window : ℕ → Bool
in_window a = leb 0x0a000000 a && ltb a 0x0a200000

-- The place of the device, from the properties of a node, the last one first.
unfoldable pub address : List Property → Option ℕ
address [] = none
address (reg a ∷ said) = let rest = address said in if in_window a then some a else rest
address (interrupts t i ∷ said) = address said
address (other ∷ said) = address said

-- The interrupt: those of type 0 are shared, and count from 32.
unfoldable pub interrupt : List Property → Option ℕ
interrupt [] = none
interrupt (reg a ∷ said) = interrupt said
interrupt (interrupts t i ∷ said) = some (if t == 0 then (i + 32) % 2 ^ 32 else i)
interrupt (other ∷ said) = interrupt said

-- Whether a device of kind `k` was named; `device_id` gives the register of the device at an address.
unfoldable pub has_kind : (ℕ → ℕ) → ℕ → List Property → Bool
has_kind device_id k [] = false
has_kind device_id k (reg a ∷ said) =
    let rest = has_kind device_id k said in if in_window a then rest || (device_id a == k) else rest
has_kind device_id k (interrupts t i ∷ said) = has_kind device_id k said
has_kind device_id k (other ∷ said) = has_kind device_id k said

abbrev pub or : Option ℕ → ℕ → ℕ
or none default = default
or (some x) default = x

-- The device at `a` is entered: 1 is a network device, 16 a display, 2 a disk, 25 a sound device, and
-- 18 an input device, of which there is room for four.
unfoldable pub enter_at : (ℕ → Bool) → Option ℕ → ℕ → Found → Found
enter_at kind irq a f =
    if kind 1
    then record f { virtio_net_base = a; virtio_net_irq = or irq f.virtio_net_irq }
    else if kind 16
    then record f { virtio_gpu_base = a; virtio_gpu_irq = or irq f.virtio_gpu_irq }
    else if kind 2
    then record f { virtio_blk_base = a; virtio_blk_irq = or irq f.virtio_blk_irq }
    else if kind 25
    then record f { virtio_snd_base = a }
    else if kind 18 && ltb f.virtio_input_count 4
    then record f {
      virtio_input_count = f.virtio_input_count + 1;
      virtio_input_bases = λ i. if i == f.virtio_input_count then a else f.virtio_input_bases i;
      virtio_input_irqs =
          λ i. if i == f.virtio_input_count then or irq 0 else f.virtio_input_irqs i;
    }
    else f

unfoldable pub enter : (ℕ → Bool) → Option ℕ → Option ℕ → Found → Found
enter kind irq none f = f
enter kind irq (some a) f = enter_at kind irq a f

-- The findings of a list of tokens, in a node of which `said` is known.
unfoldable pub scan : (ℕ → ℕ) → List Token → List Property → Found → Found
scan device_id [] said f = f
scan device_id (begin_token len ∷ ts) said f = scan device_id ts [] f
scan device_id (end_token ∷ ts) said f =
    scan device_id ts said
      (enter (λ k. has_kind device_id k said) (interrupt said) (address said) f)
scan device_id (prop_token len property ∷ ts) said f = scan device_id ts (property ∷ said) f
scan device_id (nop_token ∷ ts) said f = scan device_id ts said f

abbrev is_some : Option ℕ → Bool
is_some none = false
is_some (some x) = true

-- The notes of the reader after these properties.
abbrev info_of : (ℕ → Bool) → Option ℕ → Option ℕ → NodeInfo
info_of kind irq a = record {
  node_mmio_addr = or a 0;
  node_irq_num = or irq 0;
  has_irq = is_some irq;
  is_net = kind 1;
  is_gpu = kind 16;
  is_blk = kind 2;
  is_snd = kind 25;
  is_input = kind 18;
}

abbrev pub info : (ℕ → ℕ) → List Property → NodeInfo
info device_id said = info_of (λ k. has_kind device_id k said) (interrupt said) (address said)

pub info_empty : (device_id : ℕ → ℕ) → info device_id [] ≡ no_info
unfolding has_kind interrupt address
info_empty device_id = refl

pub put_reg-info :
    (device_id : ℕ → ℕ) (a : ℕ) (said : List Property)
    → put_reg a (device_id a) (info device_id said) ≡ info device_id (reg a ∷ said)
unfolding put_reg set_kind has_kind interrupt address
put_reg-info device_id a said = elim (Bool-cases (in_window a)) [
  | inl e ↦ rw e refl
  | inr e ↦ rw e refl
]

pub put_interrupts-info :
    (device_id : ℕ → ℕ) (t i : ℕ) (said : List Property)
    → put_interrupts t i (info device_id said) ≡ info device_id (interrupts t i ∷ said)
unfolding put_interrupts has_kind interrupt address
put_interrupts-info device_id t i said = refl

pub info-other :
    (device_id : ℕ → ℕ) (said : List Property) → info device_id said ≡ info device_id (other ∷ said)
unfolding has_kind interrupt address
info-other device_id said = refl

-- The place is in the window, so it is not 0.
address_pos : (said : List Property) (a : ℕ) → address said ≡ some a → not (a == 0) ≡ true
unfolding address
address_pos [] a e = absurd (ground (arith, e))
address_pos (reg b ∷ said) a e = elim (Bool-cases (in_window b)) [
  | inl inside ↦ ground (arith, inside, e)
  | inr out ↦ address_pos said a (ground (arith, out, e))
]
address_pos (interrupts t i ∷ said) a e = address_pos said a e
address_pos (other ∷ said) a e = address_pos said a e

irq_or : (irq : Option ℕ) (d : ℕ) → (if is_some irq then or irq 0 else d) ≡ or irq d
irq_or none d = refl
irq_or (some i) d = refl

end_node-enter_at :
    (kind : ℕ → Bool) (irq : Option ℕ) (a : ℕ) (f : Found)
    → not (a == 0) ≡ true
    → end_node (info_of kind irq (some a)) f ≡ enter_at kind irq a f
unfolding end_node add_input enter_at
end_node-enter_at kind none a f pos = ground (arith, pos)
end_node-enter_at kind (some i) a f pos = ground (arith, pos)

end_node-enter :
    (kind : ℕ → Bool) (irq a : Option ℕ) (f : Found)
    → ((b : ℕ) → a ≡ some b → not (b == 0) ≡ true)
    → end_node (info_of kind irq a) f ≡ enter kind irq a f
unfolding end_node enter
end_node-enter kind irq none f pos = ground arith
end_node-enter kind irq (some a) f pos = end_node-enter_at kind irq a f (pos a refl)

pub end_node-info :
    (device_id : ℕ → ℕ) (said : List Property) (f : Found)
    → end_node (info device_id said) f
      ≡ enter (λ k. has_kind device_id k said) (interrupt said) (address said) f
end_node-info device_id said f =
    end_node-enter (λ k. has_kind device_id k said) (interrupt said) (address said) f
      (address_pos said)
