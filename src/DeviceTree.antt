-- ===== src/DeviceTree.antt =====
-- The reader of the device tree, src/global/dtb.c, on the bytes of the memory: it looks for the
-- Virtio devices and their interrupts. The registers of a device are memory too.
pub mod Layout
pub mod Reading
pub mod Nodes
pub mod Window
pub mod Tokens
pub mod Nested
mod Tests
use ax_kernel.Prelude.Bytes.{little_endian, string_at}
use ax_kernel.Prelude.Int.{of_nat, eq_int}
use ax_kernel.Prelude.Word.{u32}
use ax_kernel.Prelude.{
  ℕ, zero, suc, ◌+◌, ◌-◌, ◌*◌, ◌/◌, ◌%◌, ◌^◌, Bool, true, false, not, ◌&&◌, ◌||◌, Option, none,
  some, List, [], ◌∷◌, ◌==◌, leb, ltb, if◌then◌else◌,
}
use ax_kernel.Text.{strcmp}

-- `__builtin_bswap32`.
unfoldable pub fdt32_to_cpu : ℕ → ℕ
fdt32_to_cpu n =
    n % 2 ^ 8 * 2 ^ 24
    + n / 2 ^ 8 % 2 ^ 8 * 2 ^ 16
    + n / 2 ^ 16 % 2 ^ 8 * 2 ^ 8
    + n / 2 ^ 24 % 2 ^ 8

unfoldable pub fdt64_to_cpu : ℕ → ℕ
unfolding fdt32_to_cpu
fdt64_to_cpu val = fdt32_to_cpu (val % 2 ^ 32) * 2 ^ 32 + fdt32_to_cpu (val / 2 ^ 32 % 2 ^ 32)

-- The word at an address of the tree.
unfoldable pub word_at : (ℕ → ℕ) → ℕ → ℕ
unfolding fdt32_to_cpu little_endian
word_at memory a = fdt32_to_cpu (little_endian memory 4 a)

-- `(offset + 3) & ~3`.
unfoldable pub fdt_align : ℕ → ℕ
fdt_align offset = u32 (offset + 3) / 4 * 4

-- The loop of `fdt_strnlen` with `n` bytes left.
unfoldable pub fdt_strnlen : (ℕ → ℕ) → ℕ → ℕ → ℕ
fdt_strnlen memory s zero = 0
fdt_strnlen memory s (suc n) =
    let rest = fdt_strnlen memory (s + 1) n in if memory s == 0 then 0 else rest + 1

abbrev pub fdt_magic : ℕ
fdt_magic = 0xd00dfeed

abbrev pub fdt_begin_node : ℕ
fdt_begin_node = 1

abbrev pub fdt_end_node : ℕ
fdt_end_node = 2

abbrev pub fdt_prop : ℕ
fdt_prop = 3

abbrev pub fdt_nop : ℕ
fdt_nop = 4

abbrev pub virtio_input_max_devices : ℕ
virtio_input_max_devices = 4

-- What is collected about the current node.
pub record NodeInfo : Type 0 where
  pub node_mmio_addr : ℕ
  pub node_irq_num : ℕ
  pub has_irq : Bool
  pub is_net : Bool
  pub is_gpu : Bool
  pub is_blk : Bool
  pub is_snd : Bool
  pub is_input : Bool

abbrev pub no_info : NodeInfo
no_info = record {
  node_mmio_addr = 0;
  node_irq_num = 0;
  has_irq = false;
  is_net = false;
  is_gpu = false;
  is_blk = false;
  is_snd = false;
  is_input = false;
}

-- The global variables.
pub record Found : Type 0 where
  pub virtio_net_base : ℕ
  pub virtio_gpu_base : ℕ
  pub virtio_blk_base : ℕ
  pub virtio_snd_base : ℕ
  pub virtio_input_bases : ℕ → ℕ
  pub virtio_input_irqs : ℕ → ℕ
  pub virtio_input_count : ℕ
  pub virtio_net_irq : ℕ
  pub virtio_gpu_irq : ℕ
  pub virtio_blk_irq : ℕ

-- An input device in the next free place.
unfoldable pub add_input : NodeInfo → Found → Found
add_input n f =
    if ltb f.virtio_input_count virtio_input_max_devices
    then record f {
      virtio_input_count = f.virtio_input_count + 1;
      virtio_input_bases =
          λ i. if i == f.virtio_input_count then n.node_mmio_addr else f.virtio_input_bases i;
      virtio_input_irqs = λ i.
          if i == f.virtio_input_count
          then if n.has_irq then n.node_irq_num else 0
          else f.virtio_input_irqs i;
    }
    else f

unfoldable pub end_node : NodeInfo → Found → Found
unfolding add_input
end_node n f =
    let placed = not (n.node_mmio_addr == 0) in
    if n.is_net && placed
    then record f {
      virtio_net_base = n.node_mmio_addr;
      virtio_net_irq = if n.has_irq then n.node_irq_num else f.virtio_net_irq;
    }
    else if n.is_gpu && placed
    then record f {
      virtio_gpu_base = n.node_mmio_addr;
      virtio_gpu_irq = if n.has_irq then n.node_irq_num else f.virtio_gpu_irq;
    }
    else if n.is_blk && placed
    then record f {
      virtio_blk_base = n.node_mmio_addr;
      virtio_blk_irq = if n.has_irq then n.node_irq_num else f.virtio_blk_irq;
    }
    else if n.is_snd && placed
    then record f { virtio_snd_base = n.node_mmio_addr }
    else if n.is_input && placed
    then add_input n f
    else f

-- The kind of the device from its `device_id` register.
unfoldable pub set_kind : ℕ → NodeInfo → NodeInfo
set_kind device_id n = record n {
  is_net = n.is_net || (device_id == 1);
  is_blk = n.is_blk || (device_id == 2);
  is_gpu = n.is_gpu || (device_id == 16);
  is_snd = n.is_snd || (device_id == 25);
  is_input = n.is_input || (device_id == 18);
}

-- The place of the registers of a device, and the register `device_id`.
unfoldable pub put_reg : ℕ → ℕ → NodeInfo → NodeInfo
unfolding set_kind
put_reg mmio_addr device_id n =
    if leb 0x0a000000 mmio_addr && ltb mmio_addr 0x0a200000
    then set_kind device_id (record n { node_mmio_addr = mmio_addr })
    else n

unfoldable pub read_reg : (ℕ → ℕ) → ℕ → NodeInfo → NodeInfo
unfolding fdt64_to_cpu put_reg
read_reg memory prop_val n =
    let mmio_addr = fdt64_to_cpu (little_endian memory 8 prop_val) in
    put_reg mmio_addr (little_endian memory 4 (mmio_addr + 8)) n

unfoldable pub put_interrupts : ℕ → ℕ → NodeInfo → NodeInfo
put_interrupts intr_type intr_num n = record n {
  node_irq_num = if intr_type == 0 then u32 (intr_num + 32) else intr_num;
  has_irq = true;
}

-- `strcmp` looks at no byte behind the end of the shorter string, so eleven bytes of the name decide.
unfoldable pub is_named : (ℕ → ℕ) → ℕ → List ℕ → Bool
unfolding strcmp string_at
is_named memory name expected = eq_int (strcmp (string_at memory 11 name) expected) (of_nat 0)

-- "reg" and "interrupts".
abbrev pub reg_name : List ℕ
reg_name = 114 ∷ 101 ∷ 103 ∷ []

abbrev pub interrupts_name : List ℕ
interrupts_name = 105 ∷ 110 ∷ 116 ∷ 101 ∷ 114 ∷ 114 ∷ 117 ∷ 112 ∷ 116 ∷ 115 ∷ []

-- A property with its name at `name` and its value at `prop_val`.
unfoldable pub read_prop : (ℕ → ℕ) → ℕ → ℕ → NodeInfo → NodeInfo
unfolding is_named read_reg put_interrupts word_at
read_prop memory name prop_val n =
    let n' = if is_named memory name reg_name then read_reg memory prop_val n else n in
    if is_named memory name interrupts_name
    then put_interrupts (word_at memory prop_val) (word_at memory (prop_val + 4)) n'
    else n'

-- Where the loop stands: the pointer `p`, the node and the findings.
pub record Cursor : Type 0 where
  pub p : ℕ
  pub node : NodeInfo
  pub found : Found

pub data Step : Type 0 where
  more : Cursor → Step
  finished : Found → Step

-- One round of the loop. The strings start at `strings_ptr`.
unfoldable pub next_token : (ℕ → ℕ) → ℕ → Cursor → Step
unfolding word_at fdt_strnlen fdt_align end_node read_prop
next_token memory strings_ptr c =
    let token = word_at memory c.p in
    let q = c.p + 4 in
    if token == fdt_begin_node
    then more (record c { p = q + fdt_align (fdt_strnlen memory q 256 + 1); node = no_info })
    else if token == fdt_end_node
    then more (record c { p = q; found = end_node c.node c.found })
    else if token == fdt_prop
    then more (record c {
      p = q + 8 + fdt_align (word_at memory q);
      node = read_prop memory (strings_ptr + word_at memory (q + 4)) (q + 8) c.node;
    })
    else if token == fdt_nop
    then more (record c { p = q })
    else finished c.found

abbrev pub after_step : (Cursor → Option Found) → Step → Option Found
after_step go (more c) = go c
after_step go (finished f) = some f

-- The loop on fuel, one for each token.
unfoldable pub parse_loop : ℕ → (ℕ → ℕ) → ℕ → Cursor → Option Found
unfolding next_token
parse_loop zero memory strings_ptr c = none
parse_loop (suc fuel) memory strings_ptr c =
    after_step (parse_loop fuel memory strings_ptr) (next_token memory strings_ptr c)

unfoldable pub parse_dtb_tokens : ℕ → (ℕ → ℕ) → ℕ → Found → Option Found
unfolding parse_loop
parse_dtb_tokens fuel memory dtb_addr f =
    let off_struct = word_at memory (dtb_addr + 8) in
    let off_strings = word_at memory (dtb_addr + 12) in
    if word_at memory dtb_addr == fdt_magic
    then parse_loop fuel memory (dtb_addr + off_strings)
        (record { p = dtb_addr + off_struct; node = no_info; found = f })
    else some f

-- Without an address the tree is looked for at the start of the memory.
unfoldable pub parse_dtb : ℕ → (ℕ → ℕ) → ℕ → Found → Option Found
unfolding parse_dtb_tokens
parse_dtb fuel memory dtb_addr f =
    let addr = if dtb_addr == 0 then 0x40000000 else dtb_addr in
    if word_at memory addr == fdt_magic then parse_dtb_tokens fuel memory addr f else some f
