-- ===== src/Tree.antt =====
-- The B+ tree of src/tools/fs.c and include/tools/_fs.h: nodes of at most three entries in the kernel
-- heap, keyed by the FNV hash of a name, checked by its djb2 hash.
-- A node pointer is an address, `none` is NULL; `nodes` is the memory seen as nodes. The arrays of a
-- node are functions of the index. A walk over nodes runs on fuel, and its result is `none` when the
-- fuel is used up, or when the code follows a NULL without a test.
pub mod Grow
pub mod Shrink
pub mod Walk
pub mod Leaf
pub mod Search
pub mod Insert
pub mod Split
pub mod Delete
mod Tests
use ax_kernel.Prelude.{
  ℕ, zero, suc, ◌+◌, ◌*◌, ◌^◌, ◌%◌, List, Bool, true, false, ◌&&◌, Option, none, some, ◌==◌, leb,
  ltb, if◌then◌else◌,
}
use ax_kernel.Prelude.Results.{◌>>=◌}
use ax_kernel.Heap.{Heap, heap_alloc}
use ax_kernel.Hash.{fnv1a_hash_64, djb2_hash_64}

abbrev pub max_bpt_node_num : ℕ
max_bpt_node_num = 4

pub record Node : Type 0 where
  pub data_num : ℕ
  pub is_leaf : Bool
  pub fnv1a_hash_key : ℕ → ℕ
  pub djb2_hash_key : ℕ → ℕ
  pub values : ℕ → ℕ
  pub parent : Option ℕ
  pub child : ℕ → Option ℕ
  pub next : Option ℕ

pub record Forest : Type 0 where
  pub heap : Heap
  pub nodes : ℕ → Node

-- `sizeof(bpt_node)`.
abbrev pub node_size : ℕ
node_size = 112

-- What `clear` leaves, with the leaf bit set afterwards.
abbrev pub cleared : Bool → Node
cleared leaf = record {
  data_num = 0;
  is_leaf = leaf;
  fnv1a_hash_key = λ i. 0;
  djb2_hash_key = λ i. 0;
  values = λ i. 0;
  parent = none;
  child = λ i. none;
  next = none;
}

unfoldable pub store_node : (ℕ → Node) → ℕ → Node → ℕ → Node
store_node nodes p n a = if a == p then n else nodes a

unfoldable pub set_parent : (ℕ → Node) → ℕ → Option ℕ → ℕ → Node
unfolding store_node
set_parent nodes p parent = store_node nodes p (record (nodes p) { parent = parent })

unfoldable pub create_node : Forest → Bool → Option ℕ × Forest
unfolding store_node
create_node f leaf =
    let (p, heap') = heap_alloc f.heap node_size in
    elim p [
      | none ↦ (none, record f { heap = heap' })
      | some a ↦ (some a, record { heap = heap'; nodes = store_node f.nodes a (cleared leaf) })
    ]

-- `while (index < data_num && key >= keys[index]) index++`, with `n` entries left.
unfoldable pub child_index : (ℕ → ℕ) → ℕ → ℕ → ℕ → ℕ
child_index keys key zero index = index
child_index keys key (suc n) index =
    let rest = child_index keys key n (index + 1) in if leb (keys index) key then rest else index

-- The leaf where `key` belongs; NULL below a missing child. An inner node is left by one step of fuel.
unfoldable pub search_leaf : ℕ → (ℕ → Node) → Option ℕ → ℕ → Option (Option ℕ)
unfolding child_index
search_leaf zero nodes p key = none
search_leaf (suc k) nodes none key = some none
search_leaf (suc k) nodes (some p) key =
    let n = nodes p in
    let index = child_index n.fnv1a_hash_key key n.data_num 0 in
    let rest = search_leaf k nodes (n.child index) key in if n.is_leaf then some (some p) else rest

-- The loop of `bpt_search` over the `n` entries from `index` on.
unfoldable pub entry_index : Node → ℕ → ℕ → ℕ → ℕ → Option ℕ
entry_index leaf fnv_key djb_key zero index = none
entry_index leaf fnv_key djb_key (suc n) index =
    let rest = entry_index leaf fnv_key djb_key n (index + 1) in
    if (leaf.fnv1a_hash_key index == fnv_key) && (leaf.djb2_hash_key index == djb_key)
    then some index
    else rest

-- The value that the pointer which the code returns points to.
unfoldable pub leaf_value : Node → ℕ → ℕ → Option ℕ
unfolding entry_index
leaf_value leaf fnv_key djb_key =
    entry_index leaf fnv_key djb_key leaf.data_num 0 >>= λ index. some (leaf.values index)

unfoldable pub value_at : (ℕ → Node) → Option ℕ → ℕ → ℕ → Option ℕ
unfolding leaf_value
value_at nodes none fnv_key djb_key = none
value_at nodes (some p) fnv_key djb_key = leaf_value (nodes p) fnv_key djb_key

unfoldable pub search_keys : ℕ → (ℕ → Node) → ℕ → ℕ → ℕ → Option (Option ℕ)
unfolding search_leaf value_at
search_keys k nodes root fnv_key djb_key =
    search_leaf k nodes (some root) fnv_key >>= λ leaf. some (value_at nodes leaf fnv_key djb_key)

-- Neither the root nor the name is NULL.
unfoldable pub bpt_search : ℕ → (ℕ → Node) → ℕ → List ℕ → Option (Option ℕ)
unfolding search_keys
bpt_search k nodes root name = search_keys k nodes root (fnv1a_hash_64 name) (djb2_hash_64 name)
