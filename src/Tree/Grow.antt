-- ===== src/Tree/Grow.antt =====
-- Insertion into the B+ tree, with splits that climb to the root.
use ax_kernel.Prelude.{
  ℕ, zero, suc, ◌+◌, ◌-◌, ◌^◌, ◌%◌, List, true, false, ◌&&◌, Option, none, some, ◌==◌, leb, ltb,
  if◌then◌else◌,
}
use ax_kernel.Hash.{fnv1a_hash_64, djb2_hash_64}
use ax_kernel.Tree.{
  ◌>>=◌, Node, Forest, max_bpt_node_num, cleared, store_node, set_parent, create_node, search_leaf,
}

-- `while (position < data_num && keys[position] < key) position++`, with `n` entries left.
unfoldable pub lower_bound : (ℕ → ℕ) → ℕ → ℕ → ℕ → ℕ
lower_bound keys key zero position = position
lower_bound keys key (suc n) position =
    let rest = lower_bound keys key n (position + 1) in
    if ltb (keys position) key then rest else position

-- The first `n` elements with `x` put in at `position`: those from there on move up by one.
unfoldable pub insert_at {ℓ} : {A : Type ℓ} → (ℕ → A) → ℕ → ℕ → A → ℕ → A
insert_at a n position x i =
    if i == position then x else if ltb position i && leb i n then a (i - 1) else a i

-- The first `count` elements from `source`, the others as they were.
unfoldable pub copy_from {ℓ} : {A : Type ℓ} → (ℕ → A) → (ℕ → A) → ℕ → ℕ → A
copy_from a source count i = if ltb i count then source i else a i

abbrev pub shift {ℓ} : {A : Type ℓ} → (ℕ → A) → ℕ → ℕ → A
shift a by i = a (by + i)

-- A node of three entries and one more, as the code lays them out in arrays of four.
pub record Items : Type 0 where
  pub fnv_keys : ℕ → ℕ
  pub djb_keys : ℕ → ℕ
  pub items : ℕ → ℕ

unfoldable pub with_entry : Node → ℕ → ℕ → ℕ → ℕ → Items
unfolding insert_at
with_entry leaf position fnv_key djb_key value = record {
  fnv_keys = insert_at leaf.fnv1a_hash_key leaf.data_num position fnv_key;
  djb_keys = insert_at leaf.djb2_hash_key leaf.data_num position djb_key;
  items = insert_at leaf.values leaf.data_num position value;
}

-- `count` entries of the arrays from `from` on.
unfoldable pub put_leaf : Node → Items → ℕ → ℕ → Node
unfolding copy_from
put_leaf leaf arrays from count = record leaf {
  is_leaf = true;
  data_num = count;
  fnv1a_hash_key = copy_from leaf.fnv1a_hash_key (shift arrays.fnv_keys from) count;
  djb2_hash_key = copy_from leaf.djb2_hash_key (shift arrays.djb_keys from) count;
  values = copy_from leaf.values (shift arrays.items from) count;
}

-- `set_parent` on the first `n` children; none of them is NULL in a tree.
unfoldable pub adopt : (ℕ → Node) → ℕ → (ℕ → Option ℕ) → ℕ → ℕ → Node
unfolding set_parent
adopt nodes p children zero = nodes
adopt nodes p children (suc n) = elim (children n) [
  | none ↦ adopt nodes p children n
  | some c ↦ set_parent (adopt nodes p children n) c (some p)
]

-- `key_count` keys and one child more, which get node `p` as parent.
unfoldable pub put_inner : (ℕ → Node) → ℕ → (ℕ → ℕ) → (ℕ → Option ℕ) → ℕ → ℕ → Node
unfolding copy_from store_node adopt
put_inner nodes p keys children key_count =
    let n = nodes p in
    let n' = record n {
      is_leaf = false;
      data_num = key_count;
      fnv1a_hash_key = copy_from n.fnv1a_hash_key keys key_count;
      child = copy_from n.child children (key_count + 1);
    } in
    adopt (store_node nodes p n') p children (key_count + 1)

-- The root with one key and two children, which get it as parent.
unfoldable pub put_root : (ℕ → Node) → ℕ → ℕ → ℕ → ℕ → ℕ → Node
unfolding store_node set_parent
put_root nodes root key left right =
    let n = record (cleared false) {
      data_num = 1;
      fnv1a_hash_key = λ i. if i == 0 then key else 0;
      child = λ i. if i == 0 then some left else (if i == 1 then some right else none);
    } in
    set_parent (set_parent (store_node nodes root n) left (some root)) right (some root)

-- `while (index <= data_num && child[index] != left) index++`, with `n` children left.
unfoldable pub child_place : (ℕ → Option ℕ) → ℕ → ℕ → ℕ → ℕ
child_place child left zero index = index
child_place child left (suc n) index =
    let rest = child_place child left n (index + 1) in
    elim (child index) [ none ↦ rest | some c ↦ if c == left then index else rest ]

-- The split of the root into two inner nodes, from the answer of the second `create_node`.
unfoldable pub split_root : ℕ → ℕ → (ℕ → ℕ) → (ℕ → Option ℕ) → Option ℕ × Forest → ℕ × Forest
unfolding put_inner put_root
split_root root right keys children (none, f) = (0, f)
split_root root right keys children (some left, f) =
    let nodes1 = put_inner f.nodes left keys children 2 in
    let nodes2 = put_inner nodes1 right (shift keys 3) (shift children 3) 1 in
    (1, record f { nodes = put_root nodes2 root (keys 2) left right })

-- The children of `parent` with `right` put behind place `i`; those after it move up by one.
unfoldable pub more_children : Node → ℕ → ℕ → ℕ → Option ℕ
more_children parent i right j =
    if leb j i then parent.child j else (if j == i + 1 then some right else parent.child (j - 1))

-- `child_index` is `i`, and `new_key_count` is 4, so `middle` is 2, and one key goes to the right.
unfoldable pub add_parent : ℕ → Forest → ℕ → ℕ → ℕ → ℕ → Option (ℕ × Forest)
unfolding child_place insert_at more_children put_inner split_root create_node
add_parent zero f root left separator right = none
add_parent (suc k) f root left separator right = elim (f.nodes left).parent [
  | none ↦ some (0, f)
  | some p ↦
      let parent = f.nodes p in
      let i = child_place parent.child left (parent.data_num + 1) 0 in
      let keys = insert_at parent.fnv1a_hash_key parent.data_num i separator in
      let children = more_children parent i right in
      let new_key_count = parent.data_num + 1 in
      let (made, f1) = create_node f false in
      if ltb parent.data_num i
      then some (0, f)
      else if ltb new_key_count max_bpt_node_num
      then some (1, record f { nodes = put_inner f.nodes p keys children new_key_count })
      else elim made [
        | none ↦ some (0, f1)
        | some q ↦
            if p == root
            then some (split_root root q keys children (create_node f1 false))
            else elim parent.parent [
              | none ↦ some (0, f1)
              | some g ↦
                  let nodes1 = put_inner f1.nodes p keys children 2 in
                  let nodes2 = put_inner nodes1 q (shift keys 3) (shift children 3) 1 in
                  add_parent k (record f1 { nodes = set_parent nodes2 q (some g) }) root p (keys 2)
                    q
            ]
      ]
]

-- The split of a root that is a leaf, from the answer of the second `create_node`.
unfoldable pub split_root_leaf : ℕ → ℕ → Items → Option ℕ × Forest → ℕ × Forest
unfolding put_leaf store_node put_root
split_root_leaf root right arrays (none, f) = (0, f)
split_root_leaf root right arrays (some left, f) =
    let left_leaf = record (put_leaf (f.nodes left) arrays 0 2) { next = some right } in
    let nodes1 = store_node f.nodes left left_leaf in
    let right_leaf = put_leaf (nodes1 right) arrays 2 2 in
    let nodes2 = store_node nodes1 right right_leaf in
    (1, record f { nodes = put_root nodes2 root (right_leaf.fnv1a_hash_key 0) left right })

-- The split of a full leaf, from the answer of the first `create_node`.
unfoldable pub split_leaf : ℕ → ℕ → ℕ → Items → Option ℕ → Option ℕ × Forest → Option (ℕ × Forest)
unfolding split_root_leaf put_leaf store_node add_parent create_node
split_leaf k root leaf arrays parent (none, f) = some (0, f)
split_leaf k root leaf arrays parent (some right, f) =
    if leaf == root
    then some (split_root_leaf root right arrays (create_node f true))
    else elim parent [
      | none ↦ some (0, f)
      | some p ↦
          let old_next = (f.nodes leaf).next in
          let nodes1 =
            store_node f.nodes leaf
              (record (put_leaf (f.nodes leaf) arrays 0 2) { next = some right }) in
          let right_leaf = record (put_leaf (nodes1 right) arrays 2 2) {
            next = old_next;
            parent = some p;
          } in
          add_parent k (record f { nodes = store_node nodes1 right right_leaf }) root leaf
            (right_leaf.fnv1a_hash_key 0) right
    ]

-- A leaf with room takes the entry.
unfoldable pub leaf_with : Node → Items → Node
leaf_with leaf arrays = record leaf {
  data_num = (leaf.data_num + 1) % 2 ^ 7;
  fnv1a_hash_key = arrays.fnv_keys;
  djb2_hash_key = arrays.djb_keys;
  values = arrays.items;
}

unfoldable pub insert_leaf : ℕ → Forest → ℕ → ℕ → ℕ → ℕ → ℕ → Option (ℕ × Forest)
unfolding lower_bound with_entry leaf_with store_node split_leaf create_node
insert_leaf k f root p fnv_key djb_key value =
    let leaf = f.nodes p in
    let position = lower_bound leaf.fnv1a_hash_key fnv_key leaf.data_num 0 in
    let arrays = with_entry leaf position fnv_key djb_key value in
    if ltb position leaf.data_num && (leaf.fnv1a_hash_key position == fnv_key)
    then some (0, f)
    else if ltb leaf.data_num 3
    then some (1, record f { nodes = store_node f.nodes p (leaf_with leaf arrays) })
    else split_leaf k root p arrays leaf.parent (create_node f true)

-- `fuel` bounds the walk down and the climb of the splits.
unfoldable pub insert_keys : ℕ → Forest → ℕ → ℕ → ℕ → ℕ → Option (ℕ × Forest)
unfolding insert_leaf search_leaf
insert_keys fuel f root fnv_key djb_key value =
    search_leaf fuel f.nodes (some root) fnv_key >>= λ found. elim found [
      | none ↦ some (0, f)
      | some p ↦ insert_leaf fuel f root p fnv_key djb_key value
    ]

-- Neither the root nor the name is NULL.
unfoldable pub bpt_insert : ℕ → Forest → ℕ → List ℕ → ℕ → Option (ℕ × Forest)
unfolding insert_keys
bpt_insert fuel f root name value =
    insert_keys fuel f root (fnv1a_hash_64 name) (djb2_hash_64 name) value
