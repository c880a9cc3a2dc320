-- ===== src/Tree/Shrink.antt =====
-- Deletion from the B+ tree: a short node borrows from a sibling or is merged with one, up to the root.
pub mod Inner
use ax_kernel.Prelude.{
  ℕ, zero, suc, ◌+◌, ◌-◌, ◌^◌, ◌%◌, List, Bool, true, false, ◌&&◌, ◌||◌, not, Option, none, some,
  ◌==◌, leb, ltb, if◌then◌else◌,
}
use ax_kernel.Prelude.Results.{◌>>=◌}
use ax_kernel.Heap.{heap_free}
use ax_kernel.Hash.{fnv1a_hash_64, djb2_hash_64}
use ax_kernel.Tree.{Node, Forest, store_node, search_leaf, entry_index}
use ax_kernel.Tree.Shrink.Inner.{
  fix_up, child_idx, sibling_left, sibling_right, drop_child, more, fewer, balance_inner,
}

-- One entry moved within or between leaves.
unfoldable pub move_entries : Node → ℕ → (ℕ → ℕ) → (ℕ → ℕ) → (ℕ → ℕ) → Node
move_entries leaf data_num fnv djb items = record leaf {
  data_num = data_num;
  fnv1a_hash_key = fnv;
  djb2_hash_key = djb;
  values = items;
}

-- All elements up by one, and `x` in front.
unfoldable pub push_front {ℓ} : {A : Type ℓ} → (ℕ → A) → ℕ → A → ℕ → A
push_front a n x i = if i == 0 then x else (if leb i n then a (i - 1) else a i)

-- `x` behind the first `n` elements.
unfoldable pub push_back {ℓ} : {A : Type ℓ} → (ℕ → A) → ℕ → A → ℕ → A
push_back a n x i = if i == n then x else a i

-- The element at `position` of `n` taken out: those behind it move down by one.
unfoldable pub remove_at {ℓ} : {A : Type ℓ} → (ℕ → A) → ℕ → ℕ → ℕ → A
remove_at a n position i = if leb position i && ltb i (n - 1) then a (i + 1) else a i

-- The first `m` elements of `b` behind the first `n` of `a`.
unfoldable pub concat_at {ℓ} : {A : Type ℓ} → (ℕ → A) → (ℕ → A) → ℕ → ℕ → ℕ → A
concat_at a b n m i = if leb n i && ltb i (n + m) then b (i - n) else a i

-- The last entry of `left` goes to the front of `leaf`.
unfoldable pub take_last : (ℕ → Node) → ℕ → ℕ → ℕ → Node
unfolding store_node move_entries push_front
take_last nodes leaf left =
    let n = nodes leaf in
    let l = nodes left in
    let last = l.data_num - 1 in
    store_node
      (store_node nodes leaf (
        move_entries n (more n.data_num)
          (push_front n.fnv1a_hash_key n.data_num (l.fnv1a_hash_key last))
          (push_front n.djb2_hash_key n.data_num (l.djb2_hash_key last))
          (push_front n.values n.data_num (l.values last))))
      left (record l { data_num = fewer l.data_num })

-- The first entry of `right` goes to the end of `leaf`.
unfoldable pub take_first : (ℕ → Node) → ℕ → ℕ → ℕ → Node
unfolding store_node move_entries push_back remove_at
take_first nodes leaf right =
    let n = nodes leaf in
    let r = nodes right in
    store_node
      (store_node nodes leaf (
        move_entries n (more n.data_num)
          (push_back n.fnv1a_hash_key n.data_num (r.fnv1a_hash_key 0))
          (push_back n.djb2_hash_key n.data_num (r.djb2_hash_key 0))
          (push_back n.values n.data_num (r.values 0))))
      right
      (move_entries r (fewer r.data_num) (remove_at r.fnv1a_hash_key r.data_num 0)
        (remove_at r.djb2_hash_key r.data_num 0) (remove_at r.values r.data_num 0))

-- Leaf `a` takes the entries of its successor `b`.
unfoldable pub merge_leaves : (ℕ → Node) → ℕ → ℕ → ℕ → Node
unfolding store_node move_entries concat_at
merge_leaves nodes a b =
    let m = nodes a in
    let n = nodes b in
    let merged =
      move_entries m ((m.data_num + n.data_num) % 2 ^ 7)
        (concat_at m.fnv1a_hash_key n.fnv1a_hash_key m.data_num n.data_num)
        (concat_at m.djb2_hash_key n.djb2_hash_key m.data_num n.data_num)
        (concat_at m.values n.values m.data_num n.data_num) in
    store_node nodes a (record merged { next = n.next })

-- `b` is merged into `a` and freed, and the parent loses child `i`.
unfoldable pub merge_leaf_pair : ℕ → Forest → ℕ → ℕ → ℕ → ℕ → ℕ → Option Forest
unfolding merge_leaves drop_child balance_inner
merge_leaf_pair k f root a b parent i =
    balance_inner k
      (record {
        heap = heap_free f.heap (some b);
        nodes = drop_child (merge_leaves f.nodes a b) parent i;
      })
      root parent

-- The cases of `balance_leaf` for a short leaf at place `i` of its parent.
unfoldable pub mend_leaf : ℕ → Forest → ℕ → ℕ → ℕ → ℕ → Option ℕ → Option ℕ → Option Forest
unfolding take_last take_first merge_leaf_pair fix_up
mend_leaf k f root leaf parent i left right =
    let merge_right : Option Forest = elim right [
      | none ↦ some f
      | some r ↦ merge_leaf_pair k f root leaf r parent (i + 1)
    ] in
    let merge : Option Forest = elim left [
      | none ↦ merge_right
      | some l ↦ merge_leaf_pair k f root l leaf parent i
    ] in
    let fixed = λ (nodes : ℕ → Node).
      fix_up k k nodes (some parent) >>= λ nodes'. some (record f { nodes = nodes' }) in
    let from_right : Option Forest = elim right [
      | none ↦ merge
      | some r ↦ if ltb 2 (f.nodes r).data_num then fixed (take_first f.nodes leaf r) else merge
    ] in
    elim left [
      | none ↦ from_right
      | some l ↦ if ltb 2 (f.nodes l).data_num then fixed (take_last f.nodes leaf l) else from_right
    ]

unfoldable pub balance_leaf : ℕ → Forest → ℕ → ℕ → Option Forest
unfolding fix_up child_idx sibling_left sibling_right mend_leaf
balance_leaf k f root leaf =
    let n = f.nodes leaf in
    if leaf == root then some f else elim n.parent [
      | none ↦ some f
      | some p ↦
          let fixed = fix_up k k f.nodes (some p) >>= λ nodes. some (record f { nodes = nodes }) in
          let mended : Option Forest = elim (child_idx f.nodes p leaf) [
            | none ↦ some f
            | some i ↦
                mend_leaf k f root leaf p i (sibling_left f.nodes p i) (sibling_right f.nodes p i)
          ] in
          if leb 2 n.data_num then fixed else mended
    ]

-- The leaf without entry `position`.
unfoldable pub without_entry : Node → ℕ → Node
unfolding move_entries remove_at
without_entry leaf position =
    move_entries leaf (fewer leaf.data_num) (remove_at leaf.fnv1a_hash_key leaf.data_num position)
      (remove_at leaf.djb2_hash_key leaf.data_num position)
      (remove_at leaf.values leaf.data_num position)

unfoldable pub delete_entry : ℕ → Forest → ℕ → ℕ → Option ℕ → Option (ℕ × Forest)
unfolding without_entry store_node balance_leaf
delete_entry k f root p none = some (0, f)
delete_entry k f root p (some position) =
    balance_leaf k (record f { nodes = store_node f.nodes p (without_entry (f.nodes p) position) })
      root p
    >>= λ f'. some (1, f')

unfoldable pub delete_keys : ℕ → Forest → ℕ → ℕ → ℕ → Option (ℕ × Forest)
unfolding search_leaf entry_index delete_entry
delete_keys k f root fnv_key djb_key = search_leaf k f.nodes (some root) fnv_key >>= λ found.
    elim found [
      | none ↦ some (0, f)
      | some p ↦
          delete_entry k f root p (entry_index (f.nodes p) fnv_key djb_key (f.nodes p).data_num 0)
    ]

-- Neither the root nor the name is NULL.
unfoldable pub bpt_delete : ℕ → Forest → ℕ → List ℕ → Option (ℕ × Forest)
unfolding delete_keys
bpt_delete k f root name = delete_keys k f root (fnv1a_hash_64 name) (djb2_hash_64 name)
