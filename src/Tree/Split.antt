-- ===== src/Tree/Split.antt =====
-- `bpt_insert` into a full root that is a leaf: the split into two leaves below a new root.
use ax_kernel.Tree.Insert.{place, place-Stops}
use ax_kernel.Tree.Search.{override}
use ax_kernel.Hash.{fnv1a_hash_64, djb2_hash_64}
use ax_kernel.Prelude.{
  List, sym, subst, ◌≢◌, ℕ, suc, ◌+◌, ◌<◌, ◌≡◌, leb, if◌then◌else◌, true, false, refl, ap, ◌∙◌,
  some, arith,
}
use ax_kernel.Prelude.Results.{◌>>=◌}
use ax_kernel.Tree.{
  create_node, bpt_search, Forest, set_parent, store_node, Node, search_leaf, search_keys,
  leaf_value, value_at, child_index,
}
use ax_kernel.Tree.Grow.{
  split_root_leaf, split_leaf, insert_leaf, insert_keys, bpt_insert, insert_at, put_root,
  with_entry, Items, put_leaf, copy_from,
}
use ax_kernel.Tree.Leaf.{Reads-inserted, insert_at-IsSorted, IsInserted, Stops, IsSorted, value_of}
use ax_kernel.Tree.Walk.{at_leaf, at_inner}

-- The entries of a full leaf and one more, as one node of four.
abbrev four : Node → Items → Node
four leaf arrays = record leaf {
  fnv1a_hash_key = arrays.fnv_keys;
  djb2_hash_key = arrays.djb_keys;
  values = arrays.items;
}

-- Node `part` has the two entries of `whole` from `from` on.
record IsHalf (whole part : Node) (from : ℕ) : Type 0 where
  num : part.data_num ≡ 2
  fnv : (i : ℕ) → i < 2 → part.fnv1a_hash_key i ≡ whole.fnv1a_hash_key (from + i)
  djb : (i : ℕ) → i < 2 → part.djb2_hash_key i ≡ whole.djb2_hash_key (from + i)
  value : (i : ℕ) → i < 2 → part.values i ≡ whole.values (from + i)

put_leaf-IsHalf :
    (whole leaf : Node) (arrays : Items) (from : ℕ)
    → (old : Node) → IsHalf (four whole arrays) (put_leaf old arrays from 2) from
unfolding put_leaf copy_from
put_leaf-IsHalf whole leaf arrays from old = record {
  num = refl;
  fnv = λ i lt. ground (arith, lt);
  djb = λ i lt. ground (arith, lt);
  value = λ i lt. ground (arith, lt);
}

-- Four entries in order are read in the half that the third key decides.
halves_read :
    (whole left right : Node) (f d : ℕ)
    → IsSorted whole.fnv1a_hash_key 4
    → IsHalf whole left 0
    → IsHalf whole right 2
    → (if leb (whole.fnv1a_hash_key 2) f then leaf_value right f d else leaf_value left f d)
      ≡ value_of whole 4 f d
unfolding leaf_value
halves_read whole left right f d sorted l r =
    rw (l.num, r.num)
      (ground (
        arith,
        sorted 0 1,
        sorted 1 2,
        sorted 2 3,
        l.fnv 0,
        l.fnv 1,
        l.djb 0,
        l.djb 1,
        l.value 0,
        l.value 1,
        r.fnv 0,
        r.fnv 1,
        r.djb 0,
        r.djb 1,
        r.value 0,
        r.value 1,
      ))

-- A root with one key and two leaves below.
record IsSplit (nodes : ℕ → Node) (root key left right : ℕ) : Type 0 where
  inner : (nodes root).is_leaf ≡ false
  num : (nodes root).data_num ≡ 1
  first : (nodes root).fnv1a_hash_key 0 ≡ key
  child_left : (nodes root).child 0 ≡ some left
  child_right : (nodes root).child 1 ≡ some right
  leaf_left : (nodes left).is_leaf ≡ true
  leaf_right : (nodes right).is_leaf ≡ true

one_key :
    (keys : ℕ → ℕ) (f key : ℕ)
    → keys 0 ≡ key
    → child_index keys f 1 0 ≡ (if leb key f then 1 else 0)
unfolding child_index
one_key keys f key e = ground (arith, e)

module _ (nodes : ℕ → Node) (root key left right f : ℕ)
    (h : IsSplit nodes root key left right) where
  way_split :
      (nodes root).child (child_index (nodes root).fnv1a_hash_key f (nodes root).data_num 0)
      ≡ some (if leb key f then right else left)
  way_split =
      ap (λ n. (nodes root).child (child_index (nodes root).fnv1a_hash_key f n 0)) h.num
      ∙ (ap (nodes root).child (one_key (nodes root).fnv1a_hash_key f key h.first)
          ∙ ground (arith, h.child_left, h.child_right))

  leaf_split : (nodes (if leb key f then right else left)).is_leaf ≡ true
  leaf_split = ground (arith, h.leaf_left, h.leaf_right)

  search_split :
      (k d : ℕ)
      → search_keys (suc (suc k)) nodes root f d
        ≡ some (if leb key f then leaf_value (nodes right) f d else leaf_value (nodes left) f d)
  unfolding search_keys value_at
  search_split k d =
      let walk : search_leaf (suc (suc k)) nodes (some root) f
          ≡ some (some (if leb key f then right else left)) =
        at_inner nodes f (suc k) root h.inner
        ∙ (ap (λ c. search_leaf (suc k) nodes c f) way_split
            ∙ at_leaf nodes f k (if leb key f then right else left) leaf_split) in
      ap (λ w. w >>= λ l. some (value_at nodes l f d)) walk ∙ ground arith

-- The nodes after `split_root_leaf`.
abbrev after_split : (ℕ → Node) → ℕ → ℕ → ℕ → Items → ℕ → Node
after_split nodes root left right arrays =
    let left_leaf = record (put_leaf (nodes left) arrays 0 2) { next = some right } in
    let nodes1 = store_node nodes left left_leaf in
    let right_leaf = put_leaf (nodes1 right) arrays 2 2 in
    put_root (store_node nodes1 right right_leaf) root (right_leaf.fnv1a_hash_key 0) left right

module _ (nodes : ℕ → Node) (root left right : ℕ) (arrays : Items)
    (apart : (left ≢ right) × ((root ≢ left) × (root ≢ right))) where
  after : ℕ → Node
  after = after_split nodes root left right arrays

  after-left :
      after left
      ≡ record (put_leaf (nodes left) arrays 0 2) { next = some right; parent = some root }
  unfolding after put_root set_parent store_node
  after-left = ground (arith, apart)

  after-right : after right ≡ record (put_leaf (nodes right) arrays 2 2) { parent = some root }
  unfolding after put_root set_parent store_node
  after-right = ground (arith, apart)

  after-IsSplit : IsSplit after root (arrays.fnv_keys 2) left right
  unfolding after put_root set_parent store_node put_leaf copy_from
  after-IsSplit = record {
    inner = ground (arith, apart);
    num = ground (arith, apart);
    first = ground (arith, apart);
    child_left = ground (arith, apart);
    child_right = ground (arith, apart);
    leaf_left = ground (arith, apart);
    leaf_right = ground (arith, apart);
  }

  IsHalf-left : (whole : Node) → IsHalf (four whole arrays) (after left) 0
  IsHalf-left whole =
      let h = put_leaf-IsHalf whole whole arrays 0 (nodes left) in
      subst (λ n. IsHalf (four whole arrays) n 0) (sym after-left)
        (record { num = h.num; fnv = h.fnv; djb = h.djb; value = h.value })

  IsHalf-right : (whole : Node) → IsHalf (four whole arrays) (after right) 2
  IsHalf-right whole =
      let h = put_leaf-IsHalf whole whole arrays 2 (nodes right) in
      subst (λ n. IsHalf (four whole arrays) n 2) (sym after-right)
        (record { num = h.num; fnv = h.fnv; djb = h.djb; value = h.value })

-- A full leaf, in order, without the key `f`.
pub record IsFull (leaf : Node) (f : ℕ) : Type 0 where
  pub mark : leaf.is_leaf ≡ true
  pub full : leaf.data_num ≡ 3
  pub sorted : IsSorted leaf.fnv1a_hash_key 3
  pub absent : (i : ℕ) → i < 3 → leaf.fnv1a_hash_key i ≢ f

module _ (leaf : Node) (f d v : ℕ) (h : IsFull leaf f) where
  spot : Stops leaf.fnv1a_hash_key f 3 0 (place leaf f d v)
  spot =
      subst (λ n. Stops leaf.fnv1a_hash_key f n 0 (place leaf f d v)) h.full
        (place-Stops leaf f d v)

  entries : Items
  entries = with_entry leaf (place leaf f d v) f d v

  four-IsInserted : IsInserted leaf (four leaf entries) 3 (place leaf f d v) f d v
  unfolding entries with_entry
  four-IsInserted = record {
    fnv = λ i. ap (λ n. insert_at leaf.fnv1a_hash_key n (place leaf f d v) f i) h.full;
    djb = λ i. ap (λ n. insert_at leaf.djb2_hash_key n (place leaf f d v) d i) h.full;
    value = λ i. ap (λ n. insert_at leaf.values n (place leaf f d v) v i) h.full;
  }

  four-IsSorted : IsSorted (four leaf entries).fnv1a_hash_key 4
  unfolding entries with_entry
  four-IsSorted =
      subst (λ n. IsSorted (insert_at leaf.fnv1a_hash_key n (place leaf f d v) f) 4) (sym h.full)
        (insert_at-IsSorted leaf.fnv1a_hash_key f 3 (place leaf f d v) h.sorted spot h.absent)

  four_read :
      (f' d' : ℕ)
      → value_of (four leaf entries) 4 f' d' ≡ override f d (some v) f' d' (value_of leaf 3 f' d')
  four_read f' d' =
      Reads-inserted leaf (four leaf entries) f d v f' d' 3 (place leaf f d v) (omega arith)
        (omega (arith, spot.0.1)) h.absent four-IsInserted

module _ (k : ℕ) (f f1 f2 : Forest) (root left right key djb value : ℕ) where
  insert_leaf_full :
      (h : IsFull (f.nodes root) key)
      → create_node f true ≡ (some right, f1)
      → create_node f1 true ≡ (some left, f2)
      → insert_leaf k f root root key djb value
        ≡ some (
          1,
          record f2 {
            nodes = after_split f2.nodes root left right (entries (f.nodes root) key djb value h);
          },
        )
  unfolding insert_leaf split_leaf split_root_leaf entries
  insert_leaf_full h e1 e2 =
      rw (e1, e2) (ground (arith, h.full, h.absent (place (f.nodes root) key djb value)))

  insert_keys_full :
      (h : IsFull (f.nodes root) key)
      → insert_keys (suc k) f root key djb value ≡ insert_leaf (suc k) f root root key djb value
  unfolding insert_keys
  insert_keys_full h = rw (at_leaf f.nodes key k root h.mark) refl

search_full :
    (k : ℕ) (nodes : ℕ → Node) (root key f d : ℕ)
    → IsFull (nodes root) key
    → search_keys (suc k) nodes root f d ≡ some (value_of (nodes root) 3 f d)
unfolding search_keys value_at leaf_value
search_full k nodes root key f d h = rw (at_leaf nodes f k root h.mark, h.full) refl

-- The root is a leaf of three entries in order without the key of `name`, and the heap gives two nodes
-- apart from the root and from each other: `bpt_insert` answers 1, and afterwards a search for any name
-- gives the value if it has both hashes of `name`, and what it gave before if it has not.
pub bpt_insert_split :
    (k : ℕ) (f f1 f2 : Forest) (root left right : ℕ) (name other : List ℕ) (value : ℕ)
    → IsFull (f.nodes root) (fnv1a_hash_64 name)
    → create_node f true ≡ (some right, f1)
    → create_node f1 true ≡ (some left, f2)
    → (left ≢ right) × ((root ≢ left) × (root ≢ right))
    → (f' : Forest) × ((bpt_insert (suc (suc k)) f root name value ≡ some (1, f'))
        × (bpt_search (suc (suc k)) f'.nodes root other ≡ (
            bpt_search (suc (suc k)) f.nodes root other >>= λ v. some (
              override
                (fnv1a_hash_64 name)
                (djb2_hash_64 name)
                (some value)
                (fnv1a_hash_64 other)
                (djb2_hash_64 other)
                v))))
unfolding bpt_insert bpt_search
bpt_insert_split k f f1 f2 root left right name other value h e1 e2 apart =
    let key : ℕ = fnv1a_hash_64 name in
    let djb : ℕ = djb2_hash_64 name in
    let key2 : ℕ = fnv1a_hash_64 other in
    let djb2 : ℕ = djb2_hash_64 other in
    let leaf : Node = f.nodes root in
    let arrays : Items = entries leaf key djb value h in
    let nodes : ℕ → Node = after f2.nodes root left right arrays apart in
    (
      record f2 { nodes = nodes },
      (
        insert_keys_full (suc k) f f1 f2 root left right key djb value h
            ∙ (insert_leaf_full (suc (suc k)) f f1 f2 root left right key djb value h e1 e2
                ∙ unfold after in refl),
        search_split nodes root (arrays.fnv_keys 2) left right key2
              (after-IsSplit f2.nodes root left right arrays apart) k djb2
            ∙ (ap some (
                  halves_read (four leaf arrays) (nodes left) (nodes right) key2 djb2
                    (four-IsSorted leaf key djb value h)
                    (IsHalf-left f2.nodes root left right arrays apart leaf)
                    (IsHalf-right f2.nodes root left right arrays apart leaf)
                  ∙ four_read leaf key djb value h key2 djb2)
                ∙ sym (
                    ap (λ w. w >>= λ v. some (override key djb (some value) key2 djb2 v))
                      (search_full (suc k) f.nodes root key key2 djb2 h))),
      ),
    )
