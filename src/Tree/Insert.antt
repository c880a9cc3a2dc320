-- ===== src/Tree/Insert.antt =====
-- `bpt_insert` into a leaf with room, and its refusal.
use ax_kernel.Prelude.{ℕ, suc, ◌<◌, ◌≡◌, ◌≢◌, true, refl, sym, ap, subst, ◌∙◌, some, List, arith}
use ax_kernel.Prelude.Results.{◌>>=◌}
use ax_kernel.Hash.{fnv1a_hash_64, djb2_hash_64}
use ax_kernel.Tree.{Node, Forest, search_leaf, bpt_search, leaf_value, store_node}
use ax_kernel.Tree.Grow.{
  lower_bound, insert_at, with_entry, leaf_with, insert_leaf, insert_keys, bpt_insert,
}
use ax_kernel.Tree.Leaf.{
  IsSorted, Stops, lower_bound-Stops, IsInserted, Reads-inserted, insert_at-IsSorted, value_of,
}
use ax_kernel.Tree.Walk.{search_leaf-leaf, store_node_self}
use ax_kernel.Tree.Search.{override, search_keys-store}

-- A leaf that can take one more entry for the key `f`.
pub record HasRoom (leaf : Node) (f : ℕ) : Type 0 where
  pub room : leaf.data_num < 3
  pub sorted : IsSorted leaf.fnv1a_hash_key leaf.data_num
  pub absent : (i : ℕ) → i < leaf.data_num → leaf.fnv1a_hash_key i ≢ f

module _ (leaf : Node) (f d v : ℕ) where
  abbrev pub place : ℕ
  place = lower_bound leaf.fnv1a_hash_key f leaf.data_num 0

  abbrev pub bigger : Node
  bigger = leaf_with leaf (with_entry leaf place f d v)

  pub place-Stops : Stops leaf.fnv1a_hash_key f leaf.data_num 0 place
  place-Stops = lower_bound-Stops leaf.fnv1a_hash_key f leaf.data_num 0

  bigger-IsInserted : IsInserted leaf bigger leaf.data_num place f d v
  unfolding leaf_with with_entry
  bigger-IsInserted = record { fnv = λ i. refl; djb = λ i. refl; value = λ i. refl }

  bigger_num : leaf.data_num < 3 → bigger.data_num ≡ suc leaf.data_num
  unfolding leaf_with
  bigger_num h = omega (arith, h)

  bigger-leaf : leaf.is_leaf ≡ true → bigger.is_leaf ≡ true
  unfolding leaf_with
  bigger-leaf h = h

  bigger_reads :
      (f' d' : ℕ)
      → HasRoom leaf f
      → leaf_value bigger f' d' ≡ override f d (some v) f' d' (leaf_value leaf f' d')
  unfolding leaf_value
  bigger_reads f' d' h =
      ap (λ n. value_of bigger n f' d') (bigger_num h.room)
      ∙ Reads-inserted leaf bigger f d v f' d' leaf.data_num place (omega (arith, h.room))
          (omega (arith, place-Stops.0.1)) h.absent bigger-IsInserted

  bigger-IsSorted : HasRoom leaf f → IsSorted bigger.fnv1a_hash_key bigger.data_num
  unfolding leaf_with with_entry
  bigger-IsSorted h =
      subst (IsSorted (insert_at leaf.fnv1a_hash_key leaf.data_num place f))
        (sym (bigger_num h.room))
        (insert_at-IsSorted leaf.fnv1a_hash_key f leaf.data_num place h.sorted place-Stops h.absent)

module _ (k : ℕ) (f : Forest) (root p key djb value : ℕ) where
  insert_keys_step :
      search_leaf k f.nodes (some root) key ≡ some (some p)
      → insert_keys k f root key djb value ≡ insert_leaf k f root p key djb value
  unfolding insert_keys
  insert_keys_step walk = rw walk refl

  insert_leaf_room :
      HasRoom (f.nodes p) key
      → insert_leaf k f root p key djb value
        ≡ some (1, record f { nodes = store_node f.nodes p (bigger (f.nodes p) key djb value) })
  unfolding insert_leaf
  insert_leaf_room h = ground (arith, h.room, h.absent (place (f.nodes p) key djb value))

  insert_leaf_present :
      (i : ℕ)
      → i < (f.nodes p).data_num
      → (f.nodes p).fnv1a_hash_key i ≡ key
      → IsSorted (f.nodes p).fnv1a_hash_key (f.nodes p).data_num
      → insert_leaf k f root p key djb value ≡ some (0, f)
  unfolding insert_leaf
  insert_leaf_present i lt e sorted =
      let r = place (f.nodes p) key djb value in
      let stops = place-Stops (f.nodes p) key djb value in
      ground (arith, stops.0.1, stops.1.0 i, stops.1.1, sorted r i)

-- `name` is not in the tree and the leaf `p` where it belongs has room: `bpt_insert` answers 1, the
-- leaf stays sorted, and afterwards a search for any name gives the value if it has both hashes of
-- `name`, and what it gave before if it has not.
pub bpt_insert_room :
    (k : ℕ) (f : Forest) (root p : ℕ) (name other : List ℕ) (value : ℕ)
    → search_leaf k f.nodes (some root) (fnv1a_hash_64 name) ≡ some (some p)
    → HasRoom (f.nodes p) (fnv1a_hash_64 name)
    → (f' : Forest) × ((bpt_insert k f root name value ≡ some (1, f'))
        × (IsSorted (f'.nodes p).fnv1a_hash_key (f'.nodes p).data_num
            × (bpt_search k f'.nodes root other ≡ (
                bpt_search k f.nodes root other >>= λ v. some (
                  override
                    (fnv1a_hash_64 name)
                    (djb2_hash_64 name)
                    (some value)
                    (fnv1a_hash_64 other)
                    (djb2_hash_64 other)
                    v)))))
unfolding bpt_insert bpt_search
bpt_insert_room k f root p name other value walk h =
    let key : ℕ = fnv1a_hash_64 name in
    let djb : ℕ = djb2_hash_64 name in
    let n : Node = bigger (f.nodes p) key djb value in
    let here : (f.nodes p).is_leaf ≡ true = search_leaf-leaf f.nodes key k (some root) p walk in
    (
      record f { nodes = store_node f.nodes p n },
      (
        insert_keys_step k f root p key djb value walk
            ∙ insert_leaf_room k f root p key djb value h,
        (
          subst (λ m. IsSorted m.fnv1a_hash_key m.data_num)
              (sym (store_node_self f.nodes p n p (ground arith)))
              (bigger-IsSorted (f.nodes p) key djb value h),
          search_keys-store f.nodes p n key djb (some value) (fnv1a_hash_64 other)
              (djb2_hash_64 other) k root walk (bigger-leaf (f.nodes p) key djb value here)
              (bigger_reads (f.nodes p) key djb value (fnv1a_hash_64 other) (djb2_hash_64 other) h),
        ),
      ),
    )

-- A name whose FNV hash is that of an entry of the sorted leaf where it belongs is refused, whatever
-- its djb2 hash, and nothing changes.
pub bpt_insert_present :
    (k : ℕ) (f : Forest) (root p i : ℕ) (name : List ℕ) (value : ℕ)
    → search_leaf k f.nodes (some root) (fnv1a_hash_64 name) ≡ some (some p)
    → IsSorted (f.nodes p).fnv1a_hash_key (f.nodes p).data_num
    → i < (f.nodes p).data_num
    → (f.nodes p).fnv1a_hash_key i ≡ fnv1a_hash_64 name
    → bpt_insert k f root name value ≡ some (0, f)
unfolding bpt_insert
bpt_insert_present k f root p i name value walk sorted lt e =
    insert_keys_step k f root p (fnv1a_hash_64 name) (djb2_hash_64 name) value walk
    ∙ insert_leaf_present k f root p (fnv1a_hash_64 name) (djb2_hash_64 name) value i lt e sorted
