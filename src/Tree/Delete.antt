-- ===== src/Tree/Delete.antt =====
-- `bpt_delete` while the root is a leaf.
use ax_kernel.Prelude.{
  zero, ◌⊎◌, inl, inr, Option-cases, ℕ, suc, ◌+◌, ◌-◌, ◌≤◌, ◌<◌, ◌≡◌, ◌&&◌, ◌==◌, true, refl, sym,
  ap, subst, ◌∙◌, none, some, List, arith,
}
use ax_kernel.Prelude.Results.{Every, Every-none, Every-some, Every-if, ◌>>=◌}
use ax_kernel.Hash.{fnv1a_hash_64, djb2_hash_64}
use ax_kernel.Tree.{
  value_at, Node, Forest, search_leaf, search_keys, bpt_search, leaf_value, store_node, entry_index,
}
use ax_kernel.Tree.Shrink.{
  without_entry, delete_entry, delete_keys, bpt_delete, balance_leaf, remove_at, move_entries,
}
use ax_kernel.Tree.Leaf.{IsSorted, IsRemoved, Forgets-removed, value_of}
use ax_kernel.Tree.Search.{override, search_keys-store}

-- What the search for an entry finds.
entry_index-Found :
    (leaf : Node) (f d n i : ℕ)
    → Every
        (λ j. ((i ≤ j) × (j < i + n)) × ((leaf.fnv1a_hash_key j ≡ f) × (leaf.djb2_hash_key j ≡ d)))
        (entry_index leaf f d n i)
unfolding entry_index
entry_index-Found leaf f d zero i = Every-none _
entry_index-Found leaf f d (suc n) i =
    Every-if _ ((leaf.fnv1a_hash_key i == f) && (leaf.djb2_hash_key i == d))
      (λ e. Every-some _ i ((omega arith, omega arith), ground (arith, e)))
      (λ e j hit.
        let rest = entry_index-Found leaf f d n (i + 1) j hit in
        ((omega (arith, rest.0.0), omega (arith, rest.0.1)), rest.1))

-- A leaf of at most three entries in order.
pub record IsLeaf (leaf : Node) : Type 0 where
  pub mark : leaf.is_leaf ≡ true
  pub few : leaf.data_num ≤ 3
  pub sorted : IsSorted leaf.fnv1a_hash_key leaf.data_num

module _ (leaf : Node) (f d : ℕ) where
  without_entry-IsRemoved :
      (n pos : ℕ) → leaf.data_num ≡ n → IsRemoved leaf (without_entry leaf pos) n pos
  unfolding without_entry move_entries
  without_entry-IsRemoved n pos e = record {
    fnv = λ i. ap (λ m. remove_at leaf.fnv1a_hash_key m pos i) e;
    djb = λ i. ap (λ m. remove_at leaf.djb2_hash_key m pos i) e;
    value = λ i. ap (λ m. remove_at leaf.values m pos i) e;
  }

  without_entry_num :
      (n pos : ℕ) → n < 3 → leaf.data_num ≡ suc n → (without_entry leaf pos).data_num ≡ n
  unfolding without_entry move_entries
  without_entry_num n pos lt e = omega (arith, lt, e)

  without_entry-leaf : (pos : ℕ) → leaf.is_leaf ≡ true → (without_entry leaf pos).is_leaf ≡ true
  unfolding without_entry move_entries
  without_entry-leaf pos h = h

  without_entry_reads :
      (n pos f' d' : ℕ)
      → IsLeaf leaf
      → leaf.data_num ≡ suc n
      → entry_index leaf f d leaf.data_num 0 ≡ some pos
      → leaf_value (without_entry leaf pos) f' d' ≡ override f d none f' d' (leaf_value leaf f' d')
  unfolding leaf_value
  without_entry_reads n pos f' d' ok num hit =
      let found = entry_index-Found leaf f d leaf.data_num 0 pos hit in
      let small : n < 3 = omega (arith, ok.few, num) in
      ap (λ m. value_of (without_entry leaf pos) m f' d') (without_entry_num n pos small num)
      ∙ (Forgets-removed leaf (without_entry leaf pos) f d f' d' n pos small
            (omega (arith, found.0.1, num)) found.1
            (subst (IsSorted leaf.fnv1a_hash_key) num ok.sorted)
            (without_entry-IsRemoved (suc n) pos num)
          ∙ ap (λ m. override f d none f' d' (value_of leaf m f' d')) (sym num))

module _ (k : ℕ) (f : Forest) (root key djb : ℕ) where
  walk_root :
      (f.nodes root).is_leaf ≡ true → search_leaf (suc k) f.nodes (some root) key ≡ some (some root)
  unfolding search_leaf
  walk_root h = rw h refl

  delete_keys-none :
      (f.nodes root).is_leaf ≡ true
      → entry_index (f.nodes root) key djb (f.nodes root).data_num 0 ≡ none
      → delete_keys (suc k) f root key djb ≡ some (0, f)
  unfolding delete_keys delete_entry
  delete_keys-none h e = rw (walk_root h, e) refl

  delete_keys-some :
      (pos : ℕ)
      → (f.nodes root).is_leaf ≡ true
      → entry_index (f.nodes root) key djb (f.nodes root).data_num 0 ≡ some pos
      → delete_keys (suc k) f root key djb
        ≡ some (1, record f { nodes = store_node f.nodes root (without_entry (f.nodes root) pos) })
  unfolding delete_keys delete_entry balance_leaf
  delete_keys-some pos h e = rw (walk_root h, e) (ground arith)

module _ (k : ℕ) (f : Forest) (root key djb : ℕ) where
  search_root_none :
      (f.nodes root).is_leaf ≡ true
      → entry_index (f.nodes root) key djb (f.nodes root).data_num 0 ≡ none
      → search_keys (suc k) f.nodes root key djb ≡ some none
  unfolding search_keys value_at leaf_value
  search_root_none h e = rw (walk_root k f root key djb h, e) refl

  search_root_some :
      (pos : ℕ)
      → (f.nodes root).is_leaf ≡ true
      → entry_index (f.nodes root) key djb (f.nodes root).data_num 0 ≡ some pos
      → search_keys (suc k) f.nodes root key djb ≡ some (some ((f.nodes root).values pos))
  unfolding search_keys value_at leaf_value
  search_root_some pos h e = rw (walk_root k f root key djb h, e) refl

-- The root is a leaf. Either a search for `name` finds nothing, `bpt_delete` answers 0 and nothing
-- changes; or the search finds a value, `bpt_delete` answers 1, and afterwards a search for any name
-- finds nothing if it has both hashes of `name`, and what it found before if it has not.
pub bpt_delete_root :
    (k : ℕ) (f : Forest) (root : ℕ) (name other : List ℕ)
    → IsLeaf (f.nodes root)
    → ((bpt_search (suc k) f.nodes root name ≡ some none)
        × (bpt_delete (suc k) f root name ≡ some (0, f)))
      ⊎ ((v : ℕ) × ((f' : Forest) × ((bpt_search (suc k) f.nodes root name ≡ some (some v))
              × ((bpt_delete (suc k) f root name ≡ some (1, f'))
                  × (bpt_search (suc k) f'.nodes root other ≡ (
                      bpt_search (suc k) f.nodes root other >>= λ v. some (
                        override
                          (fnv1a_hash_64 name)
                          (djb2_hash_64 name)
                          none
                          (fnv1a_hash_64 other)
                          (djb2_hash_64 other)
                          v)))))))
unfolding bpt_delete bpt_search
bpt_delete_root k f root name other ok =
    let key : ℕ = fnv1a_hash_64 name in
    let djb : ℕ = djb2_hash_64 name in
    let leaf : Node = f.nodes root in
    elim (Option-cases (entry_index leaf key djb leaf.data_num 0)) [
      | inl miss ↦ inl (
        search_root_none k f root key djb ok.mark miss,
        delete_keys-none k f root key djb ok.mark miss,
      )
      | inr (pos, hit) ↦
          let found = entry_index-Found leaf key djb leaf.data_num 0 pos hit in
          let num : leaf.data_num ≡ suc (leaf.data_num - 1) = omega (arith, found.0.1) in
          inr (
            leaf.values pos,
            (
              record f { nodes = store_node f.nodes root (without_entry leaf pos) },
              (
                search_root_some k f root key djb pos ok.mark hit,
                (
                  delete_keys-some k f root key djb pos ok.mark hit,
                  search_keys-store f.nodes root (without_entry leaf pos) key djb none
                      (fnv1a_hash_64 other) (djb2_hash_64 other) (suc k) root
                      (walk_root k f root key djb ok.mark)
                      (without_entry-leaf leaf key djb pos ok.mark)
                      (without_entry_reads leaf key djb (leaf.data_num - 1) pos
                        (fnv1a_hash_64 other) (djb2_hash_64 other) ok num hit),
                ),
              ),
            ),
          )
    ]
