-- ===== src/Tree/Tests.antt =====
-- Runs of the B+ tree: a leaf with room, a full leaf that is split, a deletion.
use ax_kernel.Hash.{fnv1a_hash_64, djb2_hash_64}
use ax_kernel.Heap.{Heap, heap_init, heap_alloc, take_found, search, first_fit, store}
use ax_kernel.Prelude.{ℕ, ◌+◌, ◌≡◌, ◌⊎◌, refl, true, false, none, some, List, [], ◌∷◌, arith}
use ax_kernel.Prelude.Results.{◌>>=◌}
use ax_kernel.Tree.{Node, Forest, search_leaf, bpt_search, create_node}
use ax_kernel.Tree.Grow.{bpt_insert}
use ax_kernel.Tree.Shrink.{bpt_delete}
use ax_kernel.Tree.Walk.{leaf-IsTree, search_leaf_ends}
use ax_kernel.Tree.Leaf.{IsSorted}
use ax_kernel.Tree.Insert.{HasRoom, bpt_insert_room}
use ax_kernel.Tree.Split.{IsFull, bpt_insert_split}
use ax_kernel.Tree.Delete.{bpt_delete_root}
use ax_kernel.Tree.Search.{override}

-- "d".
abbrev name : List ℕ
name = 100 ∷ []

name_hash : fnv1a_hash_64 name ≡ 12638183902020757363
unfolding fnv1a_hash_64 ax_kernel.Hash.fnv1a_loop
name_hash = refl

-- A leaf of `n` entries with the keys 1, 2, and so on.
abbrev leaf_of : ℕ → Node
leaf_of n = record {
  data_num = n;
  is_leaf = true;
  fnv1a_hash_key = λ i. i + 1;
  djb2_hash_key = λ i. i;
  values = λ i. i + 10;
  parent = none;
  child = λ i. none;
  next = none;
}

abbrev forest : Node → Forest
forest leaf = record {
  heap = heap_init (record {
    heap_head = none;
    cells = λ a. record { size = 0; is_alloc = false; next = none; prev = none };
  });
  nodes = λ a. leaf;
}

abbrev two : Forest
two = forest (leaf_of 2)

abbrev crowded : Forest
crowded = forest (leaf_of 3)

two_walk : search_leaf 1 two.nodes (some 0) (fnv1a_hash_64 name) ≡ some (some 0)
unfolding search_leaf
two_walk = refl

two-HasRoom : HasRoom (two.nodes 0) (fnv1a_hash_64 name)
two-HasRoom = record {
  room = omega arith;
  sorted = λ i j lt hj. omega (arith, lt);
  absent = λ i lt e. absurd (omega (arith, lt, e, name_hash));
}

search_leaf_ends_example :
    (q : ℕ) × ((search_leaf 1 two.nodes (some 0) 2 ≡ some (some q))
      × ((two.nodes q).is_leaf ≡ true))
search_leaf_ends_example =
    search_leaf_ends two.nodes 2 0 1 0 (leaf-IsTree two.nodes 0 refl) (omega arith)

bpt_insert_room_example :
    (f' : Forest) × ((bpt_insert 1 two 0 name 7 ≡ some (1, f'))
      × (IsSorted (f'.nodes 0).fnv1a_hash_key (f'.nodes 0).data_num
          × (bpt_search 1 f'.nodes 0 name ≡ (
              bpt_search 1 two.nodes 0 name >>= λ v. some (
                override
                  (fnv1a_hash_64 name)
                  (djb2_hash_64 name)
                  (some 7)
                  (fnv1a_hash_64 name)
                  (djb2_hash_64 name)
                  v)))))
bpt_insert_room_example = bpt_insert_room 1 two 0 0 name name 7 two_walk two-HasRoom

-- A leaf that holds the hash of the name.
abbrev taken : Forest
taken = forest (record (leaf_of 1) { fnv1a_hash_key = λ i. 12638183902020757363 })

taken_walk : search_leaf 1 taken.nodes (some 0) (fnv1a_hash_64 name) ≡ some (some 0)
unfolding search_leaf
taken_walk = refl

abbrev once : Forest
once = (create_node crowded true).1

abbrev twice : Forest
twice = (create_node once true).1

once_lem : create_node crowded true ≡ (some 24, once)
unfolding create_node heap_alloc take_found search first_fit heap_init store
    ax_kernel.Heap.take_block ax_kernel.Heap.take_from ax_kernel.Heap.set_prev
once_lem = refl

twice_lem : create_node once true ≡ (some 160, twice)
unfolding create_node heap_alloc take_found search first_fit heap_init store
    ax_kernel.Heap.take_block ax_kernel.Heap.take_from ax_kernel.Heap.set_prev
twice_lem = refl

crowded-IsFull : IsFull (crowded.nodes 0) (fnv1a_hash_64 name)
crowded-IsFull = record {
  mark = refl;
  full = refl;
  sorted = λ i j lt hj. omega (arith, lt);
  absent = λ i lt e. absurd (omega (arith, lt, e, name_hash));
}

bpt_insert_split_example :
    (f' : Forest) × ((bpt_insert 2 crowded 0 name 7 ≡ some (1, f'))
      × (bpt_search 2 f'.nodes 0 name ≡ (
          bpt_search 2 crowded.nodes 0 name >>= λ v. some (
            override
              (fnv1a_hash_64 name)
              (djb2_hash_64 name)
              (some 7)
              (fnv1a_hash_64 name)
              (djb2_hash_64 name)
              v))))
bpt_insert_split_example =
    bpt_insert_split 0 crowded once twice 0 160 24 name name 7 crowded-IsFull once_lem twice_lem
      (omega arith, (omega arith, omega arith))

bpt_delete_root_example :
    ((bpt_search 1 taken.nodes 0 name ≡ some none) × (bpt_delete 1 taken 0 name ≡ some (0, taken)))
    ⊎ ((v : ℕ) × ((f' : Forest) × ((bpt_search 1 taken.nodes 0 name ≡ some (some v))
            × ((bpt_delete 1 taken 0 name ≡ some (1, f'))
                × (bpt_search 1 f'.nodes 0 name ≡ (
                    bpt_search 1 taken.nodes 0 name >>= λ v. some (
                      override
                        (fnv1a_hash_64 name)
                        (djb2_hash_64 name)
                        none
                        (fnv1a_hash_64 name)
                        (djb2_hash_64 name)
                        v)))))))
bpt_delete_root_example = bpt_delete_root 0 taken 0 name name (record {
  mark = refl;
  few = omega arith;
  sorted = λ i j lt hj. absurd (omega (arith, lt, hj));
})
