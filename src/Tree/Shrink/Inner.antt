-- ===== src/Tree/Shrink/Inner.antt =====
-- The inner nodes under deletion: separators recomputed from below, and `balance_inner`.
use ax_kernel.Prelude.{
  ℕ, zero, suc, ◌+◌, ◌-◌, ◌^◌, ◌%◌, ◌&&◌, not, Option, none, some, ◌==◌, leb, ltb, if◌then◌else◌,
}
use ax_kernel.Prelude.Results.{◌>>=◌}
use ax_kernel.Heap.{heap_free}
use ax_kernel.Tree.{Node, Forest, store_node, set_parent}
use ax_kernel.Tree.Grow.{adopt}

-- The seven bits of `data_num`.
abbrev pub more : ℕ → ℕ
more n = (n + 1) % 2 ^ 7

abbrev pub fewer : ℕ → ℕ
fewer n = (n + 2 ^ 7 - 1) % 2 ^ 7

-- The first key of the leftmost leaf.
unfoldable pub min_key : ℕ → (ℕ → Node) → ℕ → Option ℕ
min_key zero nodes p = none
min_key (suc k) nodes p =
    let rest : Option ℕ = elim ((nodes p).child 0) [ none ↦ none | some c ↦ min_key k nodes c ] in
    if (nodes p).is_leaf then some ((nodes p).fnv1a_hash_key 0) else rest

-- The loop of `fix_keys`, over the `n` keys from `index` on.
unfoldable pub fix_keys_from : ℕ → (ℕ → Node) → ℕ → ℕ → ℕ → Option (ℕ → Node)
unfolding store_node min_key
fix_keys_from k nodes p zero index = some nodes
fix_keys_from k nodes p (suc n) index = elim ((nodes p).child (index + 1)) [
  | none ↦ none
  | some c ↦ min_key k nodes c >>= λ key.
      fix_keys_from k
        (store_node nodes p (record (nodes p) {
          fnv1a_hash_key = λ i. if i == index then key else (nodes p).fnv1a_hash_key i;
        }))
        p n (index + 1)
]

unfoldable pub fix_keys : ℕ → (ℕ → Node) → ℕ → Option (ℕ → Node)
unfolding fix_keys_from
fix_keys k nodes p = fix_keys_from k nodes p (nodes p).data_num 0

-- `k` bounds the walks down, the first number the climb.
unfoldable pub fix_up : ℕ → ℕ → (ℕ → Node) → Option ℕ → Option (ℕ → Node)
unfolding fix_keys
fix_up zero k nodes p = none
fix_up (suc n) k nodes none = some nodes
fix_up (suc n) k nodes (some p) =
    (if (nodes p).is_leaf then some nodes else fix_keys k nodes p) >>= λ nodes'.
    fix_up n k nodes' (nodes' p).parent

-- The loop of `child_idx`, over the `n` children from `index` on.
unfoldable pub child_from : (ℕ → Option ℕ) → ℕ → ℕ → ℕ → Option ℕ
child_from child c zero index = none
child_from child c (suc n) index =
    let rest = child_from child c n (index + 1) in
    elim (child index) [ none ↦ rest | some d ↦ if d == c then some index else rest ]

-- `none` for -1.
unfoldable pub child_idx : (ℕ → Node) → ℕ → ℕ → Option ℕ
unfolding child_from
child_idx nodes parent c = child_from (nodes parent).child c ((nodes parent).data_num + 1) 0

unfoldable pub sibling_left : (ℕ → Node) → ℕ → ℕ → Option ℕ
sibling_left nodes parent i = if ltb 0 i then (nodes parent).child (i - 1) else none

unfoldable pub sibling_right : (ℕ → Node) → ℕ → ℕ → Option ℕ
sibling_right nodes parent i =
    if ltb i (nodes parent).data_num then (nodes parent).child (i + 1) else none

unfoldable pub drop_child : (ℕ → Node) → ℕ → ℕ → ℕ → Node
unfolding store_node
drop_child nodes parent i =
    let n = nodes parent in
    let separator = if ltb 0 i then i - 1 else 0 in
    let old = n.data_num in
    store_node nodes parent (record n {
      data_num = fewer old;
      fnv1a_hash_key = λ j.
          if leb separator j && ltb j (old - 1)
          then n.fnv1a_hash_key (j + 1)
          else n.fnv1a_hash_key j;
      child = λ j.
          if j == old then none else if leb i j && ltb j old then n.child (j + 1) else n.child j;
    })

-- The root without keys takes over its only child.
unfoldable pub collapse_root : Forest → ℕ → ℕ → Forest
unfolding store_node adopt
collapse_root f root c =
    let n = f.nodes c in
    let nodes1 = store_node f.nodes root (record n { parent = none }) in
    let nodes2 = adopt nodes1 root n.child (n.data_num + 1) in
    record { heap = heap_free f.heap (some c); nodes = if n.is_leaf then nodes1 else nodes2 }

-- `set_parent` on a child, which is not NULL in a tree.
unfoldable pub adopt_one : (ℕ → Node) → ℕ → Option ℕ → ℕ → Node
unfolding set_parent
adopt_one nodes p none = nodes
adopt_one nodes p (some c) = set_parent nodes c (some p)

-- The last child of `left` goes to the front of `node`.
unfoldable pub take_last_child : (ℕ → Node) → ℕ → ℕ → ℕ → Node
unfolding store_node adopt_one
take_last_child nodes node left =
    let n = nodes node in
    let moved = (nodes left).child (nodes left).data_num in
    let n' = record n {
      data_num = more n.data_num;
      child = λ j.
          if j == 0 then moved else (if leb j (n.data_num + 1) then n.child (j - 1) else n.child j);
    } in
    let nodes1 = adopt_one (store_node nodes node n') node moved in
    let l = nodes1 left in
    store_node nodes1 left (record l {
      data_num = fewer l.data_num;
      child = λ j. if j == l.data_num then none else l.child j;
    })

-- The first child of `right` goes to the end of `node`.
unfoldable pub take_first_child : (ℕ → Node) → ℕ → ℕ → ℕ → Node
unfolding store_node adopt_one
take_first_child nodes node right =
    let n = nodes node in
    let moved = (nodes right).child 0 in
    let n' = record n {
      data_num = more n.data_num;
      child = λ j. if j == n.data_num + 1 then moved else n.child j;
    } in
    let nodes1 = adopt_one (store_node nodes node n') node moved in
    let r = nodes1 right in
    store_node nodes1 right (record r {
      data_num = fewer r.data_num;
      child = λ j.
          if j == r.data_num
          then none
          else (if ltb j r.data_num then r.child (j + 1) else r.child j);
    })

-- Node `a` takes the children of its successor `b`.
unfoldable pub merge_inner : (ℕ → Node) → ℕ → ℕ → ℕ → Node
unfolding store_node adopt
merge_inner nodes a b =
    let m = nodes a in
    let n = nodes b in
    let moved = n.data_num + 1 in
    let from = m.data_num + 1 in
    let m' = record m {
      data_num = (m.data_num + n.data_num + 1) % 2 ^ 7;
      child = λ j. if leb from j && ltb j (from + moved) then n.child (j - from) else m.child j;
    } in
    adopt (store_node nodes a m') a n.child moved

-- Two siblings after a move, and the separators above them.
unfoldable pub fix_pair : ℕ → (ℕ → Node) → ℕ → ℕ → ℕ → Option (ℕ → Node)
unfolding fix_keys fix_up
fix_pair k nodes a b parent = fix_keys k nodes a >>= λ nodes1.
    fix_keys k nodes1 b >>= λ nodes2. fix_up k k nodes2 (some parent)

-- `b` is merged into `a` and freed, and the parent loses child `i`.
unfoldable pub merge_inner_pair : ℕ → Forest → ℕ → ℕ → ℕ → ℕ → Option Forest
unfolding merge_inner fix_keys drop_child
merge_inner_pair k f a b parent i = fix_keys k (merge_inner f.nodes a b) a >>= λ nodes1.
    some (record { heap = heap_free f.heap (some b); nodes = drop_child nodes1 parent i })

-- What a short inner node is mended by: a finished forest, or one whose parent is to be balanced.
pub data Mended : Type 0 where
  finished : Forest → Mended
  climb : Forest → Mended

unfoldable pub mend_inner : ℕ → Forest → ℕ → ℕ → ℕ → Option ℕ → Option ℕ → Option Mended
unfolding take_last_child take_first_child fix_pair merge_inner_pair
mend_inner k f node parent i left right =
    let fixed = λ (nodes : ℕ → Node) (a b : ℕ).
      fix_pair k nodes a b parent >>= λ nodes'. some (finished (record f { nodes = nodes' })) in
    let merged = λ (a b j : ℕ). merge_inner_pair k f a b parent j >>= λ f'. some (climb f') in
    let merge_right : Option Mended = elim right [
      | none ↦ some (finished f)
      | some r ↦ merged node r (i + 1)
    ] in
    let merge : Option Mended = elim left [ none ↦ merge_right | some l ↦ merged l node i ] in
    let from_right : Option Mended = elim right [
      | none ↦ merge
      | some r ↦
          if ltb 1 (f.nodes r).data_num
          then fixed (take_first_child f.nodes node r) node r
          else merge
    ] in
    elim left [
      | none ↦ from_right
      | some l ↦
          if ltb 1 (f.nodes l).data_num
          then fixed (take_last_child f.nodes node l) l node
          else from_right
    ]

unfoldable pub balance_root : ℕ → Forest → ℕ → Option Forest
unfolding collapse_root fix_keys
balance_root k f root =
    let n = f.nodes root in
    if not n.is_leaf && (n.data_num == 0)
    then elim (n.child 0) [ none ↦ some f | some c ↦ some (collapse_root f root c) ]
    else (fix_keys k f.nodes root >>= λ nodes. some (record f { nodes = nodes }))

unfoldable pub balance_inner : ℕ → Forest → ℕ → ℕ → Option Forest
unfolding balance_root fix_up child_idx sibling_left sibling_right mend_inner
balance_inner zero f root node = none
balance_inner (suc k) f root node =
    let n = f.nodes node in
    if node == root
    then balance_root k f root
    else if leb 1 n.data_num
    then (fix_up k k f.nodes (some node) >>= λ nodes. some (record f { nodes = nodes }))
    else elim n.parent [
      | none ↦ some f
      | some p ↦ elim (child_idx f.nodes p node) [
        | none ↦ some f
        | some i ↦
            mend_inner k f node p i (sibling_left f.nodes p i) (sibling_right f.nodes p i) >>= λ m.
            elim m [ finished f' ↦ some f' | climb f' ↦ balance_inner k f' root p ]
      ]
    ]
