-- ===== src/Tree/Walk.antt =====
-- The walk from the root to a leaf: that it ends, and what it depends on.
use ax_kernel.Prelude.{
  ℕ, zero, suc, ◌+◌, ◌≤◌, ◌<◌, ◌≡◌, refl, sym, ap, subst, ◌∙◌, true, false, Option, none, some,
  ◌==◌, arith, Bool-cases, inl, inr, ==_iff,
}
use ax_kernel.Prelude.Results.{some_inj}
use ax_kernel.Tree.{Node, child_index, search_leaf, store_node}

-- The node at `p` is the root of a tree with `h` levels of inner nodes above its leaves.
pub IsTree : (ℕ → Node) → ℕ → ℕ → Type 0
IsTree nodes zero p = (nodes p).is_leaf ≡ true
IsTree nodes (suc h) p =
    ((nodes p).is_leaf ≡ false)
    × ((i : ℕ)
        → i ≤ (nodes p).data_num
        → (c : ℕ) × (((nodes p).child i ≡ some c) × IsTree nodes h c))

pub child_index-le : (keys : ℕ → ℕ) (key n i : ℕ) → child_index keys key n i ≤ i + n
unfolding child_index
child_index-le keys key zero i = omega arith
child_index-le keys key (suc n) i = ground (arith, child_index-le keys key n (i + 1))

module _ (nodes : ℕ → Node) (key : ℕ) where
  pub at_leaf :
      (k p : ℕ) → (nodes p).is_leaf ≡ true → search_leaf (suc k) nodes (some p) key ≡ some (some p)
  unfolding search_leaf
  at_leaf k p e = rw e refl

  -- The child that the walk goes on to.
  abbrev pub way : ℕ → Option ℕ
  way p = (nodes p).child (child_index (nodes p).fnv1a_hash_key key (nodes p).data_num 0)

  pub at_inner :
      (k p : ℕ)
      → (nodes p).is_leaf ≡ false
      → search_leaf (suc k) nodes (some p) key ≡ search_leaf k nodes (way p) key
  unfolding search_leaf
  at_inner k p e = rw e refl

pub leaf-IsTree : (nodes : ℕ → Node) (p : ℕ) → (nodes p).is_leaf ≡ true → IsTree nodes 0 p
unfolding IsTree
leaf-IsTree nodes p e = e

-- In a tree of `h` levels above the leaves, the walk for any key ends with fuel above `h`, and ends at
-- a leaf of the tree.
pub search_leaf_ends :
    (nodes : ℕ → Node) (key h k p : ℕ)
    → IsTree nodes h p
    → h < k
    → (q : ℕ) × ((search_leaf k nodes (some p) key ≡ some (some q)) × ((nodes q).is_leaf ≡ true))
unfolding IsTree
search_leaf_ends nodes key h zero p t lt = absurd (omega (arith, lt))
search_leaf_ends nodes key zero (suc k) p t lt = (p, (at_leaf nodes key k p t, t))
search_leaf_ends nodes key (suc h) (suc k) p t lt =
    let below =
      t.1 (child_index (nodes p).fnv1a_hash_key key (nodes p).data_num 0)
        (omega (arith, child_index-le (nodes p).fnv1a_hash_key key (nodes p).data_num 0)) in
    let rest = search_leaf_ends nodes key h k below.0 below.1.1 (omega (arith, lt)) in
    (
      rest.0,
      (
        at_inner nodes key k p t.0 ∙ (ap (λ c. search_leaf k nodes c key) below.1.0 ∙ rest.1.0),
        rest.1.1,
      ),
    )

-- A walk that ends at a node ends at a leaf.
pub search_leaf-leaf :
    (nodes : ℕ → Node) (key k : ℕ) (c : Option ℕ) (q : ℕ)
    → search_leaf k nodes c key ≡ some (some q)
    → (nodes q).is_leaf ≡ true
unfolding search_leaf
search_leaf-leaf nodes key zero c q e = absurd (ground (arith, e))
search_leaf-leaf nodes key (suc k) none q e = absurd (ground (arith, e))
search_leaf-leaf nodes key (suc k) (some p) q e = elim (Bool-cases (nodes p).is_leaf) [
  | inl leaf ↦
      let same : p ≡ q = some_inj _ _ (some_inj _ _ (sym (at_leaf nodes key k p leaf) ∙ e)) in
      subst (λ x. (nodes x).is_leaf ≡ true) same leaf
  | inr inner ↦
      search_leaf-leaf nodes key k (way nodes key p) q (sym (at_inner nodes key k p inner) ∙ e)
]

pub store_node_self :
    (nodes : ℕ → Node) (p : ℕ) (n : Node) (q : ℕ) → (q == p) ≡ true → store_node nodes p n q ≡ n
unfolding store_node
store_node_self nodes p n q e = rw e refl

pub store_node_other :
    (nodes : ℕ → Node) (p : ℕ) (n : Node) (q : ℕ)
    → (q == p) ≡ false
    → store_node nodes p n q ≡ nodes q
unfolding store_node
store_node_other nodes p n q e = rw e refl

search_leaf_zero :
    (m n : ℕ → Node) (c : Option ℕ) (key : ℕ) → search_leaf 0 m c key ≡ search_leaf 0 n c key
unfolding search_leaf
search_leaf_zero m n c key = refl

search_leaf_null :
    (m n : ℕ → Node) (k key : ℕ) → search_leaf (suc k) m none key ≡ search_leaf (suc k) n none key
unfolding search_leaf
search_leaf_null m n k key = refl

-- Another leaf in the place of a leaf changes no walk.
pub search_leaf-store :
    (nodes : ℕ → Node) (key p : ℕ) (n : Node) (k : ℕ) (c : Option ℕ)
    → (nodes p).is_leaf ≡ true
    → n.is_leaf ≡ true
    → search_leaf k (store_node nodes p n) c key ≡ search_leaf k nodes c key
search_leaf-store nodes key p n zero c h1 h2 = search_leaf_zero (store_node nodes p n) nodes c key
search_leaf-store nodes key p n (suc k) none h1 h2 =
    search_leaf_null (store_node nodes p n) nodes k key
search_leaf-store nodes key p n (suc k) (some q) h1 h2 =
    let after : ℕ → Node = store_node nodes p n in
    elim (Bool-cases (q == p)) [
      | inl e ↦
          let here : (nodes q).is_leaf ≡ true =
            subst (λ x. (nodes x).is_leaf ≡ true) (sym ((==_iff q p).0 e)) h1 in
          at_leaf after key k q (ap (λ m. m.is_leaf) (store_node_self nodes p n q e) ∙ h2)
          ∙ sym (at_leaf nodes key k q here)
      | inr e ↦
          let same : after q ≡ nodes q = store_node_other nodes p n q e in
          elim (Bool-cases (nodes q).is_leaf) [
            | inl leaf ↦
                at_leaf after key k q (ap (λ m. m.is_leaf) same ∙ leaf)
                ∙ sym (at_leaf nodes key k q leaf)
            | inr inner ↦
                let turn : way after key q ≡ way nodes key q =
                  ap (λ m. m.child (child_index m.fnv1a_hash_key key m.data_num 0)) same in
                at_inner after key k q (ap (λ m. m.is_leaf) same ∙ inner)
                ∙ (ap (λ c. search_leaf k after c key) turn
                    ∙ (search_leaf-store nodes key p n k (way nodes key q) h1 h2
                        ∙ sym (at_inner nodes key k q inner)))
          ]
    ]
